-- ===== src/ChatLog/Ids/UserId.antt =====
-- The normal form of a user id: `str` and `int` invert one another on it.
use Prim.Native.Char.{Char, code}
use native.Mathlib.Decide.{dec_lt}
use native.Mathlib.Nat.{pow-suc}
use paper_collector_agent.Prelude.{
  ℕ, zero, suc, ◌+◌, ◌*◌, ◌/◌, ◌%◌, ◌^◌, ◌≤◌, ◌<◌, String, ◌≡◌, refl, Bool, true, false, ◌&&◌, not,
  List, ◌∷◌, arith, codes, All, ok, ltb, ◌==◌, Option, none, some, is_space, strip, lstrip, rstrip,
  keep_before, is_empty, &&-split, lt→ltb, ap, ◌∙◌,
}
use paper_collector_agent.ChatLog.Ids.{
  decimal_value, read_digits, read_decimal, digit, write_digits, decimal_text, max_user_number,
  normalize_user_id,
}

is_some_of : Option ℕ → ℕ → Bool
is_some_of none d = false
is_some_of (some e) d = e == d

all_below : ℕ → (ℕ → Bool) → Bool
all_below zero p = true
all_below (suc n) p = p n && all_below n p

all_below_at : (n : ℕ) (p : ℕ → Bool) (x : ℕ) → all_below n p ≡ true → x < n → p x ≡ true
unfolding all_below
all_below_at zero p x h lt = absurd (omega arith)
all_below_at (suc n) p x h lt = ground (arith, all_below_at n p x)

-- What is needed of each written digit.
abbrev reads_back : ℕ → Bool
reads_back d = is_some_of (decimal_value (code (digit d))) d && not (is_space (code (digit d)))

digit_table : all_below 10 reads_back ≡ true
unfolding all_below is_some_of decimal_value digit is_space
digit_table = refl

is_some_of_lem : (o : Option ℕ) (d : ℕ) → is_some_of o d ≡ true → o ≡ some d
unfolding is_some_of
is_some_of_lem none d h = cc
is_some_of_lem (some e) d h = ground arith

not-true : (b : Bool) → not b ≡ true → b ≡ false
not-true b h = ground arith

decimal_value-digit : (d : ℕ) → d < 10 → decimal_value (code (digit d)) ≡ some d
decimal_value-digit d h =
    is_some_of_lem _ d (&&-split _ _ (all_below_at 10 reads_back d digit_table h)).0

is_space-digit : (d : ℕ) → d < 10 → is_space (code (digit d)) ≡ false
is_space-digit d h = not-true _ (&&-split _ _ (all_below_at 10 reads_back d digit_table h)).1

read_digits-digit :
    (acc d m : ℕ) (cs : List ℕ)
    → d < 10
    → acc * 10 + d ≡ m
    → read_digits acc (code (digit d) ∷ cs) ≡ read_digits m cs
unfolding read_digits
read_digits-digit acc d m cs h e = rw (decimal_value-digit d h, read_digits) (rw e refl)

write_digits-small :
    (fuel n : ℕ) (rest : String)
    → n < 10
    → write_digits (suc fuel) n rest ≡ String.◌∷◌ (digit n) rest
unfolding write_digits
write_digits-small fuel n rest h = ground arith

write_digits-large :
    (fuel n : ℕ) (rest : String)
    → 10 ≤ n
    → write_digits (suc fuel) n rest ≡ write_digits fuel (n / 10) (String.◌∷◌ (digit (n % 10)) rest)
unfolding write_digits
write_digits-large fuel n rest h = ground arith

-- Enough fuel: each round divides by ten.
read-write_digits :
    (fuel n : ℕ) (rest : String)
    → n < 10 ^ suc fuel
    → read_digits 0 (codes (write_digits (suc fuel) n rest)) ≡ read_digits n (codes rest)
read-write_digits zero n rest h =
    let small : n < 10 = omega arith in
    rw (write_digits-small zero n rest small)
      (read_digits-digit 0 n n (codes rest) small (omega arith))
read-write_digits (suc fuel) n rest h = elim (dec_lt n 10) [
  | yes small ↦
      rw (write_digits-small (suc fuel) n rest small)
        (read_digits-digit 0 n n (codes rest) small (omega arith))
  | no large ↦
      let digit_rest = String.◌∷◌ (digit (n % 10)) rest in
      let less : n / 10 < 10 ^ suc fuel = omega (arith, pow-suc 10 (suc fuel)) in
      rw
        (
          write_digits-large (suc fuel) n rest (omega arith),
          read-write_digits fuel (n / 10) digit_rest less,
        )
        (read_digits-digit (n / 10) (n % 10) n (codes rest) (omega arith) (omega arith))
]

-- No character of the text is white space, and it is not empty.
abbrev IsPlain : String → Type 0
IsPlain s = All (λ c. is_space c ≡ false) (codes s)

write_digits-IsPlain :
    (fuel n : ℕ) (rest : String) → IsPlain rest → IsPlain (write_digits fuel n rest)
unfolding write_digits
write_digits-IsPlain zero n rest h = h
write_digits-IsPlain (suc fuel) n rest h = elim (dec_lt n 10) [
  | yes small ↦ rw (lt→ltb n 10 small) (is_space-digit n small, h)
  | no large ↦
      let e : ltb n 10 ≡ false = ground arith in
      rw e (write_digits-IsPlain fuel (n / 10) _ (is_space-digit (n % 10) (omega arith), h))
]

lstrip-plain : (s : String) → IsPlain s → lstrip s ≡ s
unfolding lstrip
lstrip-plain String.[] h = refl
lstrip-plain (String.◌∷◌ c s) h = rw h.0 refl

keep_before-plain :
    (c : Char) (s : String) → is_space (code c) ≡ false → keep_before c s ≡ String.◌∷◌ c s
unfolding keep_before
keep_before-plain c String.[] h = rw h refl
keep_before-plain c (String.◌∷◌ d s) h = refl

rstrip-plain : (s : String) → IsPlain s → rstrip s ≡ s
unfolding rstrip
rstrip-plain String.[] h = refl
rstrip-plain (String.◌∷◌ c s) h = rw (rstrip-plain s h.1) (keep_before-plain c s h.0)

strip-plain : (s : String) → IsPlain s → strip s ≡ s
unfolding strip
strip-plain s h = rw (lstrip-plain s h) (rstrip-plain s h)

write_digits-not_empty :
    (fuel n : ℕ) (c : Char) (rest : String)
    → is_empty (write_digits fuel n (String.◌∷◌ c rest)) ≡ false
unfolding write_digits
write_digits-not_empty zero n c rest = refl
write_digits-not_empty (suc fuel) n c rest =
    ground (arith, write_digits-not_empty fuel (n / 10) (digit (n % 10)) (String.◌∷◌ c rest))

decimal_text-not_empty : (n : ℕ) → is_empty (decimal_text n) ≡ false
unfolding decimal_text
decimal_text-not_empty n = elim (dec_lt n 10) [
  | yes small ↦ rw (write_digits-small 19 n String.[] small) refl
  | no large ↦
      rw (write_digits-large 19 n String.[] (omega arith))
        (write_digits-not_empty 19 (n / 10) (digit (n % 10)) String.[])
]

-- The decimal text of a number below 10 ^ 20 reads back as the number.
read_decimal-decimal_text : (n : ℕ) → n < 10 ^ 20 → read_decimal (decimal_text n) ≡ some n
unfolding read_decimal
read_decimal-decimal_text n h =
    rw (decimal_text-not_empty n)
      (unfold decimal_text read_digits in read-write_digits 19 n String.[] h)

strip-decimal_text : (n : ℕ) → strip (decimal_text n) ≡ decimal_text n
unfolding decimal_text
strip-decimal_text n = strip-plain _ (write_digits-IsPlain 20 n String.[] tt)

-- A number in range is normalised to its decimal text.
normalize-decimal_text :
    (n : ℕ) → n ≤ max_user_number → normalize_user_id (decimal_text n) ≡ ok (decimal_text n, n)
unfolding normalize_user_id
normalize-decimal_text n h =
    let back = ap read_decimal (strip-decimal_text n) ∙ read_decimal-decimal_text n (omega arith) in
    rw (back, normalize_user_id) (ground arith)

-- What a normalised number is.
normalized_parts :
    (value text : String) (number : ℕ)
    → normalize_user_id value ≡ ok (text, number)
    → (text ≡ decimal_text number) × (number ≤ max_user_number)
unfolding normalize_user_id
normalized_parts value text number h = ground arith

-- The normal form of a user id is its own normal form, with the same number, and that number is a
-- BIGINT.
pub normalize_user_id_idem :
    (value text : String) (number : ℕ)
    → normalize_user_id value ≡ ok (text, number)
    → (normalize_user_id text ≡ ok (text, number)) × (number ≤ max_user_number)
normalize_user_id_idem value text number h =
    let (shown, small) = normalized_parts value text number h in
    (rw shown (normalize-decimal_text number small), small)
