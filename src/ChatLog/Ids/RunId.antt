-- ===== src/ChatLog/Ids/RunId.antt =====
-- What `validate_run_id` accepts.
use paper_collector_agent.Prelude.{
  ℕ, zero, suc, ◌≤◌, String, ◌≡◌, ◌↔◌, true, List, [], ◌∷◌, arith, codes, length, All, ok, &&-split,
  Bool-cases, inl, inr,
}
use paper_collector_agent.ChatLog.Ids.{
  is_alnum, is_id_char, matches_rest, is_canonical, validate_run_id,
}

-- The last character of a text that begins with the first argument.
abbrev last_of : ℕ → List ℕ → ℕ
last_of c [] = c
last_of c (d ∷ cs) = last_of d cs

-- A run id by its description: 1 to 64 characters, each a letter, a digit, `.`, `_` or `-`, the
-- first and the last a letter or a digit.
abbrev pub IsRunId : List ℕ → Type 0
IsRunId [] = ⊥
IsRunId (c ∷ cs) =
    (length cs ≤ 63)
    × All (λ d. is_id_char d ≡ true) (c ∷ cs)
    × (is_alnum c ≡ true)
    × (is_alnum (last_of c cs) ≡ true)

rest_to :
    (n c : ℕ) (cs : List ℕ)
    → matches_rest n c cs ≡ true
    → (length cs ≤ n) × All (λ d. is_id_char d ≡ true) (c ∷ cs) × (is_alnum (last_of c cs) ≡ true)
unfolding matches_rest
rest_to n c [] h = (omega arith, (rw h, tt), h)
rest_to zero c (d ∷ cs) h = cc
rest_to (suc n) c (d ∷ cs) h =
    let (first, rest) = &&-split (is_id_char c) (matches_rest n d cs) h in
    let (short, chars, ends) = rest_to n d cs rest in (omega arith, (first, chars), ends)

rest_of :
    (n c : ℕ) (cs : List ℕ)
    → length cs ≤ n
    → All (λ d. is_id_char d ≡ true) (c ∷ cs)
    → is_alnum (last_of c cs) ≡ true
    → matches_rest n c cs ≡ true
unfolding matches_rest
rest_of n c [] l h e = e
rest_of zero c (d ∷ cs) l h e = absurd (omega arith)
rest_of (suc n) c (d ∷ cs) l h e = rw (h.0, rest_of n d cs (omega arith) h.1 e)

is_canonical_iff : (cs : List ℕ) → (is_canonical cs ≡ true) ↔ IsRunId cs
unfolding is_canonical
is_canonical_iff [] = (λ h. cc, λ h. absurd h)
is_canonical_iff (c ∷ []) = (λ h. (omega arith, (rw h, tt), h, h), λ h. h.2)
is_canonical_iff (c ∷ d ∷ cs) = (
  λ h.
      let (first, rest) = &&-split (is_alnum c) (matches_rest 62 d cs) h in
      let (short, chars, ends) = rest_to 62 d cs rest in
      (omega arith, (rw first, chars), first, ends),
  λ h. rw (h.2, rest_of 62 d cs (omega (arith, h.0)) h.1.1 h.3),
)

-- `validate_run_id` returns its argument exactly if that is a run id.
pub validate_run_id_iff :
    (value : String) → (validate_run_id value ≡ ok value) ↔ IsRunId (codes value)
unfolding validate_run_id
validate_run_id_iff value = elim (Bool-cases (is_canonical (codes value))) [
  | inl e ↦ (λ _. (is_canonical_iff (codes value)).0 e, λ _. rw e)
  | inr e ↦ (
    λ h. absurd (ground arith),
    λ h. absurd (let e' = (is_canonical_iff (codes value)).1 h in ground arith),
  )
]
