-- ===== src/Processor/Checksums.antt =====
-- What `normalize_pdf_sha256` returns.
use mathlib.Core.Path.{subst}
use Prim.Native.Char.{Char, code}
use paper_collector_agent.Prelude.{
  ℕ, ◌≡◌, refl, String, true, false, none, some, arith, ◌==◌, if◌then◌else◌, inl, inr, Bool-cases,
  &&-split, is_space, lstrip, keep_before, rstrip, strip, text_len,
}
use paper_collector_agent.Processor.{
  lower_char, lower, is_hex, is_upper, all_hex, is_sha256, normalize_pdf_sha256,
}

hex-not_space : (c : ℕ) → is_hex c ≡ true → is_space c ≡ false
unfolding is_space
hex-not_space c h = ground (arith, h)

hex-not_upper : (c : ℕ) → is_hex c ≡ true → is_upper c ≡ false
hex-not_upper c h = ground (arith, h)

lower-hex : (s : String) → all_hex s ≡ true → lower s ≡ s
unfolding lower lower_char
lower-hex String.[] h = refl
lower-hex (String.◌∷◌ c s) h =
    let (first, rest) = &&-split (is_hex (code c)) (all_hex s) h in
    rw (hex-not_upper (code c) first, lower-hex s rest) refl

keep_before-hex :
    (c : Char) (s : String) → is_hex (code c) ≡ true → keep_before c s ≡ String.◌∷◌ c s
unfolding keep_before
keep_before-hex c String.[] h = rw (hex-not_space (code c) h) refl
keep_before-hex c (String.◌∷◌ d s) h = refl

rstrip-hex : (s : String) → all_hex s ≡ true → rstrip s ≡ s
unfolding rstrip
rstrip-hex String.[] h = refl
rstrip-hex (String.◌∷◌ c s) h =
    let (first, rest) = &&-split (is_hex (code c)) (all_hex s) h in
    rw (rstrip-hex s rest) (keep_before-hex c s first)

lstrip-hex : (s : String) → all_hex s ≡ true → lstrip s ≡ s
unfolding lstrip
lstrip-hex String.[] h = refl
lstrip-hex (String.◌∷◌ c s) h =
    let (first, rest) = &&-split (is_hex (code c)) (all_hex s) h in
    rw (hex-not_space (code c) first) refl

checked :
    (s checksum : String)
    → (if is_sha256 s then some s else none) ≡ some checksum
    → (s ≡ checksum) × (is_sha256 checksum ≡ true)
checked s checksum e = elim (Bool-cases (is_sha256 s)) [
  | inl t ↦
      let same : s ≡ checksum = ground (arith, t, e) in
      (same, subst (λ x. is_sha256 x ≡ true) same t)
  | inr f ↦ let no : ⊥ = ground (arith, f, e) in absurd no
]

-- A checksum that is accepted consists of 64 small hexadecimal digits, and is its own checksum.
pub normalize_pdf_sha256_lem :
    (value checksum : String)
    → normalize_pdf_sha256 value ≡ some checksum
    → (text_len checksum ≡ 64)
      × (all_hex checksum ≡ true)
      × (normalize_pdf_sha256 checksum ≡ some checksum)
unfolding normalize_pdf_sha256 strip
normalize_pdf_sha256_lem value checksum e =
    let (_, t) = checked (lower (strip value)) checksum e in
    let (len, hex) = &&-split (text_len checksum == 64) (all_hex checksum) t in
    (
      ground (arith, len),
      hex,
      rw (lstrip-hex checksum hex, rstrip-hex checksum hex, lower-hex checksum hex, t) refl,
    )
