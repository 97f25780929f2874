-- ===== src/ChatLog/Ids.antt =====
-- The identifiers of app/history/chat_log.py: `validate_run_id`, `validate_conversation_id` and
-- `normalize_user_id`.
pub mod RunId
pub mod UserId
use Prim.Native.Char.{Char, code}
use paper_collector_agent.Prelude.{
  ℕ, zero, suc, ◌+◌, ◌-◌, ◌*◌, ◌/◌, ◌%◌, ◌^◌, String, Bool, true, false, ◌&&◌, ◌||◌, Option, none,
  some, List, [], ◌∷◌, leb, ltb, ◌==◌, if◌then◌else◌, codes, text_len, strip, is_empty, find_first,
  Result, ok, err, ◌>>=◌,
}
use paper_collector_agent.ChatLog.Types.{ChatError, invalid_run_id, value_error}

-- `[A-Za-z0-9]`
abbrev pub is_alnum : ℕ → Bool
is_alnum c = (leb b'A' c && leb c b'Z') || (leb b'a' c && leb c b'z') || (leb b'0' c && leb c b'9')

-- `[A-Za-z0-9_.-]`
abbrev pub is_id_char : ℕ → Bool
is_id_char c = is_alnum c || c == b'_' || c == b'.' || c == b'-'

-- `[A-Za-z0-9_.-]{0,n}[A-Za-z0-9]`, on a text that is not empty.
unfoldable pub matches_rest : ℕ → ℕ → List ℕ → Bool
matches_rest n c [] = is_alnum c
matches_rest zero c (d ∷ cs) = false
matches_rest (suc n) c (d ∷ cs) = is_id_char c && matches_rest n d cs

-- `_CANONICAL_RUN_ID.fullmatch`
unfoldable pub is_canonical : List ℕ → Bool
unfolding matches_rest
is_canonical [] = false
is_canonical (c ∷ []) = is_alnum c
is_canonical (c ∷ d ∷ cs) = is_alnum c && matches_rest 62 d cs

unfoldable pub validate_run_id : String → Result ChatError String
unfolding is_canonical
validate_run_id value = if is_canonical (codes value) then ok value else err invalid_run_id

unfoldable pub validate_conversation_id : String → Result ChatError String
unfolding strip
validate_conversation_id value =
    let stripped = strip value in
    if is_empty stripped || ltb 64 (text_len stripped) then err value_error else ok stripped

-- The code points of the digit zero in each script whose digits `str.isdecimal` accepts.
zeros : List ℕ
zeros =
    0x0030 ∷ 0x0660 ∷ 0x06F0 ∷ 0x07C0 ∷ 0x0966 ∷ 0x09E6 ∷ 0x0A66 ∷ 0x0AE6 ∷ 0x0B66 ∷ 0x0BE6 ∷ 0x0C66
    ∷ 0x0CE6 ∷ 0x0D66 ∷ 0x0DE6 ∷ 0x0E50 ∷ 0x0ED0 ∷ 0x0F20 ∷ 0x1040 ∷ 0x1090 ∷ 0x17E0 ∷ 0x1810
    ∷ 0x1946 ∷ 0x19D0 ∷ 0x1A80 ∷ 0x1A90 ∷ 0x1B50 ∷ 0x1BB0 ∷ 0x1C40 ∷ 0x1C50 ∷ 0xA620 ∷ 0xA8D0
    ∷ 0xA900 ∷ 0xA9D0 ∷ 0xA9F0 ∷ 0xAA50 ∷ 0xABF0 ∷ 0xFF10 ∷ 0x104A0 ∷ 0x10D30 ∷ 0x11066 ∷ 0x110F0
    ∷ 0x11136 ∷ 0x111D0 ∷ 0x112F0 ∷ 0x11450 ∷ 0x114D0 ∷ 0x11650 ∷ 0x116C0 ∷ 0x11730 ∷ 0x118E0
    ∷ 0x11950 ∷ 0x11C50 ∷ 0x11D50 ∷ 0x11DA0 ∷ 0x16A60 ∷ 0x16AC0 ∷ 0x16B50 ∷ 0x1D7CE ∷ 0x1D7D8
    ∷ 0x1D7E2 ∷ 0x1D7EC ∷ 0x1D7F6 ∷ 0x1E140 ∷ 0x1E2F0 ∷ 0x1E950 ∷ 0x1FBF0 ∷ []

-- The value of a decimal digit of any script.
unfoldable pub decimal_value : ℕ → Option ℕ
unfolding zeros
decimal_value c = elim (find_first (λ z. leb z c && ltb c (z + 10)) zeros) [
  | none ↦ none
  | some z ↦ some (c - z)
]

-- `int(raw)` of a text of decimal digits, from the digits read so far; `none` where
-- `raw.isdecimal()` fails.
unfoldable pub read_digits : ℕ → List ℕ → Option ℕ
read_digits n [] = some n
read_digits n (c ∷ cs) = elim (decimal_value c) [
  | none ↦ none
  | some d ↦ read_digits (n * 10 + d) cs
]

unfoldable pub read_decimal : String → Option ℕ
read_decimal s = if is_empty s then none else read_digits 0 (codes s)

-- `str(n)`
unfoldable pub digit : ℕ → Char
digit n =
    if n == 0
    then "0"
    else if n == 1
    then "1"
    else if n == 2
    then "2"
    else if n == 3
    then "3"
    else if n == 4
    then "4"
    else if n == 5
    then "5"
    else if n == 6
    then "6"
    else if n == 7
    then "7"
    else if n == 8
    then "8"
    else "9"

unfoldable pub write_digits : ℕ → ℕ → String → String
write_digits zero n rest = rest
write_digits (suc fuel) n rest =
    let longer = write_digits fuel (n / 10) (String.◌∷◌ (digit (n % 10)) rest) in
    if ltb n 10 then String.◌∷◌ (digit n) rest else longer

-- Twenty digits are enough below 2 ^ 64.
unfoldable pub decimal_text : ℕ → String
decimal_text n = write_digits 20 n String.[]

abbrev pub max_user_number : ℕ
max_user_number = 9223372036854775807

unfoldable pub normalize_user_id : String → Result ChatError (String × ℕ)
normalize_user_id value = elim (read_decimal (strip value)) [
  | none ↦ err value_error
  | some numeric ↦
      if ltb max_user_number numeric then err value_error else ok (decimal_text numeric, numeric)
]
