-- ===== src/Processor.antt =====
-- app/rag/processing/paper_rag_processor.py and the checksums of app/infrastructure/oss.py: the
-- processing of a batch of papers. The object store, the parser, the preparation of chunks and the two
-- indexes answer through `Services`; the bound metadata and the Markdown that is stored, which
-- decide nothing, are left out. The file `paper-n` is known by n.
pub mod Intake
pub mod Papers
pub mod Placing
pub mod Recording
pub mod Outcomes
pub mod Checksums
pub mod Sound
pub mod Parsing
use Prim.Native.Char.{Char, code}
use Prim.Native.String
use paper_collector_agent.Prelude.{
  ℕ, zero, suc, ◌+◌, ◌-◌, ◌≡◌, String, Bool, true, false, not, ◌&&◌, ◌||◌, Option, none, some, List,
  [], ◌∷◌, ◌++◌, ◌==◌, leb, ltb, if◌then◌else◌, find_first, any, map, length, is_empty, strip,
  text_len, Result, ok, err, ◌>>=◌, traverse,
}

pub record PaperRagInput : Type 0 where
  pub paper_id : ℕ
  pub title : String
  pub abstract : String
  pub pdf_url : String
  pub oss_name : String
  pub year : Option ℕ

pub data PaperOutcome : Type 0 where
  ready skipped failed : PaperOutcome

pub record PaperRagResult : Type 0 where
  pub paper_id : ℕ
  pub status : PaperOutcome
  pub chunk_count : ℕ
  pub error : Option String

-- The character at a place of a text.
abbrev pub char_at : ℕ → Char → String → Char
char_at n c String.[] = c
char_at zero c (String.◌∷◌ d s) = d
char_at (suc n) c (String.◌∷◌ d s) = char_at n c s

abbrev pub is_upper : ℕ → Bool
is_upper c = leb 65 c && leb c 90

-- `s.lower()` on ASCII; no other letter has a hexadecimal digit for its small letter.
unfoldable pub lower_char : Char → Char
lower_char c = if is_upper (code c) then char_at (code c - 65) c "abcdefghijklmnopqrstuvwxyz" else c

unfoldable pub lower : String → String
unfolding lower_char
lower String.[] = String.[]
lower (String.◌∷◌ c s) = String.◌∷◌ (lower_char c) (lower s)

abbrev pub is_hex : ℕ → Bool
is_hex c = (leb 48 c && leb c 57) || (leb 97 c && leb c 102)

abbrev pub all_hex : String → Bool
all_hex String.[] = true
all_hex (String.◌∷◌ c s) = is_hex (code c) && all_hex s

-- `_SHA256.fullmatch`
abbrev pub is_sha256 : String → Bool
is_sha256 s = text_len s == 64 && all_hex s

-- `normalize_pdf_sha256`
unfoldable pub normalize_pdf_sha256 : String → Option String
unfolding strip lower
normalize_pdf_sha256 value =
    let checksum = lower (strip value) in if is_sha256 checksum then some checksum else none
