-- ===== src/FileParser/Batches.antt =====
-- app/rag/file_parser/file_parser.py: `_parse_single`, `_parse_batch` and `parse_files_result`. The file
-- ids are distinct, so each key of a dictionary of errors is written once, and an update appends.
use Prim.Native.String
use paper_collector_agent.Prelude.{
  ℕ, String, Bool, true, false, not, ◌&&◌, Option, none, some, List, [], ◌∷◌, ◌++◌, ◌==◌,
  if◌then◌else◌, any, is_empty, strip, Result, ok, err, ◌>>=◌, traverse,
}
use paper_collector_agent.Processor.Intake.{ParsedFileDocument}
use paper_collector_agent.FileParser.{
  FileParseRequest, NormalRequest, Paths, ParseError, ids_not_unique, Failure, MineruResult,
  Archive, Client, normalize_request, group_requests, batches_of,
}

-- `_format_error`
unfoldable pub format_error : Failure → String
unfolding strip
format_error f =
    let message = strip f.message in
    String.◌++◌ f.class_name (String.◌++◌ ": " (if is_empty message then f.shown else message))

-- Documents, and errors by their files.
pub record Parsed : Type 0 where
  pub documents : List ParsedFileDocument
  pub errors : List (ℕ × String)

abbrev pub nothing : Parsed
nothing = record { documents = []; errors = [] }

-- The end of `_build_document`.
unfoldable pub built : NormalRequest → Archive → ParsedFileDocument
built r archive = record {
  file_id = r.file_id;
  page_content = archive.markdown;
  has_blocks = archive.has_blocks;
}

-- `_build_document`
unfoldable pub build_document :
    Client → NormalRequest → MineruResult → Result Failure ParsedFileDocument
unfolding built
build_document client r result =
    client.read_archive r result.full_zip_url >>= λ archive. ok (built r archive)

-- `_parse_single`
unfoldable pub parse_single : Client → NormalRequest → Result Failure ParsedFileDocument
unfolding build_document
parse_single client r = client.parse_url r >>= λ result. build_document client r result

-- A document that was made, or the error of its file, before the other files.
unfoldable pub add_parsed : NormalRequest → Result Failure ParsedFileDocument → Parsed → Parsed
unfolding format_error
add_parsed r (ok document) rest = record rest { documents = document ∷ rest.documents }
add_parsed r (err f) rest = record rest { errors = (r.file_id, format_error f) ∷ rest.errors }

unfoldable pub add_error : NormalRequest → String → Parsed → Parsed
add_error r text rest = record rest { errors = (r.file_id, text) ∷ rest.errors }

abbrev pub has_data_id : ℕ → Option ℕ → Bool
has_data_id id none = false
has_data_id id (some data_id) = data_id == id

-- `results_by_id`: the last result of a file.
unfoldable pub last_result : ℕ → List MineruResult → Option MineruResult
last_result id [] = none
last_result id (result ∷ results) = elim (last_result id results) [
  | some found ↦ some found
  | none ↦ if has_data_id id result.data_id then some result else none
]

abbrev pub text_or : Option String → String → String
text_or none default = default
text_or (some text) default = if is_empty text then default else text

-- The body of the loop over the requests of a batch.
unfoldable pub parse_result : Client → NormalRequest → Option MineruResult → Parsed → Parsed
unfolding add_parsed add_error build_document
parse_result client r none rest = add_error r "MinerU batch result is missing" rest
parse_result client r (some result) rest =
    if result.is_failed
    then add_error r (text_or result.err_msg "MinerU parsing failed") rest
    else add_parsed r (build_document client r result) rest

unfoldable pub parse_results : Client → List MineruResult → List NormalRequest → Parsed
unfolding parse_result last_result
parse_results client results [] = nothing
parse_results client results (r ∷ rs) =
    parse_result client r (last_result r.file_id results) (parse_results client results rs)

-- `_parse_batch`
unfoldable pub parse_batch : Client → List NormalRequest → Result Failure Parsed
unfolding add_parsed parse_single parse_results
parse_batch client (r ∷ []) = ok (add_parsed r (parse_single client r) nothing)
parse_batch client rs = client.parse_urls rs >>= λ results. ok (parse_results client results rs)

unfoldable pub all_failed : String → List NormalRequest → List (ℕ × String)
all_failed text [] = []
all_failed text (r ∷ rs) = (r.file_id, text) ∷ all_failed text rs

-- What a batch adds: its result, or an error for each of its files.
unfoldable pub settle : List NormalRequest → Result Failure Parsed → Parsed
unfolding all_failed format_error
settle rs (ok parsed) = parsed
settle rs (err f) = record { documents = []; errors = all_failed (format_error f) rs }

unfoldable pub parse_batches : Client → List (List NormalRequest) → Parsed
unfolding settle parse_batch
parse_batches client [] = nothing
parse_batches client (batch ∷ batches) =
    let parsed = settle batch (parse_batch client batch) in
    let rest = parse_batches client batches in
    record { documents = parsed.documents ++ rest.documents; errors = parsed.errors ++ rest.errors }

abbrev pub is_id : ℕ → NormalRequest → Bool
is_id id r = r.file_id == id

abbrev pub is_distinct : List NormalRequest → Bool
is_distinct [] = true
is_distinct (r ∷ rs) = not (any (is_id r.file_id) rs) && is_distinct rs

unfoldable pub last_document : ℕ → List ParsedFileDocument → Option ParsedFileDocument
last_document id [] = none
last_document id (document ∷ documents) = elim (last_document id documents) [
  | some found ↦ some found
  | none ↦ if document.file_id == id then some document else none
]

abbrev pub with_found :
    Option ParsedFileDocument → List ParsedFileDocument → List ParsedFileDocument
with_found none documents = documents
with_found (some document) documents = document ∷ documents

-- The documents in the order of the requests.
unfoldable pub in_order : List ParsedFileDocument → List NormalRequest → List ParsedFileDocument
unfolding last_document
in_order documents [] = []
in_order documents (r ∷ rs) = with_found (last_document r.file_id documents) (in_order documents rs)

unfoldable pub parse_normalized : Client → ℕ → List NormalRequest → Parsed
unfolding parse_batches in_order group_requests batches_of
parse_normalized client size rs =
    let parsed = parse_batches client (batches_of size (group_requests rs [])) in
    record { documents = in_order parsed.documents rs; errors = parsed.errors }

-- `parse_files_result`, with `MAX_BATCH_SIZE`; no request makes no call.
unfoldable pub parse_files_result :
    Client → Paths → ℕ → List FileParseRequest → Result ParseError Parsed
unfolding parse_normalized normalize_request
parse_files_result client paths size [] = ok nothing
parse_files_result client paths size (r ∷ rs) =
    traverse (normalize_request paths) (r ∷ rs) >>= λ normalized.
    if is_distinct normalized
    then ok (parse_normalized client size normalized)
    else err ids_not_unique
