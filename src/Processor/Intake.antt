-- ===== src/Processor/Intake.antt =====
-- app/rag/processing/paper_rag_processor.py: the services of the processor, and the first loop of
-- `process_many`, which settles a paper or makes a request of its file, with `_source_uri`.
use Prim.Native.String
use paper_collector_agent.Prelude.{
  ℕ, String, Bool, true, false, ◌&&◌, Option, none, some, List, [], ◌∷◌, ◌++◌, if◌then◌else◌,
  is_empty, strip,
}
use paper_collector_agent.Processor.{
  PaperRagInput, PaperRagResult, PaperOutcome, normalize_pdf_sha256,
}

-- The reply to `get_pdf_temporary_url`.
pub data UrlReply : Type 0 where
  url : Option String → UrlReply
  no_reply : UrlReply

pub record FileParseRequest : Type 0 where
  pub file_id : ℕ
  pub uri : String
  pub source : String

pub record ParsedFileDocument : Type 0 where
  pub file_id : ℕ
  pub page_content : String
  pub has_blocks : Bool

-- The reply of the parser: an exception, or the errors of files and the documents of others, in the
-- order in which their indexing ends.
pub data ParseReply : Type 0 where
  not_parsed : String → ParseReply
  parsed : List (ℕ × String) → List ParsedFileDocument → ParseReply

-- The number of chunks of a document, or the exception of their preparation.
pub data Prepared : Type 0 where
  chunks : ℕ → Prepared
  not_prepared : String → Prepared

pub record Services : Type 0 where
  pub temporary_url : ℕ → String → UrlReply
  pub validation : FileParseRequest → Option String
  pub parse : List FileParseRequest → ParseReply
  pub prepare_pdf_document : PaperRagInput → ParsedFileDocument → Prepared
  pub prepare_documents : PaperRagInput → ParsedFileDocument → Prepared
  pub paper_index : PaperRagInput → Option String
  pub paper_content_index : PaperRagInput → ℕ → Option String

pub data ProcessError : Type 0 where
  not_unique : ProcessError
  unknown_file : ℕ → ProcessError
  parser_error : String → ProcessError
  no_result : ℕ → ProcessError

unfoldable pub skipped_result : ℕ → String → PaperRagResult
skipped_result id text = record {
  paper_id = id;
  status = PaperOutcome.skipped;
  chunk_count = 0;
  error = some text;
}

unfoldable pub failed_result : ℕ → String → PaperRagResult
failed_result id text = record {
  paper_id = id;
  status = PaperOutcome.failed;
  chunk_count = 0;
  error = some text;
}

unfoldable pub ready_result : ℕ → ℕ → PaperRagResult
ready_result id count = record {
  paper_id = id;
  status = PaperOutcome.ready;
  chunk_count = count;
  error = none;
}

unfoldable pub url_or : UrlReply → String → String
url_or (url none) fallback = fallback
url_or (url (some found)) fallback = if is_empty found then fallback else found
url_or no_reply fallback = fallback

-- `_source_uri`
unfoldable pub source_uri : Services → PaperRagInput → Option String → String
unfolding url_or strip
source_uri services paper none = strip paper.pdf_url
source_uri services paper (some oss_name) =
    url_or (services.temporary_url paper.paper_id oss_name) (strip paper.pdf_url)

-- Where a paper stands before the parser is called: it has its result, or a request of its file.
pub data Placed : Type 0 where
  settled : PaperRagResult → Placed
  requested : FileParseRequest → Placed

abbrev pub none_text : Option String → String
none_text none = "None"
none_text (some text) = text

abbrev pub is_none : Option String → Bool
is_none none = true
is_none (some text) = false

unfoldable pub file_request : PaperRagInput → Option String → String → FileParseRequest
unfolding strip
file_request paper oss_name uri =
    let page = strip paper.pdf_url in
    record {
      file_id = paper.paper_id;
      uri = uri;
      source = if is_empty page then String.◌++◌ "oss://" (none_text oss_name) else page;
    }

-- A request, by what its validation says.
unfoldable pub place_request : Option String → FileParseRequest → Placed
unfolding failed_result
place_request none request = requested request
place_request (some error) request = settled (failed_result request.file_id error)

-- The body of the loop over the papers.
unfoldable pub place : Services → PaperRagInput → Placed
unfolding normalize_pdf_sha256 skipped_result source_uri file_request place_request strip
place services paper =
    let oss_name = normalize_pdf_sha256 paper.oss_name in
    let uri = source_uri services paper oss_name in
    let request = file_request paper oss_name uri in
    if is_empty (strip paper.pdf_url) && is_none oss_name
    then settled (skipped_result paper.paper_id "missing PDF source")
    else if is_empty uri
    then settled (skipped_result paper.paper_id "missing readable PDF source")
    else place_request (services.validation request) request

-- `requests`, the papers of `papers_by_file_id` and the results.
pub record Intake : Type 0 where
  pub requests : List FileParseRequest
  pub waiting : List PaperRagInput
  pub results : List PaperRagResult

unfoldable pub take_placed : Placed → PaperRagInput → Intake → Intake
take_placed (settled result) paper intake = record intake { results = result ∷ intake.results }
take_placed (requested request) paper intake = record intake {
  requests = intake.requests ++ request ∷ [];
  waiting = intake.waiting ++ paper ∷ [];
}

unfoldable pub take_papers : Services → List PaperRagInput → Intake → Intake
unfolding take_placed place
take_papers services [] intake = intake
take_papers services (paper ∷ papers) intake =
    take_papers services papers (take_placed (place services paper) paper intake)
