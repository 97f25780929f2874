-- ===== src/Processor/Papers.antt =====
-- app/rag/processing/paper_rag_processor.py: `process_many` from the reply of the parser on, and
-- `_index_parsed_document`. The results so far stand newest first: they are both the dictionary and
-- what the listener was told.
use paper_collector_agent.Prelude.{
  ℕ, String, Bool, true, not, ◌&&◌, Option, none, some, List, [], ◌∷◌, ◌==◌, if◌then◌else◌,
  find_first, any, Result, ok, err, ◌>>=◌, traverse,
}
use paper_collector_agent.Processor.{PaperRagInput, PaperRagResult}
use paper_collector_agent.Processor.Intake.{
  ParsedFileDocument, ParseReply, not_parsed, parsed, Prepared, chunks, not_prepared, Services,
  ProcessError, not_unique, unknown_file, parser_error, no_result, skipped_result, failed_result,
  ready_result, Intake, take_papers,
}

abbrev pub has_id : ℕ → PaperRagInput → Bool
has_id id paper = paper.paper_id == id

abbrev pub is_of : ℕ → PaperRagResult → Bool
is_of id result = result.paper_id == id

-- A key of a dictionary, or `KeyError`.
abbrev pub found_or : {A : Type 0} → ProcessError → Option A → Result ProcessError A
found_or error none = err error
found_or error (some value) = ok value

-- `papers_by_file_id[file_id]`
unfoldable pub paper_of : List PaperRagInput → ℕ → Result ProcessError PaperRagInput
paper_of waiting id = found_or (unknown_file id) (find_first (has_id id) waiting)

-- The loop over the errors of the parser.
unfoldable pub record_errors :
    List PaperRagInput
    → List (ℕ × String)
    → List PaperRagResult
    → Result ProcessError (List PaperRagResult)
unfolding paper_of failed_result
record_errors waiting [] results = ok results
record_errors waiting ((id, error) ∷ errors) results = paper_of waiting id >>= λ paper.
    record_errors waiting errors (failed_result paper.paper_id error ∷ results)

-- The end of the second index.
unfoldable pub after_content_index : Option String → PaperRagInput → ℕ → PaperRagResult
unfolding failed_result ready_result
after_content_index none paper count = ready_result paper.paper_id count
after_content_index (some error) paper count = failed_result paper.paper_id error

-- The end of the first index: the chunks go to the second one, under the same lock.
unfoldable pub after_paper_index : Option String → Services → PaperRagInput → ℕ → PaperRagResult
unfolding failed_result skipped_result after_content_index
after_paper_index none services paper count =
    if count == 0
    then skipped_result paper.paper_id "no indexable document content"
    else after_content_index (services.paper_content_index paper count) paper count
after_paper_index (some error) services paper count = failed_result paper.paper_id error

unfoldable pub index_prepared : Services → PaperRagInput → Prepared → PaperRagResult
unfolding failed_result after_paper_index
index_prepared services paper (chunks count) =
    after_paper_index (services.paper_index paper) services paper count
index_prepared services paper (not_prepared error) = failed_result paper.paper_id error

-- `_index_parsed_document`
unfoldable pub index_parsed_document :
    Services → PaperRagInput → ParsedFileDocument → PaperRagResult
unfolding index_prepared
index_parsed_document services paper document = index_prepared services paper (
    if document.has_blocks
    then services.prepare_pdf_document paper document
    else services.prepare_documents paper document)

abbrev pub with_paper :
    List PaperRagInput
    → ParsedFileDocument
    → Result ProcessError (PaperRagInput × ParsedFileDocument)
with_paper waiting document = paper_of waiting document.file_id >>= λ paper. ok (paper, document)

-- The loop over the finished index tasks.
unfoldable pub record_indexed :
    Services → List (PaperRagInput × ParsedFileDocument) → List PaperRagResult → List PaperRagResult
unfolding index_parsed_document
record_indexed services [] results = results
record_indexed services ((paper, document) ∷ tasks) results =
    record_indexed services tasks (index_parsed_document services paper document ∷ results)

-- A paper without a result gets one.
unfoldable pub fill_one : PaperRagInput → List PaperRagResult → List PaperRagResult
unfolding failed_result
fill_one paper results =
    if any (is_of paper.paper_id) results
    then results
    else failed_result paper.paper_id "parser returned no document or error" ∷ results

unfoldable pub fill_missing : List PaperRagInput → List PaperRagResult → List PaperRagResult
unfolding fill_one
fill_missing [] results = results
fill_missing (paper ∷ papers) results = fill_missing papers (fill_one paper results)

-- `results_by_paper_id[paper.paper_id]`
unfoldable pub result_of : List PaperRagResult → PaperRagInput → Result ProcessError PaperRagResult
result_of results paper =
    found_or (no_result paper.paper_id) (find_first (is_of paper.paper_id) results)

-- `len(paper_ids) != len(set(paper_ids))` fails.
abbrev pub is_distinct : List PaperRagInput → Bool
is_distinct [] = true
is_distinct (paper ∷ papers) = not (any (has_id paper.paper_id) papers) && is_distinct papers

abbrev pub no_papers : Intake
no_papers = record { requests = []; waiting = []; results = [] }

-- From the reply of the parser on: the results in the order of the papers, and those that were
-- reported, newest first.
unfoldable pub after_parse :
    Services
    → List PaperRagInput
    → Intake
    → ParseReply
    → Result ProcessError (List PaperRagResult × List PaperRagResult)
unfolding record_errors record_indexed fill_missing result_of paper_of
after_parse services papers intake (not_parsed error) = err (parser_error error)
after_parse services papers intake (parsed errors documents) =
    record_errors intake.waiting errors intake.results >>= λ results.
    traverse (with_paper intake.waiting) documents >>= λ tasks.
    (let reported = fill_missing papers (record_indexed services tasks results) in
      traverse (result_of reported) papers >>= λ ordered. ok (ordered, reported))

unfoldable pub process_many :
    Services → List PaperRagInput → Result ProcessError (List PaperRagResult × List PaperRagResult)
unfolding take_papers after_parse
process_many services papers =
    if is_distinct papers
    then (let intake = take_papers services papers no_papers in
        after_parse services papers intake (services.parse intake.requests))
    else err not_unique
