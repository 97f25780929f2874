-- ===== src/Examples/Papers.antt =====
-- Concrete batches of papers for the processor.
use paper_collector_agent.Prelude.{
  ℕ, ◌≡◌, refl, String, true, none, some, List, [], ◌∷◌, map, find_first, All, ok, text_len, strip,
}
use paper_collector_agent.Processor.{
  PaperRagInput, PaperRagResult, all_hex, normalize_pdf_sha256, lower, lower_char,
}
use paper_collector_agent.Processor.Checksums.{normalize_pdf_sha256_lem}
use paper_collector_agent.Processor.Intake.{
  Services, ParsedFileDocument, parsed, chunks, no_reply, take_papers, place, take_placed,
  place_request, file_request, source_uri, skipped_result,
}
use paper_collector_agent.Processor.Papers.{
  is_of, process_many, after_parse, record_errors, record_indexed, fill_missing, fill_one,
  result_of,
}
use paper_collector_agent.Processor.Outcomes.{outcome, process_many_lem}
use paper_collector_agent.Processor.Sound.{IsSound, process_many-IsSound}

abbrev with_page : ℕ → String → PaperRagInput
with_page id page = record {
  paper_id = id;
  title = "A title";
  abstract = "";
  pdf_url = page;
  oss_name = "";
  year = none;
}

-- The second paper has no source; the parser has an error for the third and nothing for the fourth.
abbrev pub four_papers : List PaperRagInput
four_papers =
    with_page 1 "https://example.org/1.pdf"
    ∷ with_page 2 " "
    ∷ with_page 3 "https://example.org/3.pdf"
    ∷ with_page 4 "https://example.org/4.pdf"
    ∷ []

abbrev one_document : List ParsedFileDocument
one_document = record { file_id = 1; page_content = "# A title"; has_blocks = true } ∷ []

abbrev one_error : List (ℕ × String)
one_error = (3, "MinerU parsing failed") ∷ []

abbrev pub services : Services
services = record {
  temporary_url = λ id name. no_reply;
  validation = λ request. none;
  parse = λ requests. parsed one_error one_document;
  prepare_pdf_document = λ paper document. chunks 12;
  prepare_documents = λ paper document. chunks 1;
  paper_index = λ paper. none;
  paper_content_index = λ paper count. none;
}

process_many_lem_example :
    (reported : List PaperRagResult) × (process_many services four_papers
      ≡ ok (map (outcome services one_error one_document) four_papers, reported))
    × All
        (λ p.
          find_first (is_of p.paper_id) reported ≡ some (outcome services one_error one_document p))
        four_papers
unfolding take_papers place take_placed place_request file_request source_uri skipped_result
    normalize_pdf_sha256 strip lower
process_many_lem_example =
    process_many_lem services four_papers one_error one_document refl refl (refl, tt) (refl, tt)

abbrev no_services : Services
no_services = record services { parse = λ requests. parsed [] [] }

one_paper_processed :
    process_many no_services (with_page 2 " " ∷ [])
    ≡ ok (skipped_result 2 "missing PDF source" ∷ [], skipped_result 2 "missing PDF source" ∷ [])
unfolding process_many after_parse take_papers place take_placed place_request file_request
    source_uri skipped_result normalize_pdf_sha256 strip lower record_errors record_indexed
    fill_missing fill_one result_of
one_paper_processed = refl

process_many-IsSound_example :
    All IsSound (skipped_result 2 "missing PDF source" ∷ [])
    × All IsSound (skipped_result 2 "missing PDF source" ∷ [])
process_many-IsSound_example =
    process_many-IsSound no_services (with_page 2 " " ∷ [])
      (skipped_result 2 "missing PDF source" ∷ []) (skipped_result 2 "missing PDF source" ∷ [])
      one_paper_processed

abbrev checksum : String
checksum = "0123456789abcdef0123456789abcdef0123456789abcdef0123456789abcdef"

checksum_accepted :
    normalize_pdf_sha256 " 0123456789ABCDEF0123456789abcdef0123456789ABCDEF0123456789abcdef\n"
    ≡ some checksum
unfolding normalize_pdf_sha256 lower lower_char strip
checksum_accepted = refl

normalize_pdf_sha256_lem_example :
    (text_len checksum ≡ 64)
    × (all_hex checksum ≡ true)
    × (normalize_pdf_sha256 checksum ≡ some checksum)
normalize_pdf_sha256_lem_example =
    normalize_pdf_sha256_lem " 0123456789ABCDEF0123456789abcdef0123456789ABCDEF0123456789abcdef\n"
      checksum checksum_accepted
