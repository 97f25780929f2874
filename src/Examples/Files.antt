-- ===== src/Examples/Files.antt =====
-- Concrete files for the parser.
use paper_collector_agent.Prelude.{
  ℕ, ◌≡◌, refl, true, false, none, some, List, [], ◌∷◌, ok, err, arith, traverse, map, All, strip,
}
use paper_collector_agent.FileParser.{
  FileType, FileParseOptions, FileParseRequest, NormalRequest, Paths, Client, normalize_request,
  name_or, type_or,
}
use paper_collector_agent.FileParser.Batches.{Parsed, parse_files_result, parse_normalized}
use paper_collector_agent.Processor.{PaperRagResult}
use paper_collector_agent.Processor.Intake.{Services, parsed, take_papers}
use paper_collector_agent.Processor.Papers.{no_papers, process_many}
use paper_collector_agent.Processor.Outcomes.{outcome}
use paper_collector_agent.Processor.Parsing.{normals, process_many-parse}
use paper_collector_agent.Examples.Papers.{services, four_papers}
use paper_collector_agent.Json.{Fields, field, end, str, num, get, truthy}
use paper_collector_agent.Processor.{lower, lower_char}
use paper_collector_agent.FileParser.Blocks.{
  build_pdf_source_blocks, blocks_from, add_block, content_item_to_markdown, type_text, text_value,
  heading,
}
use paper_collector_agent.FileParser.Sources.{IsBlock, source_indices, build_pdf_source_blocks_lem}
use paper_collector_agent.FileParser.Settled.{Settles, parse_files_result_lem}

abbrev options : FileParseOptions
options = record {
  language = "en";
  is_ocr = true;
  enable_formula = true;
  enable_table = true;
  page_ranges = none;
  extra_formats = [];
  no_cache = false;
  cache_tolerance = 900;
}

abbrev file : ℕ → FileParseRequest
file id = record {
  file_id = id;
  uri = "https://example.org/paper.pdf";
  file_name = some "paper.pdf";
  file_type = some FileType.pdf;
  options = options;
}

abbrev normal : ℕ → NormalRequest
normal id = record {
  file_id = id;
  uri = "https://example.org/paper.pdf";
  file_name = "paper.pdf";
  file_type = FileType.pdf;
  options = options;
}

abbrev paths : Paths
paths = record { name_of = λ uri. "paper.pdf"; suffix_of = λ name. ".pdf" }

-- A client that has a result for file 1, a failure for file 2 and nothing for file 3.
abbrev client : Client
client = record {
  parse_url =
      λ r. err (record { class_name = "TimeoutError"; message = ""; shown = "TimeoutError()" });
  parse_urls = λ rs. ok (
      record { data_id = some 1; is_failed = false; err_msg = none; full_zip_url = "zip" }
      ∷ record { data_id = some 2; is_failed = true; err_msg = none; full_zip_url = "" }
      ∷ []);
  read_archive = λ r url. ok (record { markdown = "# A title"; has_blocks = true });
}

files_normalized :
    traverse (normalize_request paths) (file 1 ∷ file 2 ∷ file 3 ∷ [])
    ≡ ok (normal 1 ∷ normal 2 ∷ normal 3 ∷ [])
unfolding normalize_request name_or type_or
files_normalized = refl

parse_files_result_lem_example :
    (parsed : Parsed) × (parse_files_result client paths 2 (file 1 ∷ file 2 ∷ file 3 ∷ [])
      ≡ ok parsed)
    × ((id : ℕ) → Settles (normal 1 ∷ normal 2 ∷ normal 3 ∷ []) parsed id)
parse_files_result_lem_example =
    parse_files_result_lem client paths 2 (file 1 ∷ file 2 ∷ file 3 ∷ [])
      (normal 1 ∷ normal 2 ∷ normal 3 ∷ []) (omega arith) files_normalized refl

-- The processor with this parser, whose documents end in the order of their requests.
abbrev parsing_services : Services
parsing_services = record services {
  parse = λ qs.
      (let result = parse_normalized client 2 (normals qs) in
        parsed result.errors result.documents);
}

process_many-parse_example :
    let result =
      parse_normalized client 2
        (normals (take_papers parsing_services four_papers no_papers).requests) in
    (reported : List PaperRagResult) × (process_many parsing_services four_papers
      ≡ ok (map (outcome parsing_services result.errors result.documents) four_papers, reported))
process_many-parse_example =
    process_many-parse parsing_services client 2 four_papers
      (parse_normalized client 2
        (normals (take_papers parsing_services four_papers no_papers).requests)).documents
      (omega arith) refl refl (λ id. refl)

abbrev two_items : List Fields
two_items =
    field "type" (str "discarded") (field "page_idx" (num 0) (field "text" (str "1") end))
    ∷ field "type" (str "Title")
        (field "page_idx" (num 0) (field "text" (str " A title ") (field "text_level" (num 1) end)))
    ∷ []

title_block : map (λ b. b.markdown) (build_pdf_source_blocks two_items) ≡ "# A title" ∷ []
unfolding build_pdf_source_blocks blocks_from add_block content_item_to_markdown type_text
    text_value heading strip lower lower_char get truthy
title_block = refl

build_pdf_source_blocks_lem_example :
    All (IsBlock 0 two_items) (build_pdf_source_blocks two_items)
    × (map (λ b. b.source_index) (build_pdf_source_blocks two_items) ≡ source_indices 0 two_items)
build_pdf_source_blocks_lem_example = build_pdf_source_blocks_lem two_items
