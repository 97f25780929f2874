-- ===== src/Processor/Parsing.antt =====
-- The processor with the file parser of app/rag/file_parser/file_parser.py.
use Prim.Native.String
use mathlib.Core.Path.{subst}
use paper_collector_agent.Prelude.{
  any-append, ℕ, ◌<◌, ◌≡◌, refl, sym, ◌∙◌, Bool, true, false, ◌||◌, none, List, [], ◌∷◌, ◌++◌,
  arith, ◌==◌, any, map, All, All-both, ok,
}
use paper_collector_agent.Processor.{PaperRagInput, PaperRagResult}
use paper_collector_agent.Processor.Intake.{
  FileParseRequest, ParsedFileDocument, parsed, Services, Placed, settled, requested, place,
  take_placed, Intake, take_papers,
}
use paper_collector_agent.Processor.Papers.{has_id, is_distinct, no_papers, process_many}
use paper_collector_agent.Processor.Recording.{Waits}
use paper_collector_agent.Processor.Outcomes.{outcome, process_many_lem}
use paper_collector_agent.Processor.Placing.{IsFor, place-IsFor, any-none}
use paper_collector_agent.ChatLog.Ids.{decimal_text}
use paper_collector_agent.FileParser.{NormalRequest, FileType, Client}
use paper_collector_agent.FileParser.Batches.{Parsed, is_id, parse_normalized}
use paper_collector_agent.FileParser.Batches
use paper_collector_agent.FileParser.Settled.{Settles, has_document, parse_normalized-Settles}

-- The requests stand for the papers that wait.
abbrev SameIds : Intake → Type 0
SameIds intake =
    (id : ℕ) → any (λ q. q.file_id == id) intake.requests ≡ any (has_id id) intake.waiting

take_placed-SameIds :
    (placed : Placed) (paper : PaperRagInput) (intake : Intake)
    → IsFor paper.paper_id placed
    → SameIds intake
    → SameIds (take_placed placed paper intake)
unfolding take_placed
take_placed-SameIds (settled result) paper intake h k id = k id
take_placed-SameIds (requested request) paper intake h k id =
    let a = any-append (λ q. q.file_id == id) intake.requests (request ∷ []) in
    let b = any-append (has_id id) intake.waiting (paper ∷ []) in
    let c = k id in ground (arith, a, b, c, h)

take_papers-SameIds :
    (services : Services) (papers : List PaperRagInput) (intake : Intake)
    → SameIds intake
    → SameIds (take_papers services papers intake)
unfolding take_papers
take_papers-SameIds services [] intake k = k
take_papers-SameIds services (paper ∷ papers) intake k =
    take_papers-SameIds services papers _
      (take_placed-SameIds (place services paper) paper intake (place-IsFor services paper) k)

-- The parser's view of a request: the file `paper-n.pdf`, with the default options.
unfoldable pub normal_of : FileParseRequest → NormalRequest
unfolding decimal_text
normal_of q = record {
  file_id = q.file_id;
  uri = q.uri;
  file_name = String.◌++◌ "paper-" (String.◌++◌ (decimal_text q.file_id) ".pdf");
  file_type = FileType.pdf;
  options = record {
    language = "en";
    is_ocr = true;
    enable_formula = true;
    enable_table = true;
    page_ranges = none;
    extra_formats = [];
    no_cache = false;
    cache_tolerance = 900;
  };
}

unfoldable pub normals : List FileParseRequest → List NormalRequest
unfolding normal_of
normals [] = []
normals (q ∷ qs) = normal_of q ∷ normals qs

normals-any :
    (id : ℕ) (qs : List FileParseRequest)
    → any (is_id id) (normals qs) ≡ any (λ q. q.file_id == id) qs
unfolding normals
normals-any id [] = refl
normals-any id (q ∷ qs) = ground (arith, normals-any id qs)

distinct-snoc :
    (qs : List FileParseRequest) (q : FileParseRequest)
    → Batches.is_distinct (normals qs) ≡ true
    → any (λ x. x.file_id == q.file_id) qs ≡ false
    → Batches.is_distinct (normals (qs ++ q ∷ [])) ≡ true
unfolding normals
distinct-snoc [] q h k = refl
distinct-snoc (x ∷ qs) q h k =
    let rest = distinct-snoc qs q (ground (arith, h)) (ground (arith, k)) in
    let a = normals-any x.file_id (qs ++ q ∷ []) in
    let b = any-append (λ y. y.file_id == x.file_id) qs (q ∷ []) in
    let c = normals-any x.file_id qs in ground (arith, rest, a, b, c, h, k)

abbrev IsAbsent : Intake → PaperRagInput → Type 0
IsAbsent intake p = any (λ q. q.file_id == p.paper_id) intake.requests ≡ false

take_placed-distinct :
    (placed : Placed) (paper : PaperRagInput) (intake : Intake)
    → IsFor paper.paper_id placed
    → Batches.is_distinct (normals intake.requests) ≡ true
    → IsAbsent intake paper
    → Batches.is_distinct (normals (take_placed placed paper intake).requests) ≡ true
unfolding take_placed
take_placed-distinct (settled result) paper intake h d k = d
take_placed-distinct (requested request) paper intake h d k =
    distinct-snoc intake.requests request d
      (subst (λ n. any (λ q. q.file_id == n) intake.requests ≡ false) (sym h) k)

take_placed-IsAbsent :
    (placed : Placed) (paper : PaperRagInput) (intake : Intake) (p : PaperRagInput)
    → IsFor paper.paper_id placed
    → has_id paper.paper_id p ≡ false
    → IsAbsent intake p
    → IsAbsent (take_placed placed paper intake) p
unfolding take_placed
take_placed-IsAbsent (settled result) paper intake p h other k = k
take_placed-IsAbsent (requested request) paper intake p h other k =
    any-append (λ q. q.file_id == p.paper_id) intake.requests (request ∷ [])
    ∙ ground (arith, h, other, k)

take_papers-distinct :
    (services : Services) (papers : List PaperRagInput) (intake : Intake)
    → is_distinct papers ≡ true
    → All (IsAbsent intake) papers
    → Batches.is_distinct (normals intake.requests) ≡ true
    → Batches.is_distinct (normals (take_papers services papers intake).requests) ≡ true
unfolding take_papers
take_papers-distinct services [] intake d absent h = h
take_papers-distinct services (paper ∷ papers) intake d absent h =
    let next = take_placed (place services paper) paper intake in
    take_papers-distinct services papers next (ground (arith, d))
      (All-both (λ p. has_id paper.paper_id p ≡ false) (IsAbsent intake) (IsAbsent next) papers
        (λ p other k.
          take_placed-IsAbsent (place services paper) paper intake p (place-IsFor services paper)
            other k)
        (any-none (has_id paper.paper_id) papers (ground (arith, d))) absent.1)
      (take_placed-distinct (place services paper) paper intake (place-IsFor services paper) h
        absent.0)

All-IsAbsent : (papers : List PaperRagInput) → All (IsAbsent no_papers) papers
All-IsAbsent [] = tt
All-IsAbsent (paper ∷ papers) = (refl, All-IsAbsent papers)

All-keys :
    {A : Type 0} (key : A → ℕ) (waiting : List PaperRagInput) (xs : List A)
    → ((id : ℕ) → any (λ x. key x == id) xs ≡ true → Waits waiting id)
    → All (λ x. Waits waiting (key x)) xs
All-keys key waiting [] h = tt
All-keys key waiting (x ∷ xs) h =
    (h (key x) (ground arith), All-keys key waiting xs (λ id e. h id (ground (arith, e))))

-- The parser names only files of papers that wait.
Settles-Waits :
    (intake : Intake) (result : Parsed) (id : ℕ)
    → SameIds intake
    → Settles (normals intake.requests) result id
    → (has_document id result.documents || any (λ e. e.0 == id) result.errors) ≡ true
    → Waits intake.waiting id
Settles-Waits intake result id same settles e =
    sym (same id) ∙ sym (normals-any id intake.requests) ∙ sym settles.0 ∙ e

or-left : (a b : Bool) → a ≡ true → (a || b) ≡ true
or-left a b h = ground (arith, h)

or-right : (a b : Bool) → b ≡ true → (a || b) ≡ true
or-right a b h = ground (arith, h)

-- For papers with distinct keys and the file parser as the processor's parser, with batches of at
-- least one file, `process_many` returns one result for each paper, in their order, whatever the
-- object store, MinerU and the indexes reply and in whatever order the indexing of the documents ends.
pub process_many-parse :
    (services : Services) (client : Client) (size : ℕ) (papers : List PaperRagInput)
    (documents : List ParsedFileDocument)
    → 0 < size
    → is_distinct papers ≡ true
    → let intake = take_papers services papers no_papers in
      let result = parse_normalized client size (normals intake.requests) in
      services.parse intake.requests ≡ parsed result.errors documents
      → ((id : ℕ) → has_document id documents ≡ has_document id result.documents)
      → (reported : List PaperRagResult) × (process_many services papers
          ≡ ok (map (outcome services result.errors documents) papers, reported))
unfolding normals
process_many-parse services client size papers documents positive distinct replied ended =
    let intake = take_papers services papers no_papers in
    let result = parse_normalized client size (normals intake.requests) in
    let same = take_papers-SameIds services papers no_papers (λ id. refl) in
    let once = take_papers-distinct services papers no_papers distinct (All-IsAbsent papers) refl in
    let settles = parse_normalized-Settles client size (normals intake.requests) positive once in
    let (reported, returned, _) =
      process_many_lem services papers result.errors documents distinct replied
        (All-keys (λ e. e.0) intake.waiting result.errors
          (λ id e.
            Settles-Waits intake result id same (settles id)
              (or-right (has_document id result.documents) _ e)))
        (All-keys (λ d. d.file_id) intake.waiting documents
          (λ id e.
            Settles-Waits intake result id same (settles id) (or-left _ _ (sym (ended id) ∙ e)))) in
    (reported, returned)
