-- ===== src/Processor/Placing.antt =====
-- The first loop of `process_many`: what it settles, and which papers wait for the parser.
use paper_collector_agent.Prelude.{
  ℕ, ◌≡◌, refl, ◌∙◌, String, Bool, true, false, ◌&&◌, Option, none, some, List, [], ◌∷◌, ◌++◌,
  arith, ◌==◌, if◌then◌else◌, find_first, find_first-snoc, All-both, any, All, is_empty, strip,
}
use paper_collector_agent.Processor.{PaperRagInput, PaperRagResult, normalize_pdf_sha256}
use paper_collector_agent.Processor.Intake.{
  Services, Placed, settled, requested, place, take_placed, Intake, take_papers, FileParseRequest,
  source_uri, is_none, failed_result, skipped_result, place_request, file_request,
}
use paper_collector_agent.Processor.Papers.{has_id, is_of, is_distinct, no_papers}

-- The result of a paper, or the paper itself, at a place before the parser is called.
abbrev pub settled_result : Placed → Option PaperRagResult
settled_result (settled result) = some result
settled_result (requested request) = none

abbrev pub requested_paper : Placed → PaperRagInput → Option PaperRagInput
requested_paper (settled result) paper = none
requested_paper (requested request) paper = some paper

-- What the dictionaries have under a paper's keys.
abbrev pub HasKeys : ℕ → Option PaperRagResult → Option PaperRagInput → Intake → Type 0
HasKeys id result paper intake =
    (find_first (is_of id) intake.results ≡ result)
    × (find_first (has_id id) intake.waiting ≡ paper)

abbrev pub IsFor : ℕ → Placed → Type 0
IsFor id (settled result) = result.paper_id ≡ id
IsFor id (requested request) = request.file_id ≡ id

IsFor-if :
    (id : ℕ) (b : Bool) (x y : Placed) → IsFor id x → IsFor id y → IsFor id (if b then x else y)
IsFor-if id true x y h k = h
IsFor-if id false x y h k = k

place_request-IsFor :
    (e : Option String) (request : FileParseRequest)
    → IsFor request.file_id (place_request e request)
unfolding place_request failed_result
place_request-IsFor none request = refl
place_request-IsFor (some e) request = refl

pub place-IsFor :
    (services : Services) (paper : PaperRagInput) → IsFor paper.paper_id (place services paper)
unfolding place skipped_result file_request
place-IsFor services paper =
    let id = paper.paper_id in
    let oss_name = normalize_pdf_sha256 paper.oss_name in
    let uri = source_uri services paper oss_name in
    let request = file_request paper oss_name uri in
    let placed = place_request (services.validation request) request in
    let missing = settled (skipped_result id "missing PDF source") in
    let unreadable = settled (skipped_result id "missing readable PDF source") in
    IsFor-if id (is_empty (strip paper.pdf_url) && is_none oss_name) missing
      (if is_empty uri then unreadable else placed) refl
      (IsFor-if id (is_empty uri) unreadable placed refl
        (place_request-IsFor (services.validation request) request))

snoc-found :
    (id : ℕ) (paper : PaperRagInput) (papers : List PaperRagInput)
    → find_first (has_id id) papers ≡ none
    → (paper.paper_id == id) ≡ true
    → find_first (has_id id) (papers ++ paper ∷ []) ≡ some paper
snoc-found id paper papers e t = find_first-snoc (has_id id) papers paper e t

snoc-other :
    (id : ℕ) (paper : PaperRagInput) (papers : List PaperRagInput)
    → (paper.paper_id == id) ≡ false
    → find_first (has_id id) (papers ++ paper ∷ []) ≡ find_first (has_id id) papers
snoc-other id paper [] f = rw f refl
snoc-other id paper (p ∷ papers) f = ground (arith, snoc-other id paper papers f)

-- A paper changes nothing under the keys of another one.
take_placed-other :
    (placed : Placed) (paper : PaperRagInput) (intake : Intake) (id : ℕ)
    (result : Option PaperRagResult) (known : Option PaperRagInput)
    → IsFor paper.paper_id placed
    → (paper.paper_id == id) ≡ false
    → HasKeys id result known intake
    → HasKeys id result known (take_placed placed paper intake)
unfolding take_placed
take_placed-other (settled r) paper intake id result known h f (a, b) =
    let f' : (r.paper_id == id) ≡ false = ground (arith, h, f) in (rw f' a, b)
take_placed-other (requested q) paper intake id result known h f (a, b) =
    (a, snoc-other id paper intake.waiting f ∙ b)

take_placed-own :
    (placed : Placed) (paper : PaperRagInput) (intake : Intake)
    → IsFor paper.paper_id placed
    → HasKeys paper.paper_id none none intake
    → HasKeys paper.paper_id
        (settled_result placed)
        (requested_paper placed paper)
        (take_placed placed paper intake)
unfolding take_placed
take_placed-own (settled r) paper intake h (a, b) =
    let t : (r.paper_id == paper.paper_id) ≡ true = ground (arith, h) in (rw t refl, b)
take_placed-own (requested q) paper intake h (a, b) =
    (a, snoc-found paper.paper_id paper intake.waiting b (ground arith))

pub any-none :
    {A : Type 0} (p : A → Bool) (xs : List A) → any p xs ≡ false → All (λ x. p x ≡ false) xs
any-none p [] h = tt
any-none p (x ∷ xs) h = (ground (arith, h), any-none p xs (ground (arith, h)))

take_papers-other :
    (services : Services) (papers : List PaperRagInput) (intake : Intake) (id : ℕ)
    (result : Option PaperRagResult) (known : Option PaperRagInput)
    → All (λ p. has_id id p ≡ false) papers
    → HasKeys id result known intake
    → HasKeys id result known (take_papers services papers intake)
unfolding take_papers
take_papers-other services [] intake id result known h k = k
take_papers-other services (paper ∷ papers) intake id result known h k =
    take_papers-other services papers _ id result known h.1 (
      take_placed-other (place services paper) paper intake id result known
        (place-IsFor services paper) h.0 k)

abbrev pub IsPlaced : Services → Intake → PaperRagInput → Type 0
IsPlaced services intake p =
    HasKeys p.paper_id (settled_result (place services p)) (requested_paper (place services p) p)
      intake

abbrev IsNew : Intake → PaperRagInput → Type 0
IsNew intake p = HasKeys p.paper_id none none intake

take_papers-each :
    (services : Services) (papers : List PaperRagInput) (intake : Intake)
    → is_distinct papers ≡ true
    → All (IsNew intake) papers
    → All (IsPlaced services (take_papers services papers intake)) papers
unfolding take_papers
take_papers-each services [] intake d h = tt
take_papers-each services (paper ∷ papers) intake d h =
    let others = any-none (has_id paper.paper_id) papers (ground (arith, d)) in
    let next = take_placed (place services paper) paper intake in
    (
      take_papers-other services papers next paper.paper_id _ _ others
          (take_placed-own (place services paper) paper intake (place-IsFor services paper) h.0),
      take_papers-each services papers next (ground (arith, d)) (
          All-both (λ p. has_id paper.paper_id p ≡ false) (IsNew intake) (IsNew next) papers
            (λ p e k.
              take_placed-other (place services paper) paper intake p.paper_id none none
                (place-IsFor services paper) (ground (arith, e)) k)
            others h.1),
    )

All-IsNew : (papers : List PaperRagInput) → All (IsNew no_papers) papers
All-IsNew [] = tt
All-IsNew (paper ∷ papers) = ((refl, refl), All-IsNew papers)

-- Before the parser is called, each paper either has its result or waits.
pub take_papers_lem :
    (services : Services) (papers : List PaperRagInput)
    → is_distinct papers ≡ true
    → All (IsPlaced services (take_papers services papers no_papers)) papers
take_papers_lem services papers d = take_papers-each services papers no_papers d (All-IsNew papers)
