-- ===== src/Processor/Outcomes.antt =====
-- What `process_many` returns for each paper, described paper by paper.
use mathlib.Core.Path.{subst}
use paper_collector_agent.Prelude.{
  ℕ, ◌≡◌, refl, sym, ap, ◌∙◌, String, true, false, none, some, List, [], ◌∷◌, arith, ◌==◌,
  find_first, any, map, inl, inr, Bool-cases, All, All-map, ok, traverse,
}
use paper_collector_agent.Processor.{PaperRagInput, PaperRagResult}
use paper_collector_agent.Processor.Intake.{
  Services, ParsedFileDocument, parsed, Placed, settled, requested, place, take_papers,
  failed_result,
}
use paper_collector_agent.Processor.Papers.{
  is_of, record_indexed, fill_one, fill_missing, result_of, is_distinct, no_papers, after_parse,
  process_many,
}
use paper_collector_agent.Processor.Placing.{
  settled_result, requested_paper, IsPlaced, take_papers_lem,
}
use paper_collector_agent.Processor.Recording.{
  or_else, last_error, last_indexed, or_missing, Waits, record_errors_lem, record_indexed_lem,
}

-- The result of one paper: of its document, else of its error, else the one from before the parser
-- was called, else a failure.
unfoldable pub outcome :
    Services → List (ℕ × String) → List ParsedFileDocument → PaperRagInput → PaperRagResult
unfolding last_error last_indexed place failed_result
outcome services errors documents paper = or_missing paper.paper_id (
    or_else (last_indexed services paper documents)
      (or_else (last_error paper.paper_id errors) (settled_result (place services paper))))

not_missing :
    (other id : ℕ) (results : List PaperRagResult) (result : PaperRagResult)
    → find_first (is_of id) results ≡ some result
    → any (is_of other) results ≡ false
    → (other == id) ≡ false
not_missing other id [] result e f = cc
not_missing other id (r ∷ results) result e f = elim (Bool-cases (r.paper_id == id)) [
  | inl t ↦ ground (arith, t, f)
  | inr g ↦ not_missing other id results result (ground (arith, g, e)) (ground (arith, f))
]

found_any :
    (id : ℕ) (results : List PaperRagResult)
    → any (is_of id) results ≡ true
    → (result : PaperRagResult) × (find_first (is_of id) results ≡ some result)
found_any id [] h = cc
found_any id (r ∷ results) h = elim (Bool-cases (r.paper_id == id)) [
  | inl t ↦ (r, rw t refl)
  | inr f ↦ let (result, e) = found_any id results (ground (arith, f, h)) in (result, rw f e)
]

none_found :
    (id : ℕ) (results : List PaperRagResult)
    → any (is_of id) results ≡ false
    → find_first (is_of id) results ≡ none
none_found id [] h = refl
none_found id (r ∷ results) h = ground (arith, none_found id results (ground (arith, h)))

fill_one-keeps :
    (paper : PaperRagInput) (results : List PaperRagResult) (id : ℕ) (result : PaperRagResult)
    → find_first (is_of id) results ≡ some result
    → find_first (is_of id) (fill_one paper results) ≡ some result
unfolding fill_one failed_result
fill_one-keeps paper results id result e = elim (Bool-cases (any (is_of paper.paper_id) results)) [
  | inl t ↦ rw t e
  | inr f ↦ let other = not_missing paper.paper_id id results result e f in rw (f, other) e
]

fill_missing-keeps :
    (papers : List PaperRagInput) (results : List PaperRagResult) (id : ℕ) (result : PaperRagResult)
    → find_first (is_of id) results ≡ some result
    → find_first (is_of id) (fill_missing papers results) ≡ some result
unfolding fill_missing
fill_missing-keeps [] results id result e = e
fill_missing-keeps (paper ∷ papers) results id result e =
    fill_missing-keeps papers (fill_one paper results) id result
      (fill_one-keeps paper results id result e)

fill_one-own :
    (paper : PaperRagInput) (results : List PaperRagResult)
    → find_first (is_of paper.paper_id) (fill_one paper results)
      ≡ some (or_missing paper.paper_id (find_first (is_of paper.paper_id) results))
unfolding fill_one failed_result
fill_one-own paper results = elim (Bool-cases (any (is_of paper.paper_id) results)) [
  | inl t ↦ let (result, e) = found_any paper.paper_id results t in rw (t, e) refl
  | inr f ↦
      let own : (paper.paper_id == paper.paper_id) ≡ true = ground arith in
      rw (f, own, none_found paper.paper_id results f) refl
]

fill_one-other :
    (paper : PaperRagInput) (results : List PaperRagResult) (id : ℕ)
    → (paper.paper_id == id) ≡ false
    → find_first (is_of id) (fill_one paper results) ≡ find_first (is_of id) results
unfolding fill_one failed_result
fill_one-other paper results id other = elim (Bool-cases (any (is_of paper.paper_id) results)) [
  | inl t ↦ rw t refl
  | inr f ↦ rw (f, other) refl
]

-- A filled gap is the failure that a gap stands for.
fill_one-same :
    (paper : PaperRagInput) (results : List PaperRagResult) (id : ℕ)
    → or_missing id (find_first (is_of id) (fill_one paper results))
      ≡ or_missing id (find_first (is_of id) results)
fill_one-same paper results id = elim (Bool-cases (paper.paper_id == id)) [
  | inl t ↦
      let same : paper.paper_id ≡ id = ground (arith, t) in
      subst
        (λ n.
          or_missing n (find_first (is_of n) (fill_one paper results))
          ≡ or_missing n (find_first (is_of n) results))
        same (ap (or_missing paper.paper_id) (fill_one-own paper results))
  | inr f ↦ ap (or_missing id) (fill_one-other paper results id f)
]

-- Each paper without a result gets one.
fill_missing-each :
    (papers : List PaperRagInput) (results : List PaperRagResult)
    (kept : PaperRagInput → PaperRagResult)
    → All (λ p. or_missing p.paper_id (find_first (is_of p.paper_id) results) ≡ kept p) papers
    → All (λ p. find_first (is_of p.paper_id) (fill_missing papers results) ≡ some (kept p)) papers
unfolding fill_missing
fill_missing-each [] results kept h = tt
fill_missing-each (paper ∷ papers) results kept h =
    let next = fill_one paper results in
    (
      fill_missing-keeps papers next paper.paper_id (kept paper)
          (fill_one-own paper results ∙ ap (λ r. some r) h.0),
      fill_missing-each papers next kept (
          All-map (λ p. or_missing p.paper_id (find_first (is_of p.paper_id) results) ≡ kept p)
            (λ p. or_missing p.paper_id (find_first (is_of p.paper_id) next) ≡ kept p) papers
            (λ p e. fill_one-same paper results p.paper_id ∙ e) h.1),
    )

collect :
    (papers : List PaperRagInput) (results : List PaperRagResult)
    (kept : PaperRagInput → PaperRagResult)
    → All (λ p. find_first (is_of p.paper_id) results ≡ some (kept p)) papers
    → traverse (result_of results) papers ≡ ok (map kept papers)
unfolding result_of
collect [] results kept h = refl
collect (paper ∷ papers) results kept h = rw (h.0, collect papers results kept h.1) refl

-- The paper that waits under the key of a paper is this paper.
known_of :
    (placed : Placed) (paper w : PaperRagInput) → requested_paper placed paper ≡ some w → w ≡ paper
known_of (settled r) paper w e = cc
known_of (requested q) paper w e = cc

-- For papers with distinct keys and a parser that replies, naming only files of papers that wait,
-- `process_many` returns, in the order of the papers, for each the result of its last document that was
-- indexed, else that of the last error of its file, else the result from before the parser was called,
-- else a failure; and each is among those reported, as the last one of its paper.
pub process_many_lem :
    (services : Services) (papers : List PaperRagInput) (errors : List (ℕ × String))
    (documents : List ParsedFileDocument)
    → is_distinct papers ≡ true
    → let intake = take_papers services papers no_papers in
      services.parse intake.requests ≡ parsed errors documents
      → All (λ e. Waits intake.waiting e.0) errors
      → All (λ d. Waits intake.waiting d.file_id) documents
      → (reported : List PaperRagResult) × (process_many services papers
          ≡ ok (map (outcome services errors documents) papers, reported))
        × All
            (λ p.
              find_first (is_of p.paper_id) reported ≡ some (outcome services errors documents p))
            papers
unfolding process_many after_parse outcome
process_many_lem services papers errors documents distinct replied named found =
    let intake = take_papers services papers no_papers in
    let placed = take_papers_lem services papers distinct in
    let (after, e, recorded) = record_errors_lem intake.waiting errors intake.results named in
    let (tasks, t, indexed) = record_indexed_lem services intake.waiting documents found in
    let results = record_indexed services tasks after in
    let filled = fill_missing-each papers results (outcome services errors documents) (
      All-map (IsPlaced services intake)
        (λ p.
          or_missing p.paper_id (find_first (is_of p.paper_id) results)
          ≡ outcome services errors documents p)
        papers
        (λ p h. ap (or_missing p.paper_id) (
          indexed p after (λ w q. known_of (place services p) p w (sym h.1 ∙ q))
          ∙ ap (or_else (last_indexed services p documents))
              (recorded p.paper_id ∙ ap (or_else (last_error p.paper_id errors)) h.0)))
        placed) in
    (
      fill_missing papers results,
      rw
          (
            distinct,
            replied,
            e,
            t,
            collect papers (fill_missing papers results) (outcome services errors documents) filled,
          )
          refl,
      filled,
    )
