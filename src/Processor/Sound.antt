-- ===== src/Processor/Sound.antt =====
-- What each result of `process_many` says, whatever the services reply.
use mathlib.Core.Path.{subst}
use paper_collector_agent.Prelude.{
  ℕ, ◌≡◌, ◌<◌, refl, ap, String, Bool, true, false, ◌&&◌, Option, none, some, List, [], ◌∷◌, arith,
  ◌==◌, if◌then◌else◌, any, inl, inr, Bool-cases, All, All-find_first, Result, ok, err, >>=-eq-ok,
  traverse, is_empty, strip,
}
use paper_collector_agent.Processor.{
  PaperOutcome, PaperRagInput, PaperRagResult, normalize_pdf_sha256,
}
use paper_collector_agent.Processor.Intake.{
  Services, ParsedFileDocument, ParseReply, parsed, not_parsed, ProcessError, no_result, not_unique,
  Prepared, chunks, not_prepared, Placed, settled, requested, place, take_placed, Intake,
  take_papers, FileParseRequest, source_uri, is_none, failed_result, skipped_result, ready_result,
  place_request, file_request,
}
use paper_collector_agent.Processor.Papers.{
  is_of, found_or, paper_of, record_errors, after_content_index, after_paper_index, index_prepared,
  index_parsed_document, with_paper, record_indexed, fill_one, fill_missing, result_of, is_distinct,
  no_papers, after_parse, process_many,
}

-- A ready paper has chunks and no error; any other has an error and no chunks.
abbrev Fits : PaperOutcome → ℕ → Option String → Type 0
Fits PaperOutcome.ready count error = (0 < count) × (error ≡ none)
Fits PaperOutcome.skipped count error = (count ≡ 0) × ((text : String) × (error ≡ some text))
Fits PaperOutcome.failed count error = (count ≡ 0) × ((text : String) × (error ≡ some text))

abbrev pub IsSound : PaperRagResult → Type 0
IsSound result = Fits result.status result.chunk_count result.error

failed-IsSound : (id : ℕ) (text : String) → IsSound (failed_result id text)
unfolding failed_result
failed-IsSound id text = (refl, (text, refl))

skipped-IsSound : (id : ℕ) (text : String) → IsSound (skipped_result id text)
unfolding skipped_result
skipped-IsSound id text = (refl, (text, refl))

after_content_index-IsSound :
    (e : Option String) (paper : PaperRagInput) (count : ℕ)
    → 0 < count
    → IsSound (after_content_index e paper count)
unfolding after_content_index ready_result
after_content_index-IsSound none paper count h = (h, refl)
after_content_index-IsSound (some e) paper count h = failed-IsSound paper.paper_id e

after_paper_index-IsSound :
    (e : Option String) (services : Services) (paper : PaperRagInput) (count : ℕ)
    → IsSound (after_paper_index e services paper count)
unfolding after_paper_index
after_paper_index-IsSound none services paper count = elim (Bool-cases (count == 0)) [
  | inl t ↦ rw t (skipped-IsSound paper.paper_id "no indexable document content")
  | inr f ↦ rw f (
      after_content_index-IsSound (services.paper_content_index paper count) paper count
        (ground (arith, f)))
]
after_paper_index-IsSound (some e) services paper count = failed-IsSound paper.paper_id e

index_prepared-IsSound :
    (services : Services) (paper : PaperRagInput) (prepared : Prepared)
    → IsSound (index_prepared services paper prepared)
unfolding index_prepared
index_prepared-IsSound services paper (chunks count) =
    after_paper_index-IsSound (services.paper_index paper) services paper count
index_prepared-IsSound services paper (not_prepared e) = failed-IsSound paper.paper_id e

abbrev IsSoundPlace : Placed → Type 0
IsSoundPlace (settled result) = IsSound result
IsSoundPlace (requested request) = Unit

IsSoundPlace-if :
    (b : Bool) (x y : Placed) → IsSoundPlace x → IsSoundPlace y → IsSoundPlace (if b then x else y)
IsSoundPlace-if true x y h k = h
IsSoundPlace-if false x y h k = k

place_request-IsSound :
    (e : Option String) (request : FileParseRequest) → IsSoundPlace (place_request e request)
unfolding place_request
place_request-IsSound none request = tt
place_request-IsSound (some e) request = failed-IsSound request.file_id e

place-IsSound : (services : Services) (paper : PaperRagInput) → IsSoundPlace (place services paper)
unfolding place
place-IsSound services paper =
    let oss_name = normalize_pdf_sha256 paper.oss_name in
    let uri = source_uri services paper oss_name in
    let request = file_request paper oss_name uri in
    let placed = place_request (services.validation request) request in
    let unreadable = settled (skipped_result paper.paper_id "missing readable PDF source") in
    IsSoundPlace-if (is_empty (strip paper.pdf_url) && is_none oss_name)
      (settled (skipped_result paper.paper_id "missing PDF source"))
      (if is_empty uri then unreadable else placed) (skipped-IsSound paper.paper_id _)
      (IsSoundPlace-if (is_empty uri) unreadable placed (skipped-IsSound paper.paper_id _)
        (place_request-IsSound (services.validation request) request))

take_placed-IsSound :
    (placed : Placed) (paper : PaperRagInput) (intake : Intake)
    → IsSoundPlace placed
    → All IsSound intake.results
    → All IsSound (take_placed placed paper intake).results
unfolding take_placed
take_placed-IsSound (settled result) paper intake h k = (h, k)
take_placed-IsSound (requested request) paper intake h k = k

take_papers-IsSound :
    (services : Services) (papers : List PaperRagInput) (intake : Intake)
    → All IsSound intake.results
    → All IsSound (take_papers services papers intake).results
unfolding take_papers
take_papers-IsSound services [] intake h = h
take_papers-IsSound services (paper ∷ papers) intake h =
    take_papers-IsSound services papers _
      (take_placed-IsSound (place services paper) paper intake (place-IsSound services paper) h)

record_errors-IsSound :
    (waiting : List PaperRagInput) (errors : List (ℕ × String))
    (results after : List PaperRagResult)
    → All IsSound results
    → record_errors waiting errors results ≡ ok after
    → All IsSound after
unfolding record_errors
record_errors-IsSound waiting [] results after h e =
    let same : results ≡ after = cc in subst (All IsSound) same h
record_errors-IsSound waiting ((id, text) ∷ errors) results after h e =
    let (paper, _, next) = >>=-eq-ok (paper_of waiting id) _ e in
    record_errors-IsSound waiting errors (failed_result paper.paper_id text ∷ results) after
      (failed-IsSound paper.paper_id text, h) next

record_indexed-IsSound :
    (services : Services) (tasks : List (PaperRagInput × ParsedFileDocument))
    (results : List PaperRagResult)
    → All IsSound results
    → All IsSound (record_indexed services tasks results)
unfolding record_indexed index_parsed_document
record_indexed-IsSound services [] results h = h
record_indexed-IsSound services ((paper, document) ∷ tasks) results h =
    record_indexed-IsSound services tasks _ (index_prepared-IsSound services paper _, h)

fill_one-IsSound :
    (paper : PaperRagInput) (results : List PaperRagResult)
    → All IsSound results
    → All IsSound (fill_one paper results)
unfolding fill_one
fill_one-IsSound paper results h = elim (Bool-cases (any (is_of paper.paper_id) results)) [
  | inl t ↦ rw t h
  | inr f ↦ rw f (failed-IsSound paper.paper_id _, h)
]

fill_missing-IsSound :
    (papers : List PaperRagInput) (results : List PaperRagResult)
    → All IsSound results
    → All IsSound (fill_missing papers results)
unfolding fill_missing
fill_missing-IsSound [] results h = h
fill_missing-IsSound (paper ∷ papers) results h =
    fill_missing-IsSound papers _ (fill_one-IsSound paper results h)

found_or-ok :
    {A : Type 0} (error : ProcessError) (o : Option A) (value : A)
    → found_or error o ≡ ok value
    → o ≡ some value
found_or-ok error none value e = cc
found_or-ok error (some x) value e = cc

collected-IsSound :
    (papers : List PaperRagInput) (reported results : List PaperRagResult)
    → All IsSound reported
    → traverse (result_of reported) papers ≡ ok results
    → All IsSound results
unfolding result_of
collected-IsSound [] reported results h e =
    let same : [] ≡ results = cc in subst (All IsSound) same tt
collected-IsSound (paper ∷ papers) reported results h e =
    let (result, found, next) = >>=-eq-ok (result_of reported paper) _ e in
    let (others, rest, last) = >>=-eq-ok (traverse (result_of reported) papers) _ next in
    let same : result ∷ others ≡ results = cc in
    subst (All IsSound) same (
      All-find_first IsSound (is_of paper.paper_id) reported result h
          (found_or-ok (no_result paper.paper_id) _ result found),
      collected-IsSound papers reported others h rest,
    )

after_parse-IsSound :
    (services : Services) (papers : List PaperRagInput) (intake : Intake) (reply : ParseReply)
    (results reported : List PaperRagResult)
    → All IsSound intake.results
    → after_parse services papers intake reply ≡ ok (results, reported)
    → All IsSound results × All IsSound reported
unfolding after_parse
after_parse-IsSound services papers intake (not_parsed e) results reported h k = cc
after_parse-IsSound services papers intake (parsed errors documents) results reported h k =
    let (after, recorded, k') =
      >>=-eq-ok (record_errors intake.waiting errors intake.results) _ k in
    let (tasks, _, k'') = >>=-eq-ok (traverse (with_paper intake.waiting) documents) _ k' in
    let filled = fill_missing papers (record_indexed services tasks after) in
    let sound = fill_missing-IsSound papers (record_indexed services tasks after) (
      record_indexed-IsSound services tasks after
        (record_errors-IsSound intake.waiting errors intake.results after h recorded)) in
    let (ordered, collected, last) = >>=-eq-ok (traverse (result_of filled) papers) _ k'' in
    let returned : List PaperRagResult × List PaperRagResult = (ordered, filled) in
    let same : returned ≡ (results, reported) = cc in
    (
      subst (All IsSound) (ap (λ p. p.0) same)
          (collected-IsSound papers filled ordered sound collected),
      subst (All IsSound) (ap (λ p. p.1) same) sound,
    )

after_check-IsSound :
    (b : Bool) (call : Result ProcessError (List PaperRagResult × List PaperRagResult))
    (results reported : List PaperRagResult)
    → (call ≡ ok (results, reported) → All IsSound results × All IsSound reported)
    → (if b then call else err not_unique) ≡ ok (results, reported)
    → All IsSound results × All IsSound reported
after_check-IsSound true call results reported h e = h e
after_check-IsSound false call results reported h e = cc

-- Whatever the services reply: of the results that `process_many` returns or reports, a ready one has
-- chunks and no error, and any other has an error and no chunks.
pub process_many-IsSound :
    (services : Services) (papers : List PaperRagInput) (results reported : List PaperRagResult)
    → process_many services papers ≡ ok (results, reported)
    → All IsSound results × All IsSound reported
unfolding process_many
process_many-IsSound services papers results reported e =
    let intake = take_papers services papers no_papers in
    after_check-IsSound (is_distinct papers)
      (after_parse services papers intake (services.parse intake.requests)) results reported
      (after_parse-IsSound services papers intake (services.parse intake.requests) results reported
        (take_papers-IsSound services papers no_papers tt))
      e
