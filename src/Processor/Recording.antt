-- ===== src/Processor/Recording.antt =====
-- The results that `process_many` records after the parser has replied.
use mathlib.Core.Path.{subst}
use paper_collector_agent.Prelude.{
  ℕ, ◌≡◌, refl, sym, ap, ◌∙◌, String, Bool, true, false, Option, none, some, List, [], ◌∷◌, arith,
  ◌==◌, if◌then◌else◌, find_first, find_first-true, any, inl, inr, Bool-cases, All, ok, traverse,
}
use paper_collector_agent.Processor.{PaperRagInput, PaperRagResult}
use paper_collector_agent.Processor.Intake.{
  Services, ParsedFileDocument, Prepared, chunks, not_prepared, failed_result, skipped_result,
  ready_result,
}
use paper_collector_agent.Processor.Papers.{
  has_id, is_of, paper_of, record_errors, after_paper_index, after_content_index, index_prepared,
  index_parsed_document, with_paper, record_indexed,
}

-- The first of two optional values that is there.
abbrev pub or_else : {A : Type 0} → Option A → Option A → Option A
or_else (some x) y = some x
or_else none y = y

-- The result that the last error of a file gives.
unfoldable pub last_error : ℕ → List (ℕ × String) → Option PaperRagResult
unfolding failed_result
last_error id [] = none
last_error id ((file_id, text) ∷ errors) =
    or_else (last_error id errors)
      (if file_id == id then some (failed_result file_id text) else none)

-- The result that the last document of a file gives.
unfoldable pub last_indexed :
    Services → PaperRagInput → List ParsedFileDocument → Option PaperRagResult
unfolding index_parsed_document
last_indexed services paper [] = none
last_indexed services paper (document ∷ documents) =
    or_else (last_indexed services paper documents) (
      if document.file_id == paper.paper_id
      then some (index_parsed_document services paper document)
      else none)

abbrev pub or_missing : ℕ → Option PaperRagResult → PaperRagResult
or_missing id none = failed_result id "parser returned no document or error"
or_missing id (some result) = result

or_else_assoc : {A : Type 0} (x y z : Option A) → or_else (or_else x y) z ≡ or_else x (or_else y z)
or_else_assoc none y z = refl
or_else_assoc (some x) y z = refl

-- The result in front of a list.
find_first-cons :
    (id : ℕ) (result : PaperRagResult) (results : List PaperRagResult) (b : Bool)
    → (result.paper_id == id) ≡ b
    → find_first (is_of id) (result ∷ results)
      ≡ or_else (if b then some result else none) (find_first (is_of id) results)
find_first-cons id result results true e = rw e refl
find_first-cons id result results false e = rw e refl

-- Each file that the parser names is the file of a paper that waits.
abbrev pub Waits : List PaperRagInput → ℕ → Type 0
Waits waiting id = any (has_id id) waiting ≡ true

find_first-any :
    (id : ℕ) (papers : List PaperRagInput)
    → Waits papers id
    → (paper : PaperRagInput) × (find_first (has_id id) papers ≡ some paper)
find_first-any id [] h = cc
find_first-any id (p ∷ papers) h = elim (Bool-cases (has_id id p)) [
  | inl t ↦ (p, rw t refl)
  | inr f ↦ let (paper, e) = find_first-any id papers (ground (arith, f, h)) in (paper, rw f e)
]

-- The errors of the parser are recorded, the last one of a file on top.
pub record_errors_lem :
    (waiting : List PaperRagInput) (errors : List (ℕ × String)) (results : List PaperRagResult)
    → All (λ e. Waits waiting e.0) errors
    → (after : List PaperRagResult) × (record_errors waiting errors results ≡ ok after)
      × ((id : ℕ)
          → find_first (is_of id) after
            ≡ or_else (last_error id errors) (find_first (is_of id) results))
unfolding record_errors paper_of last_error failed_result
record_errors_lem waiting [] results h = (results, refl, λ id. refl)
record_errors_lem waiting ((file_id, text) ∷ errors) results h =
    let (paper, found) = find_first-any file_id waiting h.0 in
    let same : paper.paper_id ≡ file_id =
      ground (arith, find_first-true (has_id file_id) waiting paper found) in
    let (after, e, k) =
      record_errors_lem waiting errors (failed_result file_id text ∷ results) h.1 in
    (
      after,
      rw (found, same) e,
      λ id.
          k id
          ∙ ap (or_else (last_error id errors))
              (find_first-cons id (failed_result file_id text) results (file_id == id) refl)
          ∙ sym (or_else_assoc (last_error id errors) _ _),
    )

abbrev IsResultOf : PaperRagInput → PaperRagResult → Type 0
IsResultOf paper result = result.paper_id ≡ paper.paper_id

IsResultOf-if :
    (paper : PaperRagInput) (b : Bool) (x y : PaperRagResult)
    → IsResultOf paper x
    → IsResultOf paper y
    → IsResultOf paper (if b then x else y)
IsResultOf-if paper true x y h k = h
IsResultOf-if paper false x y h k = k

after_content_index-IsResultOf :
    (e : Option String) (paper : PaperRagInput) (count : ℕ)
    → IsResultOf paper (after_content_index e paper count)
unfolding after_content_index failed_result ready_result
after_content_index-IsResultOf none paper count = refl
after_content_index-IsResultOf (some e) paper count = refl

after_paper_index-IsResultOf :
    (e : Option String) (services : Services) (paper : PaperRagInput) (count : ℕ)
    → IsResultOf paper (after_paper_index e services paper count)
unfolding after_paper_index failed_result skipped_result
after_paper_index-IsResultOf none services paper count =
    IsResultOf-if paper (count == 0) (skipped_result paper.paper_id "no indexable document content")
      (after_content_index (services.paper_content_index paper count) paper count) refl
      (after_content_index-IsResultOf (services.paper_content_index paper count) paper count)
after_paper_index-IsResultOf (some e) services paper count = refl

index_prepared-IsResultOf :
    (services : Services) (paper : PaperRagInput) (prepared : Prepared)
    → IsResultOf paper (index_prepared services paper prepared)
unfolding index_prepared failed_result
index_prepared-IsResultOf services paper (chunks count) =
    after_paper_index-IsResultOf (services.paper_index paper) services paper count
index_prepared-IsResultOf services paper (not_prepared e) = refl

index_parsed_document-IsResultOf :
    (services : Services) (paper : PaperRagInput) (document : ParsedFileDocument)
    → IsResultOf paper (index_parsed_document services paper document)
unfolding index_parsed_document
index_parsed_document-IsResultOf services paper document =
    index_prepared-IsResultOf services paper _

-- The paper that waits under a key, if there is one.
abbrev pub IsKnown : List PaperRagInput → PaperRagInput → Type 0
IsKnown waiting paper =
    (w : PaperRagInput) → find_first (has_id paper.paper_id) waiting ≡ some w → w ≡ paper

-- The results of a task, looked up under the key of a paper.
indexed-step :
    (services : Services) (waiting : List PaperRagInput) (document : ParsedFileDocument)
    (w paper : PaperRagInput) (results : List PaperRagResult)
    → find_first (has_id document.file_id) waiting ≡ some w
    → IsKnown waiting paper
    → find_first (is_of paper.paper_id) (index_parsed_document services w document ∷ results)
      ≡ or_else
          (if document.file_id == paper.paper_id
            then some (index_parsed_document services paper document)
            else none)
          (find_first (is_of paper.paper_id) results)
indexed-step services waiting document w paper results found known =
    let id : (index_parsed_document services w document).paper_id ≡ w.paper_id =
      index_parsed_document-IsResultOf services w document in
    let own : w.paper_id ≡ document.file_id =
      ground (arith, find_first-true (has_id document.file_id) waiting w found) in
    elim (Bool-cases (document.file_id == paper.paper_id)) [
      | inl t ↦
          let same : document.file_id ≡ paper.paper_id = ground (arith, t) in
          let w' : w ≡ paper =
            known w (subst (λ n. find_first (has_id n) waiting ≡ some w) same found) in
          find_first-cons paper.paper_id (index_parsed_document services w document) results true
            (ground (arith, id, own, same))
          ∙ rw t (ap (λ q. some (index_parsed_document services q document)) w')
      | inr f ↦
          find_first-cons paper.paper_id (index_parsed_document services w document) results false
            (ground (arith, id, own, f))
          ∙ rw f refl
    ]

-- The documents are indexed and recorded, the last one of a file on top.
pub record_indexed_lem :
    (services : Services) (waiting : List PaperRagInput) (documents : List ParsedFileDocument)
    → All (λ d. Waits waiting d.file_id) documents
    → (tasks : List (PaperRagInput × ParsedFileDocument)) × (traverse (with_paper waiting) documents
        ≡ ok tasks)
      × ((paper : PaperRagInput) (results : List PaperRagResult)
          → IsKnown waiting paper
          → find_first (is_of paper.paper_id) (record_indexed services tasks results)
            ≡ or_else
                (last_indexed services paper documents)
                (find_first (is_of paper.paper_id) results))
unfolding record_indexed paper_of last_indexed
record_indexed_lem services waiting [] h = ([], refl, λ paper results known. refl)
record_indexed_lem services waiting (document ∷ documents) h =
    let (w, found) = find_first-any document.file_id waiting h.0 in
    let (tasks, e, k) = record_indexed_lem services waiting documents h.1 in
    (
      (w, document) ∷ tasks,
      rw (found, e) refl,
      λ paper results known.
          k paper (index_parsed_document services w document ∷ results) known
          ∙ ap (or_else (last_indexed services paper documents))
              (indexed-step services waiting document w paper results found known)
          ∙ sym (or_else_assoc (last_indexed services paper documents) _ _),
    )
