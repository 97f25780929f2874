-- ===== src/FileParser/Settled.antt =====
-- What `parse_files_result` makes of each file.
use mathlib.Core.Path.{subst}
use paper_collector_agent.Prelude.{
  ℕ, ◌+◌, ◌≤◌, ◌<◌, ◌≡◌, refl, ◌∙◌, String, Bool, true, false, ◌&&◌, ◌||◌, Option, none, some, List,
  [], ◌∷◌, arith, ◌==◌, if◌then◌else◌, inl, inr, Bool-cases, any, ltb, Result, ok, err, ◌>>=◌,
  traverse,
}
use paper_collector_agent.Processor.Intake.{ParsedFileDocument}
use paper_collector_agent.FileParser.{
  FileParseRequest, NormalRequest, Paths, Failure, MineruResult, Archive, Client, normalize_request,
  group_requests, batches_of,
}
use paper_collector_agent.FileParser.Batches.{
  Parsed, nothing, format_error, built, build_document, parse_single, add_parsed, add_error,
  last_result, text_or, parse_result, parse_results, parse_batch, all_failed, settle, parse_batches,
  is_id, is_distinct, last_document, with_found, in_order, parse_normalized, parse_files_result,
}
use paper_collector_agent.FileParser.Groups.{
  hits, hits-append, any-hits, request_hits, batch_hits, batches_of-hits,
}

abbrev parsed_hits : ℕ → Parsed → ℕ
parsed_hits id p = hits (λ d. d.file_id) id p.documents + hits (λ e. e.0) id p.errors

-- A document carries the id of its request.
abbrev IsDocumentOf : NormalRequest → Result Failure ParsedFileDocument → Type 0
IsDocumentOf r (ok document) = document.file_id ≡ r.file_id
IsDocumentOf r (err f) = Unit

archive-IsDocumentOf :
    (r : NormalRequest) (reply : Result Failure Archive)
    → IsDocumentOf r (reply >>= λ archive. ok (built r archive))
unfolding built
archive-IsDocumentOf r (ok archive) = refl
archive-IsDocumentOf r (err f) = tt

build_document-IsDocumentOf :
    (client : Client) (r : NormalRequest) (result : MineruResult)
    → IsDocumentOf r (build_document client r result)
unfolding build_document
build_document-IsDocumentOf client r result =
    archive-IsDocumentOf r (client.read_archive r result.full_zip_url)

single-IsDocumentOf :
    (client : Client) (r : NormalRequest) (reply : Result Failure MineruResult)
    → IsDocumentOf r (reply >>= λ result. build_document client r result)
single-IsDocumentOf client r (ok result) = build_document-IsDocumentOf client r result
single-IsDocumentOf client r (err f) = tt

add_parsed-hits :
    (id : ℕ) (r : NormalRequest) (made : Result Failure ParsedFileDocument) (rest : Parsed)
    → IsDocumentOf r made
    → parsed_hits id (add_parsed r made rest) ≡ request_hits id (r ∷ []) + parsed_hits id rest
unfolding add_parsed
add_parsed-hits id r (ok document) rest h = ground (arith, h)
add_parsed-hits id r (err f) rest h = ground arith

add_error-hits :
    (id : ℕ) (r : NormalRequest) (text : String) (rest : Parsed)
    → parsed_hits id (add_error r text rest) ≡ request_hits id (r ∷ []) + parsed_hits id rest
unfolding add_error
add_error-hits id r text rest = ground arith

parse_result-hits :
    (id : ℕ) (client : Client) (r : NormalRequest) (found : Option MineruResult) (rest : Parsed)
    → parsed_hits id (parse_result client r found rest)
      ≡ request_hits id (r ∷ []) + parsed_hits id rest
unfolding parse_result
parse_result-hits id client r none rest = add_error-hits id r "MinerU batch result is missing" rest
parse_result-hits id client r (some result) rest = elim (Bool-cases result.is_failed) [
  | inl t ↦ rw t (add_error-hits id r (text_or result.err_msg "MinerU parsing failed") rest)
  | inr f ↦ rw f (
      add_parsed-hits id r (build_document client r result) rest
        (build_document-IsDocumentOf client r result))
]

parse_results-hits :
    (id : ℕ) (client : Client) (results : List MineruResult) (rs : List NormalRequest)
    → parsed_hits id (parse_results client results rs) ≡ request_hits id rs
unfolding parse_results
parse_results-hits id client results [] = omega arith
parse_results-hits id client results (r ∷ rs) =
    let first =
      parse_result-hits id client r (last_result r.file_id results)
        (parse_results client results rs) in
    let rest = parse_results-hits id client results rs in
    let whole = hits-append (λ x. x.file_id) id (r ∷ []) rs in omega arith

all_failed-hits :
    (id : ℕ) (text : String) (rs : List NormalRequest)
    → hits (λ e. e.0) id (all_failed text rs) ≡ request_hits id rs
unfolding all_failed
all_failed-hits id text [] = refl
all_failed-hits id text (r ∷ rs) = ground (arith, all_failed-hits id text rs)

settle-hits :
    (id : ℕ) (client : Client) (rs : List NormalRequest)
    (reply : Result Failure (List MineruResult))
    → parsed_hits id (settle rs (reply >>= λ results. ok (parse_results client results rs)))
      ≡ request_hits id rs
unfolding settle
settle-hits id client rs (ok results) = parse_results-hits id client results rs
settle-hits id client rs (err f) = omega (arith, all_failed-hits id (format_error f) rs)

parse_batch-hits :
    (id : ℕ) (client : Client) (rs : List NormalRequest)
    → parsed_hits id (settle rs (parse_batch client rs)) ≡ request_hits id rs
unfolding parse_batch settle parse_single
parse_batch-hits id client [] = settle-hits id client [] (client.parse_urls [])
parse_batch-hits id client (r ∷ []) =
    add_parsed-hits id r (parse_single client r) nothing
      (single-IsDocumentOf client r (client.parse_url r))
    ∙ omega arith
parse_batch-hits id client (r ∷ s ∷ rs) =
    settle-hits id client (r ∷ s ∷ rs) (client.parse_urls (r ∷ s ∷ rs))

parse_batches-hits :
    (id : ℕ) (client : Client) (batches : List (List NormalRequest))
    → parsed_hits id (parse_batches client batches) ≡ batch_hits id batches
unfolding parse_batches
parse_batches-hits id client [] = omega arith
parse_batches-hits id client (batch ∷ batches) =
    let parsed = settle batch (parse_batch client batch) in
    let rest = parse_batches client batches in
    let first = parse_batch-hits id client batch in
    let others = parse_batches-hits id client batches in
    let documents = hits-append (λ d. d.file_id) id parsed.documents rest.documents in
    let errors = hits-append (λ e. e.0) id parsed.errors rest.errors in omega arith

distinct-hits : (id : ℕ) (rs : List NormalRequest) → is_distinct rs ≡ true → request_hits id rs ≤ 1
distinct-hits id [] h = omega arith
distinct-hits id (r ∷ rs) h =
    let rest = distinct-hits id rs (ground (arith, h)) in
    elim (Bool-cases (r.file_id == id)) [
      | inl t ↦
          let same : r.file_id ≡ id = ground (arith, t) in
          let none_left = any-hits (λ x. x.file_id) r.file_id rs in
          let absent : any (is_id r.file_id) rs ≡ false = ground (arith, h) in
          let zero_left : request_hits r.file_id rs ≡ 0 = ground (arith, none_left, absent) in
          rw t (subst (λ n. 1 + request_hits n rs ≤ 1) same (omega (arith, zero_left)))
      | inr f ↦ rw f rest
    ]

abbrev pub has_document : ℕ → List ParsedFileDocument → Bool
has_document id documents = any (λ d. d.file_id == id) documents

abbrev Finds : ℕ → List ParsedFileDocument → Option ParsedFileDocument → Type 0
Finds id documents none = has_document id documents ≡ false
Finds id documents (some d) = (has_document id documents ≡ true) × (d.file_id ≡ id)

Finds-cons :
    (id : ℕ) (document : ParsedFileDocument) (documents : List ParsedFileDocument)
    (found : Option ParsedFileDocument)
    → Finds id documents found
    → Finds id (document ∷ documents) (elim found [
      | some d ↦ some d
      | none ↦ if document.file_id == id then some document else none
    ])
Finds-cons id document documents none h = elim (Bool-cases (document.file_id == id)) [
  | inl t ↦ rw (t, t) (refl, ground (arith, t))
  | inr f ↦ rw (f, f) h
]
Finds-cons id document documents (some d) h = (ground (arith, h.0), h.1)

last_document-Finds :
    (id : ℕ) (documents : List ParsedFileDocument) → Finds id documents (last_document id documents)
unfolding last_document
last_document-Finds id [] = refl
last_document-Finds id (document ∷ documents) =
    Finds-cons id document documents (last_document id documents) (last_document-Finds id documents)

with_found-has :
    (id own : ℕ) (documents rest : List ParsedFileDocument) (found : Option ParsedFileDocument)
    → Finds own documents found
    → has_document id (with_found found rest)
      ≡ ((own == id) && has_document id documents) || has_document id rest
with_found-has id own documents rest none h = elim (Bool-cases (own == id)) [
  | inl t ↦
      let same : own ≡ id = ground (arith, t) in
      let h' : has_document id documents ≡ false =
        subst (λ n. has_document n documents ≡ false) same h in
      rw (t, h') refl
  | inr f ↦ rw f refl
]
with_found-has id own documents rest (some d) h = elim (Bool-cases (own == id)) [
  | inl t ↦
      let same : own ≡ id = ground (arith, t) in
      let h' : has_document id documents ≡ true =
        subst (λ n. has_document n documents ≡ true) same h.0 in
      let t' : (d.file_id == id) ≡ true = ground (arith, h.1, t) in rw (t, h', t') refl
  | inr f ↦ let f' : (d.file_id == id) ≡ false = ground (arith, h.1, f) in rw (f, f') refl
]

in_order-has :
    (id : ℕ) (documents : List ParsedFileDocument) (rs : List NormalRequest)
    → has_document id (in_order documents rs) ≡ any (is_id id) rs && has_document id documents
unfolding in_order
in_order-has id documents [] = refl
in_order-has id documents (r ∷ rs) =
    with_found-has id r.file_id documents (in_order documents rs)
      (last_document r.file_id documents) (last_document-Finds r.file_id documents)
    ∙ ground (arith, in_order-has id documents rs)

-- A file is settled once: it has a document or an error, not both, exactly if it was requested.
abbrev pub Settles : List NormalRequest → Parsed → ℕ → Type 0
Settles rs parsed id =
    ((has_document id parsed.documents || any (λ e. e.0 == id) parsed.errors) ≡ any (is_id id) rs)
    × ((has_document id parsed.documents && any (λ e. e.0 == id) parsed.errors) ≡ false)

settled_once :
    (documents errors requests : ℕ) (has err_has asked : Bool)
    → documents + errors ≡ requests
    → requests ≤ 1
    → has ≡ ltb 0 documents
    → err_has ≡ ltb 0 errors
    → asked ≡ ltb 0 requests
    → (((asked && has) || err_has) ≡ asked) × (((asked && has) && err_has) ≡ false)
settled_once documents errors requests has err_has asked sum few a b c =
    (ground arith, ground arith)

pub parse_normalized-Settles :
    (client : Client) (size : ℕ) (rs : List NormalRequest)
    → 0 < size
    → is_distinct rs ≡ true
    → (id : ℕ) → Settles rs (parse_normalized client size rs) id
unfolding parse_normalized
parse_normalized-Settles client size rs h distinct id =
    let parsed = parse_batches client (batches_of size (group_requests rs [])) in
    let sum =
      parse_batches-hits id client (batches_of size (group_requests rs []))
      ∙ batches_of-hits id size rs h in
    let once =
      settled_once (hits (λ d. d.file_id) id parsed.documents) (hits (λ e. e.0) id parsed.errors)
        (request_hits id rs) (has_document id parsed.documents) (any (λ e. e.0 == id) parsed.errors)
        (any (is_id id) rs) sum (distinct-hits id rs distinct)
        (any-hits (λ d. d.file_id) id parsed.documents) (any-hits (λ e. e.0) id parsed.errors)
        (any-hits (λ r. r.file_id) id rs) in
    rw (in_order-has id parsed.documents rs) once

-- For batches of at least one file and requests whose types are known, with distinct ids,
-- `parse_files_result` returns; whatever the client replies, each file that was requested then has a
-- document or an error, and not both, and no other file has one.
pub parse_files_result_lem :
    (client : Client) (paths : Paths) (size : ℕ) (requests : List FileParseRequest)
    (normalized : List NormalRequest)
    → 0 < size
    → traverse (normalize_request paths) requests ≡ ok normalized
    → is_distinct normalized ≡ true
    → (parsed : Parsed) × (parse_files_result client paths size requests ≡ ok parsed)
      × ((id : ℕ) → Settles normalized parsed id)
unfolding parse_files_result
parse_files_result_lem client paths size [] normalized h e distinct =
    let same : [] ≡ normalized = cc in
    (nothing, refl, λ id. subst (λ rs. Settles rs nothing id) same (refl, refl))
parse_files_result_lem client paths size (r ∷ requests) normalized h e distinct = (
  parse_normalized client size normalized,
  rw (e, distinct) refl,
  parse_normalized-Settles client size normalized h distinct,
)
