-- ===== src/FileParser/Groups.antt =====
-- How often a request stands in the batches of `parse_files_result`.
use paper_collector_agent.Prelude.{
  ℕ, zero, suc, ◌+◌, ◌≤◌, ◌<◌, ◌≡◌, refl, ap, ◌∙◌, List, [], ◌∷◌, ◌++◌, arith, ◌==◌, if◌then◌else◌,
  inl, inr, Bool-cases, any, length, take, drop, take-append-drop, ltb,
}
use paper_collector_agent.FileParser.{
  NormalRequest, GroupKey, key_of, same_key, add_to_group, group_requests, chunked, batches_of,
}

-- How often a key occurs.
abbrev pub hits : {A : Type 0} → (A → ℕ) → ℕ → List A → ℕ
hits key id [] = 0
hits key id (x ∷ xs) = let rest = hits key id xs in if key x == id then 1 + rest else rest

module _ {A : Type 0} (key : A → ℕ) (id : ℕ) where
  pub hits-append : (xs ys : List A) → hits key id (xs ++ ys) ≡ hits key id xs + hits key id ys
  hits-append [] ys = omega arith
  hits-append (x ∷ xs) ys = ground (arith, hits-append xs ys)

  -- Whether a key occurs at all.
  pub any-hits : (xs : List A) → any (λ x. key x == id) xs ≡ ltb 0 (hits key id xs)
  any-hits [] = refl
  any-hits (x ∷ xs) = ground (arith, any-hits xs)

abbrev pub request_hits : ℕ → List NormalRequest → ℕ
request_hits id rs = hits (λ r. r.file_id) id rs

abbrev pub batch_hits : ℕ → List (List NormalRequest) → ℕ
batch_hits id [] = 0
batch_hits id (batch ∷ batches) = request_hits id batch + batch_hits id batches

abbrev group_hits : ℕ → List (GroupKey × List NormalRequest) → ℕ
group_hits id [] = 0
group_hits id ((key, group) ∷ groups) = request_hits id group + group_hits id groups

batch_hits-append :
    (id : ℕ) (xs ys : List (List NormalRequest))
    → batch_hits id (xs ++ ys) ≡ batch_hits id xs + batch_hits id ys
batch_hits-append id [] ys = omega arith
batch_hits-append id (x ∷ xs) ys = omega (arith, batch_hits-append id xs ys)

add_to_group-hits :
    (id : ℕ) (r : NormalRequest) (groups : List (GroupKey × List NormalRequest))
    → group_hits id (add_to_group r groups) ≡ request_hits id (r ∷ []) + group_hits id groups
unfolding add_to_group
add_to_group-hits id r [] = omega arith
add_to_group-hits id r ((key, group) ∷ groups) = elim (Bool-cases (same_key key (key_of r))) [
  | inl t ↦ rw t (omega (arith, hits-append (λ x. x.file_id) id group (r ∷ [])))
  | inr f ↦ rw f (omega (arith, add_to_group-hits id r groups))
]

group_requests-hits :
    (id : ℕ) (rs : List NormalRequest) (groups : List (GroupKey × List NormalRequest))
    → group_hits id (group_requests rs groups) ≡ request_hits id rs + group_hits id groups
unfolding group_requests
group_requests-hits id [] groups = omega arith
group_requests-hits id (r ∷ rs) groups =
    let rest = group_requests-hits id rs (add_to_group r groups) in
    let first = add_to_group-hits id r groups in
    let split = hits-append (λ x. x.file_id) id (r ∷ []) rs in omega arith

dropped :
    (n : ℕ) (rs : List NormalRequest) (fuel : ℕ) → length rs ≤ fuel → length (drop n rs) ≤ fuel
dropped zero rs fuel k = k
dropped (suc n) [] fuel k = k
dropped (suc n) (r ∷ rs) fuel k = dropped n rs fuel (omega (arith, k))

drop_le :
    (n fuel : ℕ) (r : NormalRequest) (rs : List NormalRequest)
    → 0 < n
    → length (r ∷ rs) ≤ suc fuel
    → length (drop n (r ∷ rs)) ≤ fuel
drop_le zero fuel r rs h k = let no : ⊥ = omega (arith, h) in absurd no
drop_le (suc n) fuel r rs h k = dropped n rs fuel (omega (arith, k))

chunked-hits :
    (id fuel size : ℕ) (rs : List NormalRequest)
    → 0 < size
    → length rs ≤ fuel
    → batch_hits id (chunked fuel size rs) ≡ request_hits id rs
unfolding chunked
chunked-hits id fuel size [] h k = refl
chunked-hits id zero size (r ∷ rs) h k = let no : ⊥ = omega (arith, k) in absurd no
chunked-hits id (suc fuel) size (r ∷ rs) h k =
    let rest = chunked-hits id fuel size (drop size (r ∷ rs)) h (drop_le size fuel r rs h k) in
    let parts = hits-append (λ x. x.file_id) id (take size (r ∷ rs)) (drop size (r ∷ rs)) in
    let whole = ap (request_hits id) (take-append-drop size (r ∷ rs)) in omega arith

batches-hits :
    (id size : ℕ) (groups : List (GroupKey × List NormalRequest))
    → 0 < size
    → batch_hits id (batches_of size groups) ≡ group_hits id groups
unfolding batches_of
batches-hits id size [] h = refl
batches-hits id size ((key, group) ∷ groups) h =
    let first = chunked-hits id (length group) size group h (omega arith) in
    let rest = batches-hits id size groups h in
    let both = batch_hits-append id (chunked (length group) size group) (batches_of size groups) in
    omega arith

-- Batches of at least one file: each request is in as many of them as it stands in the list.
pub batches_of-hits :
    (id size : ℕ) (rs : List NormalRequest)
    → 0 < size
    → batch_hits id (batches_of size (group_requests rs [])) ≡ request_hits id rs
batches_of-hits id size rs h =
    batches-hits id size (group_requests rs []) h ∙ group_requests-hits id rs [] ∙ omega arith
