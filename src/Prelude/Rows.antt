-- ===== src/Prelude/Rows.antt =====
-- Rows of a table: the assignments and deletions that an ORM object stands for, and pairs of rows.
use mathlib.Core.Path.{◌≡◌, refl, sym, ap, subst}
use mathlib.Core.Logic.{inl, inr}
use mathlib.Core.Bool.{Bool, true, false}
use mathlib.Core.List.{List, [], ◌∷◌, ◌++◌}
use mathlib.Core.Option.{none, some}
use native.Mathlib.Omega.{arith}
use paper_collector_agent.Prelude.Tests.{if◌then◌else◌, Bool-cases}
use paper_collector_agent.Prelude.Lists.{All, All-append, All-select, select, find_first}

-- An assignment to the fields of the row that a query with this test returned.
abbrev pub update_first {ℓ} : {A : Type ℓ} → (A → Bool) → (A → A) → List A → List A
update_first p f [] = []
update_first p f (x ∷ xs) = let rest = update_first p f xs in if p x then f x ∷ xs else x ∷ rest

-- An assignment to the fields of every row that a query returned.
abbrev pub update_each {ℓ} : {A : Type ℓ} → (A → Bool) → (A → A) → List A → List A
update_each p f [] = []
update_each p f (x ∷ xs) = let rest = update_each p f xs in if p x then f x ∷ rest else x ∷ rest

-- `db.delete(conversation)`: the row that the query returned.
abbrev pub remove_first {ℓ} : {A : Type ℓ} → (A → Bool) → List A → List A
remove_first p [] = []
remove_first p (x ∷ xs) = let rest = remove_first p xs in if p x then xs else x ∷ rest

pub All-find_first {ℓ κ} :
    {A : Type ℓ} (P : A → Type κ) (p : A → Bool) (xs : List A) (x : A)
    → All P xs
    → find_first p xs ≡ some x
    → P x
All-find_first P p [] x h e = cc
All-find_first P p (y ∷ xs) x h e = elim (Bool-cases (p y)) [
  | inl t ↦ let q : y ≡ x = ground (arith, t) in subst P q h.0
  | inr f ↦ All-find_first P p xs x h.1 (ground (arith, f))
]

-- The relation holds between every row and each one behind it.
abbrev pub Pairwise {ℓ κ} : {A : Type ℓ} → (A → A → Type κ) → List A → Type κ
Pairwise R [] = Unit
Pairwise R (x ∷ xs) = All (R x) xs × Pairwise R xs

module _ {ℓ} {A : Type ℓ} where
  pub find_first-true : (p : A → Bool) (xs : List A) (x : A) → find_first p xs ≡ some x → p x ≡ true
  find_first-true p [] x h = cc
  find_first-true p (y ∷ xs) x h = elim (Bool-cases (p y)) [
    | inl e ↦ ground (arith, e)
    | inr e ↦ find_first-true p xs x (ground (arith, e))
  ]

  pub find_first-none :
      (p : A → Bool) (xs : List A) → find_first p xs ≡ none → All (λ x. p x ≡ false) xs
  find_first-none p [] h = tt
  find_first-none p (y ∷ xs) h = elim (Bool-cases (p y)) [
    | inl e ↦ let no : ⊥ = ground (arith, e, h) in absurd no
    | inr e ↦ (e, find_first-none p xs (ground (arith, e, h)))
  ]

  -- The object that a query returned carries the assignment.
  pub find_first-update_first :
      (p : A → Bool) (f : A → A) (xs : List A) (x : A)
      → find_first p xs ≡ some x
      → p (f x) ≡ true
      → find_first p (update_first p f xs) ≡ some (f x)
  find_first-update_first p f [] x h k = cc
  find_first-update_first p f (y ∷ xs) x h k = elim (Bool-cases (p y)) [
    | inl e ↦ ground (arith, e)
    | inr e ↦ rw (e, e) (find_first-update_first p f xs x (ground (arith, e)) k)
  ]

  -- A change of the first row that passes a narrower test, when the first row of the wider one does.
  pub find_first-update_narrow :
      (p q : A → Bool) (f : A → A) (xs : List A) (x : A)
      → ((y : A) → q y ≡ true → p y ≡ true)
      → find_first p xs ≡ some x
      → q x ≡ true
      → p (f x) ≡ true
      → find_first p (update_first q f xs) ≡ some (f x)
  find_first-update_narrow p q f [] x n h t k = cc
  find_first-update_narrow p q f (y ∷ xs) x n h t k = elim (Bool-cases (p y)) [
    | inl e ↦
        let same : y ≡ x = ground (arith, e, h) in
        let e' : q y ≡ true = subst (λ z. q z ≡ true) (sym same) t in
        let k' : p (f y) ≡ true = subst (λ z. p (f z) ≡ true) (sym same) k in
        rw (e', k') (ap (λ z. some (f z)) same)
    | inr e ↦ elim (Bool-cases (q y)) [
      | inl t' ↦ let no : p y ≡ true = n y t' in cc
      | inr f' ↦ rw (f', e) (find_first-update_narrow p q f xs x n (ground (arith, e, h)) t k)
    ]
  ]

  -- The row that a change of the row with its key leaves.
  pub find_first-update_same :
      (p q : A → Bool) (change : A → A) (xs : List A) (x : A)
      → find_first p xs ≡ some x
      → find_first q xs ≡ some x
      → p (change x) ≡ true
      → find_first p (update_first q change xs) ≡ some (change x)
  find_first-update_same p q change [] x e k h = cc
  find_first-update_same p q change (y ∷ xs) x e k h = elim (Bool-cases (q y)) [
    | inl t ↦
        let same : y ≡ x = ground (arith, t, k) in
        let here : p (change y) ≡ true = subst (λ z. p (change z) ≡ true) (sym same) h in
        rw (t, here) (ap (λ z. some (change z)) same)
    | inr f ↦ elim (Bool-cases (p y)) [
      | inl t ↦
          let same : y ≡ x = ground (arith, t, e) in
          let behind : find_first q xs ≡ some x = ground (arith, f, k) in
          let no : q y ≡ true = rw same (find_first-true q xs x behind) in cc
      | inr g ↦
          rw (f, g)
            (find_first-update_same p q change xs x (ground (arith, g, e)) (ground (arith, f, k)) h)
    ]
  ]

  pub find_first-snoc :
      (p : A → Bool) (xs : List A) (x : A)
      → find_first p xs ≡ none
      → p x ≡ true
      → find_first p (xs ++ x ∷ []) ≡ some x
  find_first-snoc p [] x h t = rw t refl
  find_first-snoc p (y ∷ xs) x h t = elim (Bool-cases (p y)) [
    | inl e ↦ let no : ⊥ = ground (arith, e, h) in absurd no
    | inr e ↦ rw e (find_first-snoc p xs x (ground (arith, e, h)) t)
  ]

module _ {ℓ κ} {A : Type ℓ} (P : A → Type κ) (p : A → Bool) (f : A → A) where
  pub All-update_first :
      (xs : List A)
      → ((x : A) → find_first p xs ≡ some x → P x → P (f x))
      → All P xs
      → All P (update_first p f xs)
  All-update_first [] keep h = h
  All-update_first (x ∷ xs) keep h = elim (Bool-cases (p x)) [
    | inl e ↦ rw e (keep x (rw e refl) h.0, h.1)
    | inr e ↦ rw e (h.0, All-update_first xs (λ y q. keep y (rw e q)) h.1)
  ]

  pub All-update_each :
      (xs : List A) → ((x : A) → P x → P (f x)) → All P xs → All P (update_each p f xs)
  All-update_each [] keep h = h
  All-update_each (x ∷ xs) keep h = elim (Bool-cases (p x)) [
    | inl e ↦ rw e (keep x h.0, All-update_each xs keep h.1)
    | inr e ↦ rw e (h.0, All-update_each xs keep h.1)
  ]

  pub All-remove_first : (xs : List A) → All P xs → All P (remove_first p xs)
  All-remove_first [] h = h
  All-remove_first (x ∷ xs) h = elim (Bool-cases (p x)) [
    | inl e ↦ rw e h.1
    | inr e ↦ rw e (h.0, All-remove_first xs h.1)
  ]

pub All-map {ℓ κ μ} :
    {A : Type ℓ} (P : A → Type κ) (Q : A → Type μ) (xs : List A)
    → ((x : A) → P x → Q x)
    → All P xs
    → All Q xs
All-map P Q [] f h = tt
All-map P Q (x ∷ xs) f h = (f x h.0, All-map P Q xs f h.1)

pub All-both {ℓ κ μ ν} :
    {A : Type ℓ} (P : A → Type κ) (Q : A → Type μ) (S : A → Type ν) (xs : List A)
    → ((x : A) → P x → Q x → S x)
    → All P xs
    → All Q xs
    → All S xs
All-both P Q S [] f h k = tt
All-both P Q S (x ∷ xs) f h k = (f x h.0 k.0, All-both P Q S xs f h.1 k.1)

module _ {ℓ κ} {A : Type ℓ} (R : A → A → Type κ) (p : A → Bool) (f : A → A) where
  -- A change of the first row that passes the test, which keeps the relation on both sides.
  pub Pairwise-update_first :
      (xs : List A)
      → ((x y : A) → find_first p xs ≡ some x → R x y → R (f x) y)
      → ((x y : A) → find_first p xs ≡ some x → R y x → R y (f x))
      → Pairwise R xs
      → Pairwise R (update_first p f xs)
  Pairwise-update_first [] left right h = h
  Pairwise-update_first (x ∷ xs) left right h = elim (Bool-cases (p x)) [
    | inl e ↦ rw e (All-map (R x) (R (f x)) xs (λ y. left x y (rw e refl)) h.0, h.1)
    | inr e ↦ rw e (
      All-update_first (R x) p f xs (λ y q. right y x (rw e q)) h.0,
      Pairwise-update_first xs (λ y z q. left y z (rw e q)) (λ y z q. right y z (rw e q)) h.1,
    )
  ]

  -- A change of every row that passes the test.
  pub Pairwise-update_each :
      (xs : List A)
      → ((x y : A) → R x y → R (f x) y)
      → ((x y : A) → R x y → R x (f y))
      → Pairwise R xs
      → Pairwise R (update_each p f xs)
  Pairwise-update_each [] left right h = h
  Pairwise-update_each (x ∷ xs) left right h = elim (Bool-cases (p x)) [
    | inl e ↦ rw e (
      All-update_each (R (f x)) p f xs (right (f x)) (All-map (R x) (R (f x)) xs (left x) h.0),
      Pairwise-update_each xs left right h.1,
    )
    | inr e ↦
        rw e (All-update_each (R x) p f xs (right x) h.0, Pairwise-update_each xs left right h.1)
  ]

module _ {ℓ κ} {A : Type ℓ} (R : A → A → Type κ) where
  pub Pairwise-select : (p : A → Bool) (xs : List A) → Pairwise R xs → Pairwise R (select p xs)
  Pairwise-select p [] h = h
  Pairwise-select p (x ∷ xs) h = elim (Bool-cases (p x)) [
    | inl e ↦ rw e (All-select (R x) p xs h.0, Pairwise-select p xs h.1)
    | inr e ↦ rw e (Pairwise-select p xs h.1)
  ]

  pub Pairwise-remove_first :
      (p : A → Bool) (xs : List A) → Pairwise R xs → Pairwise R (remove_first p xs)
  Pairwise-remove_first p [] h = h
  Pairwise-remove_first p (x ∷ xs) h = elim (Bool-cases (p x)) [
    | inl e ↦ rw e h.1
    | inr e ↦ rw e (All-remove_first (R x) p (λ y. y) xs h.0, Pairwise-remove_first p xs h.1)
  ]

  pub Pairwise-snoc :
      (xs : List A) (x : A) → Pairwise R xs → All (λ y. R y x) xs → Pairwise R (xs ++ x ∷ [])
  Pairwise-snoc [] x h b = (tt, tt)
  Pairwise-snoc (y ∷ xs) x h b =
      (All-append (R y) xs (x ∷ []) h.0 (b.0, tt), Pairwise-snoc xs x h.1 b.1)
