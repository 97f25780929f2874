-- ===== src/StreamEvents/Reading.antt =====
-- What the queries of the event log return.
use paper_collector_agent.Prelude.{
  ℕ, ◌<◌, String, ◌≡◌, refl, Bool, true, false, ◌&&◌, Option, none, some, List, [], ◌∷◌, ◌++◌,
  arith, eq_iff, All, All-select, select, select-append, inl, inr, Bool-cases, Option-cases, take,
  ltb, traverse, if◌then◌else◌,
}
use mathlib.Core.List.{append-nil}
use paper_collector_agent.Json.{Fields}
use paper_collector_agent.StreamEvents.{
  Row, Table, in_run, is_after, from_row, insert, new_row, list_after, insert_by_sequence,
  order_by_sequence, last_by_sequence,
}
use paper_collector_agent.StreamEvents.Order.{Before, IsOrdered, IsValid}

-- The rows of one run, in the order in which they were written.
unfoldable pub stream : String → String → Table → List Row
stream user_id run_id t = select (in_run user_id run_id) t.rows

-- The sequence numbers rise.
abbrev pub IsRising : List Row → Type 0
IsRising [] = Unit
IsRising (r ∷ rows) = All (λ s. r.sequence < s.sequence) rows × IsRising rows

All-rising :
    (user_id run_id : String) (r : Row) (rows : List Row)
    → in_run user_id run_id r ≡ true
    → All (Before r) rows
    → All (λ s. r.sequence < s.sequence) (select (in_run user_id run_id) rows)
unfolding in_run
All-rising user_id run_id r [] e h = tt
All-rising user_id run_id r (s ∷ rows) e h = elim (Bool-cases (in_run user_id run_id s)) [
  | inl p ↦ rw p (
    h.0.sequences (
        ground (
          arith,
          eq_iff user_id r.user_id,
          eq_iff run_id r.run_id,
          eq_iff r.user_id user_id,
          eq_iff r.run_id run_id,
        )),
    All-rising user_id run_id r rows e h.1,
  )
  | inr p ↦ rw p (All-rising user_id run_id r rows e h.1)
]

IsRising-of_ordered :
    (user_id run_id : String) (rows : List Row)
    → IsOrdered rows
    → IsRising (select (in_run user_id run_id) rows)
IsRising-of_ordered user_id run_id [] h = tt
IsRising-of_ordered user_id run_id (r ∷ rows) h = elim (Bool-cases (in_run user_id run_id r)) [
  | inl p ↦
      rw p (All-rising user_id run_id r rows p h.0, IsRising-of_ordered user_id run_id rows h.1)
  | inr p ↦ rw p (IsRising-of_ordered user_id run_id rows h.1)
]

-- In a valid table the sequence numbers of a run rise strictly: no two events share one.
pub stream-IsRising :
    (user_id run_id : String) (t : Table) → IsValid t → IsRising (stream user_id run_id t)
unfolding stream
stream-IsRising user_id run_id t v = IsRising-of_ordered user_id run_id t.rows v.ordered

pub order-rising : (rows : List Row) → IsRising rows → order_by_sequence rows ≡ rows
unfolding order_by_sequence insert_by_sequence
order-rising [] h = refl
order-rising (r ∷ []) h = refl
order-rising (r ∷ s ∷ rows) h = rw (order-rising (s ∷ rows) h.1) (ground (arith, h.0.0))

pub select-select :
    (p q : Row → Bool) (rows : List Row) → select (λ r. p r && q r) rows ≡ select q (select p rows)
select-select p q [] = refl
select-select p q (r ∷ rows) = ground (arith, select-select p q rows)

pub IsRising-select : (p : Row → Bool) (rows : List Row) → IsRising rows → IsRising (select p rows)
IsRising-select p [] h = h
IsRising-select p (r ∷ rows) h = elim (Bool-cases (p r)) [
  | inl e ↦ rw e (All-select (λ s. r.sequence < s.sequence) p rows h.0, IsRising-select p rows h.1)
  | inr e ↦ rw e (IsRising-select p rows h.1)
]

-- What is left to read behind a cursor.
unfoldable pub remaining : String → String → Option ℕ → Table → List Row
unfolding stream
remaining user_id run_id after t = select (is_after after) (stream user_id run_id t)

-- In a valid table, `list_after` with a positive limit returns the first `limit` events of the run
-- behind the cursor, in the order of writing.
pub list_after_lem :
    (user_id run_id : String) (after : Option ℕ) (limit : ℕ) (t : Table)
    → IsValid t
    → 0 < limit
    → list_after user_id run_id after limit t
      ≡ traverse from_row (take limit (remaining user_id run_id after t))
unfolding list_after remaining
list_after_lem user_id run_id after limit t v h =
    let e : ltb limit 1 ≡ false = ground arith in
    rw
      (
        e,
        select-select (in_run user_id run_id) (is_after after) t.rows,
        order-rising _ (
            IsRising-select (is_after after) (stream user_id run_id t)
              (stream-IsRising user_id run_id t v)),
      )
      refl

-- The last element of a list.
unfoldable pub last {ℓ} : {A : Type ℓ} → List A → Option A
last [] = none
last (x ∷ xs) = elim (last xs) [ none ↦ some x | some y ↦ some y ]

pub last-snoc {ℓ} : {A : Type ℓ} (xs : List A) (x : A) → last (xs ++ x ∷ []) ≡ some x
unfolding last
last-snoc [] x = refl
last-snoc (y ∷ xs) x = rw (last-snoc xs x)

pub above_last :
    (m : ℕ) (rows : List Row) (y : Row)
    → All (λ s. m < s.sequence) rows
    → last rows ≡ some y
    → m < y.sequence
unfolding last
above_last m [] y h e = cc
above_last m (r ∷ []) y h e = ground (arith, h.0)
above_last m (r ∷ s ∷ rows) y h e = above_last m (s ∷ rows) y h.1 (ground arith)

last-cons-cons {ℓ} : {A : Type ℓ} (x y : A) (xs : List A) → last (x ∷ y ∷ xs) ≡ last (y ∷ xs)
unfolding last
last-cons-cons x y xs = ground arith

pub last_of_rising : (rows : List Row) → IsRising rows → last_by_sequence rows ≡ last rows
unfolding last_by_sequence last
last_of_rising [] h = refl
last_of_rising (r ∷ []) h = refl
last_of_rising (r ∷ s ∷ rows) h =
    rw (last-cons-cons r s rows) (elim (Option-cases (last (s ∷ rows))) [
      | inl e ↦ absurd (ground arith)
      | inr (y, e) ↦
          let ih = last_of_rising (s ∷ rows) h.1 in
          let above = above_last r.sequence (s ∷ rows) y h.0 e in ground arith
    ])

-- What `insert` appends is what the run's stream gains; the other runs' streams stay as they are.
pub stream-insert :
    (user_id conversation_id run_id event_name : String) (fields : Fields) (t : Table)
    (user_id' run_id' : String)
    → stream user_id' run_id' (insert user_id conversation_id run_id event_name fields t).1 ≡ (
        if in_run user_id' run_id' (new_row user_id conversation_id run_id event_name fields t)
        then stream user_id' run_id' t
          ++ new_row user_id conversation_id run_id event_name fields t ∷ []
        else stream user_id' run_id' t)
unfolding stream insert
stream-insert user_id conversation_id run_id event_name fields t user_id' run_id' =
    rw
      (select-append (in_run user_id' run_id') t.rows
        (new_row user_id conversation_id run_id event_name fields t ∷ []))
      (ground (arith, append-nil (select (in_run user_id' run_id') t.rows)))
