-- ===== src/Broadcast/Cursor.antt =====
-- app/events/handlers/ipc_event_broadcaster.py: the cursor of `iter_events` over the rows of a run.
use paper_collector_agent.Prelude.{
  ℕ, ◌<◌, ◌≤◌, ◌≡◌, refl, ap, ◌∙◌, Bool, true, false, Option, none, some, List, [], ◌∷◌, ◌++◌,
  arith, All, select, Result, ok, traverse, inl, inr, Bool-cases, >>=-eq-ok,
}
use paper_collector_agent.StreamEvents.{Row, AgentStreamEvent, StreamError, is_after, from_row}
use paper_collector_agent.StreamEvents.Reading.{IsRising}
use paper_collector_agent.Broadcast.{advance}

-- The cursor behind these rows.
abbrev pub cursor_of : List Row → Option ℕ → Option ℕ
cursor_of [] cursor = cursor
cursor_of (r ∷ rows) cursor = cursor_of rows (some r.sequence)

pub cursor_of-append :
    (xs ys : List Row) (cursor : Option ℕ)
    → cursor_of (xs ++ ys) cursor ≡ cursor_of ys (cursor_of xs cursor)
cursor_of-append [] ys cursor = refl
cursor_of-append (x ∷ xs) ys cursor = cursor_of-append xs ys (some x.sequence)

-- The row can be read.
abbrev pub IsReadable : Row → Type 0
IsReadable r = (event : AgentStreamEvent) × (from_row r ≡ ok event)

sequence-from_row :
    (r : Row) (event : AgentStreamEvent) → from_row r ≡ ok event → event.sequence ≡ r.sequence
unfolding from_row
sequence-from_row r event e = ground arith

-- Readable rows are read, and the cursor moves behind them.
pub read_rows :
    (rows : List Row) (cursor : Option ℕ)
    → All IsReadable rows
    → (events : List AgentStreamEvent) × (traverse from_row rows ≡ ok events)
      × (advance events cursor ≡ cursor_of rows cursor)
unfolding advance
read_rows [] cursor h = ([], refl, refl)
read_rows (r ∷ rows) cursor h =
    let (event, e) = h.0 in
    let (events, es, moved) = read_rows rows (some r.sequence) h.1 in
    (event ∷ events, rw (e, es) refl, rw (sequence-from_row r event e) moved)

ok_eq : {A : Type 0} {x y : A} → ◌≡◌ {A = Result StreamError A} (ok x) (ok y) → x ≡ y
ok_eq h = cc

pub traverse-append :
    (xs ys : List Row) (events more : List AgentStreamEvent)
    → traverse from_row xs ≡ ok events
    → traverse from_row ys ≡ ok more
    → traverse from_row (xs ++ ys) ≡ ok (events ++ more)
traverse-append [] ys events more h k = k ∙ ap (λ es. ok (es ++ more)) (ok_eq h)
traverse-append (x ∷ xs) ys events more h k =
    let (event, e, h1) = >>=-eq-ok (from_row x) _ h in
    let (rest, es, h2) = >>=-eq-ok (traverse from_row xs) _ h1 in
    rw (e, traverse-append xs ys rest more es k) (ap (λ all. ok (all ++ more)) (ok_eq h2))

All-after :
    (k : ℕ) (rows : List Row)
    → All (λ s. k < s.sequence) rows
    → All (λ s. is_after (some k) s ≡ true) rows
unfolding is_after
All-after k [] h = tt
All-after k (r ∷ rows) h = (ground (arith, h.0), All-after k rows h.1)

-- Behind a later cursor there is nothing that is not behind an earlier one.
pub behind :
    (rows : List Row) (cursor : Option ℕ) (x : Row)
    → IsRising rows
    → All (λ r. is_after cursor r ≡ true) rows
    → is_after (cursor_of rows cursor) x ≡ true
    → is_after cursor x ≡ true
unfolding is_after
behind [] cursor x h a e = e
behind (r ∷ rows) none x h a e = refl
behind (r ∷ rows) (some k) x h a e =
    let later = behind rows (some r.sequence) x h.1 (All-after r.sequence rows h.0) e in
    ground (arith, a.0, later)

-- A row at or before the cursor is not read again.
not_again :
    (rows : List Row) (k : ℕ) (x : Row)
    → IsRising rows
    → All (λ s. k < s.sequence) rows
    → x.sequence ≤ k
    → is_after (cursor_of rows (some k)) x ≡ false
unfolding is_after
not_again [] k x h a le = ground arith
not_again (s ∷ rows) k x h a le = not_again rows s.sequence x h.1 h.0 (omega (arith, a.0))

select-All {ℓ} :
    {A : Type ℓ} (p : A → Bool) (xs : List A) → All (λ x. p x ≡ true) xs → select p xs ≡ xs
select-All p [] h = refl
select-All p (x ∷ xs) h = rw (h.0, select-All p xs h.1)

pub All-left {ℓ κ} : {A : Type ℓ} (P : A → Type κ) (xs ys : List A) → All P (xs ++ ys) → All P xs
All-left P [] ys h = tt
All-left P (x ∷ xs) ys h = (h.0, All-left P xs ys h.1)

pub IsRising-left : (xs ys : List Row) → IsRising (xs ++ ys) → IsRising xs
IsRising-left [] ys h = tt
IsRising-left (x ∷ xs) ys h = (All-left _ xs ys h.0, IsRising-left xs ys h.1)

-- Behind the cursor of a first part stands the second part.
pub cut :
    (xs ys : List Row) (cursor : Option ℕ)
    → IsRising (xs ++ ys)
    → All (λ r. is_after cursor r ≡ true) (xs ++ ys)
    → select (is_after (cursor_of xs cursor)) (xs ++ ys) ≡ ys
cut [] ys cursor h a = select-All _ ys a
cut (x ∷ xs) ys cursor h a =
    rw
      (
        not_again xs x.sequence x (IsRising-left xs ys h.1) (All-left _ xs ys h.0) (omega arith),
        cut xs ys (some x.sequence) h.1 (All-after x.sequence (xs ++ ys) h.0),
      )
      refl

pub select-absorb :
    (p q : Row → Bool) (rows : List Row)
    → ((r : Row) → q r ≡ true → p r ≡ true)
    → select q (select p rows) ≡ select q rows
select-absorb p q [] h = refl
select-absorb p q (r ∷ rows) h = ground (arith, h r, select-absorb p q rows h)

pub All-selected {ℓ} :
    {A : Type ℓ} (p : A → Bool) (xs : List A) → All (λ x. p x ≡ true) (select p xs)
All-selected p [] = tt
All-selected p (x ∷ xs) = elim (Bool-cases (p x)) [
  | inl e ↦ rw e (e, All-selected p xs)
  | inr e ↦ rw e (All-selected p xs)
]
