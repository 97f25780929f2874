-- ===== src/Broadcast/Delivery.antt =====
-- What a follower of a run receives, whatever is written while it reads.
use mathlib.Core.List.{append_assoc}
use paper_collector_agent.Prelude.{
  ℕ, zero, suc, String, ◌≡◌, refl, sym, ap, ◌∙◌, true, Option, List, [], ◌∷◌, ◌++◌, arith, All,
  All-append, All-select, select, select-append, take, drop, take-append-drop, ok, traverse, inl,
  inr, Bool-cases,
}
use paper_collector_agent.Json.{Fields}
use paper_collector_agent.StreamEvents.{Row, Table, in_run, is_after, from_row, new_row, insert}
use paper_collector_agent.StreamEvents.Order.{IsValid, insert-IsValid}
use paper_collector_agent.StreamEvents.Reading.{
  stream, stream-IsRising, stream-insert, IsRising, IsRising-select, remaining, list_after_lem,
}
use paper_collector_agent.Broadcast.{Follower, Step, write, read, advance, poll, follow}
use paper_collector_agent.Broadcast.Cursor.{
  cursor_of, cursor_of-append, IsReadable, read_rows, traverse-append, behind, cut, select-absorb,
  All-selected, All-left, IsRising-left,
}

-- What a follower of the run yielded, and what stands behind its cursor, are together what stood
-- behind the cursor it began with, in this order.
pub record Follows (user_id root_run_id : String) (start : Option ℕ) (t : Table) (f : Follower)
    : Type 0 where
  pub rows : List Row
  pub rest : List Row
  pub yielded : traverse from_row rows ≡ ok f.yielded
  pub cursor : f.cursor ≡ cursor_of rows start
  pub whole : remaining user_id root_run_id start t ≡ rows ++ rest

-- The rest stands behind the follower's cursor.
pub rest-remaining :
    (user_id root_run_id : String) (start : Option ℕ) (t : Table) (f : Follower)
    (h : Follows user_id root_run_id start t f)
    → IsValid t
    → remaining user_id root_run_id f.cursor t ≡ h.rest
unfolding remaining
rest-remaining user_id root_run_id start t f h v =
    let rising = IsRising-select (is_after start) _ (stream-IsRising user_id root_run_id t v) in
    let after = All-selected (is_after start) (stream user_id root_run_id t) in
    let rising' : IsRising (h.rows ++ h.rest) = rw (← h.whole) rising in
    let after' : All (λ r. is_after start r ≡ true) (h.rows ++ h.rest) = rw (← h.whole) after in
    rw h.cursor (
      sym (
        select-absorb (is_after start) (is_after (cursor_of h.rows start))
          (stream user_id root_run_id t)
          (λ x.
            behind h.rows start x (IsRising-left h.rows h.rest rising')
              (All-left _ h.rows h.rest after')))
      ∙ ap (select (is_after (cursor_of h.rows start))) h.whole
      ∙ cut h.rows h.rest start rising' after')

All-take {ℓ κ} : {A : Type ℓ} (P : A → Type κ) (n : ℕ) (xs : List A) → All P xs → All P (take n xs)
All-take P zero xs h = tt
All-take P (suc n) [] h = tt
All-take P (suc n) (x ∷ xs) h = (h.0, All-take P n xs h.1)

-- One read of a valid and readable log: it returns, and what is yielded grows by a page.
poll_lem :
    (user_id root_run_id : String) (start : Option ℕ) (t : Table) (f : Follower)
    → IsValid t
    → All IsReadable t.rows
    → Follows user_id root_run_id start t f
    → (f' : Follower) × (poll user_id root_run_id t f ≡ ok f')
      × Follows user_id root_run_id start t f'
unfolding poll
poll_lem user_id root_run_id start t f v readable h =
    let page = take 100 h.rest in
    let listed =
      list_after_lem user_id root_run_id f.cursor 100 t v (omega arith)
      ∙ ap (λ rows. traverse from_row (take 100 rows))
          (rest-remaining user_id root_run_id start t f h v) in
    let read_rest : All IsReadable h.rest =
      rw (← rest-remaining user_id root_run_id start t f h v) (
        unfold remaining stream in
        All-select IsReadable _ _ (All-select IsReadable _ t.rows readable)) in
    let (events, es, moved) = read_rows page f.cursor (All-take IsReadable 100 h.rest read_rest) in
    (
      record { cursor = advance events f.cursor; yielded = f.yielded ++ events },
      rw (listed ∙ es) refl,
      record {
        rows = h.rows ++ page;
        rest = drop 100 h.rest;
        yielded = traverse-append h.rows page f.yielded events h.yielded es;
        cursor = moved ∙ ap (cursor_of page) h.cursor ∙ sym (cursor_of-append h.rows page start);
        whole =
            h.whole
            ∙ ap (λ rest. h.rows ++ rest) (sym (take-append-drop 100 h.rest))
            ∙ sym (append_assoc h.rows page (drop 100 h.rest));
      },
    )

-- A write of another task appends to what stands behind the cursor, or changes nothing there.
write_lem :
    (user_id root_run_id : String) (start : Option ℕ) (t : Table) (f : Follower)
    (u c r name : String) (fields : Fields)
    → Follows user_id root_run_id start t f
    → Follows user_id root_run_id start (insert u c r name fields t).1 f
unfolding remaining
write_lem user_id root_run_id start t f u c r name fields h =
    let new = new_row u c r name fields t in
    let grown = stream-insert u c r name fields t user_id root_run_id in
    elim (Bool-cases (in_run user_id root_run_id new)) [
      | inl e ↦ record {
        rows = h.rows;
        rest = h.rest ++ select (is_after start) (new ∷ []);
        yielded = h.yielded;
        cursor = h.cursor;
        whole =
            ap (select (is_after start)) (grown ∙ rw e refl)
            ∙ select-append (is_after start) (stream user_id root_run_id t) (new ∷ [])
            ∙ ap (λ rows. rows ++ select (is_after start) (new ∷ [])) h.whole
            ∙ append_assoc h.rows h.rest _;
      }
      | inr e ↦ record {
        rows = h.rows;
        rest = h.rest;
        yielded = h.yielded;
        cursor = h.cursor;
        whole = ap (select (is_after start)) (grown ∙ rw e refl) ∙ h.whole;
      }
    ]

insert-IsReadable :
    (u c r name : String) (fields : Fields) (t : Table)
    → All IsReadable t.rows
    → All IsReadable (insert u c r name fields t).1.rows
unfolding insert new_row from_row
insert-IsReadable u c r name fields t h = All-append IsReadable t.rows _ h ((_, refl), tt)

-- The steps from a state in which the follower follows the run.
follow-Follows :
    (user_id root_run_id : String) (start : Option ℕ) (steps : List Step) (t : Table) (f : Follower)
    → IsValid t
    → All IsReadable t.rows
    → Follows user_id root_run_id start t f
    → (t' : Table) × (f' : Follower) × (follow user_id root_run_id steps t f ≡ ok (t', f'))
      × IsValid t'
      × Follows user_id root_run_id start t' f'
unfolding follow
follow-Follows user_id root_run_id start [] t f v readable h = (t, f, refl, v, h)
follow-Follows user_id root_run_id start (write u c r name fields ∷ steps) t f v readable h =
    follow-Follows user_id root_run_id start steps _ f (insert-IsValid u c r name fields t v)
      (insert-IsReadable u c r name fields t readable)
      (write_lem user_id root_run_id start t f u c r name fields h)
follow-Follows user_id root_run_id start (read ∷ steps) t f v readable h =
    let (f', e, h') = poll_lem user_id root_run_id start t f v readable h in
    rw e (follow-Follows user_id root_run_id start steps t f' v readable h')

-- However writes to a valid and readable log and reads of a follower interleave, the reads
-- return, and what the follower yielded followed by what stands behind its cursor is what the log
-- holds of the run behind the cursor it began with: no event is lost, repeated or out of order.
pub follow_lem :
    (user_id root_run_id : String) (start : Option ℕ) (steps : List Step) (t : Table)
    → IsValid t
    → All IsReadable t.rows
    → (t' : Table) × (f : Follower) × (rows : List Row) × (follow user_id root_run_id steps t
          (record { cursor = start; yielded = [] })
        ≡ ok (t', f))
      × (traverse from_row rows ≡ ok f.yielded)
      × (remaining user_id root_run_id start t' ≡ rows ++ remaining user_id root_run_id f.cursor t')
follow_lem user_id root_run_id start steps t v readable =
    let begun : Follows user_id root_run_id start t (record { cursor = start; yielded = [] }) =
      record {
        rows = [];
        rest = remaining user_id root_run_id start t;
        yielded = refl;
        cursor = refl;
        whole = refl;
      } in
    let (t', f, e, v', h) = follow-Follows user_id root_run_id start steps t _ v readable begun in
    (
      t',
      f,
      h.rows,
      e,
      h.yielded,
      h.whole
          ∙ ap (λ rest. h.rows ++ rest) (sym (rest-remaining user_id root_run_id start t' f h v')),
    )
