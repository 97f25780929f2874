-- ===== src/StreamEvents/Queries.antt =====
-- The single-event queries: `get` and `latest`.
use paper_collector_agent.Prelude.{
  ℕ, ◌<◌, String, ◌≡◌, refl, ap, Bool, true, false, ◌&&◌, some, List, [], ◌∷◌, ◌++◌, arith, eq_iff,
  All, find_first, inl, inr, Bool-cases, =s_refl, ◌==◌, ok, if◌then◌else◌,
}
use paper_collector_agent.Json.{Fields}
use paper_collector_agent.StreamEvents.{
  Row, Table, in_run, from_row, one_event, insert, new_row, next_sequence, latest, get_event,
}
use paper_collector_agent.StreamEvents.Order.{IsValid, insert-IsValid, max_sequence_bounds}
use paper_collector_agent.StreamEvents.Reading.{
  stream, stream-IsRising, stream-insert, last, last_of_rising, last-snoc,
}

in_run-new_row :
    (user_id conversation_id run_id event_name : String) (fields : Fields) (t : Table)
    → in_run user_id run_id (new_row user_id conversation_id run_id event_name fields t) ≡ true
unfolding in_run new_row
in_run-new_row user_id conversation_id run_id event_name fields t =
    rw (=s_refl user_id, =s_refl run_id) refl

one_event-new_row :
    (user_id conversation_id run_id event_name : String) (fields : Fields) (t : Table)
    → one_event (some (new_row user_id conversation_id run_id event_name fields t))
      ≡ ok (some (insert user_id conversation_id run_id event_name fields t).0)
unfolding one_event from_row new_row insert
one_event-new_row user_id conversation_id run_id event_name fields t = refl

-- In a valid table `latest` is the event of the run that was written last.
pub latest_lem :
    (user_id run_id : String) (t : Table)
    → IsValid t
    → latest user_id run_id t ≡ one_event (last (stream user_id run_id t))
unfolding latest stream
latest_lem user_id run_id t v =
    ap one_event (last_of_rising _ (unfold stream in stream-IsRising user_id run_id t v))

module _ (user_id conversation_id run_id event_name : String) (fields : Fields) (t : Table) where
  -- After an insert into a valid table, `latest` returns the event that `insert` returned.
  pub latest-insert :
      IsValid t
      → latest user_id run_id (insert user_id conversation_id run_id event_name fields t).1
        ≡ ok (some (insert user_id conversation_id run_id event_name fields t).0)
  latest-insert v =
      rw
        (
          latest_lem user_id run_id _
              (insert-IsValid user_id conversation_id run_id event_name fields t v),
          stream-insert user_id conversation_id run_id event_name fields t user_id run_id,
          in_run-new_row user_id conversation_id run_id event_name fields t,
          last-snoc (stream user_id run_id t)
              (new_row user_id conversation_id run_id event_name fields t),
        )
        (one_event-new_row user_id conversation_id run_id event_name fields t)

find_first-fresh {ℓ} :
    {A : Type ℓ} (p : A → Bool) (xs : List A) (x : A)
    → All (λ y. p y ≡ false) xs
    → p x ≡ true
    → find_first p (xs ++ x ∷ []) ≡ some x
find_first-fresh p [] x h e = rw e
find_first-fresh p (y ∷ xs) x h e = rw h.0 (find_first-fresh p xs x h.1 e)

find_first-snoc {ℓ} :
    {A : Type ℓ} (p : A → Bool) (xs : List A) (x : A)
    → p x ≡ false
    → find_first p (xs ++ x ∷ []) ≡ find_first p xs
find_first-snoc p [] x e = rw e
find_first-snoc p (y ∷ xs) x e = ground (arith, find_first-snoc p xs x e)

-- No row of the run has the sequence number that the next event gets.
fresh_sequence :
    (user_id run_id : String) (next : ℕ) (rows : List Row)
    → All (λ s. in_run user_id run_id s ≡ true → s.sequence < next) rows
    → All (λ s. (s.sequence == next && in_run user_id run_id s) ≡ false) rows
fresh_sequence user_id run_id next [] h = tt
fresh_sequence user_id run_id next (r ∷ rows) h =
    (ground (arith, h.0), fresh_sequence user_id run_id next rows h.1)

-- The test that `get` puts on a row.
abbrev pub matches : String → String → ℕ → Row → Bool
matches user_id run_id sequence row = row.sequence == sequence && in_run user_id run_id row

module _ (user_id conversation_id run_id event_name : String) (fields : Fields) (t : Table) where
  abbrev written : Row
  written = new_row user_id conversation_id run_id event_name fields t

  -- A key that the new row has is no old row's.
  fresh_key :
      (user_id' run_id' : String) (sequence : ℕ)
      → matches user_id' run_id' sequence written ≡ true
      → All (λ s. matches user_id' run_id' sequence s ≡ false) t.rows
  unfolding new_row in_run next_sequence
  fresh_key user_id' run_id' sequence e =
      let next = next_sequence user_id' run_id' t in
      let same : next ≡ sequence = ground (arith, eq_iff user_id user_id', eq_iff run_id run_id') in
      rw (← same) (
        fresh_sequence user_id' run_id' next t.rows
          (max_sequence_bounds user_id' run_id' _ t.rows (omega arith)))

  -- `get` finds the event under the key that `insert` gave it, and under every other key what it
  -- found before.
  pub get_event-insert :
      (user_id' run_id' : String) (sequence : ℕ)
      → get_event user_id' run_id' sequence
          (insert user_id conversation_id run_id event_name fields t).1
        ≡ (if matches user_id' run_id' sequence written
            then ok (some (insert user_id conversation_id run_id event_name fields t).0)
            else get_event user_id' run_id' sequence t)
  unfolding get_event insert
  get_event-insert user_id' run_id' sequence =
      let p = matches user_id' run_id' sequence in
      elim (Bool-cases (p written)) [
        | inl e ↦
            rw (find_first-fresh p t.rows written (fresh_key user_id' run_id' sequence e) e, e)
              (one_event-new_row user_id conversation_id run_id event_name fields t)
        | inr e ↦ rw (find_first-snoc p t.rows written e, e) refl
      ]
