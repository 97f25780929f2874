-- ===== src/StreamEvents/Order.antt =====
-- The invariant of the event table: positive sequence numbers that rise within each run.
use paper_collector_agent.Prelude.{
  ℕ, ◌+◌, ◌<◌, ◌≤◌, String, ◌≡◌, Bool, true, List, [], ◌∷◌, ◌++◌, arith, eq_iff, All, All-append,
  All-select, select, inl, inr, Bool-cases, refl, false, ◌≢◌, ◌⊎◌, ◌=s◌,
}
use paper_collector_agent.Json.{Fields}
use paper_collector_agent.StreamEvents.{
  Row, Table, in_run, max_sequence, next_sequence, new_row, insert, delete_conversation,
  in_conversation,
}

-- The first row stands before the second: its key is smaller, and so is its sequence number if
-- they are of one run.
pub record Before (r s : Row) : Type 0 where
  pub ids : r.id < s.id
  pub sequences : in_run r.user_id r.run_id s ≡ true → r.sequence < s.sequence

abbrev pub IsOrdered : List Row → Type 0
IsOrdered [] = Unit
IsOrdered (r ∷ rows) = All (Before r) rows × IsOrdered rows

-- What a row satisfies by itself, under the key counter `last`.
pub record IsSound (last : ℕ) (r : Row) : Type 0 where
  pub positive : 0 < r.sequence
  pub bounded : r.id ≤ last

pub record IsValid (t : Table) : Type 0 where
  pub sound : All (IsSound t.last_id) t.rows
  pub ordered : IsOrdered t.rows

pub max_sequence_bounds :
    (user_id run_id : String) (m : ℕ) (rows : List Row)
    → max_sequence (select (in_run user_id run_id) rows) ≤ m
    → All (λ s. in_run user_id run_id s ≡ true → s.sequence < m + 1) rows
unfolding max_sequence
max_sequence_bounds user_id run_id m [] h = tt
max_sequence_bounds user_id run_id m (r ∷ rows) h = elim (Bool-cases (in_run user_id run_id r)) [
  | inl e ↦
      let h' = rw e at h in
      (λ _. omega arith, max_sequence_bounds user_id run_id m rows (omega arith))
  | inr e ↦ (λ p. cc, max_sequence_bounds user_id run_id m rows (rw e at h))
]

-- A row of the same run that is written next stands behind every row of the table.
All-Before-new :
    (user_id conversation_id run_id event_name : String) (fields : Fields) (t : Table)
    (rows : List Row)
    → All (IsSound t.last_id) rows
    → All (λ s. in_run user_id run_id s ≡ true → s.sequence < next_sequence user_id run_id t) rows
    → All (λ s. Before s (new_row user_id conversation_id run_id event_name fields t)) rows
unfolding new_row in_run
All-Before-new user_id conversation_id run_id event_name fields t [] hs hm = tt
All-Before-new user_id conversation_id run_id event_name fields t (s ∷ rows) hs hm = (
  record {
    ids = omega (arith, hs.0.bounded);
    sequences = λ p. hm.0 (
        ground (
          arith,
          eq_iff user_id s.user_id,
          eq_iff run_id s.run_id,
          eq_iff s.user_id user_id,
          eq_iff s.run_id run_id,
        ));
  },
  All-Before-new user_id conversation_id run_id event_name fields t rows hs.1 hm.1,
)

IsOrdered-snoc :
    (rows : List Row) (r : Row)
    → IsOrdered rows
    → All (λ s. Before s r) rows
    → IsOrdered (rows ++ r ∷ [])
IsOrdered-snoc [] r h b = (tt, tt)
IsOrdered-snoc (s ∷ rows) r h b =
    (All-append (Before s) rows (r ∷ []) h.0 (b.0, tt), IsOrdered-snoc rows r h.1 b.1)

All-weaken : (m n : ℕ) (rows : List Row) → m ≤ n → All (IsSound m) rows → All (IsSound n) rows
All-weaken m n [] le h = tt
All-weaken m n (r ∷ rows) le h = (
  record { positive = h.0.positive; bounded = omega (arith, h.0.bounded) },
  All-weaken m n rows le h.1,
)

-- Appending an event to a valid table leaves a valid table.
pub insert-IsValid :
    (user_id conversation_id run_id event_name : String) (fields : Fields) (t : Table)
    → IsValid t
    → IsValid (insert user_id conversation_id run_id event_name fields t).1
unfolding insert next_sequence
insert-IsValid user_id conversation_id run_id event_name fields t v = record {
  sound =
      All-append (IsSound (t.last_id + 1)) t.rows _ (All-weaken _ _ t.rows (omega arith) v.sound)
        (record { positive = omega arith; bounded = omega arith }, tt);
  ordered = IsOrdered-snoc t.rows _ v.ordered (
      All-Before-new user_id conversation_id run_id event_name fields t t.rows v.sound
        (max_sequence_bounds user_id run_id _ t.rows (omega arith)));
}

IsOrdered-select : (p : Row → Bool) (rows : List Row) → IsOrdered rows → IsOrdered (select p rows)
IsOrdered-select p [] h = h
IsOrdered-select p (r ∷ rows) h = elim (Bool-cases (p r)) [
  | inl e ↦ rw e (All-select (Before r) p rows h.0, IsOrdered-select p rows h.1)
  | inr e ↦ rw e (IsOrdered-select p rows h.1)
]

-- A row of another user or of another conversation.
abbrev pub IsOther : String → String → Row → Type 0
IsOther user_id conversation_id r = (r.user_id ≢ user_id) ⊎ (r.conversation_id ≢ conversation_id)

in_conversation-IsOther :
    (user_id conversation_id : String) (r : Row)
    → in_conversation user_id conversation_id r ≡ false
    → IsOther user_id conversation_id r
unfolding in_conversation
in_conversation-IsOther user_id conversation_id r h = elim (Bool-cases (r.user_id =s user_id)) [
  | inl t ↦ inr (λ e. ground (arith, t, h, eq_iff r.conversation_id conversation_id, e))
  | inr f ↦ inl (λ e. ground (arith, f, eq_iff r.user_id user_id, e))
]

other-in_conversation :
    (user_id conversation_id : String) (r : Row)
    → IsOther user_id conversation_id r
    → in_conversation user_id conversation_id r ≡ false
unfolding in_conversation
other-in_conversation user_id conversation_id r (inl h) =
    ground (arith, h, eq_iff r.user_id user_id)
other-in_conversation user_id conversation_id r (inr h) =
    ground (arith, h, eq_iff r.conversation_id conversation_id)

-- A query of rows that a filter leaves finds the same rows behind the filter.
select-kept :
    (p q : Row → Bool) (rows : List Row)
    → ((r : Row) → p r ≡ true → q r ≡ true)
    → select p (select q rows) ≡ select p rows
select-kept p q [] h = refl
select-kept p q (r ∷ rows) h = elim (Bool-cases (q r)) [
  | inl e ↦ ground (arith, e, select-kept p q rows h)
  | inr e ↦ let out : p r ≡ false = ground (arith, e, h r) in rw (e, out) (select-kept p q rows h)
]

All-kept :
    (P : Row → Type 0) (q : Row → Bool) (rows : List Row)
    → ((r : Row) → q r ≡ true → P r)
    → All P (select q rows)
All-kept P q [] h = tt
All-kept P q (r ∷ rows) h = elim (Bool-cases (q r)) [
  | inl e ↦ rw e (h r e, All-kept P q rows h)
  | inr e ↦ rw e (All-kept P q rows h)
]

-- Deleting a conversation from a valid table leaves a valid table without a row of that user's
-- conversation, and every query of rows of other users or conversations finds the rows that it found
-- before.
pub delete_conversation_lem :
    (user_id conversation_id : String) (p : Row → Bool) (t : Table)
    → IsValid t
    → ((r : Row) → p r ≡ true → IsOther user_id conversation_id r)
    → let after = delete_conversation user_id conversation_id t in
      IsValid after
      × All (IsOther user_id conversation_id) after.rows
      × (select p after.rows ≡ select p t.rows)
unfolding delete_conversation
delete_conversation_lem user_id conversation_id p t v other = (
  record {
    sound = All-select (IsSound t.last_id) _ t.rows v.sound;
    ordered = IsOrdered-select _ t.rows v.ordered;
  },
  All-kept (IsOther user_id conversation_id) _ t.rows
      (λ r h. in_conversation-IsOther user_id conversation_id r (ground (arith, h))),
  select-kept p _ t.rows
      (λ r h. rw (other-in_conversation user_id conversation_id r (other r h)) refl),
)
