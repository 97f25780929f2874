-- ===== src/StreamEvents.antt =====
-- app/history/stream_events.py: the append-only log of the events of each run, in an SQLite table.
pub mod Order
pub mod Reading
pub mod Queries
use paper_collector_agent.Prelude.{
  ℕ, suc, ◌+◌, max, String, Bool, true, not, ◌&&◌, Option, none, some, List, [], ◌∷◌, ◌++◌, leb,
  ltb, ◌==◌, ◌=s◌, if◌then◌else◌, select, find_first, take, Result, ok, err, ◌>>=◌, traverse,
}
use paper_collector_agent.Json.{Json, Fields, obj}

-- A row of the table `agent_stream_events`. The audit columns, which no query reads, are left out;
-- `payload` is the value that the text column `data` decodes to.
pub record Row : Type 0 where
  pub id : ℕ
  pub sequence : ℕ
  pub user_id : String
  pub conversation_id : String
  pub run_id : String
  pub event_name : String
  pub payload : Json

-- `last_id` is the counter of the AUTOINCREMENT key, which never falls.
pub record Table : Type 0 where
  pub rows : List Row
  pub last_id : ℕ

pub record AgentStreamEvent : Type 0 where
  pub id : ℕ
  pub sequence : ℕ
  pub user_id : String
  pub conversation_id : String
  pub run_id : String
  pub event_name : String
  pub payload : Fields

pub data StreamError : Type 0 where
  not_positive : StreamError
  not_object : StreamError

-- `user_id = ? AND run_id = ?`
unfoldable pub in_run : String → String → Row → Bool
in_run user_id run_id row = row.user_id =s user_id && row.run_id =s run_id

-- `COALESCE(MAX(sequence), 0)`
unfoldable pub max_sequence : List Row → ℕ
max_sequence [] = 0
max_sequence (r ∷ rs) = max r.sequence (max_sequence rs)

unfoldable pub next_sequence : String → String → Table → ℕ
next_sequence user_id run_id t = max_sequence (select (in_run user_id run_id) t.rows) + 1

unfoldable pub from_row : Row → Result StreamError AgentStreamEvent
from_row row = elim row.payload [
  | obj fields ↦ ok record {
    id = row.id;
    sequence = row.sequence;
    user_id = row.user_id;
    conversation_id = row.conversation_id;
    run_id = row.run_id;
    event_name = row.event_name;
    payload = fields;
  }
  | _ ↦ err not_object
]

-- The row that `insert` writes.
unfoldable pub new_row : String → String → String → String → Fields → Table → Row
new_row user_id conversation_id run_id event_name fields t = record {
  id = t.last_id + 1;
  sequence = next_sequence user_id run_id t;
  user_id = user_id;
  conversation_id = conversation_id;
  run_id = run_id;
  event_name = event_name;
  payload = obj fields;
}

-- The event that was stored, and the table after it.
unfoldable pub insert :
    String → String → String → String → Fields → Table → AgentStreamEvent × Table
unfolding new_row
insert user_id conversation_id run_id event_name fields t =
    let row = new_row user_id conversation_id run_id event_name fields t in
    (
      record {
        id = row.id;
        sequence = row.sequence;
        user_id = user_id;
        conversation_id = conversation_id;
        run_id = run_id;
        event_name = event_name;
        payload = fields;
      },
      record { rows = t.rows ++ row ∷ []; last_id = t.last_id + 1 },
    )

-- `fetchone()` and then `from_row(row) if row else None`
unfoldable pub one_event : Option Row → Result StreamError (Option AgentStreamEvent)
one_event none = ok none
one_event (some row) = from_row row >>= λ event. ok (some event)

unfoldable pub get_event :
    String → String → ℕ → Table → Result StreamError (Option AgentStreamEvent)
unfolding one_event in_run
get_event user_id run_id sequence t =
    one_event (find_first (λ row. row.sequence == sequence && in_run user_id run_id row) t.rows)

-- `? IS NULL OR sequence > ?`
unfoldable pub is_after : Option ℕ → Row → Bool
is_after none row = true
is_after (some sequence) row = ltb sequence row.sequence

-- `ORDER BY sequence`
unfoldable pub insert_by_sequence : Row → List Row → List Row
insert_by_sequence r [] = r ∷ []
insert_by_sequence r (s ∷ rows) =
    let rest = insert_by_sequence r rows in
    if leb r.sequence s.sequence then r ∷ s ∷ rows else s ∷ rest

unfoldable pub order_by_sequence : List Row → List Row
order_by_sequence [] = []
order_by_sequence (r ∷ rows) = insert_by_sequence r (order_by_sequence rows)

unfoldable pub list_after :
    String → String → Option ℕ → ℕ → Table → Result StreamError (List AgentStreamEvent)
list_after user_id run_id after_sequence limit t =
    if ltb limit 1
    then err not_positive
    else traverse from_row (
        take limit (
          order_by_sequence
            (select (λ row. in_run user_id run_id row && is_after after_sequence row) t.rows)))

-- The first row in descending order of `sequence`.
unfoldable pub last_by_sequence : List Row → Option Row
last_by_sequence [] = none
last_by_sequence (r ∷ rows) = elim (last_by_sequence rows) [
  | none ↦ some r
  | some s ↦ if ltb s.sequence r.sequence then some r else some s
]

unfoldable pub latest : String → String → Table → Result StreamError (Option AgentStreamEvent)
unfolding one_event last_by_sequence
latest user_id run_id t = one_event (last_by_sequence (select (in_run user_id run_id) t.rows))

-- `user_id = ? AND conversation_id = ?`
unfoldable pub in_conversation : String → String → Row → Bool
in_conversation user_id conversation_id row =
    row.user_id =s user_id && row.conversation_id =s conversation_id

unfoldable pub delete_conversation : String → String → Table → Table
delete_conversation user_id conversation_id t = record t {
  rows = select (λ row. not (in_conversation user_id conversation_id row)) t.rows;
}
