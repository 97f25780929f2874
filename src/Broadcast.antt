-- ===== src/Broadcast.antt =====
-- app/events/handlers/ipc_event_broadcaster.py: `iter_events`, which follows the events of a run
-- while other tasks write to the log.
pub mod Cursor
pub mod Delivery
use paper_collector_agent.Prelude.{
  ℕ, String, Bool, true, false, ◌&&◌, Option, none, some, List, [], ◌∷◌, ◌++◌, leb, Result, ok, err,
  ◌>>=◌,
}
use paper_collector_agent.Json.{Fields}
use paper_collector_agent.StreamEvents.{Table, AgentStreamEvent, StreamError, insert, list_after}
use paper_collector_agent.ChatLog.Types.{RunEventState, PublicStatus}

-- The local state of the iterator: its cursor, and the events that it has yielded.
pub record Follower : Type 0 where
  pub cursor : Option ℕ
  pub yielded : List AgentStreamEvent

-- The cursor after `for event in events: cursor = event.sequence`.
unfoldable pub advance : List AgentStreamEvent → Option ℕ → Option ℕ
advance [] cursor = cursor
advance (event ∷ events) cursor = advance events (some event.sequence)

-- One read of the log: up to 100 events behind the cursor are yielded.
unfoldable pub poll : String → String → Table → Follower → Result StreamError Follower
unfolding advance
poll user_id root_run_id t f = list_after user_id root_run_id f.cursor 100 t >>= λ events.
    ok (record { cursor = advance events f.cursor; yielded = f.yielded ++ events })

-- The statuses after which no event follows the terminal event.
unfoldable pub is_settled : PublicStatus → Bool
is_settled PublicStatus.running = false
is_settled _ = true

-- `expected is not None and cursor is not None and cursor >= expected`
unfoldable pub has_reached : Option ℕ → Option ℕ → Bool
has_reached (some expected) (some cursor) = leb expected cursor
has_reached _ _ = false

-- Whether the iterator returns, when a read yields no event.
unfoldable pub returns : Option RunEventState → Option ℕ → Bool
unfolding is_settled has_reached
returns none cursor = false
returns (some state) cursor =
    is_settled state.status && has_reached state.terminal_event_sequence cursor

-- What happens to the log between two reads: an event of any run is written, or this follower reads.
pub data Step : Type 0 where
  write : (user_id conversation_id run_id event_name : String) (fields : Fields) → Step
  read : Step

-- The log and the follower after the steps.
unfoldable pub follow :
    String → String → List Step → Table → Follower → Result StreamError (Table × Follower)
follow user_id root_run_id [] t f = ok (t, f)
follow user_id root_run_id (write u c r name fields ∷ steps) t f =
    follow user_id root_run_id steps (insert u c r name fields t).1 f
follow user_id root_run_id (read ∷ steps) t f =
    poll user_id root_run_id t f >>= follow user_id root_run_id steps t
