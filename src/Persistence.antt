-- ===== src/Persistence.antt =====
-- app/events/handlers/persistence.py, app/history/transactions.py and the dispatcher of
-- app/events/bus.py: an event of a run is written to the history and to the event log before its
-- followers are woken. A terminal event carries its response, which the dispatcher fills in if needed.
pub mod Stages
pub mod Logged
pub mod Endings
use Prim.Native.String
use paper_collector_agent.Prelude.{
  ℕ, String, Bool, true, false, Option, none, some, List, [], ◌∷◌, ◌++◌, any, ◌=s◌, if◌then◌else◌,
  is_empty, Result, ok, err,
}
use paper_collector_agent.Json.{Json, Fields, obj, end, bool, truthy, or_else}
use paper_collector_agent.ChatLog.Types.{Db, ChatError, value_error}
use paper_collector_agent.ChatLog.Store.{Transaction, pure, lift, run_operation}
use paper_collector_agent.ChatLog.Store
use paper_collector_agent.ChatLog.Requests.{void}
use paper_collector_agent.ChatLog.Tools.{
  Call, ActionResult, append_text_message, append_tool_batch, append_tool_result,
}
use paper_collector_agent.ChatLog.Completion.{Response, complete_run, text_or_empty}
use paper_collector_agent.ChatLog.Interruption.{record_terminal_event_sequence}
use paper_collector_agent.StreamEvents.{Table, AgentStreamEvent, insert}

-- The data of an action event: the keys that `_batch` reads.
pub record ActionData : Type 0 where
  pub action_id : Option String
  pub batch_calls : Option (List Call)
  pub batch_id : Option String
  pub name : Option String
  pub input : Option Json
  pub action_type : Option String
  pub requires_confirmation : Option Json

-- The events by what the handler does with them; `sse_name_for` names only the action events so.
pub data Event : Type 0 where
  terminal : Response → Fields → Event
  content_delta : Option String → Event
  action_started : ActionData → Event
  action_result : ActionData → ActionResult → Event
  other : Event

-- `EventDelivery` with its context, the data of the event, the latency of the run so far, and whether
-- the event log can be written.
pub record EventDelivery : Type 0 where
  pub user_id : String
  pub conversation_id : String
  pub root_run_id : String
  pub event : Event
  pub sse_name : String
  pub payload : Fields
  pub latency_ms : ℕ
  pub has_log : Bool

-- `value or default` of a text.
abbrev pub text_or : Option String → String → String
text_or none default = default
text_or (some text) default = if is_empty text then default else text

-- The only call of a batch that the event does not list.
unfoldable pub single_call : String → ActionData → Call
unfolding text_or_empty or_else truthy
single_call action_id payload = record {
  id = action_id;
  name = text_or_empty payload.name;
  args = some (or_else payload.input (obj end));
  input = none;
  kind = some (text_or payload.action_type "tool");
  requires_confirmation = some (bool (truthy (or_else payload.requires_confirmation (bool false))));
}

unfoldable pub batch_calls_of : Option (List Call) → String → ActionData → List Call
unfolding single_call
batch_calls_of none action_id payload = single_call action_id payload ∷ []
batch_calls_of (some calls) action_id payload = calls

-- `_batch`
unfoldable pub batch_of : String → ActionData → Result ChatError (String × List Call)
unfolding text_or_empty batch_calls_of
batch_of run_id payload =
    let action_id = text_or_empty payload.action_id in
    let calls = batch_calls_of payload.batch_calls action_id payload in
    let legacy = String.◌++◌ run_id (String.◌++◌ ":legacy:" action_id) in
    if is_empty action_id
    then err value_error
    else if any (λ call. call.id =s action_id) calls
    then ok (text_or payload.batch_id legacy, calls)
    else err value_error

unfoldable pub persist_content : Option String → String → String → String → Transaction (Unit {0})
unfolding append_text_message
persist_content none user_id conversation_id run_id = pure tt
persist_content (some content) user_id conversation_id run_id =
    if is_empty content
    then pure tt
    else void (append_text_message user_id conversation_id run_id content)

unfoldable pub persist_action : Event → String → String → String → Transaction (Unit {0})
unfolding batch_of append_tool_batch append_tool_result
persist_action (action_started payload) user_id conversation_id run_id =
    Store.◌>>=◌ (lift (batch_of run_id payload))
      λ batch. void (append_tool_batch user_id conversation_id run_id batch.0 batch.1)
persist_action (action_result payload result) user_id conversation_id run_id =
    Store.◌>>=◌ (lift (batch_of run_id payload))
      λ batch. void (append_tool_result user_id conversation_id run_id batch.0 batch.1 result)
persist_action _ user_id conversation_id run_id = pure tt

-- `persist_message_event`
unfoldable pub persist_message_event :
    String → String → String → Event → Option String → Transaction (Unit {0})
unfolding persist_content persist_action
persist_message_event user_id conversation_id run_id event content =
    Store.◌>>◌ (persist_content content user_id conversation_id run_id)
      (persist_action event user_id conversation_id run_id)

pub data PublishError : Type 0 where
  history_error : ChatError → PublishError
  log_error not_persisted : PublishError

-- The handler's text of the model, the two databases, and the events whose followers were woken.
pub record World : Type 0 where
  pub content_parts : List String
  pub history : Db
  pub log : Table
  pub woken : List AgentStreamEvent

-- A coroutine: what it wrote stays when it raises.
abbrev pub Handler : Type 0 → Type 0
Handler A = World → Result PublishError A × World

abbrev pub return : {A : Type 0} → A → Handler A
return a w = (ok a, w)

abbrev pub then_do :
    {A B : Type 0} → Result PublishError A → World → (A → Handler B) → Result PublishError B × World
then_do (ok a) w next = next a w
then_do (err e) w next = (err e, w)

infixl 5 ◌>>=◌ ◌>>◌
abbrev pub ◌>>=◌ : {A B : Type 0} → Handler A → (A → Handler B) → Handler B
◌>>=◌ m next w = let ran = m w in then_do ran.0 ran.1 next

abbrev pub ◌>>◌ : {A B : Type 0} → Handler A → Handler B → Handler B
m >> n = m >>= λ _. n

abbrev pub of_history : {A : Type 0} → Result ChatError A → Result PublishError A
of_history (ok a) = ok a
of_history (err e) = err (history_error e)

-- `AgentHistoryStore.run`
unfoldable pub run_history : {A : Type 0} → Transaction A → Handler A
unfolding run_operation
run_history operation w =
    let ran = run_operation operation w.history in (of_history ran.0, record w { history = ran.1 })

abbrev pub inserted : EventDelivery → Table → AgentStreamEvent × Table
inserted d log = insert d.user_id d.conversation_id d.root_run_id d.sse_name d.payload log

-- `_append_event`
unfoldable pub append_event : EventDelivery → Handler AgentStreamEvent
append_event d w =
    if d.has_log
    then (ok (inserted d w.log).0, record w { log = (inserted d w.log).1 })
    else (err log_error, w)

abbrev pub join : List String → String
join [] = String.[]
join (part ∷ parts) = String.◌++◌ part (join parts)

-- `_pending_content`
unfoldable pub pending_content : List String → Option String
pending_content parts = let content = join parts in if is_empty content then none else some content

unfoldable pub clear_parts : Option String → Handler (Unit {0})
clear_parts none w = (ok tt, w)
clear_parts (some content) w = (ok tt, record w { content_parts = [] })

unfoldable pub add_part : Option String → World → World
add_part none w = w
add_part (some part) w = record w { content_parts = w.content_parts ++ part ∷ [] }

unfoldable pub persist_progress : EventDelivery → Option String → Handler (Option AgentStreamEvent)
unfolding persist_message_event run_history append_event clear_parts
persist_progress d pending = do
  run_history (persist_message_event d.user_id d.conversation_id d.root_run_id d.event pending)
  persisted ← append_event d
  clear_parts pending
  return (some persisted)

unfoldable pub persist_terminal :
    EventDelivery → Response → Fields → Option String → Handler (Option AgentStreamEvent)
unfolding run_history append_event clear_parts complete_run record_terminal_event_sequence
persist_terminal d response extra_meta pending = do
  run_history (
      complete_run d.user_id d.conversation_id d.root_run_id response d.latency_ms (some extra_meta)
        pending)
  persisted ← append_event d
  run_history (record_terminal_event_sequence d.user_id d.root_run_id persisted.sequence)
  clear_parts pending
  return (some persisted)

-- `PersistenceHandler.__call__`, from the event.
unfoldable pub persist_event : Event → EventDelivery → Handler (Option AgentStreamEvent)
unfolding persist_terminal persist_progress pending_content add_part
persist_event (terminal response extra_meta) d w =
    persist_terminal d response extra_meta (pending_content w.content_parts) w
persist_event (content_delta value) d w = persist_progress d none (add_part value w)
persist_event (action_started payload) d w = persist_progress d (pending_content w.content_parts) w
persist_event (action_result payload result) d w = persist_progress d none w
persist_event other d w = persist_progress d none w

-- `IpcEventBroadcaster.__call__`: the followers of the event's run are woken.
unfoldable pub broadcast : Option AgentStreamEvent → Handler (Unit {0})
broadcast none w = (err not_persisted, w)
broadcast (some event) w = (ok tt, record w { woken = w.woken ++ event ∷ [] })

-- `RootEventDispatcher.__call__`, one at a time under its lock.
unfoldable pub dispatch : EventDelivery → Handler (Unit {0})
unfolding persist_event broadcast
dispatch d = persist_event d.event d >>= broadcast

-- The events of a run, published one after the other, raising or not.
unfoldable pub dispatch_each : List EventDelivery → World → World
unfolding dispatch
dispatch_each [] w = w
dispatch_each (d ∷ ds) w = dispatch_each ds (dispatch d w).1
