-- ===== src/Envelope.antt =====
-- app/events/adapter.py and app/events/envelope.py: the events that are made from an envelope, the
-- names under which they are sent, and the data that is stored. The values of an envelope are JSON
-- already, so `to_jsonable` changes none.
pub mod Names
pub mod Payloads
use Prim.Native.Char.{code}
use Prim.Native.String
use paper_collector_agent.Prelude.{
  String, Bool, true, false, ◌&&◌, ◌||◌, Option, none, some, List, [], ◌∷◌, ◌==◌, ◌=s◌,
  if◌then◌else◌, find_first, Result, ok, err,
}
use paper_collector_agent.Json.{Json, Fields, str, end, field, get, put, pop, update}

-- The classes of the events that have only a payload.
pub data EventClass : Type 0 where
  run_started iteration_started content_delta reasoning_delta action_started action_result
        tool_started tool_finished tool_failed subagent_progress memory_progress node_error :
      EventClass

pub data Status : Type 0 where
  completed confirmation_required failed blocked : Status

pub data Event : Type 0 where
  plain : EventClass → (run_id ts : String) → Fields → Event
  terminal : (type : String) → (run_id ts : String) → Status → Fields → Event
  subagent_started : (run_id ts parent_run_id description : String) → Event
  subagent_finished : (run_id ts parent_run_id status : String) → Event

pub data EnvelopeError : Type 0 where
  key_error invalid_status : EnvelopeError
  unsupported : String → EnvelopeError

-- `build_event`
unfoldable pub build_event : String → Fields → Fields → Fields
unfolding put update
build_event kind payload scope = put "event" (str kind) (update payload scope)

-- The classes by the names of the envelopes.
abbrev pub classes : List (String × EventClass)
classes =
    ("iteration_started", EventClass.iteration_started)
    ∷ ("content_delta", EventClass.content_delta)
    ∷ ("message", EventClass.content_delta)
    ∷ ("reasoning_delta", EventClass.reasoning_delta)
    ∷ ("action_started", EventClass.action_started)
    ∷ ("action_result", EventClass.action_result)
    ∷ ("tool_started", EventClass.tool_started)
    ∷ ("tool_completed", EventClass.tool_finished)
    ∷ ("tool_failed", EventClass.tool_failed)
    ∷ ("subagent_started", EventClass.subagent_progress)
    ∷ ("subagent_progress", EventClass.subagent_progress)
    ∷ ("subagent_completed", EventClass.subagent_progress)
    ∷ ("subagent_failed", EventClass.subagent_progress)
    ∷ ("node_error", EventClass.node_error)
    ∷ []

-- `s.startswith(prefix)`, the prefix first.
abbrev pub starts_with : String → String → Bool
starts_with String.[] s = true
starts_with (String.◌∷◌ c p) String.[] = false
starts_with (String.◌∷◌ c p) (String.◌∷◌ d s) = code c == code d && starts_with p s

abbrev pub is_terminal_name : String → Bool
is_terminal_name name =
    (name =s "run_completed") || (name =s "run_failed") || (name =s "confirmation_required")

-- The validation of the status; the text of a value that is no text is no status.
unfoldable pub read_status : Json → Option Status
read_status (str s) =
    if s =s "completed"
    then some completed
    else if s =s "confirmation_required"
    then some confirmation_required
    else if s =s "failed"
    then some failed
    else if s =s "blocked"
    then some blocked
    else none
read_status _ = none

unfoldable pub with_status :
    Option Status → String → String → String → Fields → Result EnvelopeError Event
with_status none type run_id ts payload = err invalid_status
with_status (some status) type run_id ts payload = ok (terminal type run_id ts status payload)

-- `payload["status"]`
unfoldable pub terminal_event :
    Option Json → String → String → String → Fields → Result EnvelopeError Event
unfolding read_status with_status
terminal_event none name run_id ts payload = err key_error
terminal_event (some value) name run_id ts payload =
    with_status (read_status value)
      (if name =s "confirmation_required" then "run.waiting_for_confirmation" else "run.finished")
      run_id ts payload

-- `payload["sse_name"] = name`
unfoldable pub named_event : EventClass → String → String → String → Fields → Event
unfolding put
named_event EventClass.subagent_progress name run_id ts payload =
    plain EventClass.subagent_progress run_id ts (put "sse_name" (str name) payload)
named_event kind name run_id ts payload = plain kind run_id ts payload

unfoldable pub class_event :
    Option (String × EventClass) → String → String → String → Fields → Result EnvelopeError Event
unfolding named_event put
class_event (some entry) name run_id ts payload = ok (named_event entry.1 name run_id ts payload)
class_event none name run_id ts payload =
    if starts_with "memory_" name
    then ok (plain EventClass.memory_progress run_id ts (put "sse_name" (str name) payload))
    else err (unsupported name)

-- The event of a name and the payload without the keys of the envelope.
unfoldable pub event_of : String → String → String → Fields → Result EnvelopeError Event
unfolding terminal_event class_event get
event_of name run_id ts payload =
    if name =s "run_started"
    then ok (plain EventClass.run_started run_id ts payload)
    else if is_terminal_name name
    then terminal_event (get "status" payload) name run_id ts payload
    else class_event (find_first (λ entry. entry.0 =s name) classes) name run_id ts payload

abbrev pub payload_of : Fields → Fields
payload_of envelope = pop "conversation_id" (pop "run_id" (pop "event" envelope))

-- The name is a text: envelopes are made by `build_event`.
unfoldable pub from_name : Option Json → Fields → String → String → Result EnvelopeError Event
unfolding event_of pop
from_name (some (str name)) envelope run_id ts = event_of name run_id ts (payload_of envelope)
from_name _ envelope run_id ts = err key_error

-- `event_from_envelope`, at the time `ts`.
unfoldable pub event_from_envelope : Fields → String → String → Result EnvelopeError Event
unfolding from_name get
event_from_envelope envelope run_id ts = from_name (get "event" envelope) envelope run_id ts

abbrev pub text_of : Option Json → Option String
text_of (some (str s)) = some s
text_of _ = none

abbrev pub has_key : Option Json → Bool
has_key none = false
has_key (some v) = true

unfoldable pub class_name : EventClass → Fields → Option String
unfolding get
class_name EventClass.run_started payload = some "run_started"
class_name EventClass.iteration_started payload = some "iteration_started"
class_name EventClass.content_delta payload =
    some (if has_key (get "content" payload) then "message" else "content_delta")
class_name EventClass.reasoning_delta payload = some "reasoning_delta"
class_name EventClass.action_started payload = some "action_started"
class_name EventClass.action_result payload = some "action_result"
class_name EventClass.tool_started payload = some "tool_started"
class_name EventClass.tool_finished payload = some "tool_completed"
class_name EventClass.tool_failed payload = some "tool_failed"
class_name EventClass.subagent_progress payload = text_of (get "sse_name" payload)
class_name EventClass.memory_progress payload = text_of (get "sse_name" payload)
class_name EventClass.node_error payload = some "node_error"

unfoldable pub status_name : Status → String
status_name confirmation_required = "confirmation_required"
status_name failed = "run_failed"
status_name _ = "run_completed"

-- `sse_name_for`
unfoldable pub sse_name_for : Event → Option String
unfolding class_name status_name
sse_name_for (plain kind run_id ts payload) = class_name kind payload
sse_name_for (terminal type run_id ts status payload) = some (status_name status)
sse_name_for (subagent_started run_id ts parent description) = some "subagent_started"
sse_name_for (subagent_finished run_id ts parent status) = some (
    if (status =s "success") || (status =s "partial")
    then "subagent_completed"
    else "subagent_failed")

unfoldable pub class_type : EventClass → String
class_type EventClass.run_started = "run.started"
class_type EventClass.iteration_started = "iteration.started"
class_type EventClass.content_delta = "content.delta"
class_type EventClass.reasoning_delta = "reasoning.delta"
class_type EventClass.action_started = "action.started"
class_type EventClass.action_result = "action.result"
class_type EventClass.tool_started = "tool.started"
class_type EventClass.tool_finished = "tool.finished"
class_type EventClass.tool_failed = "tool.failed"
class_type EventClass.subagent_progress = "subagent.progress"
class_type EventClass.memory_progress = "memory.progress"
class_type EventClass.node_error = "node.error"

unfoldable pub status_text : Status → String
status_text completed = "completed"
status_text confirmation_required = "confirmation_required"
status_text failed = "failed"
status_text blocked = "blocked"

unfoldable pub payload_data : String → String → String → Fields → Fields
unfolding update pop
payload_data type ts run_id payload =
    update (field "type" (str type) (field "ts" (str ts) (field "run_id" (str run_id) end)))
      (pop "sse_name" payload)

-- `event_data`
unfoldable pub event_data : Event → Fields
unfolding class_type status_text payload_data put
event_data (plain kind run_id ts payload) = payload_data (class_type kind) ts run_id payload
event_data (terminal type run_id ts status payload) =
    put "status" (str (status_text status)) (payload_data type ts run_id payload)
event_data (subagent_started run_id ts parent description) = field "ts" (str ts) (
    field "type" (str "subagent.started") (
      field "parent_run_id" (str parent)
        (field "description" (str description) (field "run_id" (str run_id) end))))
event_data (subagent_finished run_id ts parent status) = field "ts" (str ts) (
    field "type" (str "subagent.finished") (
      field "parent_run_id" (str parent)
        (field "status" (str status) (field "run_id" (str run_id) end))))
