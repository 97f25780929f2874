-- ===== src/Envelope/Names.antt =====
-- The names under which the events of envelopes are sent.
use mathlib.Core.Path.{subst}
use paper_collector_agent.Prelude.{
  ◌≡◌, refl, sym, ap, String, Bool, true, false, ◌||◌, Option, none, some, inl, inr, Bool-cases,
  ◌=s◌, =s→≡, if◌then◌else◌, find_first, find_first-true, All, All-find_first, Result, ok, err,
}
use paper_collector_agent.Json.{Json, Fields, str, get, put, get-put}
use paper_collector_agent.Envelope.{
  EventClass, Status, Event, plain, EnvelopeError, classes, starts_with, is_terminal_name,
  read_status, with_status, terminal_event, named_event, class_event, event_of, payload_of,
  from_name, event_from_envelope, text_of, has_key, class_name, status_name, sse_name_for,
}

abbrev is_content : String → Bool
is_content name = (name =s "content_delta") || (name =s "message")

abbrev name_of_status : Option Status → Option String
name_of_status none = none
name_of_status (some status) = some (status_name status)

abbrev name_of_value : Option Json → Option String
name_of_value none = none
name_of_value (some value) = name_of_status (read_status value)

-- The name that an event is sent under, from the name of its envelope: a content event by whether
-- it has content, a terminal event by its status, and any other event by its own name.
abbrev pub sent_name : String → Fields → Option String
sent_name name payload =
    if is_content name
    then some (if has_key (get "content" payload) then "message" else "content_delta")
    else if is_terminal_name name
    then name_of_value (get "status" payload)
    else some name

abbrev Sends : Option String → Result EnvelopeError Event → Type 0
Sends name (ok event) = sse_name_for event ≡ name
Sends name (err e) = Unit

Sends-if :
    (name : Option String) (b : Bool) (x y : Result EnvelopeError Event)
    → (b ≡ true → Sends name x)
    → (b ≡ false → Sends name y)
    → Sends name (if b then x else y)
Sends-if name true x y h k = h refl
Sends-if name false x y h k = k refl

abbrev NamesClass : String × EventClass → Type 0
NamesClass entry =
    (run_id ts : String) (payload : Fields)
    → sse_name_for (named_event entry.1 entry.0 run_id ts payload) ≡ sent_name entry.0 payload

subagent-NamesClass :
    (name : String) (payload : Fields)
    → class_name EventClass.subagent_progress (put "sse_name" (str name) payload) ≡ some name
unfolding class_name
subagent-NamesClass name payload = ap text_of (get-put "sse_name" "sse_name" (str name) payload)

classes-NamesClass : All NamesClass classes
unfolding sse_name_for named_event class_name
classes-NamesClass = (
  (λ r t p. refl),
  (
    (λ r t p. refl),
    (
      (λ r t p. refl),
      (
        (λ r t p. refl),
        (
          (λ r t p. refl),
          (
            (λ r t p. refl),
            (
              (λ r t p. refl),
              (
                (λ r t p. refl),
                (
                  (λ r t p. refl),
                  (
                    (λ r t p. subagent-NamesClass "subagent_started" p),
                    (
                      (λ r t p. subagent-NamesClass "subagent_progress" p),
                      (
                        (λ r t p. subagent-NamesClass "subagent_completed" p),
                        ((λ r t p. subagent-NamesClass "subagent_failed" p), ((λ r t p. refl), tt)),
                      ),
                    ),
                  ),
                ),
              ),
            ),
          ),
        ),
      ),
    ),
  ),
)

-- A literal that fails a test is no name that passes it.
other_literal :
    (test : String → Bool) (name literal : String)
    → test literal ≡ false
    → test name ≡ true
    → (name =s literal) ≡ false
other_literal test name literal f t = elim (Bool-cases (name =s literal)) [
  | inl e ↦
      let same = =s→≡ name literal e in
      let no : test literal ≡ true = subst (λ n. test n ≡ true) same t in cc
  | inr e ↦ e
]

not_content :
    (test : String → Bool) (name : String)
    → test "content_delta" ≡ false
    → test "message" ≡ false
    → test name ≡ true
    → is_content name ≡ false
not_content test name a b t =
    let c = other_literal test name "content_delta" a t in
    let m = other_literal test name "message" b t in rw (c, m) refl

with_status-Sends :
    (found : Option Status) (type run_id ts : String) (payload : Fields)
    → Sends (name_of_status found) (with_status found type run_id ts payload)
unfolding with_status sse_name_for
with_status-Sends none type run_id ts payload = tt
with_status-Sends (some status) type run_id ts payload = refl

terminal_event-Sends :
    (value : Option Json) (name run_id ts : String) (payload : Fields)
    → Sends (name_of_value value) (terminal_event value name run_id ts payload)
unfolding terminal_event
terminal_event-Sends none name run_id ts payload = tt
terminal_event-Sends (some value) name run_id ts payload =
    with_status-Sends (read_status value) _ run_id ts payload

memory-Sends :
    (name run_id ts : String) (payload : Fields)
    → is_terminal_name name ≡ false
    → starts_with "memory_" name ≡ true
    → Sends
        (sent_name name payload)
        (ok (plain EventClass.memory_progress run_id ts (put "sse_name" (str name) payload)))
unfolding sse_name_for class_name
memory-Sends name run_id ts payload other t =
    let content = not_content (starts_with "memory_") name refl refl t in
    rw (content, other) (ap text_of (get-put "sse_name" "sse_name" (str name) payload))

class_event-Sends :
    (found : Option (String × EventClass)) (name run_id ts : String) (payload : Fields)
    → find_first (λ entry. entry.0 =s name) classes ≡ found
    → is_terminal_name name ≡ false
    → Sends (sent_name name payload) (class_event found name run_id ts payload)
unfolding class_event
class_event-Sends none name run_id ts payload e other =
    Sends-if (sent_name name payload) (starts_with "memory_" name) _
      (err (EnvelopeError.unsupported name)) (memory-Sends name run_id ts payload other) (λ f. tt)
class_event-Sends (some entry) name run_id ts payload e other =
    let same = =s→≡ entry.0 name (find_first-true (λ x. x.0 =s name) classes entry e) in
    subst (λ n. sse_name_for (named_event entry.1 n run_id ts payload) ≡ sent_name n payload) same
      (All-find_first NamesClass (λ x. x.0 =s name) classes entry classes-NamesClass e run_id ts
        payload)

started-Sends :
    (name run_id ts : String) (payload : Fields)
    → name ≡ "run_started"
    → Sends (sent_name name payload) (ok (plain EventClass.run_started run_id ts payload))
unfolding sse_name_for class_name
started-Sends name run_id ts payload e =
    subst (λ n. some "run_started" ≡ sent_name n payload) (sym e) refl

event_of-Sends :
    (name run_id ts : String) (payload : Fields)
    → Sends (sent_name name payload) (event_of name run_id ts payload)
unfolding event_of
event_of-Sends name run_id ts payload =
    Sends-if (sent_name name payload) (name =s "run_started")
      (ok (plain EventClass.run_started run_id ts payload)) _
      (λ t. started-Sends name run_id ts payload (=s→≡ name "run_started" t))
      (λ _.
        Sends-if (sent_name name payload) (is_terminal_name name)
          (terminal_event (get "status" payload) name run_id ts payload) _
          (λ t.
            let content = not_content is_terminal_name name refl refl t in
            rw (content, t) (terminal_event-Sends (get "status" payload) name run_id ts payload))
          (λ f.
            class_event-Sends (find_first (λ entry. entry.0 =s name) classes) name run_id ts payload
              refl f))

from_name-Sends :
    (value : Option Json) (name : String) (envelope : Fields) (run_id ts : String)
    → value ≡ some (str name)
    → Sends (sent_name name (payload_of envelope)) (from_name value envelope run_id ts)
unfolding from_name
from_name-Sends value name envelope run_id ts e =
    subst (λ v. Sends (sent_name name (payload_of envelope)) (from_name v envelope run_id ts))
      (sym e) (event_of-Sends name run_id ts (payload_of envelope))

-- An event that is made from an envelope is sent under the envelope's name, but for two kinds: a
-- content event is a message if it has content and else a delta, and a terminal event is named by
-- its status.
pub event_from_envelope-sent_name :
    (envelope : Fields) (name run_id ts : String) (event : Event)
    → get "event" envelope ≡ some (str name)
    → event_from_envelope envelope run_id ts ≡ ok event
    → sse_name_for event ≡ sent_name name (payload_of envelope)
unfolding event_from_envelope
event_from_envelope-sent_name envelope name run_id ts event named made =
    subst (Sends (sent_name name (payload_of envelope))) made
      (from_name-Sends (get "event" envelope) name envelope run_id ts named)
