-- ===== src/Envelope/Payloads.antt =====
-- The data of the events that are made from envelopes.
use mathlib.Core.Path.{subst}
use paper_collector_agent.Prelude.{
  ◌≡◌, refl, ◌∙◌, String, Bool, true, false, Option, none, some, arith, inl, inr, Bool-cases, ◌=s◌,
  if◌then◌else◌, find_first, Result, ok, err,
}
use paper_collector_agent.Json.{
  Json, Fields, str, end, field, get, put, pop, update, get-put, get-pop,
}
use paper_collector_agent.Envelope.{
  EventClass, Status, Event, plain, EnvelopeError, classes, starts_with, is_terminal_name,
  read_status, with_status, terminal_event, named_event, class_event, event_of, payload_of,
  from_name, event_from_envelope, payload_data, event_data,
}

get-update-absent : (k : String) (d e : Fields) → get k e ≡ none → get k (update d e) ≡ get k d
unfolding get update
get-update-absent k d end h = refl
get-update-absent k d (field j v e) h = elim (Bool-cases (j =s k)) [
  | inl t ↦ let no : ⊥ = ground (arith, t, h) in absurd no
  | inr f ↦ get-update-absent k (put j v d) e (ground (arith, f, h)) ∙ get-put j k v d ∙ rw f refl
]

-- The payload has neither of the keys of its context.
abbrev IsClean : Fields → Type 0
IsClean payload = (get "run_id" payload ≡ none) × (get "conversation_id" payload ≡ none)

payload_of-IsClean : (envelope : Fields) → IsClean (payload_of envelope)
payload_of-IsClean envelope = (
  get-pop "conversation_id" "run_id" (pop "run_id" (pop "event" envelope))
      ∙ get-pop "run_id" "run_id" (pop "event" envelope),
  get-pop "conversation_id" "conversation_id" (pop "run_id" (pop "event" envelope)),
)

put-IsClean :
    (name : String) (payload : Fields)
    → IsClean payload
    → IsClean (put "sse_name" (str name) payload)
put-IsClean name payload h = (
  get-put "sse_name" "run_id" (str name) payload ∙ h.0,
  get-put "sse_name" "conversation_id" (str name) payload ∙ h.1,
)

-- The data of an event of the run.
abbrev pub IsDataOf : String → Fields → Type 0
IsDataOf run_id fields =
    (get "run_id" fields ≡ some (str run_id)) × (get "conversation_id" fields ≡ none)

payload_data-IsDataOf :
    (type ts run_id : String) (payload : Fields)
    → IsClean payload
    → IsDataOf run_id (payload_data type ts run_id payload)
unfolding payload_data get
payload_data-IsDataOf type ts run_id payload h = (
  get-update-absent "run_id" _ (pop "sse_name" payload) (get-pop "sse_name" "run_id" payload ∙ h.0),
  get-update-absent "conversation_id" _ (pop "sse_name" payload)
      (get-pop "sse_name" "conversation_id" payload ∙ h.1),
)

abbrev Carries : String → Result EnvelopeError Event → Type 0
Carries run_id (ok event) = IsDataOf run_id (event_data event)
Carries run_id (err e) = Unit

Carries-if :
    (run_id : String) (b : Bool) (x y : Result EnvelopeError Event)
    → Carries run_id x
    → Carries run_id y
    → Carries run_id (if b then x else y)
Carries-if run_id true x y h k = h
Carries-if run_id false x y h k = k

plain-Carries :
    (kind : EventClass) (run_id ts : String) (payload : Fields)
    → IsClean payload
    → Carries run_id (ok (plain kind run_id ts payload))
unfolding event_data
plain-Carries kind run_id ts payload h = payload_data-IsDataOf _ ts run_id payload h

with_status-Carries :
    (found : Option Status) (type run_id ts : String) (payload : Fields)
    → IsClean payload
    → Carries run_id (with_status found type run_id ts payload)
unfolding with_status event_data
with_status-Carries none type run_id ts payload h = tt
with_status-Carries (some status) type run_id ts payload h =
    let (a, b) = payload_data-IsDataOf type ts run_id payload h in
    (
      get-put "status" "run_id" _ (payload_data type ts run_id payload) ∙ a,
      get-put "status" "conversation_id" _ (payload_data type ts run_id payload) ∙ b,
    )

terminal_event-Carries :
    (value : Option Json) (name run_id ts : String) (payload : Fields)
    → IsClean payload
    → Carries run_id (terminal_event value name run_id ts payload)
unfolding terminal_event
terminal_event-Carries none name run_id ts payload h = tt
terminal_event-Carries (some value) name run_id ts payload h =
    with_status-Carries (read_status value) _ run_id ts payload h

named_event-Carries :
    (kind : EventClass) (name run_id ts : String) (payload : Fields)
    → IsClean payload
    → Carries run_id (ok (named_event kind name run_id ts payload))
unfolding named_event
named_event-Carries EventClass.subagent_progress name run_id ts payload h =
    plain-Carries EventClass.subagent_progress run_id ts _ (put-IsClean name payload h)
named_event-Carries kind name run_id ts payload h = plain-Carries kind run_id ts payload h

class_event-Carries :
    (found : Option (String × EventClass)) (name run_id ts : String) (payload : Fields)
    → IsClean payload
    → Carries run_id (class_event found name run_id ts payload)
unfolding class_event
class_event-Carries none name run_id ts payload h =
    Carries-if run_id (starts_with "memory_" name) _ (err (EnvelopeError.unsupported name))
      (plain-Carries EventClass.memory_progress run_id ts _ (put-IsClean name payload h)) tt
class_event-Carries (some entry) name run_id ts payload h =
    named_event-Carries entry.1 name run_id ts payload h

event_of-Carries :
    (name run_id ts : String) (payload : Fields)
    → IsClean payload
    → Carries run_id (event_of name run_id ts payload)
unfolding event_of
event_of-Carries name run_id ts payload h =
    Carries-if run_id (name =s "run_started") (ok (plain EventClass.run_started run_id ts payload))
      _ (plain-Carries EventClass.run_started run_id ts payload h)
      (Carries-if run_id (is_terminal_name name)
        (terminal_event (get "status" payload) name run_id ts payload) _
        (terminal_event-Carries (get "status" payload) name run_id ts payload h)
        (class_event-Carries (find_first (λ entry. entry.0 =s name) classes) name run_id ts payload
          h))

from_name-Carries :
    (value : Option Json) (envelope : Fields) (run_id ts : String)
    → Carries run_id (from_name value envelope run_id ts)
unfolding from_name
from_name-Carries none envelope run_id ts = tt
from_name-Carries (some (str name)) envelope run_id ts =
    event_of-Carries name run_id ts (payload_of envelope) (payload_of-IsClean envelope)
from_name-Carries (some _) envelope run_id ts = tt

-- The data of an event that is made from an envelope carries the run that it is made for, and no
-- conversation, whatever the envelope says of them.
pub event_from_envelope-IsDataOf :
    (envelope : Fields) (run_id ts : String) (event : Event)
    → event_from_envelope envelope run_id ts ≡ ok event
    → IsDataOf run_id (event_data event)
unfolding event_from_envelope
event_from_envelope-IsDataOf envelope run_id ts event made =
    subst (Carries run_id) made (from_name-Carries (get "event" envelope) envelope run_id ts)
