-- ===== src/Examples/Envelopes.antt =====
-- Concrete envelopes.
use paper_collector_agent.Prelude.{◌≡◌, refl, some, ok}
use paper_collector_agent.Json.{Fields, str, end, field, get, put, pop, update}
use paper_collector_agent.Envelope.{
  Event, EventClass, plain, build_event, event_from_envelope, from_name, event_of, class_event,
  named_event, payload_of, sse_name_for, event_data,
}
use paper_collector_agent.Envelope.Names.{sent_name, event_from_envelope-sent_name}
use paper_collector_agent.Envelope.Payloads.{IsDataOf, event_from_envelope-IsDataOf}

abbrev message : Fields
message = build_event "message" (field "content" (str "Done.") end) (field "run_id" (str "r9") end)

abbrev sent : Event
sent = plain EventClass.content_delta "r1" "t" (field "content" (str "Done.") end)

message_named : get "event" message ≡ some (str "message")
unfolding build_event get put update
message_named = refl

message_made : event_from_envelope message "r1" "t" ≡ ok sent
unfolding build_event get put update pop event_from_envelope from_name event_of class_event
    named_event
message_made = refl

event_from_envelope-sent_name_example : sse_name_for sent ≡ sent_name "message" (payload_of message)
event_from_envelope-sent_name_example =
    event_from_envelope-sent_name message "message" "r1" "t" sent message_named message_made

event_from_envelope-IsDataOf_example : IsDataOf "r1" (event_data sent)
event_from_envelope-IsDataOf_example =
    event_from_envelope-IsDataOf message "r1" "t" sent message_made
