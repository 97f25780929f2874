-- ===== src/Examples/Published.antt =====
-- Concrete events of a run that are published.
use paper_collector_agent.Prelude.{◌≡◌, refl, ok, some, none, true, [], ◌∷◌, strip}
use paper_collector_agent.Json.{end, field, str}
use paper_collector_agent.ChatLog.Ids.{
  normalize_user_id, read_decimal, read_digits, decimal_value, validate_conversation_id,
  validate_run_id,
}
use paper_collector_agent.ChatLog.Store.{lock_run, add_message, save_run}
use paper_collector_agent.ChatLog.Completion.{Response}
use paper_collector_agent.StreamEvents.{Table, AgentStreamEvent, latest}
use paper_collector_agent.Persistence.{
  EventDelivery, terminal, content_delta, World, dispatch, dispatch_each,
}
use paper_collector_agent.Persistence.Stages.{Dispatched, dispatch_lem}
use paper_collector_agent.Persistence.Logged.{IsLogged, dispatch_each-IsLogged}
use paper_collector_agent.Persistence.Endings.{dispatch-IsRecorded}
use paper_collector_agent.ChatLog.TerminalSequence.{IsRecorded}
use paper_collector_agent.Examples.Runs.{waiting}

abbrev empty_log : Table
empty_log = record { rows = []; last_id = 0 }

abbrev started_world : World
started_world = record { content_parts = []; history = waiting; log = empty_log; woken = [] }

abbrev finished : Response
finished = record {
  status = some "completed";
  reply = some "Done.";
  error = none;
  artifact_refs = none;
  pending_action = none;
  interrupt = none;
  last_action_result = none;
}

abbrev delta : EventDelivery
delta = record {
  user_id = "7";
  conversation_id = "c1";
  root_run_id = "r1";
  event = content_delta (some "Do");
  sse_name = "content_delta";
  payload = field "delta" (str "Do") end;
  latency_ms = 10;
  has_log = true;
}

abbrev ending : EventDelivery
ending = record delta {
  event = terminal finished end;
  sse_name = "run_completed";
  payload = field "status" (str "completed") end;
  latency_ms = 40;
}

dispatch_lem_example : Dispatched delta started_world (dispatch delta started_world)
dispatch_lem_example = dispatch_lem delta started_world

started_world-IsLogged : IsLogged started_world
started_world-IsLogged = record { valid = record { sound = tt; ordered = tt }; stands = tt }

dispatch_each-IsLogged_example : IsLogged (dispatch_each (delta ∷ ending ∷ []) started_world)
dispatch_each-IsLogged_example =
    dispatch_each-IsLogged (delta ∷ ending ∷ []) started_world started_world-IsLogged

ending_published : dispatch ending started_world ≡ (ok tt, (dispatch ending started_world).1)
unfolding dispatch normalize_user_id read_decimal strip read_digits decimal_value lock_run
    validate_conversation_id validate_run_id add_message save_run
ending_published = refl

dispatch-IsRecorded_example :
    let after = (dispatch ending started_world).1 in
    (event : AgentStreamEvent) × (latest "7" "r1" after.log ≡ ok (some event))
    × (event.event_name ≡ "run_completed")
    × IsRecorded "7" "r1" event.sequence after.history
dispatch-IsRecorded_example =
    dispatch-IsRecorded ending finished end started_world (dispatch ending started_world).1 refl
      (record { sound = tt; ordered = tt }) ending_published
