-- ===== src/Examples/Arrivals.antt =====
-- Concrete results of a batch of two calls: one too early, one repeated and one that differs.
use paper_collector_agent.Prelude.{◌≡◌, String, refl, ok, none, some, List, [], ◌∷◌, strip}
use paper_collector_agent.Json.{Json, str, null, end}
use paper_collector_agent.ChatLog.Types.{Role, Run, RunStatus, Db}
use paper_collector_agent.ChatLog.Ids.{
  validate_conversation_id, validate_run_id, normalize_user_id, read_decimal, read_digits,
  decimal_value, decimal_text, write_digits, digit,
}
use paper_collector_agent.ChatLog.Store.{find_batch_message, lock_run}
use paper_collector_agent.ChatLog.Tools.{Call, ActionResult, call_ids}
use paper_collector_agent.ChatLog.Tools.Results.{collect}
use paper_collector_agent.ChatLog.Tools.Firsts.{first_result}
use paper_collector_agent.ChatLog.Tools.Arrivals.{append_results}
use paper_collector_agent.ChatLog.Tools.Batches.{blocks_of, append_results_lem}

abbrev call_of : String → Call
call_of id = record {
  id = id;
  name = "search";
  args = none;
  input = none;
  kind = none;
  requires_confirmation = none;
}

abbrev two_calls : List Call
two_calls = call_of "a" ∷ call_of "b" ∷ []

abbrev result_of : String → Json → ActionResult
result_of id content = record {
  action_id = id;
  action_type = none;
  status = some "success";
  payload = some content;
  summary = none;
  error_code = none;
  error_message = none;
}

abbrev active_run : Run
active_run = record {
  creator_id = 7;
  modifier_id = 7;
  run_id = "r1";
  conversation_id = "c1";
  status = RunStatus.running;
  input_message_id = none;
  output_message_id = none;
  pending_interrupt_id = none;
  pending_interrupt_payload = end;
  error_code = none;
  error_message = none;
  metadata = end;
  created_at = 1;
  modified_at = 1;
}

abbrev waiting : Db
waiting = record {
  conversations = [];
  runs = active_run ∷ [];
  messages = [];
  last_message_id = 0;
  now = 2;
}

waiting-locked : lock_run 7 "c1" "r1" waiting ≡ ok (active_run, waiting)
unfolding lock_run validate_conversation_id validate_run_id
waiting-locked = refl

waiting-missing : find_batch_message "r1" Role.user "b1" "tool_results" waiting ≡ none
unfolding find_batch_message
waiting-missing = refl

is_seven : normalize_user_id "7" ≡ ok ("7", 7)
unfolding normalize_user_id read_decimal read_digits decimal_value decimal_text write_digits digit
    strip
is_seven = refl

abbrev results : List ActionResult
results =
    result_of "b" (str "late")
    ∷ result_of "b" (str "other")
    ∷ result_of "z" null
    ∷ result_of "a" null
    ∷ result_of "a" null
    ∷ []

append_results_lem_example :
    let db = append_results "7" "c1" "r1" "b1" two_calls results waiting in
    blocks_of (find_batch_message "r1" Role.user "b1" "tool_results" db)
    ≡ collect (call_ids two_calls) (first_result results)
append_results_lem_example =
    append_results_lem "7" "7" "c1" "r1" "b1" 7 two_calls is_seven results active_run waiting
      waiting-locked waiting-missing tt
