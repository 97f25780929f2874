-- ===== src/Examples/Names.antt =====
-- Concrete ids, and concrete results of a batch of calls.
use paper_collector_agent.Prelude.{
  ◌≡◌, ◌≢◌, ◌↔◌, ◌≤◌, refl, ok, none, [], ◌∷◌, codes, strip, All, false,
}
use paper_collector_agent.Json.{null, end}
use paper_collector_agent.ChatLog.Ids.{
  normalize_user_id, read_decimal, read_digits, decimal_value, decimal_text, write_digits, digit,
  max_user_number, validate_run_id,
}
use paper_collector_agent.ChatLog.Ids.RunId.{IsRunId, validate_run_id_iff}
use paper_collector_agent.ChatLog.Ids.UserId.{normalize_user_id_idem}
use paper_collector_agent.ChatLog.Types.{Message, MessageStatus, Role, tool_result}
use paper_collector_agent.ChatLog.Tools.{add_result, find_result}
use paper_collector_agent.ChatLog.Tools.Results.{receive, add_result-completed_iff}

validate_run_id_iff_example : (validate_run_id "run-1" ≡ ok "run-1") ↔ IsRunId (codes "run-1")
validate_run_id_iff_example = validate_run_id_iff "run-1"

padded : normalize_user_id " 007" ≡ ok ("7", 7)
unfolding normalize_user_id read_decimal read_digits decimal_value decimal_text write_digits digit
    strip
padded = refl

normalize_user_id_idem_example : (normalize_user_id "7" ≡ ok ("7", 7)) × (7 ≤ max_user_number)
normalize_user_id_idem_example = normalize_user_id_idem " 007" "7" 7 padded

-- The message of a batch of two calls, before any result.
abbrev batch : Message
batch = record {
  id = 1;
  creator_id = 7;
  modifier_id = 7;
  conversation_id = "c1";
  run_id = "r1";
  role = Role.user;
  content = [];
  payload = end;
  status = MessageStatus.streaming;
  created_at = 1;
  modified_at = 1;
}

add_result-completed_iff_example :
    ((add_result 7 ("a" ∷ []) "a" (tool_result "a" null false) 4 batch).status
      ≡ MessageStatus.completed)
    ↔ All
        (λ id.
          receive "a" (tool_result "a" null false) (λ j. find_result j batch.content) id ≢ none)
        ("a" ∷ [])
add_result-completed_iff_example =
    add_result-completed_iff 7 ("a" ∷ []) "a" (tool_result "a" null false) 4 batch
