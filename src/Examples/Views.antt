-- ===== src/Examples/Views.antt =====
-- Concrete pages and turns.
use paper_collector_agent.Prelude.{◌≡◌, ◌≤◌, ◌++◌, none, some, [], ◌∷◌, arith, length, take}
use paper_collector_agent.Json.{end}
use paper_collector_agent.ChatLog.Types.{Db, Run, RunStatus, Message, MessageStatus, Role, text}
use paper_collector_agent.ChatLog.Views.{message_page}
use paper_collector_agent.ChatLog.Views.Pages.{IsRising, older, before_page, message_page_lem}
use paper_collector_agent.ChatLog.Views.CompletedTurns.{
  collect_turns, turns_after, collect_turns_lem,
}

abbrev question : Message
question = record {
  id = 1;
  creator_id = 7;
  modifier_id = 7;
  conversation_id = "c1";
  run_id = "r1";
  role = Role.user;
  content = text "find papers" ∷ [];
  payload = end;
  status = MessageStatus.completed;
  created_at = 1;
  modified_at = 1;
}

abbrev answer : Message
answer = record question {
  id = 2;
  role = Role.assistant;
  content = text "found" ∷ [];
  created_at = 2;
}

abbrev run : Run
run = record {
  creator_id = 7;
  modifier_id = 7;
  run_id = "r1";
  conversation_id = "c1";
  status = RunStatus.succeeded;
  input_message_id = some 1;
  output_message_id = some 2;
  pending_interrupt_id = none;
  pending_interrupt_payload = end;
  error_code = none;
  error_message = none;
  metadata = end;
  created_at = 1;
  modified_at = 2;
}

abbrev answered : Db
answered = record {
  conversations = [];
  runs = run ∷ [];
  messages = question ∷ answer ∷ [];
  last_message_id = 2;
  now = 3;
}

answered-IsRising : IsRising answered.messages
answered-IsRising = ((omega arith, tt), (tt, tt))

message_page_lem_example :
    (older 7 "c1" none answered
      ≡ before_page 7 "c1" (message_page 7 "c1" 1 none answered).1 answered
        ++ (message_page 7 "c1" 1 none answered).0)
    × (length (message_page 7 "c1" 1 none answered).0 ≤ 1)
message_page_lem_example = message_page_lem 7 "c1" 1 none answered (omega arith) answered-IsRising

collect_turns_lem_example :
    collect_turns none 1 answered answered.runs []
    ≡ take 1 ([] ++ turns_after none answered answered.runs)
collect_turns_lem_example = collect_turns_lem none 1 answered answered.runs [] (omega arith)
