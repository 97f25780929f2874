-- ===== src/ChatLog/Requests.antt =====
-- Sequences of operations on the history store, each run by `AgentHistoryStore.run` in a
-- transaction of its own; the clock may move between them.
use paper_collector_agent.Prelude.{ℕ, String, Option, List, [], ◌∷◌}
use paper_collector_agent.Json.{Fields}
use paper_collector_agent.ChatLog.Types.{Db}
use paper_collector_agent.ChatLog.Store.{Transaction, pure, ◌>>◌, run_operation}
use paper_collector_agent.ChatLog.Tools.{
  Call, ActionResult, append_text_message, append_tool_batch, append_tool_result,
}
use paper_collector_agent.ChatLog.Turns.{
  start_turn, delete_conversation, begin_conversation_deletion,
}
use paper_collector_agent.ChatLog.Completion.{Response, complete_run}
use paper_collector_agent.ChatLog.Approval.{claim_pending_action}
use paper_collector_agent.ChatLog.Interruption.{record_terminal_event_sequence, mark_interrupted}

-- The writing operations with their arguments, the user first.
pub data Request : Type 0 where
  start : (user_id conversation_id run_id user_content source : String) → Request
  say : (user_id conversation_id run_id content : String) → Request
  call_tools : (user_id conversation_id run_id batch_id : String) (calls : List Call) → Request
  return_result :
      (user_id conversation_id run_id batch_id : String) (calls : List Call) (result : ActionResult)
      → Request
  complete :
      (user_id conversation_id run_id : String) (response : Response) (latency_ms : ℕ)
      (extra_meta : Option Fields) (content : Option String)
      → Request
  claim :
      (user_id conversation_id run_id action_id decision : String) (comment : Option String)
      → Request
  record_sequence : (user_id run_id : String) (sequence : ℕ) → Request
  interrupt : (user_id conversation_id run_id : String) → Request
  close : (user_id conversation_id : String) → Request
  delete : (user_id conversation_id : String) → Request
  tick : ℕ → Request

-- The operation, without its result.
abbrev pub void : {A : Type 0} → Transaction A → Transaction (Unit {0})
void m = m >> pure tt

abbrev pub set_clock : ℕ → Transaction (Unit {0})
set_clock now db = pure tt (record db { now = now })

unfoldable pub perform : Request → Transaction (Unit {0})
perform (start u c r content source) = void (start_turn u c r content source)
perform (say u c r content) = void (append_text_message u c r content)
perform (call_tools u c r b calls) = void (append_tool_batch u c r b calls)
perform (return_result u c r b calls result) = void (append_tool_result u c r b calls result)
perform (complete u c r response ms extra content) =
    void (complete_run u c r response ms extra content)
perform (claim u c r action decision comment) =
    void (claim_pending_action u c r action decision comment)
perform (record_sequence u r sequence) = record_terminal_event_sequence u r sequence
perform (interrupt u c r) = mark_interrupted u c r
perform (close u c) = void (begin_conversation_deletion u c)
perform (delete u c) = delete_conversation u c
perform (tick now) = set_clock now

-- The store after the requests; a request that raises is rolled back.
unfoldable pub serve : List Request → Db → Db
unfolding run_operation
serve [] db = db
serve (request ∷ requests) db = serve requests (run_operation (perform request) db).1
