-- ===== src/ChatLog/Interruption.antt =====
-- app/history/chat_log.py: `record_terminal_event_sequence` and `mark_interrupted`.
use paper_collector_agent.Prelude.{
  ℕ, String, Bool, true, ◌&&◌, some, [], ◌∷◌, ◌==◌, ◌=s◌, if◌then◌else◌, find_first,
}
use paper_collector_agent.Json.{bool, num, str, end, field, put, pop}
use paper_collector_agent.ChatLog.Types.{
  Run, RunStatus, MessageStatus, Role, text, conversation_not_found, is_terminal,
}
use paper_collector_agent.ChatLog.Ids.{normalize_user_id, validate_run_id}
use paper_collector_agent.ChatLog.Store.{
  Transaction, pure, lift, session, found, ◌>>=◌, ◌>>◌, lock_run, save_run, add_message,
}
use paper_collector_agent.ChatLog.Completion.{fail_incomplete_tool_results}

unfoldable pub owned_run : ℕ → String → Run → Bool
owned_run user_number run_id r = r.run_id =s run_id && r.creator_id == user_number

unfoldable pub set_sequence : ℕ → ℕ → ℕ → Run → Run
set_sequence user_number sequence now r = record r {
  metadata = pop "terminal_event_pending" (put "terminal_event_sequence" (num sequence) r.metadata);
  modifier_id = user_number;
  modified_at = now;
}

unfoldable pub record_terminal_event_sequence : String → String → ℕ → Transaction (Unit {0})
unfolding owned_run set_sequence
record_terminal_event_sequence user_id run_id sequence = do
  (_, user_number) ← lift (normalize_user_id user_id)
  run_id' ← lift (validate_run_id run_id)
  db ← session
  run ← found (find_first (owned_run user_number run_id') db.runs) conversation_not_found
  save_run run (set_sequence user_number sequence db.now)

unfoldable pub interrupt_run : ℕ → ℕ → ℕ → Run → Run
interrupt_run user_number message_id now r = record r {
  status = RunStatus.failed;
  output_message_id = some message_id;
  error_code = some "INTERRUPTED";
  error_message = some "本次回复未完成。";
  modifier_id = user_number;
  modified_at = now;
}

-- `mark_interrupted` on a run that has not ended.
unfoldable pub abort_run : ℕ → String → String → Run → Transaction (Unit {0})
unfolding interrupt_run
abort_run user_number conversation_id run_id run = do
  fail_incomplete_tool_results run_id user_number
  message ←
      add_message user_number conversation_id run_id Role.assistant (text "本次回复未完成。" ∷ [])
        MessageStatus.failed (field "kind" (str "terminal") (field "interrupted" (bool true) end))
  db ← session
  save_run run (interrupt_run user_number message.id db.now)

unfoldable pub mark_interrupted : String → String → String → Transaction (Unit {0})
unfolding abort_run
mark_interrupted user_id conversation_id run_id = do
  (_, user_number) ← lift (normalize_user_id user_id)
  run ← lock_run user_number conversation_id run_id
  if is_terminal run.status then pure tt else abort_run user_number conversation_id run_id run
