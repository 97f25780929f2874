-- ===== src/ChatLog/Turns.antt =====
-- app/history/chat_log.py: the start of a run, and the deletion of a conversation.
use paper_collector_agent.Prelude.{
  ℕ, String, Bool, not, ◌&&◌, none, some, [], ◌∷◌, ◌++◌, ◌==◌, ◌=s◌, any, select, is_empty,
  update_first, remove_first,
}
use paper_collector_agent.Json.{str, end, field}
use paper_collector_agent.ChatLog.Types.{
  Conversation, ConversationStatus, Run, RunStatus, Message, MessageStatus, Role, Db, text,
  is_active, run_already_exists, active_run_conflict, conversation_not_found, conversation_thread,
}
use paper_collector_agent.ChatLog.Ids.{normalize_user_id, validate_conversation_id, validate_run_id}
use paper_collector_agent.ChatLog.Store.{
  Transaction, pure, lift, session, modify, require, found, ◌>>=◌, ◌>>◌, locked_conversation,
  conversation_for_user, require_runnable_conversation, thread_id, add_message, owns_conversation,
}

-- The unfinished runs of a conversation.
unfoldable pub is_active_run : ℕ → String → Run → Bool
is_active_run user_number conversation_id r =
    r.creator_id == user_number && r.conversation_id =s conversation_id && is_active r.status

unfoldable pub new_run : ℕ → String → String → ℕ → Db → Run
new_run user_number conversation_id run_id input_message_id db = record {
  creator_id = user_number;
  modifier_id = user_number;
  run_id = run_id;
  conversation_id = conversation_id;
  status = RunStatus.running;
  input_message_id = some input_message_id;
  output_message_id = none;
  pending_interrupt_id = none;
  pending_interrupt_payload = end;
  error_code = none;
  error_message = none;
  metadata = end;
  created_at = db.now;
  modified_at = db.now;
}

-- The input message and the run, once nothing stands against them.
unfoldable pub open_run : ℕ → String → String → String → String → Transaction (Unit {0})
unfolding new_run
open_run user_number conversation_id run_id user_content source = do
  message ←
      add_message user_number conversation_id run_id Role.user (text user_content ∷ [])
        MessageStatus.completed (field "source" (str source) (field "kind" (str "input") end))
  modify (λ db. record db {
    runs = db.runs ++ new_run user_number conversation_id run_id message.id db ∷ [];
  })

-- `start_turn` from the first query for a run on.
unfoldable pub create_run : ℕ → String → String → String → String → Transaction (Unit {0})
unfolding is_active_run
create_run user_number conversation_id run_id user_content source = do
  db ← session
  require (not (any (λ r. r.run_id =s run_id) db.runs)) run_already_exists
  require (not (any (is_active_run user_number conversation_id) db.runs)) active_run_conflict
  open_run user_number conversation_id run_id user_content source

unfoldable pub start_turn : String → String → String → String → String → Transaction String
start_turn user_id conversation_id run_id user_content source = do
  (_, user_number) ← lift (normalize_user_id user_id)
  conversation_id' ← lift (validate_conversation_id conversation_id)
  run_id' ← lift (validate_run_id run_id)
  conversation ← locked_conversation user_number conversation_id'
  require_runnable_conversation conversation
  create_run user_number conversation_id' run_id' user_content source
  pure (thread_id conversation)

unfoldable pub get_conversation_binding : String → String → Transaction String
get_conversation_binding user_id conversation_id = do
  (_, user_number) ← lift (normalize_user_id user_id)
  conversation_id' ← lift (validate_conversation_id conversation_id)
  db ← session
  conversation ←
      found (conversation_for_user user_number conversation_id' db) conversation_not_found
  require_runnable_conversation conversation
  pure (thread_id conversation)

unfoldable pub message_of : ℕ → String → Message → Bool
message_of user_number conversation_id m =
    m.creator_id == user_number && m.conversation_id =s conversation_id

unfoldable pub run_of : ℕ → String → Run → Bool
run_of user_number conversation_id r =
    r.creator_id == user_number && r.conversation_id =s conversation_id

-- The two `DELETE` statements and the deletion of the row.
unfoldable pub erase_conversation : ℕ → String → Db → Db
unfolding message_of run_of owns_conversation
erase_conversation user_number conversation_id db = record db {
  messages = select (λ m. not (message_of user_number conversation_id m)) db.messages;
  runs = select (λ r. not (run_of user_number conversation_id r)) db.runs;
  conversations = remove_first (owns_conversation user_number conversation_id) db.conversations;
}

unfoldable pub delete_conversation : String → String → Transaction (Unit {0})
delete_conversation user_id conversation_id = do
  (_, user_number) ← lift (normalize_user_id user_id)
  conversation_id' ← lift (validate_conversation_id conversation_id)
  conversation ← locked_conversation user_number conversation_id'
  modify (erase_conversation user_number conversation.conversation_id)

unfoldable pub close_conversation : ℕ → ℕ → Conversation → Conversation
close_conversation user_number now c = record c {
  status = ConversationStatus.deleted;
  modifier_id = user_number;
  modified_at = now;
}

unfoldable pub close_row : ℕ → String → ℕ → Db → Db
unfolding close_conversation owns_conversation
close_row user_number conversation_id now db = record db {
  conversations =
      update_first (owns_conversation user_number conversation_id)
        (close_conversation user_number now) db.conversations;
}

unfoldable pub begin_conversation_deletion : String → String → Transaction String
unfolding close_row
begin_conversation_deletion user_id conversation_id = do
  (_, user_number) ← lift (normalize_user_id user_id)
  conversation_id' ← lift (validate_conversation_id conversation_id)
  conversation ← locked_conversation user_number conversation_id'
  require (not (is_empty (thread_id conversation))) conversation_thread
  db ← session
  modify (close_row user_number conversation_id' db.now)
  pure (thread_id conversation)
