-- ===== src/ChatLog/Types.antt =====
-- app/models/agent_history.py and the types of app/history/chat_log.py.
-- A text column that holds JSON is modelled by what it decodes to: `content` by the blocks that
-- this module writes, `payload` and `metadata` by the fields of an object.
use paper_collector_agent.Prelude.{ℕ, String, Bool, true, false, Option, List}
use paper_collector_agent.Json.{Json, Fields}

-- `other` is any text that the module does not know.
pub data ConversationStatus : Type 0 where
  active deleted other : ConversationStatus

pub data RunStatus : Type 0 where
  pending running waiting_input succeeded failed cancelled other : RunStatus

pub data MessageStatus : Type 0 where
  streaming completed failed : MessageStatus

pub data Role : Type 0 where
  user assistant : Role

pub data PublicStatus : Type 0 where
  running confirmation_required completed failed interrupted : PublicStatus

pub data Block : Type 0 where
  text : String → Block
  tool_use : (id name : String) (input : Json) → Block
  tool_result : (tool_use_id : String) (content : Json) (is_error : Bool) → Block

-- `created_at` and `modified_at` are the two time columns.
pub record Message : Type 0 where
  pub id : ℕ
  pub creator_id : ℕ
  pub modifier_id : ℕ
  pub conversation_id : String
  pub run_id : String
  pub role : Role
  pub content : List Block
  pub payload : Fields
  pub status : MessageStatus
  pub created_at : ℕ
  pub modified_at : ℕ

pub record Run : Type 0 where
  pub creator_id : ℕ
  pub modifier_id : ℕ
  pub run_id : String
  pub conversation_id : String
  pub status : RunStatus
  pub input_message_id : Option ℕ
  pub output_message_id : Option ℕ
  pub pending_interrupt_id : Option String
  pub pending_interrupt_payload : Fields
  pub error_code : Option String
  pub error_message : Option String
  pub metadata : Fields
  pub created_at : ℕ
  pub modified_at : ℕ

pub record Conversation : Type 0 where
  pub creator_id : ℕ
  pub modifier_id : ℕ
  pub conversation_id : String
  pub thread_id : Option String
  pub status : ConversationStatus
  pub modified_at : ℕ

-- The three tables, the counter of the message keys, and the reading of the clock.
pub record Db : Type 0 where
  pub conversations : List Conversation
  pub runs : List Run
  pub messages : List Message
  pub last_message_id : ℕ
  pub now : ℕ

pub data ChatError : Type 0 where
  pending_action_conflict invalid_run_id run_already_exists active_run_conflict : ChatError
  conversation_not_found conversation_state conversation_thread tool_result_conflict : ChatError
  value_error type_error : ChatError

-- `RunEventState`
pub record RunEventState : Type 0 where
  pub status : PublicStatus
  pub terminal_event_sequence : Option ℕ

-- `status IN ACTIVE_RUN_STATUSES`
abbrev pub is_active : RunStatus → Bool
is_active RunStatus.pending = true
is_active RunStatus.running = true
is_active RunStatus.waiting_input = true
is_active _ = false

-- `status in TERMINAL_RUN_STATUSES`
abbrev pub is_terminal : RunStatus → Bool
is_terminal RunStatus.succeeded = true
is_terminal RunStatus.failed = true
is_terminal RunStatus.cancelled = true
is_terminal _ = false
