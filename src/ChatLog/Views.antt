-- ===== src/ChatLog/Views.antt =====
-- app/history/chat_log.py: the read-only queries of messages, runs and completed turns.
pub mod Pages
pub mod CompletedTurns
use Prim.Native.String
use mathlib.Core.List.{reverse}
use paper_collector_agent.Prelude.{
  ℕ, ◌+◌, String, Bool, true, false, ◌&&◌, Option, none, some, List, [], ◌∷◌, ◌==◌, ◌=s◌, ltb,
  if◌then◌else◌, find_first, select, take, length, Result, ok, err, ◌>>=◌,
}
use paper_collector_agent.Json.{Json, Fields, end, bool, num, str, arr, nil, get, or_else}
use paper_collector_agent.ChatLog.Types.{
  Run, RunStatus, Message, MessageStatus, Role, Block, text, PublicStatus, RunEventState, Db,
  ChatError, conversation_not_found, value_error,
}
use paper_collector_agent.ChatLog.Ids.{
  normalize_user_id, validate_conversation_id, validate_run_id, decimal_text,
}
use paper_collector_agent.ChatLog.Interruption.{owned_run}
use paper_collector_agent.ChatLog.Store.{is_run, conversation_for_user}

unfoldable pub public_run_status : RunStatus → PublicStatus
public_run_status RunStatus.pending = PublicStatus.running
public_run_status RunStatus.running = PublicStatus.running
public_run_status RunStatus.waiting_input = PublicStatus.confirmation_required
public_run_status RunStatus.succeeded = PublicStatus.completed
public_run_status RunStatus.failed = PublicStatus.failed
public_run_status RunStatus.cancelled = PublicStatus.interrupted
public_run_status RunStatus.other = PublicStatus.failed

unfoldable pub public_message_status : MessageStatus → PublicStatus
public_message_status MessageStatus.streaming = PublicStatus.running
public_message_status MessageStatus.completed = PublicStatus.completed
public_message_status MessageStatus.failed = PublicStatus.failed

-- The texts of the text blocks, one after another.
unfoldable pub display_text : List Block → String
display_text [] = String.[]
display_text (text s ∷ blocks) = String.◌++◌ s (display_text blocks)
display_text (block ∷ blocks) = display_text blocks

-- An integer above zero, which `True` is too; the numbers of the model are not negative.
unfoldable pub positive_int : Option Json → Option ℕ
positive_int (some (num n)) = if ltb 0 n then some n else none
positive_int (some (bool true)) = some 1
positive_int _ = none

-- `source` is the value itself, which is a text wherever this module writes it.
pub record MessageView : Type 0 where
  pub id : ℕ
  pub conversation_id : String
  pub run_id : String
  pub role : Role
  pub content : List Block
  pub status : PublicStatus
  pub source : Json
  pub meta : Option Fields
  pub created_at : ℕ

-- `payload or None`
unfoldable pub fields_or_none : Fields → Option Fields
fields_or_none end = none
fields_or_none fields = some fields

unfoldable pub message_view : Message → MessageView
unfolding public_message_status fields_or_none
message_view m = record {
  id = m.id;
  conversation_id = m.conversation_id;
  run_id = m.run_id;
  role = m.role;
  content = m.content;
  status = public_message_status m.status;
  source = or_else (get "source" m.payload) (str "api");
  meta = fields_or_none m.payload;
  created_at = m.created_at;
}

-- The `WHERE` clause of the messages of a conversation.
unfoldable pub in_dialogue : ℕ → String → Message → Bool
in_dialogue user_number conversation_id m =
    m.creator_id == user_number && m.conversation_id =s conversation_id

-- `id < before_id`, if that is given
unfoldable pub is_before : Option ℕ → Message → Bool
is_before none m = true
is_before (some before_id) m = ltb m.id before_id

unfoldable pub first_id : List Message → Option ℕ
first_id [] = none
first_id (m ∷ messages) = some m.id

-- A page from the rows that the query gives, newest first: the messages in the order of their keys,
-- and the key before which the next page stands.
unfoldable pub page : ℕ → List Message → List Message × Option ℕ
unfolding first_id
page limit rows =
    let shown = reverse (take limit rows) in
    (shown, if ltb limit (length rows) then first_id shown else none)

-- The rows that `list_messages` reads.
unfoldable pub message_rows : ℕ → String → ℕ → Option ℕ → Db → List Message
unfolding in_dialogue is_before
message_rows user_number conversation_id limit before_id db = take (limit + 1) (
    reverse (
      select (λ m. in_dialogue user_number conversation_id m && is_before before_id m) db.messages))

unfoldable pub message_page : ℕ → String → ℕ → Option ℕ → Db → List Message × Option ℕ
unfolding page message_rows
message_page user_number conversation_id limit before_id db =
    page limit (message_rows user_number conversation_id limit before_id db)

unfoldable pub message_views : List Message → List MessageView
unfolding message_view
message_views [] = []
message_views (m ∷ messages) = message_view m ∷ message_views messages

unfoldable pub list_messages :
    String → String → ℕ → Option ℕ → Db → Result ChatError (List MessageView × Option ℕ)
unfolding message_page message_views
list_messages user_id conversation_id limit before_id db = do
  (_, user_number) ← normalize_user_id user_id
  conversation_id ← validate_conversation_id conversation_id
  elim (conversation_for_user user_number conversation_id db) [
    | none ↦ err conversation_not_found
    | some conversation ↦
        let (messages, next) = message_page user_number conversation_id limit before_id db in
        ok (message_views messages, next)
  ]

pub record RunScope : Type 0 where
  pub user_id : String
  pub conversation_id : String

unfoldable pub get_run_scope : String → Db → Result ChatError (Option RunScope)
get_run_scope run_id db = do
  run_id ← validate_run_id run_id
  elim (find_first (λ r. r.run_id =s run_id) db.runs) [
    | none ↦ ok none
    | some r ↦
        ok
          (some record { user_id = decimal_text r.creator_id; conversation_id = r.conversation_id })
  ]

unfoldable pub get_run_event_state : String → String → Db → Result ChatError (Option RunEventState)
unfolding public_run_status positive_int
get_run_event_state user_id run_id db = do
  (_, user_number) ← normalize_user_id user_id
  run_id ← validate_run_id run_id
  elim (find_first (owned_run user_number run_id) db.runs) [
    | none ↦ ok none
    | some r ↦ ok (
        some record {
          status = public_run_status r.status;
          terminal_event_sequence = positive_int (get "terminal_event_sequence" r.metadata);
        })
  ]

-- `result` is spread over the fields from `error` on, with the status and the reply above.
pub record RunView : Type 0 where
  pub run_id : String
  pub conversation_id : String
  pub status : PublicStatus
  pub reply : String
  pub error : Option String
  pub error_code : Option String
  pub pending_action : Option Json
  pub artifact_refs : Json
  pub terminal_event_sequence : Option ℕ

-- `db.get(AgentMessage, id)`
unfoldable pub message_by_id : ℕ → Db → Option Message
message_by_id id db = find_first (λ m. m.id == id) db.messages

-- The text of a message that may be missing.
unfoldable pub reply_of : Option Message → String
unfolding display_text
reply_of none = String.[]
reply_of (some m) = display_text m.content

-- The reply of a run: the key 0 is no key.
unfoldable pub output_text : Option ℕ → Db → String
unfolding message_by_id reply_of
output_text none db = String.[]
output_text (some id) db = if id == 0 then String.[] else reply_of (message_by_id id db)

unfoldable pub run_view : Run → Db → RunView
unfolding public_run_status positive_int output_text
run_view r db = record {
  run_id = r.run_id;
  conversation_id = r.conversation_id;
  status = public_run_status r.status;
  reply = output_text r.output_message_id db;
  error = r.error_message;
  error_code = r.error_code;
  pending_action = get "pending_action" r.pending_interrupt_payload;
  artifact_refs = or_else (get "artifact_refs" r.metadata) (arr nil);
  terminal_event_sequence = positive_int (get "terminal_event_sequence" r.metadata);
}

unfoldable pub get_run_view : String → String → String → Db → Result ChatError RunView
unfolding run_view
get_run_view user_id conversation_id run_id db = do
  (_, user_number) ← normalize_user_id user_id
  run_id ← validate_run_id run_id
  conversation_id ← validate_conversation_id conversation_id
  elim (find_first (is_run user_number conversation_id run_id) db.runs) [
    | none ↦ err conversation_not_found
    | some r ↦ ok (run_view r db)
  ]
