-- ===== src/ChatLog/Store.antt =====
-- app/history/chat_log.py: the transactions of `AgentHistoryStore` and the row helpers.
use paper_collector_agent.Prelude.{
  ℕ, ◌+◌, String, Bool, true, false, not, ◌&&◌, Option, none, some, List, [], ◌∷◌, ◌++◌, ◌==◌, ◌=s◌,
  find_first, is_empty, strip, Result, ok, err, update_first,
}
use paper_collector_agent.Json.{Fields, str, get}
use paper_collector_agent.ChatLog.Types.{
  Conversation, Run, Message, Db, Block, Role, MessageStatus, ConversationStatus, ChatError,
  conversation_not_found, conversation_state, conversation_thread,
}
use paper_collector_agent.ChatLog.Ids.{validate_conversation_id, validate_run_id}

-- An operation on the session. A raised exception keeps no state, because `_run` rolls back.
abbrev pub Transaction : Type 0 → Type 0
Transaction A = Db → Result ChatError (A × Db)

module _ {A : Type 0} where
  abbrev pub pure : A → Transaction A
  pure a db = ok (a, db)

  abbrev pub raise : ChatError → Transaction A
  raise e db = err e

  -- A pure call that may raise.
  abbrev pub lift : Result ChatError A → Transaction A
  lift (ok a) db = ok (a, db)
  lift (err e) db = err e

  -- `AgentHistoryStore._run`: commit what the operation returns with, or roll back.
  unfoldable pub run_operation : Transaction A → Db → Result ChatError A × Db
  run_operation operation db = elim (operation db) [
    | ok (a, db') ↦ (ok a, db')
    | err e ↦ (err e, db)
  ]

infixl 5 ◌>>=◌ ◌>>◌
abbrev pub ◌>>=◌ : {A B : Type 0} → Transaction A → (A → Transaction B) → Transaction B
◌>>=◌ m f db = elim (m db) [ ok (a, db') ↦ f a db' | err e ↦ err e ]

abbrev pub ◌>>◌ : {A B : Type 0} → Transaction A → Transaction B → Transaction B
m >> n = m >>= λ _. n

abbrev pub session : Transaction Db
session db = ok (db, db)

abbrev pub modify : (Db → Db) → Transaction (Unit {0})
modify f db = ok (tt, f db)

-- `if not b: raise e`
abbrev pub require : Bool → ChatError → Transaction (Unit {0})
require true e = pure tt
require false e = raise e

-- A value that the query found, or an exception.
abbrev pub found : {A : Type 0} → Option A → ChatError → Transaction A
found none e = raise e
found (some a) e = pure a

-- The tests of the `WHERE` clauses.
unfoldable pub owns_conversation : ℕ → String → Conversation → Bool
owns_conversation user_number conversation_id c =
    c.creator_id == user_number && c.conversation_id =s conversation_id

unfoldable pub is_run : ℕ → String → String → Run → Bool
is_run user_number conversation_id run_id r =
    r.creator_id == user_number && r.conversation_id =s conversation_id && r.run_id =s run_id

unfoldable pub conversation_for_user : ℕ → String → Db → Option Conversation
unfolding owns_conversation
conversation_for_user user_number conversation_id db =
    find_first (owns_conversation user_number conversation_id) db.conversations

unfoldable pub locked_conversation : ℕ → String → Transaction Conversation
unfolding conversation_for_user
locked_conversation user_number conversation_id = do
  db ← session
  found (conversation_for_user user_number conversation_id db) conversation_not_found

unfoldable pub thread_id : Conversation → String
thread_id c = elim c.thread_id [ none ↦ String.[] | some t ↦ strip t ]

abbrev pub is_active_conversation : ConversationStatus → Bool
is_active_conversation ConversationStatus.active = true
is_active_conversation _ = false

unfoldable pub require_runnable_conversation : Conversation → Transaction (Unit {0})
unfolding thread_id
require_runnable_conversation c = do
  require (is_active_conversation c.status) conversation_state
  require (not (is_empty (thread_id c))) conversation_thread

-- The conversation id as the query compares it, and the run.
unfoldable pub lock_run : ℕ → String → String → Transaction Run
unfolding is_run
lock_run user_number conversation_id run_id = do
  conversation_id' ← lift (validate_conversation_id conversation_id)
  run_id' ← lift (validate_run_id run_id)
  db ← session
  found (find_first (is_run user_number conversation_id' run_id') db.runs) conversation_not_found

-- The rows that a later assignment to the object that `lock_run` returned changes.
unfoldable pub same_run : Run → Run → Bool
unfolding is_run
same_run r = is_run r.creator_id r.conversation_id r.run_id

-- `run.… = …`: the locked row takes the fields of the changed object.
unfoldable pub save_run : Run → (Run → Run) → Transaction (Unit {0})
unfolding same_run
save_run r change = modify (λ db. record db { runs = update_first (same_run r) change db.runs })

unfoldable pub save_message : ℕ → (Message → Message) → Transaction (Unit {0})
save_message id change =
    modify (λ db. record db { messages = update_first (λ m. m.id == id) change db.messages })

abbrev pub role_eq : Role → Role → Bool
role_eq Role.user Role.user = true
role_eq Role.assistant Role.assistant = true
role_eq _ _ = false

-- `payload.get(key) == text`
unfoldable pub has_text : String → String → Fields → Bool
has_text key text fields = elim (get key fields) [ some (str s) ↦ s =s text | _ ↦ false ]

unfoldable pub is_batch_message : String → Role → String → String → Message → Bool
unfolding has_text
is_batch_message run_id role batch_id kind m =
    m.run_id =s run_id
    && role_eq m.role role
    && has_text "kind" kind m.payload
    && has_text "batch_id" batch_id m.payload

-- The rows stand in the order of their keys.
unfoldable pub find_batch_message : String → Role → String → String → Db → Option Message
unfolding is_batch_message
find_batch_message run_id role batch_id kind db =
    find_first (is_batch_message run_id role batch_id kind) db.messages

-- `_add_message` and the `flush` that gives the row its key.
unfoldable pub new_message :
    ℕ → String → String → Role → List Block → MessageStatus → Fields → Db → Message
new_message user_number conversation_id run_id role blocks status payload db = record {
  id = db.last_message_id + 1;
  creator_id = user_number;
  modifier_id = user_number;
  conversation_id = conversation_id;
  run_id = run_id;
  role = role;
  content = blocks;
  payload = payload;
  status = status;
  created_at = db.now;
  modified_at = db.now;
}

unfoldable pub add_message :
    ℕ → String → String → Role → List Block → MessageStatus → Fields → Transaction Message
unfolding new_message
add_message user_number conversation_id run_id role blocks status payload db =
    let m = new_message user_number conversation_id run_id role blocks status payload db in
    ok (m, record db { messages = db.messages ++ m ∷ []; last_message_id = m.id })
