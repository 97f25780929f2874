-- ===== src/ChatLog/Tools.antt =====
-- app/history/chat_log.py: text messages, tool batches and tool results.
pub mod Results
pub mod Firsts
pub mod Arrivals
pub mod Batches
use paper_collector_agent.Prelude.{
  ℕ, String, Bool, true, false, not, ◌&&◌, ◌||◌, Option, none, some, List, [], ◌∷◌, ◌==◌, ◌=s◌,
  if◌then◌else◌, any, length, map, is_empty,
}
use paper_collector_agent.Json.{
  Json, Items, Fields, null, bool, str, arr, obj, nil, cons, end, field, get, put, update, truthy,
  or_else, json_eq,
}
use paper_collector_agent.ChatLog.Types.{
  Message, Db, Block, text, tool_use, tool_result, Role, MessageStatus, tool_result_conflict,
  value_error,
}
use paper_collector_agent.ChatLog.Ids.{normalize_user_id}
use paper_collector_agent.ChatLog.Store.{
  Transaction, pure, raise, lift, session, require, ◌>>=◌, ◌>>◌, lock_run, add_message,
  save_message, find_batch_message,
}

-- A tool call of a batch: the `dict` with the keys that this module reads.
pub record Call : Type 0 where
  pub id : String
  pub name : String
  pub args : Option Json
  pub input : Option Json
  pub kind : Option String
  pub requires_confirmation : Option Json

-- The result event of an action.
pub record ActionResult : Type 0 where
  pub action_id : String
  pub action_type : Option String
  pub status : Option String
  pub payload : Option Json
  pub summary : Option Json
  pub error_code : Option Json
  pub error_message : Option Json

unfoldable pub append_text_message : String → String → String → String → Transaction ℕ
append_text_message user_id conversation_id run_id content = do
  (_, user_number) ← lift (normalize_user_id user_id)
  lock_run user_number conversation_id run_id
  m ←
      add_message user_number conversation_id run_id Role.assistant (text content ∷ [])
        MessageStatus.completed (field "kind" (str "text") end)
  pure m.id

-- `call.get("args") or call.get("input") or {}`
unfoldable pub tool_call_blocks : List Call → List Block
tool_call_blocks [] = []
tool_call_blocks (call ∷ calls) =
    tool_use call.id call.name (or_else call.args (or_else call.input (obj end)))
    ∷ tool_call_blocks calls

-- `str(call.get("kind") or "tool")`
unfoldable pub kind_text : Option String → String
kind_text none = "tool"
kind_text (some k) = if is_empty k then "tool" else k

unfoldable pub is_set : Option Json → Bool
is_set none = false
is_set (some v) = truthy v

unfoldable pub manifest_entry : Call → Json
unfolding kind_text is_set
manifest_entry call = obj (
    field "id" (str call.id) (
      field "name" (str call.name) (
        field "kind" (str (kind_text call.kind))
          (field "requires_confirmation" (bool (is_set call.requires_confirmation)) end))))

unfoldable pub manifest_items : List Call → Items
unfolding manifest_entry
manifest_items [] = nil
manifest_items (call ∷ calls) = cons (manifest_entry call) (manifest_items calls)

unfoldable pub tool_call_manifest : List Call → Json
unfolding manifest_items
tool_call_manifest calls = arr (manifest_items calls)

-- `[str(call["id"]) for call in batch_calls]`
unfoldable pub call_ids : List Call → List String
call_ids calls = map (λ call. call.id) calls

unfoldable pub text_items : List String → Items
text_items [] = nil
text_items (s ∷ ss) = cons (str s) (text_items ss)

unfoldable pub batch_payload : String → String → List Call → Fields
unfolding call_ids text_items
batch_payload kind batch_id calls = field "kind" (str kind) (
    field "batch_id" (str batch_id) (
      field "tool_call_ids" (arr (text_items (call_ids calls)))
        (field "tool_calls" (tool_call_manifest calls) end)))

-- `a == b` on blocks
unfoldable pub block_eq : Block → Block → Bool
block_eq (text s) (text t) = s =s t
block_eq (tool_use i n x) (tool_use j m y) = i =s j && n =s m && json_eq x y
block_eq (tool_result i x e) (tool_result j y f) = i =s j && json_eq x y && (if e then f else not f)
block_eq _ _ = false

unfoldable pub blocks_eq : List Block → List Block → Bool
unfolding block_eq
blocks_eq [] [] = true
blocks_eq (x ∷ xs) (y ∷ ys) = block_eq x y && blocks_eq xs ys
blocks_eq _ _ = false

-- `_json_dict(message.payload).get("tool_calls") == call_manifest`
unfoldable pub has_manifest : Message → Json → Bool
has_manifest m manifest = elim (get "tool_calls" m.payload) [
  | none ↦ false
  | some v ↦ json_eq v manifest
]

unfoldable pub reuse_batch : Message → List Block → Json → Transaction ℕ
unfolding blocks_eq has_manifest
reuse_batch existing blocks manifest = do
  require (blocks_eq existing.content blocks && has_manifest existing manifest) tool_result_conflict
  pure existing.id

-- The message of the batch's calls: the one that is there, or a new one.
unfoldable pub store_batch :
    ℕ → String → String → String → List Call → Option Message → Transaction ℕ
unfolding reuse_batch batch_payload
store_batch user_number conversation_id run_id batch_id calls (some existing) =
    reuse_batch existing (tool_call_blocks calls) (tool_call_manifest calls)
store_batch user_number conversation_id run_id batch_id calls none = do
  m ←
      add_message user_number conversation_id run_id Role.assistant (tool_call_blocks calls)
        MessageStatus.completed (batch_payload "tool_calls" batch_id calls)
  pure m.id

unfoldable pub append_tool_batch : String → String → String → String → List Call → Transaction ℕ
append_tool_batch user_id conversation_id run_id batch_id calls = do
  (_, user_number) ← lift (normalize_user_id user_id)
  lock_run user_number conversation_id run_id
  db ← session
  store_batch user_number conversation_id run_id batch_id calls
      (find_batch_message run_id Role.assistant batch_id "tool_calls" db)

-- `value.get(key)` as a value that is stored again
unfoldable pub or_null : Option Json → Json
or_null none = null
or_null (some v) = v

-- The fields of a subagent's data; other data stand under one key.
unfoldable pub data_fields : Option Json → Fields
unfolding or_null
data_fields (some (obj f)) = f
data_fields v = field "data" (or_null v) end

-- `set(result_data) == {"content"}`
unfoldable pub only_content : Json → Option Json
only_content (obj (field k v end)) = if k =s "content" then some v else none
only_content _ = none

unfoldable pub plain_content : Option Json → Option Json → Json
unfolding only_content
plain_content none summary = elim summary [ none ↦ str String.[] | some s ↦ s ]
plain_content (some null) summary = elim summary [ none ↦ str String.[] | some s ↦ s ]
plain_content (some v) summary = elim (only_content v) [ none ↦ v | some c ↦ c ]

unfoldable pub is_text : Option String → String → Bool
is_text none s = false
is_text (some t) s = t =s s

unfoldable pub result_content : ActionResult → Json
unfolding data_fields plain_content is_text
result_content result =
    if is_text result.action_type "subagent"
    then obj (
        put "error_message" (or_null result.error_message) (
          put "error_code" (or_null result.error_code)
            (put "summary" (or_null result.summary) (data_fields result.payload))))
    else plain_content result.payload result.summary

unfoldable pub is_failure : Option String → Bool
unfolding is_text
is_failure status = not (is_text status "success" || is_text status "partial")

unfoldable pub tool_result_block : ActionResult → Block
tool_result_block result =
    tool_result result.action_id (result_content result) (is_failure result.status)

-- `existing_by_id.get(id)`: of several results for one call the last counts.
unfoldable pub find_result : String → List Block → Option Block
find_result id [] = none
find_result id (tool_result i content is_error ∷ blocks) = elim (find_result id blocks) [
  | some b ↦ some b
  | none ↦ if i =s id then some (tool_result i content is_error) else none
]
find_result id (block ∷ blocks) = find_result id blocks

-- `[existing_by_id[call_id] for call_id in call_ids if call_id in existing_by_id]`, after
-- `existing_by_id[tool_use_id] = result_block`
unfoldable pub ordered_blocks : List String → String → Block → List Block → List Block
ordered_blocks [] tool_use_id block blocks = []
ordered_blocks (id ∷ ids) tool_use_id block blocks =
    let rest = ordered_blocks ids tool_use_id block blocks in
    if id =s tool_use_id
    then block ∷ rest
    else elim (find_result id blocks) [ none ↦ rest | some b ↦ b ∷ rest ]

unfoldable pub result_status : List Block → List String → MessageStatus
result_status ordered ids =
    if length ordered == length ids then MessageStatus.completed else MessageStatus.streaming

-- The assignments to a message that a result is added to.
unfoldable pub add_result : ℕ → List String → String → Block → ℕ → Message → Message
unfolding ordered_blocks result_status
add_result user_number ids tool_use_id block now m =
    let ordered = ordered_blocks ids tool_use_id block m.content in
    record m {
      content = ordered;
      status = result_status ordered ids;
      modifier_id = user_number;
      modified_at = now;
    }

-- The message of the batch's results: the one that is there, or a new one with no block.
unfoldable pub result_message :
    ℕ → String → String → String → List Call → Option Message → Transaction Message
unfolding has_manifest batch_payload
result_message user_number conversation_id run_id batch_id calls (some m) = do
  require (has_manifest m (tool_call_manifest calls)) tool_result_conflict
  pure m
result_message user_number conversation_id run_id batch_id calls none =
    add_message user_number conversation_id run_id Role.user [] MessageStatus.streaming
      (batch_payload "tool_results" batch_id calls)

-- What is done with a result, once its message is there.
unfoldable pub record_result :
    ℕ → List String → String → Block → Message → Option Block → Transaction ℕ
unfolding add_result block_eq
record_result user_number ids tool_use_id block m (some prior) = do
  require (block_eq prior block) tool_result_conflict
  pure m.id
record_result user_number ids tool_use_id block m none = do
  db ← session
  save_message m.id (add_result user_number ids tool_use_id block db.now)
  pure m.id

unfoldable pub append_tool_result :
    String → String → String → String → List Call → ActionResult → Transaction ℕ
append_tool_result user_id conversation_id run_id batch_id calls result = do
  (_, user_number) ← lift (normalize_user_id user_id)
  lock_run user_number conversation_id run_id
  require (any (λ id. id =s result.action_id) (call_ids calls)) value_error
  db ← session
  m ←
      result_message user_number conversation_id run_id batch_id calls
        (find_batch_message run_id Role.user batch_id "tool_results" db)
  record_result user_number (call_ids calls) result.action_id (tool_result_block result) m
      (find_result result.action_id m.content)
