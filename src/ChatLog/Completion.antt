-- ===== src/ChatLog/Completion.antt =====
-- app/history/chat_log.py: `complete_run`, with which a run ends or waits for an approval.
use paper_collector_agent.Prelude.{
  ℕ, String, Bool, true, false, ◌&&◌, Option, none, some, [], ◌∷◌, ◌==◌, ◌=s◌, if◌then◌else◌,
  is_empty, text_take, update_each,
}
use paper_collector_agent.Json.{
  Json, Fields, null, bool, num, str, arr, obj, nil, end, field, get, put, update, or_else,
}
use paper_collector_agent.ChatLog.Types.{
  Run, RunStatus, Message, MessageStatus, Role, text, pending_action_conflict,
}
use paper_collector_agent.ChatLog.Ids.{normalize_user_id}
use paper_collector_agent.ChatLog.Store.{
  Transaction, pure, lift, session, modify, require, ◌>>=◌, ◌>>◌, lock_run, save_run, add_message,
  role_eq, has_text,
}

-- The response that ends a stream: the `dict` with the keys that this module reads.
pub record Response : Type 0 where
  pub status : Option String
  pub reply : Option String
  pub error : Option String
  pub artifact_refs : Option Json
  pub pending_action : Option Json
  pub interrupt : Option Json
  pub last_action_result : Option Json

-- `str(value or "")` of an optional text
unfoldable pub text_or_empty : Option String → String
text_or_empty none = String.[]
text_or_empty (some s) = s

-- `a or b` on texts
unfoldable pub first_text : String → String → String
first_text a b = if is_empty a then b else a

-- `_run_status`
unfoldable pub run_status : String → RunStatus
run_status response_status =
    if response_status =s "completed"
    then RunStatus.succeeded
    else if response_status =s "interrupted"
    then RunStatus.cancelled
    else RunStatus.failed

-- `value.get(key)` as a text, where it is one and not empty
unfoldable pub text_at : String → Json → Option String
text_at key (obj fields) = elim (get key fields) [
  | some (str s) ↦ if is_empty s then none else some s
  | _ ↦ none
]
text_at key _ = none

-- `_interrupt_id`; the identifiers are texts.
unfoldable pub interrupt_id : Json → Json → String
unfolding text_at
interrupt_id interrupt pending = elim (text_at "id" interrupt) [
  | some s ↦ text_take 128 s
  | none ↦ elim (text_at "interrupt_id" interrupt) [
    | some s ↦ text_take 128 s
    | none ↦ elim (text_at "action_id" pending) [ some s ↦ text_take 128 s | none ↦ String.[] ]
  ]
]

unfoldable pub json_or_null : Option Json → Json
json_or_null none = null
json_or_null (some v) = v

unfoldable pub text_or_null : Option String → Json
text_or_null none = null
text_or_null (some s) = str s

unfoldable pub is_object : Json → Bool
is_object (obj f) = true
is_object _ = false

-- `_error_code`
unfoldable pub error_code : Response → Option String
unfolding text_at json_or_null
error_code response = elim (text_at "error_code" (json_or_null response.last_action_result)) [
  | some s ↦ some (text_take 64 s)
  | none ↦ elim response.error [
    | none ↦ none
    | some e ↦ if is_empty e then none else some "RUN_FAILED"
  ]
]

-- `_error_message`
unfoldable pub error_message : Response → Option String
unfolding text_at json_or_null
error_message response = elim response.error [
  | none ↦ text_at "error_message" (json_or_null response.last_action_result)
  | some e ↦
      if is_empty e
      then text_at "error_message" (json_or_null response.last_action_result)
      else some e
]

-- The entries that `complete_run` adds to the metadata of the run.
unfoldable pub completion_entries : Response → ℕ → Option Fields → Fields
unfolding text_or_null
completion_entries response latency_ms extra_meta = put "terminal_event_pending" (bool true) (
    update
      (field "latency_ms" (num latency_ms) (
        field "artifact_refs" (or_else response.artifact_refs (arr nil))
          (field "error" (text_or_null response.error) end)))
      (elim extra_meta [ none ↦ end | some extra ↦ extra ]))

-- The test of `_fail_incomplete_tool_results`, with that of its query.
unfoldable pub is_incomplete_result : ℕ → String → Message → Bool
unfolding has_text
is_incomplete_result user_number run_id m =
    m.creator_id == user_number
    && m.run_id =s run_id
    && role_eq m.role Role.user
    && elim m.status [ MessageStatus.streaming ↦ true | _ ↦ false ]
    && has_text "kind" "tool_results" m.payload

unfoldable pub fail_message : ℕ → ℕ → Message → Message
fail_message user_number now m = record m {
  status = MessageStatus.failed;
  modifier_id = user_number;
  modified_at = now;
}

unfoldable pub fail_incomplete_tool_results : String → ℕ → Transaction (Unit {0})
unfolding is_incomplete_result fail_message
fail_incomplete_tool_results run_id user_number = modify (λ db. record db {
  messages =
      update_each (is_incomplete_result user_number run_id) (fail_message user_number db.now)
        db.messages;
})

-- `{"interrupt": interrupt, "pending_action": pending}`
unfoldable pub interrupt_payload : Json → Json → Fields
interrupt_payload interrupt pending =
    field "interrupt" interrupt (field "pending_action" pending end)

unfoldable pub suspend : ℕ → Json → Json → Fields → ℕ → Run → Run
unfolding interrupt_payload interrupt_id
suspend user_number interrupt pending metadata now r = record r {
  status = RunStatus.waiting_input;
  pending_interrupt_id = some (interrupt_id interrupt pending);
  pending_interrupt_payload = interrupt_payload interrupt pending;
  metadata = metadata;
  modifier_id = user_number;
  modified_at = now;
}

-- The branch `response_status == "confirmation_required"`.
unfoldable pub await_input : ℕ → Run → Response → Fields → Transaction (Option ℕ)
unfolding suspend is_object json_or_null
await_input user_number run response metadata = do
  require (is_object (json_or_null response.pending_action)) pending_action_conflict
  db ← session
  save_run run (
      suspend user_number (json_or_null response.interrupt) (json_or_null response.pending_action)
        metadata db.now)
  pure none

-- The text of the last message of a run.
unfoldable pub reply_text : Option String → Response → String
unfolding first_text text_or_empty
reply_text content response =
    first_text
      (first_text (text_or_empty content)
        (first_text (text_or_empty response.reply) (text_or_empty response.error)))
      "本次任务未产生可展示的回复。"

unfoldable pub message_status : RunStatus → MessageStatus
message_status RunStatus.succeeded = MessageStatus.completed
message_status _ = MessageStatus.failed

unfoldable pub is_failed_status : RunStatus → Bool
is_failed_status RunStatus.failed = true
is_failed_status RunStatus.cancelled = true
is_failed_status _ = false

unfoldable pub finish : ℕ → RunStatus → ℕ → Response → Fields → ℕ → Run → Run
unfolding error_code error_message
finish user_number status message_id response metadata now r = record r {
  status = status;
  output_message_id = some message_id;
  pending_interrupt_id = none;
  pending_interrupt_payload = end;
  error_code = error_code response;
  error_message = error_message response;
  metadata = metadata;
  modifier_id = user_number;
  modified_at = now;
}

-- The other branch: the run ends.
unfoldable pub end_run :
    ℕ
    → String
    → String
    → Run
    → RunStatus
    → Response
    → Fields
    → Option String
    → Transaction (Option ℕ)
unfolding fail_incomplete_tool_results is_failed_status reply_text finish message_status
end_run user_number conversation_id run_id run status response metadata content = do
  if is_failed_status status then fail_incomplete_tool_results run_id user_number else pure tt
  message ←
      add_message user_number conversation_id run_id Role.assistant
        (text (reply_text content response) ∷ []) (message_status status)
        (update (field "kind" (str "terminal") end) metadata)
  db ← session
  save_run run (finish user_number status message.id response metadata db.now)
  pure (some message.id)

unfoldable pub complete_run :
    String → String → String → Response → ℕ → Option Fields → Option String → Transaction (Option ℕ)
unfolding await_input end_run completion_entries run_status first_text text_or_empty
complete_run user_id conversation_id run_id response latency_ms extra_meta content = do
  (_, user_number) ← lift (normalize_user_id user_id)
  run ← lock_run user_number conversation_id run_id
  let response_status = first_text (text_or_empty response.status) "failed"
  let metadata = update run.metadata (completion_entries response latency_ms extra_meta)
  if response_status =s "confirmation_required"
      then await_input user_number run response metadata
      else end_run user_number conversation_id run_id run (run_status response_status) response
          metadata content
