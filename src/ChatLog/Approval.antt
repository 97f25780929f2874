-- ===== src/ChatLog/Approval.antt =====
-- app/history/chat_log.py: `claim_pending_action`, the approval of an action that a run waits for.
use paper_collector_agent.Prelude.{
  ℕ, String, Bool, true, false, ◌&&◌, ◌||◌, Option, none, some, ◌=s◌, if◌then◌else◌, is_empty,
  Result, ok, err,
}
use paper_collector_agent.Json.{
  Json, Items, Fields, null, num, str, arr, obj, nil, cons, end, field, get, put, pop, truthy,
}
use paper_collector_agent.ChatLog.Types.{
  Run, RunStatus, ChatError, pending_action_conflict, type_error,
}
use paper_collector_agent.ChatLog.Ids.{normalize_user_id}
use paper_collector_agent.ChatLog.Store.{
  Transaction, pure, lift, session, require, ◌>>=◌, ◌>>◌, lock_run, save_run, has_text,
}
use paper_collector_agent.ChatLog.Completion.{text_at, is_object, text_or_null}

-- `any(isinstance(item, dict) and item.get("action_id") == action_id for item in approvals)`
unfoldable pub any_approval : String → Items → Bool
unfolding has_text
any_approval action_id nil = false
any_approval action_id (cons (obj f) items) =
    has_text "action_id" action_id f || any_approval action_id items
any_approval action_id (cons item items) = any_approval action_id items

unfoldable pub was_approved : String → Option Json → Bool
unfolding any_approval
was_approved action_id (some (arr items)) = any_approval action_id items
was_approved action_id _ = false

-- `list(approvals or [])`
unfoldable pub key_items : Fields → Items
key_items end = nil
key_items (field k v f) = cons (str k) (key_items f)

unfoldable pub char_items : String → Items
char_items String.[] = nil
char_items (String.◌∷◌ c s) = cons (str (String.◌∷◌ c String.[])) (char_items s)

unfoldable pub as_list : Option Json → Result ChatError Items
unfolding key_items char_items
as_list none = ok nil
as_list (some (arr items)) = ok items
as_list (some (obj f)) = ok (key_items f)
as_list (some (str s)) = ok (char_items s)
as_list (some v) = if truthy v then err type_error else ok nil

unfoldable pub append_item : Items → Json → Items
append_item nil v = cons v nil
append_item (cons x items) v = cons x (append_item items v)

unfoldable pub approval : String → String → Option String → ℕ → Json
unfolding text_or_null
approval action_id decision comment now = obj (
    field "action_id" (str action_id) (
      field "decision" (str decision) (
        field "comment" (elim comment [ none ↦ null | some c ↦ if is_empty c then null else str c ])
          (field "resolved_at" (num now) end))))

-- `str(pending_action.get("action_id") or "") == action_id` on a `dict`
unfoldable pub is_pending_action : Run → String → Bool
unfolding text_at is_object
is_pending_action r action_id = elim (get "pending_action" r.pending_interrupt_payload) [
  | none ↦ false
  | some v ↦
      is_object v
      && elim (text_at "action_id" v) [ none ↦ is_empty action_id | some s ↦ s =s action_id ]
]

unfoldable pub approved_metadata : Items → Fields → Fields
approved_metadata approvals metadata =
    pop "terminal_event_pending"
      (pop "terminal_event_sequence" (put "approval_history" (arr approvals) metadata))

unfoldable pub resume : ℕ → Fields → ℕ → Run → Run
resume user_number metadata now r = record r {
  status = RunStatus.running;
  pending_interrupt_id = none;
  pending_interrupt_payload = end;
  metadata = metadata;
  modifier_id = user_number;
  modified_at = now;
}

abbrev pub is_running : RunStatus → Bool
is_running RunStatus.running = true
is_running _ = false

abbrev pub is_waiting : RunStatus → Bool
is_waiting RunStatus.waiting_input = true
is_waiting _ = false

-- The approval of an action that the run waits for.
unfoldable pub grant : ℕ → Run → String → String → Option String → Transaction Bool
unfolding is_pending_action as_list append_item approval approved_metadata resume
grant user_number run action_id decision comment = do
  require (is_pending_action run action_id) pending_action_conflict
  if is_running run.status then pure false else do
    require (is_waiting run.status) pending_action_conflict
    approvals ← lift (as_list (get "approval_history" run.metadata))
    db ← session
    save_run run (
        resume user_number
          (approved_metadata (append_item approvals (approval action_id decision comment db.now))
            run.metadata)
          db.now)
    pure true

unfoldable pub claim_pending_action :
    String → String → String → String → String → Option String → Transaction Bool
unfolding was_approved grant
claim_pending_action user_id conversation_id run_id action_id decision comment = do
  (_, user_number) ← lift (normalize_user_id user_id)
  run ← lock_run user_number conversation_id run_id
  if is_running run.status && was_approved action_id (get "approval_history" run.metadata)
      then pure false
      else grant user_number run action_id decision comment
