-- ===== src/Examples/Runs.antt =====
-- Concrete histories of runs.
use paper_collector_agent.Prelude.{
  ◌≡◌, refl, Result, ok, err, some, none, Bool, true, false, List, [], ◌∷◌,
}
use paper_collector_agent.Json.{end, field, obj, str, bool, get, put, pop}
use paper_collector_agent.ChatLog.Types.{Db, ConversationStatus, RunStatus, ChatError}
use paper_collector_agent.ChatLog.Ids.{
  normalize_user_id, read_decimal, read_digits, decimal_value, decimal_text, write_digits, digit,
  validate_conversation_id, validate_run_id, is_canonical, matches_rest,
}
use paper_collector_agent.ChatLog.Turns.{start_turn, create_run, open_run, is_active_run, new_run}
use paper_collector_agent.ChatLog.Store.{
  lock_run, is_run, save_run, same_run, run_operation, locked_conversation, conversation_for_user,
  owns_conversation, require_runnable_conversation, thread_id, add_message, new_message,
}
use paper_collector_agent.ChatLog.Completion.{Response, text_at, is_object}
use paper_collector_agent.ChatLog.Approval.{
  claim_pending_action, was_approved, any_approval, grant, is_pending_action, as_list, append_item,
  approval, approved_metadata, resume,
}
use paper_collector_agent.ChatLog.ApprovedOnce.{claim_pending_action-once}
use paper_collector_agent.ChatLog.Requests.{Request, start, complete, claim, tick, serve, perform}
use paper_collector_agent.ChatLog.Invariant.{IsValid}
use paper_collector_agent.ChatLog.Invariant.Requests.{AreTimely, serve-IsValid}

-- A conversation without runs.
abbrev one_conversation : Db
one_conversation = record {
  conversations =
      record {
        creator_id = 7;
        modifier_id = 7;
        conversation_id = "c1";
        thread_id = some "t1";
        status = ConversationStatus.active;
        modified_at = 0;
      }
      ∷ [];
  runs = [];
  messages = [];
  last_message_id = 0;
  now = 0;
}

one_conversation-IsValid : IsValid one_conversation
one_conversation-IsValid = record { runs = tt; messages = tt; bounded = tt }

-- The run asks for a confirmation.
abbrev confirmation : Response
confirmation = record {
  status = some "confirmation_required";
  reply = none;
  error = none;
  artifact_refs = none;
  pending_action = some (obj (field "action_id" (str "a1") end));
  interrupt = none;
  last_action_result = none;
}

abbrev dialogue : List Request
dialogue =
    start "7" "c1" "r1" "find papers" "api"
    ∷ start "7" "c1" "r2" "find more" "api"
    ∷ tick 5
    ∷ complete "7" "c1" "r1" confirmation 30 none none
    ∷ claim "7" "c1" "r1" "a1" "approve" none
    ∷ []

dialogue-AreTimely : AreTimely dialogue one_conversation
unfolding run_operation perform start_turn normalize_user_id read_decimal read_digits decimal_value
    decimal_text write_digits digit validate_conversation_id validate_run_id is_canonical
    matches_rest locked_conversation conversation_for_user owns_conversation
    require_runnable_conversation thread_id create_run open_run is_active_run new_run add_message
    new_message
dialogue-AreTimely = (tt, (tt, (tt, ((λ _. refl, tt), (tt, tt)))))

serve-IsValid_example : IsValid (serve dialogue one_conversation)
serve-IsValid_example =
    serve-IsValid dialogue one_conversation one_conversation-IsValid dialogue-AreTimely

-- The store when the run waits for the confirmation, with a run already in it.
abbrev pub waiting : Db
waiting = record one_conversation {
  runs =
      record {
        creator_id = 7;
        modifier_id = 7;
        run_id = "r1";
        conversation_id = "c1";
        status = RunStatus.waiting_input;
        input_message_id = none;
        output_message_id = none;
        pending_interrupt_id = some "a1";
        pending_interrupt_payload =
            field "pending_action" (obj (field "action_id" (str "a1") end)) end;
        error_code = none;
        error_message = none;
        metadata = field "terminal_event_pending" (bool true) end;
        created_at = 1;
        modified_at = 2;
      }
      ∷ [];
  now = 9;
}

-- The store of a granted approval.
abbrev store_of : Result ChatError (Bool × Db) → Db
store_of (ok (granted, db)) = db
store_of (err e) = waiting

abbrev approved : Db
approved = store_of (claim_pending_action "7" "c1" "r1" "a1" "approve" none waiting)

granted : claim_pending_action "7" "c1" "r1" "a1" "approve" none waiting ≡ ok (true, approved)
unfolding claim_pending_action normalize_user_id read_decimal read_digits decimal_value decimal_text
    write_digits digit validate_conversation_id validate_run_id is_canonical matches_rest lock_run
    is_run was_approved any_approval grant is_pending_action text_at is_object as_list append_item
    approval approved_metadata resume save_run same_run get put pop
granted = refl

claim_pending_action-once_example :
    claim_pending_action "7" "c1" "r1" "a1" "reject" (some "late") approved ≡ ok (false, approved)
claim_pending_action-once_example =
    claim_pending_action-once "7" "c1" "r1" "a1" "approve" "reject" none (some "late") waiting
      approved granted
