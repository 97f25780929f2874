-- ===== src/ChatLog/Invariant/Approvals.antt =====
-- Approval, interruption, and the record of the terminal event keep the invariant.
use paper_collector_agent.Prelude.{
  ℕ, String, ◌≡◌, ◌≢◌, refl, Bool, true, false, Option, some, List, [], ◌∷◌, arith, ◌&&◌,
  All-find_first, Pairwise, find_first, =s_refl, Bool-cases, inl, inr, eq_iff,
}
use paper_collector_agent.Json.{get}
use paper_collector_agent.ChatLog.Types.{Run, RunStatus, is_active, is_terminal}
use paper_collector_agent.ChatLog.Store.{found, lock_run, same_run, is_run, save_run, add_message}
use paper_collector_agent.ChatLog.Ids.{normalize_user_id, validate_run_id}
use paper_collector_agent.ChatLog.Completion.{fail_incomplete_tool_results}
use paper_collector_agent.ChatLog.Approval.{
  claim_pending_action, grant, resume, is_running, is_waiting, is_pending_action, was_approved,
  as_list, approved_metadata, append_item, approval,
}
use paper_collector_agent.ChatLog.Interruption.{
  record_terminal_event_sequence, set_sequence, owned_run, mark_interrupted, abort_run,
  interrupt_run,
}
use paper_collector_agent.ChatLog.Triples.{
  Ensures, Ensures-bind, Ensures-pure, Ensures-if, Ensures-found, Ensures-strengthen,
  Ensures-bind-lift, Ensures-bind-session, Ensures-bind-require,
}
use paper_collector_agent.ChatLog.Invariant.{
  Compatible, IsValid, lock_run-IsLocked, add_message-IsValid, save_run-IsValid,
}
use paper_collector_agent.ChatLog.Invariant.Endings.{fail_results-IsValid, Held}

waiting_is_active : (s : RunStatus) → is_waiting s ≡ true → is_active s ≡ true
waiting_is_active RunStatus.waiting_input h = refl
waiting_is_active _ h = ground arith

grant-Ensures :
    (user_number : ℕ) (r : Run) (action_id decision : String) (comment : Option String)
    → Ensures (Held r) (grant user_number r action_id decision comment) (λ _. IsValid)
unfolding grant resume
grant-Ensures user_number r action_id decision comment =
    Ensures-bind-require (is_pending_action r action_id) _ _ (
      Ensures-strengthen (Held r) _
        (Ensures-if (is_running r.status) _ _ (λ _. Ensures-pure false (λ db h. h.0))
          (λ _. Ensures-bind-require (is_waiting r.status) _ _ (
            Ensures-bind-lift (as_list (get "approval_history" r.metadata)) _ λ approvals.
              Ensures-bind-session _ λ seen. record {
                at = λ db h.
                    (Ensures-bind (λ _. IsValid)
                        (save_run r (
                          resume user_number
                            (approved_metadata
                              (append_item approvals (approval action_id decision comment seen.now))
                              r.metadata)
                            seen.now))
                        _
                        (save_run-IsValid _ r (record {
                          run_id = refl;
                          creator_id = refl;
                          conversation_id = refl;
                          active = λ _. waiting_is_active r.status h.0.1;
                        }))
                        (λ _. Ensures-pure true (λ db h. h))).at
                      db h.0.0;
              })))
        (λ db h. h.0))

pub claim_pending_action-Ensures :
    (user_id conversation_id run_id action_id decision : String) (comment : Option String)
    → Ensures IsValid
        (claim_pending_action user_id conversation_id run_id action_id decision comment)
        (λ _. IsValid)
unfolding claim_pending_action
claim_pending_action-Ensures user_id conversation_id run_id action_id decision comment =
    Ensures-bind-lift (normalize_user_id user_id) _ λ user.
      Ensures-bind _ (lock_run user.1 conversation_id run_id) _
        (lock_run-IsLocked IsValid user.1 conversation_id run_id)
        λ r.
          Ensures-if
            (is_running r.status && was_approved action_id (get "approval_history" r.metadata)) _ _
            (λ _. Ensures-pure false (λ db h. h.0))
            (λ _.
              Ensures-strengthen (Held r) _ (grant-Ensures user.1 r action_id decision comment)
                (λ db h. (h.0, h.1)))

-- In a valid table the row that a query returned is the first one with its keys.
relock :
    (p : Run → Bool) (r : Run) (runs : List Run)
    → Pairwise Compatible runs
    → find_first p runs ≡ some r
    → find_first (same_run r) runs ≡ some r
unfolding same_run is_run
relock p r [] h e = cc
relock p r (x ∷ runs) h e = elim (Bool-cases (p x)) [
  | inl t ↦
      let q : x ≡ r = ground (arith, t) in
      ground (arith, q, =s_refl r.conversation_id, =s_refl r.run_id)
  | inr f ↦
      let rest : find_first p runs ≡ some r = ground (arith, f) in
      let apart : x.run_id ≢ r.run_id = (All-find_first (Compatible x) p runs r h.0 rest).ids in
      let ih = relock p r runs h.1 rest in ground (arith, ih, apart, eq_iff x.run_id r.run_id)
]

pub record_terminal-Ensures :
    (user_id run_id : String) (sequence : ℕ)
    → Ensures IsValid (record_terminal_event_sequence user_id run_id sequence) (λ _. IsValid)
unfolding record_terminal_event_sequence set_sequence
record_terminal-Ensures user_id run_id sequence =
    Ensures-bind-lift (normalize_user_id user_id) _ λ user.
      Ensures-bind-lift (validate_run_id run_id) _ λ run_id'. Ensures-bind-session _ λ seen.
        Ensures-bind _ (found (find_first (owned_run user.1 run_id') seen.runs) _) _
          (Ensures-found _ _)
          λ r.
            Ensures-strengthen (Held r) _
              (save_run-IsValid (set_sequence user.1 sequence seen.now) r (record {
                run_id = refl;
                creator_id = refl;
                conversation_id = refl;
                active = λ e. e;
              }))
              (λ db h.
                (h.0.0, relock (owned_run user.1 run_id') r db.runs h.0.0.runs (rw (← h.0.1) h.1)))

abort_run-Ensures :
    (user_number : ℕ) (conversation_id run_id : String) (r : Run)
    → Ensures (Held r) (abort_run user_number conversation_id run_id r) (λ _. IsValid)
unfolding abort_run interrupt_run
abort_run-Ensures user_number conversation_id run_id r =
    Ensures-bind (λ _. Held r) (fail_incomplete_tool_results run_id user_number) _
      (fail_results-IsValid (λ runs. find_first (same_run r) runs ≡ some r) run_id user_number)
      λ _.
        Ensures-bind (λ _. Held r) (add_message _ _ _ _ _ _ _) _
          (add_message-IsValid (λ runs. find_first (same_run r) runs ≡ some r) _ _ _ _ _ _ _)
          λ m. Ensures-bind-session _ λ seen.
            Ensures-strengthen (Held r) _
              (save_run-IsValid (interrupt_run user_number m.id seen.now) r (record {
                run_id = refl;
                creator_id = refl;
                conversation_id = refl;
                active = λ e. cc;
              }))
              (λ db h. h.0)

pub mark_interrupted-Ensures :
    (user_id conversation_id run_id : String)
    → Ensures IsValid (mark_interrupted user_id conversation_id run_id) (λ _. IsValid)
unfolding mark_interrupted
mark_interrupted-Ensures user_id conversation_id run_id =
    Ensures-bind-lift (normalize_user_id user_id) _ λ user.
      Ensures-bind _ (lock_run user.1 conversation_id run_id) _
        (lock_run-IsLocked IsValid user.1 conversation_id run_id)
        λ r.
          Ensures-strengthen (Held r) _
            (Ensures-if (is_terminal r.status) _ _ (λ _. Ensures-pure tt (λ db h. h.0))
              (λ _. abort_run-Ensures user.1 conversation_id run_id r))
            (λ db h. (h.0, h.1))
