-- ===== src/ChatLog/Invariant/Endings.antt =====
-- The operations that end, suspend, resume or interrupt a run keep the invariant.
use paper_collector_agent.Prelude.{
  ℕ, ◌<◌, ◌≤◌, String, ◌≡◌, refl, true, false, Option, none, some, List, arith, ◌=s◌, if◌then◌else◌,
  All, All-find_first, Pairwise-update_each, All-update_each, find_first, =s_refl,
}
use paper_collector_agent.Json.{Fields, update}
use paper_collector_agent.ChatLog.Types.{Db, Run, RunStatus, is_active}
use paper_collector_agent.ChatLog.Store.{pure, lock_run, same_run, save_run, add_message}
use paper_collector_agent.ChatLog.Ids.{normalize_user_id}
use paper_collector_agent.ChatLog.Completion.{
  Response, complete_run, await_input, end_run, suspend, finish, fail_incomplete_tool_results,
  is_incomplete_result, fail_message, run_status, first_text, text_or_empty, completion_entries,
  is_failed_status, is_object, json_or_null,
}
use paper_collector_agent.ChatLog.Triples.{
  Ensures, Ensures-bind, Ensures-pure, Ensures-if, Ensures-strengthen, Ensures-bind-lift,
  Ensures-bind-session, Ensures-bind-require,
}
use paper_collector_agent.ChatLog.Invariant.{
  IsValid, IsLocked, lock_run-IsLocked, add_message-IsValid, save_run-IsValid,
}

pub fail_results-IsValid :
    (K : List Run → Type 0) (run_id : String) (user_number : ℕ)
    → Ensures
        (λ db. IsValid db × K db.runs)
        (fail_incomplete_tool_results run_id user_number)
        (λ _ db. IsValid db × K db.runs)
unfolding fail_incomplete_tool_results fail_message
fail_results-IsValid K run_id user_number = record {
  at = λ db h. (
    record {
      runs = h.0.runs;
      messages =
          Pairwise-update_each (λ m n. m.id < n.id) (is_incomplete_result user_number run_id)
            (fail_message user_number db.now) db.messages (λ x y k. k) (λ x y k. k) h.0.messages;
      bounded =
          All-update_each (λ m. m.id ≤ db.last_message_id) (is_incomplete_result user_number run_id)
            (fail_message user_number db.now) db.messages (λ m k. k) h.0.bounded;
    },
    h.1,
  );
}

-- A change of status to one that is not active is tame, and so is one between active ones.
abbrev pub Held : Run → Db → Type 0
Held r db = IsValid db × IsLocked r db

await_input-Ensures :
    (user_number : ℕ) (r : Run) (response : Response) (metadata : Fields)
    → is_active r.status ≡ true
    → Ensures (Held r) (await_input user_number r response metadata) (λ _. IsValid)
unfolding await_input suspend
await_input-Ensures user_number r response metadata live =
    Ensures-bind-require (is_object (json_or_null response.pending_action)) _ _ (
      Ensures-bind-session _ λ seen.
        Ensures-bind (λ _. IsValid)
          (save_run r (
            suspend user_number (json_or_null response.interrupt)
              (json_or_null response.pending_action) metadata seen.now))
          _
          (Ensures-strengthen (Held r) _
            (save_run-IsValid _ r (record {
              run_id = refl;
              creator_id = refl;
              conversation_id = refl;
              active = λ _. live;
            }))
            (λ db h. h.0.0))
          λ _. Ensures-pure none (λ db h. h))

end_run-Ensures :
    (user_number : ℕ) (conversation_id run_id : String) (r : Run) (status : RunStatus)
    (response : Response) (metadata : Fields) (content : Option String)
    → is_active status ≡ false
    → Ensures
        (Held r)
        (end_run user_number conversation_id run_id r status response metadata content)
        (λ _. IsValid)
unfolding end_run finish
end_run-Ensures user_number conversation_id run_id r status response metadata content ended =
    Ensures-bind (λ _. Held r)
      (if is_failed_status status then fail_incomplete_tool_results run_id user_number else pure tt)
      _
      (Ensures-if (is_failed_status status) _ _
        (λ _.
          fail_results-IsValid (λ runs. find_first (same_run r) runs ≡ some r) run_id user_number)
        (λ _. Ensures-pure tt (λ db h. h)))
      λ _.
        Ensures-bind (λ _. Held r) (add_message _ _ _ _ _ _ _) _
          (add_message-IsValid (λ runs. find_first (same_run r) runs ≡ some r) _ _ _ _ _ _ _)
          λ m. Ensures-bind-session _ λ seen.
            Ensures-bind (λ _. IsValid)
              (save_run r (finish user_number status m.id response metadata seen.now)) _
              (Ensures-strengthen (Held r) _
                (save_run-IsValid _ r (record {
                  run_id = refl;
                  creator_id = refl;
                  conversation_id = refl;
                  active = λ e. cc;
                }))
                (λ db h. h.0))
              λ _. Ensures-pure (some m.id) (λ db h. h)

run_status-ended : (s : String) → is_active (run_status s) ≡ false
unfolding run_status
run_status-ended s = ground arith

-- The run of this id, if there is one, is unfinished.
abbrev pub IsUnfinished : String → Db → Type 0
IsUnfinished run_id db = All (λ r. (r.run_id =s run_id) ≡ true → is_active r.status ≡ true) db.runs

pub complete_run-Ensures :
    (user_id conversation_id run_id : String) (response : Response) (latency_ms : ℕ)
    (extra_meta : Option Fields) (content : Option String)
    → Ensures
        (λ db. IsValid db × IsUnfinished run_id db)
        (complete_run user_id conversation_id run_id response latency_ms extra_meta content)
        (λ _. IsValid)
unfolding complete_run
complete_run-Ensures user_id conversation_id run_id response latency_ms extra_meta content =
    Ensures-bind-lift (normalize_user_id user_id) _ λ user.
      Ensures-bind _ (lock_run user.1 conversation_id run_id) _
        (lock_run-IsLocked (λ db. IsValid db × IsUnfinished run_id db) user.1 conversation_id
          run_id)
        λ r. record {
          at = λ db h.
              let live : is_active r.status ≡ true =
                All-find_first _ (same_run r) db.runs r h.0.1 h.1 (rw h.2 (=s_refl run_id)) in
              let metadata =
                update r.metadata (completion_entries response latency_ms extra_meta) in
              let status = first_text (text_or_empty response.status) "failed" in
              (Ensures-if (status =s "confirmation_required") _ _
                  (λ _. await_input-Ensures user.1 r response metadata live)
                  (λ _.
                    end_run-Ensures user.1 conversation_id run_id r (run_status status) response
                      metadata content (run_status-ended status))).at
                db (h.0.0, h.1);
        }
