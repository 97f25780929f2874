-- ===== src/ChatLog/Tools/Batches.antt =====
-- The results of a batch from its first one, which makes the message that holds them.
use mathlib.Core.Path.{subst}
use paper_collector_agent.Prelude.{
  ℕ, ◌+◌, ◌≤◌, String, ◌≡◌, refl, sym, ap, ◌∙◌, true, false, Option, none, some, List, [], ◌∷◌,
  ◌++◌, arith, ◌==◌, =s_refl, All, All-map, Bool-cases, inl, inr, find_first, find_first-snoc, ok,
  =s→≡,
}
use paper_collector_agent.Json.{get}
use paper_collector_agent.Json.Equality.{LoadedItems, json_eq_refl}
use paper_collector_agent.ChatLog.Types.{Message, Db, Run, Block, Role, MessageStatus, value_error}
use paper_collector_agent.ChatLog.Ids.{normalize_user_id}
use paper_collector_agent.ChatLog.Store.{
  lift, lock_run, save_message, find_batch_message, is_batch_message, add_message, new_message,
  has_text,
}
use paper_collector_agent.ChatLog.Tools.{
  Call, ActionResult, call_ids, manifest_entry, manifest_items, tool_call_manifest, has_manifest,
  batch_payload, find_result, result_message, record_result, append_tool_result,
}
use paper_collector_agent.ChatLog.Locking.{bind-ok}
use paper_collector_agent.ChatLog.Committed.{
  committed, committed-err, committed_same, lock_run-runs,
}
use paper_collector_agent.ChatLog.Tools.Firsts.{first_result, first_of, first_of-passed}
use paper_collector_agent.ChatLog.Tools.Results.{
  collect, collect-ext, collect-nothing, nothing, is_call, All-is_call,
}
use paper_collector_agent.ChatLog.Tools.Arrivals.{
  IsBatch, append_results, appends, appends-refused, Continues, own-Continues,
  append_results-IsBatch,
}

manifest_items-LoadedItems : (calls : List Call) → LoadedItems (manifest_items calls)
unfolding manifest_items manifest_entry get
manifest_items-LoadedItems [] = tt
manifest_items-LoadedItems (call ∷ calls) =
    ((tt, refl, (tt, refl, (tt, refl, (tt, refl, tt)))), manifest_items-LoadedItems calls)

key_behind :
    (n : ℕ) (ms : List Message) → All (λ m. m.id ≤ n) ms → find_first (λ m. m.id == n + 1) ms ≡ none
key_behind n [] h = refl
key_behind n (m ∷ ms) h =
    let below = h.0 in
    let other : (m.id == n + 1) ≡ false = ground arith in rw other (key_behind n ms h.1)

-- The blocks of a message, if there is one.
abbrev pub blocks_of : Option Message → List Block
blocks_of none = []
blocks_of (some m) = m.content

module _ (user_id text conversation_id run_id batch_id : String) (user_number : ℕ)
    (calls : List Call) (is_user : normalize_user_id user_id ≡ ok (text, user_number)) where
  abbrev first_message : Db → Message
  first_message db =
      new_message user_number conversation_id run_id Role.user [] MessageStatus.streaming
        (batch_payload "tool_results" batch_id calls) db

  abbrev with_message : Db → Db
  with_message db = record db {
    messages = db.messages ++ first_message db ∷ [];
    last_message_id = (first_message db).id;
  }

  with_message-stored :
      (db : Db)
      → find_batch_message run_id Role.user batch_id "tool_results" db ≡ none
      → find_batch_message run_id Role.user batch_id "tool_results" (with_message db)
        ≡ some (first_message db)
  unfolding new_message find_batch_message is_batch_message has_text batch_payload get
  with_message-stored db missing =
      find_first-snoc (is_batch_message run_id Role.user batch_id "tool_results") db.messages _
        missing (rw (=s_refl run_id, =s_refl batch_id) refl)

  first_message-declared :
      (db : Db) → has_manifest (first_message db) (tool_call_manifest calls) ≡ true
  unfolding new_message has_manifest batch_payload tool_call_manifest get
  first_message-declared db =
      json_eq_refl (tool_call_manifest calls) (manifest_items-LoadedItems calls)

  -- The first result of a call of the batch makes the message.
  first-Continues :
      (result : ActionResult) (run : Run) (db : Db)
      → lock_run user_number conversation_id run_id db ≡ ok (run, db)
      → find_batch_message run_id Role.user batch_id "tool_results" db ≡ none
      → All (λ m. m.id ≤ db.last_message_id) db.messages
      → is_call (call_ids calls) result.action_id ≡ true
      → Continues user_id text conversation_id run_id batch_id user_number calls is_user result
          nothing
          (committed
            (appends user_id text conversation_id run_id batch_id user_number calls is_user result)
            db)
  unfolding append_tool_result result_message add_message new_message record_result save_message
      find_result
  first-Continues result run db locked missing bounded own =
      let made : IsBatch user_number conversation_id run_id batch_id calls nothing
          (with_message db) =
        record {
          run = run;
          message = first_message db;
          locked = lock_run-runs user_number conversation_id run_id db _ run refl locked;
          stored = with_message-stored db missing;
          keyed =
              find_first-snoc (λ m. m.id == db.last_message_id + 1) db.messages _
                (key_behind db.last_message_id db.messages bounded) (ground arith);
          declared = first_message-declared db;
          holds = sym (collect-nothing (call_ids calls));
        } in
      subst
        (Continues user_id text conversation_id run_id batch_id user_number calls is_user result
          nothing)
        (sym (
          committed_same
            (appends user_id text conversation_id run_id batch_id user_number calls is_user result)
            _ db (with_message db) _ _
            (bind-ok (lift (normalize_user_id user_id)) _ db (ap (λ r. lift r db) is_user)
              ∙ bind-ok (lock_run user_number conversation_id run_id) _ db locked
              ∙ (rw (own, missing) refl))
            refl))
        (own-Continues user_id text conversation_id run_id batch_id user_number calls is_user result
          nothing (with_message db) made (λ id b p. cc) own none refl)

  -- Results of a batch that has no message of results yet, for a valid user id, a run that can be
  -- locked and message keys that the counter bounds, appended one after the other in transactions of
  -- their own: repeated ones, different ones for a call that has one, and ones for no call of the
  -- batch may be among them. The message of the batch then holds, in the order of the calls, the
  -- result that came first for each call that has one, and there is no block if none has.
  pub append_results_lem :
      (results : List ActionResult) (run : Run) (db : Db)
      → lock_run user_number conversation_id run_id db ≡ ok (run, db)
      → find_batch_message run_id Role.user batch_id "tool_results" db ≡ none
      → All (λ m. m.id ≤ db.last_message_id) db.messages
      → let db' = append_results user_id conversation_id run_id batch_id calls results db in
        blocks_of (find_batch_message run_id Role.user batch_id "tool_results" db')
        ≡ collect (call_ids calls) (first_result results)
  unfolding append_results first_result
  append_results_lem [] run db locked missing bounded =
      rw missing (sym (collect-nothing (call_ids calls)))
  append_results_lem (result ∷ results) run db locked missing bounded =
      elim (Bool-cases (is_call (call_ids calls) result.action_id)) [
        | inl own ↦
            let (g, tagged, h, same) = first-Continues result run db locked missing bounded own in
            let end =
              append_results-IsBatch user_id text conversation_id run_id batch_id user_number calls
                is_user results g _ h tagged in
            ap blocks_of end.stored
            ∙ end.holds
            ∙ collect-ext (call_ids calls) (first_of g results)
                (first_of nothing (result ∷ results)) (same results)
        | inr other ↦
            ap
              (λ after. blocks_of (
                find_batch_message run_id Role.user batch_id "tool_results"
                  (append_results user_id conversation_id run_id batch_id calls results after)))
              (committed-err
                (appends user_id text conversation_id run_id batch_id user_number calls is_user
                  result)
                db value_error
                (appends-refused user_id text conversation_id run_id batch_id user_number calls
                  is_user result run db locked other))
            ∙ append_results_lem results run db locked missing bounded
            ∙ collect-ext (call_ids calls) (first_of nothing results)
                (first_of nothing (result ∷ results))
                (All-map (λ id. is_call (call_ids calls) id ≡ true) _ (call_ids calls)
                  (λ id own. first_of-passed nothing result results id (λ t gone.
                    let same = ap (is_call (call_ids calls)) (=s→≡ id result.action_id t) in cc))
                  (All-is_call (call_ids calls)))
      ]
