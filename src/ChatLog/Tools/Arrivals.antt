-- ===== src/ChatLog/Tools/Arrivals.antt =====
-- Result events of a batch that arrive one after the other, repeated and refused ones included, from
-- the moment when the message of the results is there.
use mathlib.Core.Path.{subst}
use paper_collector_agent.Prelude.{
  ℕ, String, ◌≡◌, ◌≢◌, refl, sym, ap, ◌∙◌, true, false, Option, none, some, List, [], ◌∷◌, arith,
  ◌==◌, ◌=s◌, All, All-map, Bool-cases, inl, inr, find_first, find_first-true,
  find_first-update_same, update_first, ok, err, =s→≡,
}
use paper_collector_agent.ChatLog.Types.{
  Message, Db, Run, Block, Role, tool_result_conflict, value_error,
}
use paper_collector_agent.ChatLog.Ids.{normalize_user_id}
use paper_collector_agent.ChatLog.Store.{
  Transaction, lift, run_operation, lock_run, save_message, find_batch_message, is_batch_message,
}
use paper_collector_agent.ChatLog.Tools.{
  Call, ActionResult, call_ids, tool_call_manifest, has_manifest, tool_result_block, result_content,
  is_failure, find_result, block_eq, add_result, result_message, record_result, append_tool_result,
}
use paper_collector_agent.ChatLog.Locking.{bind-ok}
use paper_collector_agent.ChatLog.Committed.{
  committed, committed-err, committed-ok, committed_cong, lock_run-runs,
}
use paper_collector_agent.ChatLog.Tools.Firsts.{
  first_result, first_of, first_of-nil, first_of-passed, first_of-stored,
}
use paper_collector_agent.ChatLog.Tools.Results.{
  Received, IsTagged, Holds, collect-ext, receive, is_call, All-is_call, read-collect,
  add_result-Holds, IsTagged-receive,
}

-- The results of a batch, each stored in a transaction of its own; one that raises changes nothing.
unfoldable pub append_results :
    String → String → String → String → List Call → List ActionResult → Db → Db
unfolding append_tool_result run_operation
append_results user_id conversation_id run_id batch_id calls [] db = db
append_results user_id conversation_id run_id batch_id calls (result ∷ results) db =
    append_results user_id conversation_id run_id batch_id calls results
      (run_operation (append_tool_result user_id conversation_id run_id batch_id calls result) db).1

-- The message of the results of a batch, whose blocks are those received, and its locked run.
pub record IsBatch (user_number : ℕ) (conversation_id run_id batch_id : String) (calls : List Call)
    (f : Received) (db : Db) : Type 0 where
  pub run : Run
  pub message : Message
  pub locked : lock_run user_number conversation_id run_id db ≡ ok (run, db)
  pub stored : find_batch_message run_id Role.user batch_id "tool_results" db ≡ some message
  pub keyed : find_first (λ m. m.id == message.id) db.messages ≡ some message
  pub declared : has_manifest message (tool_call_manifest calls) ≡ true
  pub holds : Holds (call_ids calls) f message

module _ (user_id text conversation_id run_id batch_id : String) (user_number : ℕ)
    (calls : List Call) (is_user : normalize_user_id user_id ≡ ok (text, user_number)) where
  abbrev pub appends : ActionResult → Transaction ℕ
  appends = append_tool_result user_id conversation_id run_id batch_id calls

  abbrev pub Holding : Received → Db → Type 0
  Holding = IsBatch user_number conversation_id run_id batch_id calls

  pub appends-refused :
      (result : ActionResult) (run : Run) (db : Db)
      → lock_run user_number conversation_id run_id db ≡ ok (run, db)
      → is_call (call_ids calls) result.action_id ≡ false
      → appends result db ≡ err value_error
  unfolding append_tool_result
  appends-refused result run db locked other =
      bind-ok (lift (normalize_user_id user_id)) _ db (ap (λ r. lift r db) is_user)
      ∙ bind-ok (lock_run user_number conversation_id run_id) _ db locked
      ∙ (rw other refl)

  appends-taken :
      (result : ActionResult) (f : Received) (db : Db) (h : Holding f db)
      → is_call (call_ids calls) result.action_id ≡ true
      → appends result db
        ≡ record_result user_number
            (call_ids calls)
            result.action_id
            (tool_result_block result)
            h.message
            (find_result result.action_id h.message.content)
            db
  unfolding append_tool_result result_message
  appends-taken result f db h own =
      bind-ok (lift (normalize_user_id user_id)) _ db (ap (λ r. lift r db) is_user)
      ∙ bind-ok (lock_run user_number conversation_id run_id) _ db h.locked
      ∙ (rw (own, h.stored, h.declared) refl)

  -- The batch when one of its results was stored.
  store-IsBatch :
      (result : ActionResult) (f : Received) (db : Db) (h : Holding f db)
      → IsTagged f
      → Holding (receive result.action_id (tool_result_block result) f) (record db {
        messages =
            update_first
              (λ m. m.id == h.message.id)
              (add_result user_number
                (call_ids calls)
                result.action_id
                (tool_result_block result)
                db.now)
              db.messages;
      })
  unfolding add_result has_manifest find_batch_message is_batch_message
  store-IsBatch result f db h tagged =
      let ids = call_ids calls in
      let block = tool_result_block result in
      let change = add_result user_number ids result.action_id block db.now in
      record {
        run = h.run;
        message = change h.message;
        locked = lock_run-runs user_number conversation_id run_id db _ h.run refl h.locked;
        stored =
            find_first-update_same (is_batch_message run_id Role.user batch_id "tool_results")
              (λ m. m.id == h.message.id) change db.messages h.message h.stored h.keyed
              (find_first-true (is_batch_message run_id Role.user batch_id "tool_results")
                db.messages h.message h.stored);
        keyed =
            find_first-update_same (λ m. m.id == h.message.id) (λ m. m.id == h.message.id) change
              db.messages h.message h.keyed h.keyed (ground arith);
        declared = h.declared;
        holds =
            add_result-Holds user_number ids result.action_id block db.now h.message f tagged
              h.holds;
      }

  -- What is received after a result was tried, and the database with it.
  abbrev pub Continues : ActionResult → Received → Db → Type 0
  Continues result f db =
      (g : Received) × IsTagged g
      × Holding g db
      × ((results : List ActionResult)
          → All (λ id. first_of g results id ≡ first_of f (result ∷ results) id) (call_ids calls))

  passed-Continues :
      (result : ActionResult) (f : Received) (db db' : Db)
      → Holding f db
      → IsTagged f
      → ((id : String)
          → is_call (call_ids calls) id ≡ true
          → (id =s result.action_id) ≡ true
          → f id ≢ none)
      → db' ≡ db
      → Continues result f db'
  passed-Continues result f db db' h tagged covered same = (
    f,
    tagged,
    subst (Holding f) (sym same) h,
    λ results.
        All-map (λ id. is_call (call_ids calls) id ≡ true) _ (call_ids calls)
          (λ id own. first_of-passed f result results id (covered id own))
          (All-is_call (call_ids calls)),
  )

  repeat-committed :
      (ids : List String) (tool_use_id : String) (block prior : Block) (m : Message) (db : Db)
      → committed (record_result user_number ids tool_use_id block m (some prior)) db ≡ db
  unfolding record_result
  repeat-committed ids tool_use_id block prior m db = elim (Bool-cases (block_eq prior block)) [
    | inl t ↦ committed-ok _ db db m.id (rw t refl)
    | inr n ↦ committed-err _ db tool_result_conflict (rw n refl)
  ]

  pub own-Continues :
      (result : ActionResult) (f : Received) (db : Db) (h : Holding f db)
      → IsTagged f
      → is_call (call_ids calls) result.action_id ≡ true
      → (prior : Option Block) → f result.action_id ≡ prior
      → Continues result f (
          committed
            (record_result user_number
              (call_ids calls)
              result.action_id
              (tool_result_block result)
              h.message
              prior)
            db)
  unfolding record_result save_message tool_result_block
  own-Continues result f db h tagged own (some prior) e =
      passed-Continues result f db _ h tagged
        (λ id _ t gone. let same = ap f (=s→≡ id result.action_id t) in cc)
        (repeat-committed (call_ids calls) result.action_id (tool_result_block result) prior
          h.message db)
  own-Continues result f db h tagged own none e = (
    receive result.action_id (tool_result_block result) f,
    IsTagged-receive result.action_id (result_content result) (is_failure result.status) f tagged,
    subst (Holding (receive result.action_id (tool_result_block result) f))
        (sym (committed-ok _ db _ h.message.id refl)) (store-IsBatch result f db h tagged),
    λ results.
        All-map (λ id. is_call (call_ids calls) id ≡ true) _ (call_ids calls)
          (λ id _. first_of-stored f result results id e) (All-is_call (call_ids calls)),
  )

  append-Continues :
      (result : ActionResult) (f : Received) (db : Db)
      → Holding f db
      → IsTagged f
      → Continues result f (committed (appends result) db)
  append-Continues result f db h tagged =
      let ids = call_ids calls in
      elim (Bool-cases (is_call ids result.action_id)) [
        | inl own ↦
            let read = read-collect ids f h.message result.action_id tagged h.holds own in
            subst (Continues result f)
              (sym (committed_cong _ _ db (appends-taken result f db h own)))
              (own-Continues result f db h tagged own
                (find_result result.action_id h.message.content) (sym read))
        | inr other ↦
            passed-Continues result f db _ h tagged
              (λ id own t gone. let same = ap (is_call ids) (=s→≡ id result.action_id t) in cc)
              (committed-err (appends result) db value_error
                (appends-refused result h.run db h.locked other))
      ]

  relabel :
      (f g : Received) (db : Db)
      → Holding f db
      → All (λ id. f id ≡ g id) (call_ids calls)
      → Holding g db
  relabel f g db h same = record {
    run = h.run;
    message = h.message;
    locked = h.locked;
    stored = h.stored;
    keyed = h.keyed;
    declared = h.declared;
    holds = h.holds ∙ collect-ext (call_ids calls) f g same;
  }

  pub append_results-IsBatch :
      (results : List ActionResult) (f : Received) (db : Db)
      → Holding f db
      → IsTagged f
      → Holding
          (first_of f results)
          (append_results user_id conversation_id run_id batch_id calls results db)
  unfolding append_results first_result
  append_results-IsBatch [] f db h tagged = relabel f (first_of f []) db h (
      All-map (λ id. is_call (call_ids calls) id ≡ true) _ (call_ids calls)
        (λ id _. first_of-nil f id) (All-is_call (call_ids calls)))
  append_results-IsBatch (result ∷ results) f db h tagged =
      let (g, tagged', h', same) = append-Continues result f db h tagged in
      relabel (first_of g results) (first_of f (result ∷ results)) _
        (append_results-IsBatch results g (committed (appends result) db) h' tagged') (same results)
