-- ===== src/ChatLog/TerminalSequence.antt =====
-- What `record_terminal_event_sequence` leaves in the run.
use mathlib.Core.Path.{subst}
use paper_collector_agent.Prelude.{
  ℕ, ◌≡◌, refl, ◌∙◌, String, Option, none, some, true, eq_iff, find_first, find_first-true,
  find_first-update_narrow, update_first, arith, ok,
}
use paper_collector_agent.Json.{num, get, get-put, get-pop}
use paper_collector_agent.ChatLog.Types.{Db, Run, conversation_not_found}
use paper_collector_agent.ChatLog.Store.{
  Transaction, run_operation, lift, session, found, save_run, same_run, is_run,
}
use paper_collector_agent.ChatLog.Store
use paper_collector_agent.ChatLog.Ids.{normalize_user_id, validate_run_id}
use paper_collector_agent.ChatLog.Interruption.{
  record_terminal_event_sequence, owned_run, set_sequence,
}
use paper_collector_agent.ChatLog.Invariant.{validated_run_id}
use paper_collector_agent.ChatLog.Locking.{lift-eq-ok}

-- The run of a user keeps the sequence of its last event, and waits for none.
pub record IsRecorded (user_id run_id : String) (sequence : ℕ) (db : Db) : Type 0 where
  pub text : String
  pub user_number : ℕ
  pub run : Run
  pub is_user : normalize_user_id user_id ≡ ok (text, user_number)
  pub stored : find_first (owned_run user_number run_id) db.runs ≡ some run
  pub kept : get "terminal_event_sequence" run.metadata ≡ some (num sequence)
  pub settled : get "terminal_event_pending" run.metadata ≡ none

set_sequence-kept :
    (user_number sequence now : ℕ) (r : Run)
    → let metadata = (set_sequence user_number sequence now r).metadata in
      (get "terminal_event_sequence" metadata ≡ some (num sequence))
      × (get "terminal_event_pending" metadata ≡ none)
unfolding set_sequence
set_sequence-kept user_number sequence now r = (
  get-pop "terminal_event_pending" "terminal_event_sequence" _
      ∙ get-put "terminal_event_sequence" "terminal_event_sequence" (num sequence) r.metadata,
  get-pop "terminal_event_pending" "terminal_event_pending" _,
)

owned_run-narrow :
    (user_number : ℕ) (run_id : String) (run r : Run)
    → owned_run user_number run_id run ≡ true
    → same_run run r ≡ true
    → owned_run user_number run_id r ≡ true
unfolding owned_run same_run is_run
owned_run-narrow user_number run_id run r h k =
    ground
      (arith, h, k, eq_iff run.run_id run_id, eq_iff r.run_id run.run_id, eq_iff r.run_id run_id)

same_run_self : (run : Run) → same_run run run ≡ true
unfolding same_run is_run
same_run_self run =
    ground (arith, eq_iff run.run_id run.run_id, eq_iff run.conversation_id run.conversation_id)

owned_run-kept :
    (user_number sequence now : ℕ) (run_id : String) (run : Run)
    → owned_run user_number run_id run ≡ true
    → owned_run user_number run_id (set_sequence user_number sequence now run) ≡ true
unfolding owned_run set_sequence
owned_run-kept user_number sequence now run_id run h = h

record_found :
    (user_id text run_id : String) (user_number sequence : ℕ) (o : Option Run) (db db' : Db)
    → normalize_user_id user_id ≡ ok (text, user_number)
    → find_first (owned_run user_number run_id) db.runs ≡ o
    → Store.◌>>=◌
        (found o conversation_not_found)
        (λ run. save_run run (set_sequence user_number sequence db.now))
        db
      ≡ ok (tt, db')
    → IsRecorded user_id run_id sequence db'
unfolding save_run set_sequence
record_found user_id text run_id user_number sequence none db db' u e h = cc
record_found user_id text run_id user_number sequence (some run) db db' u e h =
    let change = set_sequence user_number sequence db.now in
    let after : Db = record db { runs = update_first (same_run run) change db.runs } in
    let same : after ≡ db' = cc in
    subst (IsRecorded user_id run_id sequence) same record {
      text = text;
      user_number = user_number;
      run = change run;
      is_user = u;
      stored =
          find_first-update_narrow (owned_run user_number run_id) (same_run run) change db.runs run
            (λ r k.
              owned_run-narrow user_number run_id run r
                (find_first-true (owned_run user_number run_id) db.runs run e) k)
            e (same_run_self run)
            (owned_run-kept user_number sequence db.now run_id run
              (find_first-true (owned_run user_number run_id) db.runs run e));
      kept = (set_sequence-kept user_number sequence db.now run).0;
      settled = (set_sequence-kept user_number sequence db.now run).1;
    }

pub record_terminal_event_sequence-IsRecorded :
    (user_id run_id : String) (sequence : ℕ) (db db' : Db)
    → record_terminal_event_sequence user_id run_id sequence db ≡ ok (tt, db')
    → IsRecorded user_id run_id sequence db'
unfolding record_terminal_event_sequence
record_terminal_event_sequence-IsRecorded user_id run_id sequence db db' h =
    let (u, is_user, h') = lift-eq-ok (normalize_user_id user_id) _ db h in
    let (k, is_valid, returned) = lift-eq-ok (validate_run_id run_id) _ db h' in
    subst (λ id. IsRecorded user_id id sequence db') (validated_run_id run_id k is_valid)
      (record_found user_id u.0 k u.1 sequence (find_first (owned_run u.1 k) db.runs) db db' is_user
        refl returned)
