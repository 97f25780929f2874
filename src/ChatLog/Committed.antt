-- ===== src/ChatLog/Committed.antt =====
-- The database after a transaction, and what locking a run reads.
use paper_collector_agent.Prelude.{ℕ, String, ◌≡◌, sym, refl, ap, ◌∙◌, ap, find_first, ok, err}
use paper_collector_agent.ChatLog.Types.{Db, Run, ChatError}
use paper_collector_agent.ChatLog.Locking.{lock_run-IsFound, lock_run-found}
use paper_collector_agent.ChatLog.Store.{Transaction, run_operation, lock_run, is_run}

-- Locking a run reads nothing but the runs.
pub lock_run-runs :
    (user_number : ℕ) (conversation_id run_id : String) (db db' : Db) (run : Run)
    → db'.runs ≡ db.runs
    → lock_run user_number conversation_id run_id db ≡ ok (run, db)
    → lock_run user_number conversation_id run_id db' ≡ ok (run, db')
lock_run-runs user_number conversation_id run_id db db' run same h =
    let f = (lock_run-IsFound user_number conversation_id run_id run db db h).0 in
    lock_run-found user_number conversation_id run_id run db' (record {
      conversation = f.conversation;
      run = f.run;
      valid_conversation = f.valid_conversation;
      valid_run = f.valid_run;
      query = ap (find_first (is_run user_number f.conversation f.run)) same ∙ f.query;
    })

abbrev pub committed : {A : Type 0} → Transaction A → Db → Db
committed operation db = (run_operation operation db).1

pub committed-err :
    {A : Type 0} (operation : Transaction A) (db : Db) (e : ChatError)
    → operation db ≡ err e
    → committed operation db ≡ db
unfolding run_operation
committed-err operation db e h = rw (h, committed) refl

pub committed-ok :
    {A : Type 0} (operation : Transaction A) (db db' : Db) (a : A)
    → operation db ≡ ok (a, db')
    → committed operation db ≡ db'
unfolding run_operation
committed-ok operation db db' a h = rw (h, committed) refl

pub committed_cong :
    {A : Type 0} (operation operation' : Transaction A) (db : Db)
    → operation db ≡ operation' db
    → committed operation db ≡ committed operation' db
unfolding run_operation
committed_cong operation operation' db h = rw (h, committed) refl

-- Two operations that leave the same database.
pub committed_same :
    {A : Type 0} (operation operation' : Transaction A) (db db' after : Db) (a : A)
    → operation db ≡ operation' db'
    → operation' db' ≡ ok (a, after)
    → committed operation db ≡ committed operation' db'
committed_same operation operation' db db' after a h k =
    committed-ok operation db after a (h ∙ k) ∙ sym (committed-ok operation' db' after a k)
