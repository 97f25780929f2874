-- ===== src/ChatLog/Locking.antt =====
-- What `lock_run` returns before and after an assignment to the run.
use paper_collector_agent.Prelude.{
  ℕ, String, ◌≡◌, refl, ap, ◌∙◌, Bool, true, false, Option, none, some, Result, ok, err, arith,
  find_first, find_first-true, find_first-update_first, update_first,
}
use paper_collector_agent.ChatLog.Types.{Db, Run, ChatError}
use paper_collector_agent.ChatLog.Ids.{validate_conversation_id, validate_run_id}
use paper_collector_agent.ChatLog.Store.{
  Transaction, lift, session, found, lock_run, is_run, same_run, require, ◌>>=◌, ◌>>◌,
}
use paper_collector_agent.ChatLog.Invariant.{same_run-found}

-- What a block that returns says of its first step.
pub require-eq-ok :
    {B : Type 0} (b : Bool) (e : ChatError) (n : Transaction B) (db : Db) {x : B × Db}
    → (require b e >> n) db ≡ ok x
    → (b ≡ true) × (n db ≡ ok x)
require-eq-ok true e n db h = (refl, h)
require-eq-ok false e n db h = cc

pub lift-eq-ok :
    {A B : Type 0} (r : Result ChatError A) (f : A → Transaction B) (db : Db) {x : B × Db}
    → (lift r >>= f) db ≡ ok x
    → (a : A) × (r ≡ ok a) × (f a db ≡ ok x)
lift-eq-ok (ok a) f db h = (a, refl, h)
lift-eq-ok (err e) f db h = cc

pub bind-eq-ok :
    {A B : Type 0} (m : Transaction A) (f : A → Transaction B) (db : Db) {x : B × Db}
    → (m >>= f) db ≡ ok x
    → (a : A) × (seen : Db) × (m db ≡ ok (a, seen)) × (f a seen ≡ ok x)
bind-eq-ok {A} {B} m f db {x} h = split (m db) refl h
  where
    split :
        (r : Result ChatError (A × Db))
        → m db ≡ r
        → (elim r as (λ _. Result ChatError (B × Db)) [ ok (a, db') ↦ f a db' | err e ↦ err e ])
          ≡ ok x
        → (a : A) × (seen : Db) × (m db ≡ ok (a, seen)) × (f a seen ≡ ok x)
    split (ok (a, seen)) p k = (a, seen, p, k)
    split (err e) p k = cc

pub bind-ok :
    {A B : Type 0} (m : Transaction A) (f : A → Transaction B) (db : Db) {a : A} {seen : Db}
    → m db ≡ ok (a, seen)
    → (m >>= f) db ≡ f a seen
bind-ok {A} {B} m f db e =
    ap
      (λ (r : Result ChatError (A × Db)). elim r as (λ _. Result ChatError (B × Db)) [
        | ok (a, db') ↦ f a db'
        | err e ↦ err e
      ])
      e

-- The run that the query by the checked keys returns.
pub record IsFound (user_number : ℕ) (conversation_id run_id : String) (r : Run) (db : Db)
    : Type 0 where
  pub conversation : String
  pub run : String
  pub valid_conversation : validate_conversation_id conversation_id ≡ ok conversation
  pub valid_run : validate_run_id run_id ≡ ok run
  pub query : find_first (is_run user_number conversation run) db.runs ≡ some r

pub lock_run-IsFound :
    (user_number : ℕ) (conversation_id run_id : String) (r : Run) (db db' : Db)
    → lock_run user_number conversation_id run_id db ≡ ok (r, db')
    → IsFound user_number conversation_id run_id r db × (db' ≡ db)
unfolding lock_run
lock_run-IsFound user_number conversation_id run_id r db db' h =
    go (validate_conversation_id conversation_id) (validate_run_id run_id) refl refl h
  where
    go :
        (v : Result ChatError String) (w : Result ChatError String)
        → validate_conversation_id conversation_id ≡ v
        → validate_run_id run_id ≡ w
        → (lift v >>= λ c. lift w >>= λ k. session >>= λ seen.
              found
                (find_first (is_run user_number c k) seen.runs)
                ChatError.conversation_not_found)
            db
          ≡ ok (r, db')
        → IsFound user_number conversation_id run_id r db × (db' ≡ db)
    go (err e) w p q k = cc
    go (ok c) (err e) p q k = cc
    go (ok c) (ok i) p q k = end (find_first (is_run user_number c i) db.runs) refl k
      where
        end :
            (o : Option Run)
            → find_first (is_run user_number c i) db.runs ≡ o
            → found o ChatError.conversation_not_found db ≡ ok (r, db')
            → IsFound user_number conversation_id run_id r db × (db' ≡ db)
        end none s k = cc
        end (some x) s k = (
          record {
            conversation = c;
            run = i;
            valid_conversation = p;
            valid_run = q;
            query = s ∙ ground arith;
          },
          ground arith,
        )

pub lock_run-found :
    (user_number : ℕ) (conversation_id run_id : String) (r : Run) (db : Db)
    → IsFound user_number conversation_id run_id r db
    → lock_run user_number conversation_id run_id db ≡ ok (r, db)
unfolding lock_run
lock_run-found user_number conversation_id run_id r db f =
    rw (f.valid_conversation, f.valid_run, f.query) refl

-- After an assignment that keeps the keys, the same query returns the changed run.
pub IsFound-update :
    (user_number : ℕ) (conversation_id run_id : String) (r : Run) (db : Db) (change : Run → Run)
    → (change r).creator_id ≡ r.creator_id
    → (change r).conversation_id ≡ r.conversation_id
    → (change r).run_id ≡ r.run_id
    → IsFound user_number conversation_id run_id r db
    → IsFound user_number conversation_id run_id
        (change r)
        (record db { runs = update_first (same_run r) change db.runs })
IsFound-update user_number conversation_id run_id r db change a b c f =
    let p = is_run user_number f.conversation f.run in
    let held = find_first-true p db.runs r f.query in
    record {
      conversation = f.conversation;
      run = f.run;
      valid_conversation = f.valid_conversation;
      valid_run = f.valid_run;
      query =
          rw (same_run-found user_number f.conversation f.run r held) (
            find_first-update_first p change db.runs r f.query
              (unfold is_run in rw (a, b, c) held));
    }
