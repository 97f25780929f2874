-- ===== src/ChatLog/Invariant.antt =====
-- The invariant of the history store, and the rules for the row helpers.
pub mod Operations
pub mod Messages
pub mod Endings
pub mod Approvals
pub mod Requests
use paper_collector_agent.Prelude.{
  ℕ, ◌+◌, ◌<◌, ◌≤◌, String, ◌≡◌, ◌≢◌, refl, sym, ◌∙◌, Bool, true, false, Option, none, some, List,
  [], ◌∷◌, ◌++◌, arith, All, Pairwise, Pairwise-snoc, Pairwise-update_first, Pairwise-update_each,
  Pairwise-select, All-append, All-select, All-map, All-update_first, All-update_each, find_first,
  find_first-true, eq_iff, &&-split, update_first, Result, ok, err, ◌==◌,
}
use mathlib.Core.Path.{subst}
use paper_collector_agent.Json.{Fields}
use paper_collector_agent.ChatLog.Types.{
  Db, Run, Message, Role, Block, MessageStatus, is_active, ChatError,
}
use paper_collector_agent.ChatLog.Store.{
  Transaction, pure, lift, session, found, lock_run, is_run, same_run, save_run, save_message,
  add_message, new_message, ◌>>=◌, ◌>>◌,
}
use paper_collector_agent.ChatLog.Ids.{validate_conversation_id, validate_run_id}
use paper_collector_agent.ChatLog.Triples.{
  Post, Ensures, Ensures-bind, Ensures-weaken, Ensures-pure, Ensures-lift, Ensures-found,
  Ensures-session, Ensures-lift_eq, Ensures-bind-session,
}

-- Two runs of the table: their ids differ, and they are not both unfinished in one conversation.
pub record Compatible (r s : Run) : Type 0 where
  pub ids : r.run_id ≢ s.run_id
  pub single :
      is_active r.status ≡ true
      → is_active s.status ≡ true
      → r.creator_id ≡ s.creator_id
      → r.conversation_id ≢ s.conversation_id

pub record IsValid (db : Db) : Type 0 where
  pub runs : Pairwise Compatible db.runs
  pub messages : Pairwise (λ m n. m.id < n.id) db.messages
  pub bounded : All (λ m. m.id ≤ db.last_message_id) db.messages

-- The query by the keys of this run returns it.
abbrev pub IsLocked : Run → Db → Type 0
IsLocked r db = find_first (same_run r) db.runs ≡ some r

-- The keys of a run that the query returned.
pub run_keys :
    (user_number : ℕ) (conversation_id run_id : String) (r : Run)
    → is_run user_number conversation_id run_id r ≡ true
    → (r.creator_id ≡ user_number) × (r.conversation_id ≡ conversation_id) × (r.run_id ≡ run_id)
unfolding is_run
run_keys user_number conversation_id run_id r h =
    ground (arith, eq_iff r.conversation_id conversation_id, eq_iff r.run_id run_id)

pub same_run-found :
    (user_number : ℕ) (conversation_id run_id : String) (r : Run)
    → is_run user_number conversation_id run_id r ≡ true
    → same_run r ≡ is_run user_number conversation_id run_id
unfolding same_run
same_run-found user_number conversation_id run_id r h =
    let (a, b, c) = run_keys user_number conversation_id run_id r h in λ i. is_run (a i) (b i) (c i)

pub validated_run_id : (value result : String) → validate_run_id value ≡ ok result → result ≡ value
unfolding validate_run_id
validated_run_id value result h = ground arith

-- `lock_run` returns the run of that id, which later assignments to it change, and changes nothing.
pub lock_run-IsLocked :
    (P : Db → Type 0) (user_number : ℕ) (conversation_id run_id : String)
    → Ensures P
        (lock_run user_number conversation_id run_id)
        (λ r db. P db × IsLocked r db × (r.run_id ≡ run_id))
unfolding lock_run
lock_run-IsLocked P user_number conversation_id run_id =
    Ensures-bind (λ _. P) (lift (validate_conversation_id conversation_id)) _ (Ensures-lift _)
      λ conversation_id'.
        Ensures-bind (λ k db. P db × (validate_run_id run_id ≡ ok k))
          (lift (validate_run_id run_id)) _ (Ensures-lift_eq _)
          λ run_id'. Ensures-bind-session _ λ seen.
            let p = is_run user_number conversation_id' run_id' in
            Ensures-weaken _ (found (find_first p seen.runs) _) (Ensures-found _ _) (λ r db h.
              let e = find_first-true p seen.runs r h.1 in
              (
                h.0.0.0,
                rw (same_run-found user_number conversation_id' run_id' r e, ← h.0.1) h.1,
                (run_keys user_number conversation_id' run_id' r e).2
                    ∙ validated_run_id run_id run_id' h.0.0.1,
              ))

-- A change of a run that keeps its keys, and does not bring an ended run back.
pub record IsTame (change : Run → Run) (r : Run) : Type 0 where
  pub run_id : (change r).run_id ≡ r.run_id
  pub creator_id : (change r).creator_id ≡ r.creator_id
  pub conversation_id : (change r).conversation_id ≡ r.conversation_id
  pub active : is_active (change r).status ≡ true → is_active r.status ≡ true

Compatible-left :
    (change : Run → Run) (r s : Run) → IsTame change r → Compatible r s → Compatible (change r) s
Compatible-left change r s t c = record {
  ids = λ e. c.ids (sym t.run_id ∙ e);
  single = λ a b e. λ f. c.single (t.active a) b (sym t.creator_id ∙ e) (sym t.conversation_id ∙ f);
}

Compatible-right :
    (change : Run → Run) (r s : Run) → IsTame change s → Compatible r s → Compatible r (change s)
Compatible-right change r s t c = record {
  ids = λ e. c.ids (e ∙ t.run_id);
  single = λ a b e. λ f. c.single a (t.active b) (e ∙ t.creator_id) (f ∙ t.conversation_id);
}

module _ (change : Run → Run) (r : Run) (tame : IsTame change r) where
  IsTame-found :
      (x : Run) (runs : List Run)
      → find_first (same_run r) runs ≡ some r
      → find_first (same_run r) runs ≡ some x
      → IsTame change x
  IsTame-found x runs h k = let e : r ≡ x = cc in subst (IsTame change) e tame

  -- A tame change of the locked run keeps the invariant.
  pub save_run-IsValid :
      Ensures (λ db. IsValid db × IsLocked r db) (save_run r change) (λ _ db. IsValid db)
  unfolding save_run
  save_run-IsValid = record {
    at = λ db h. record {
      runs =
          Pairwise-update_first Compatible (same_run r) change db.runs
            (λ x y q. Compatible-left change x y (IsTame-found x db.runs h.1 q))
            (λ x y q. Compatible-right change y x (IsTame-found x db.runs h.1 q)) h.0.runs;
      messages = h.0.messages;
      bounded = h.0.bounded;
    };
  }

-- A new message keeps the invariant, and all that holds of the runs.
pub add_message-IsValid :
    (K : List Run → Type 0) (user_number : ℕ) (conversation_id run_id : String) (role : Role)
    (blocks : List Block) (status : MessageStatus) (payload : Fields)
    → Ensures
        (λ db. IsValid db × K db.runs)
        (add_message user_number conversation_id run_id role blocks status payload)
        (λ _ db. IsValid db × K db.runs)
unfolding add_message
add_message-IsValid K user_number conversation_id run_id role blocks status payload = record {
  at = λ db h. (
    record {
      runs = h.0.runs;
      messages =
          Pairwise-snoc (λ m n. m.id < n.id) db.messages _ h.0.messages
            (All-map _ _ db.messages (λ m b. omega arith) h.0.bounded);
      bounded =
          All-append _ db.messages _ (All-map _ _ db.messages (λ m b. omega arith) h.0.bounded)
            (omega arith, tt);
    },
    h.1,
  );
}

-- An assignment to messages that leaves their keys keeps the invariant.
pub save_message-IsValid :
    (id : ℕ) (change : Message → Message)
    → ((m : Message) → (change m).id ≡ m.id)
    → Ensures IsValid (save_message id change) (λ _ db. IsValid db)
unfolding save_message
save_message-IsValid id change keep = record {
  at = λ db h. record {
    runs = h.runs;
    messages =
        Pairwise-update_first (λ m n. m.id < n.id) (λ m. m.id == id) change db.messages
          (λ x y q k. omega (arith, keep x)) (λ x y q k. omega (arith, keep x)) h.messages;
    bounded =
        All-update_first (λ m. m.id ≤ db.last_message_id) (λ m. m.id == id) change db.messages
          (λ m q k. omega (arith, keep m)) h.bounded;
  };
}
