-- ===== src/ChatLog/Invariant/Operations.antt =====
-- The operations keep the invariant: no two runs of one id, and at most one unfinished run of a
-- conversation.
use paper_collector_agent.Prelude.{
  ℕ, ◌<◌, ◌≤◌, String, ◌≡◌, Bool, true, false, not, List, [], ◌∷◌, arith, All, Pairwise-snoc,
  Pairwise-select, All-select, any, eq_iff, ◌=s◌, is_empty,
}
use paper_collector_agent.ChatLog.Types.{Db, Conversation, Run, Role}
use paper_collector_agent.ChatLog.Store.{
  modify, locked_conversation, require_runnable_conversation, thread_id, is_active_conversation,
}
use paper_collector_agent.ChatLog.Ids.{validate_conversation_id, validate_run_id, normalize_user_id}
use paper_collector_agent.ChatLog.Triples.{
  Ensures, Ensures-bind, Ensures-pure, Ensures-found, Ensures-modify, Ensures-weaken,
  Ensures-strengthen, Ensures-bind-lift, Ensures-bind-session, Ensures-bind-require,
  Ensures-require,
}
use paper_collector_agent.ChatLog.Turns.{
  delete_conversation, erase_conversation, begin_conversation_deletion, close_row, start_turn,
  create_run, open_run, is_active_run, new_run,
}
use paper_collector_agent.ChatLog.Invariant.{Compatible, IsValid, add_message-IsValid}

-- What a failed search says of each element.
All-of-none {ℓ} :
    {A : Type ℓ} (p : A → Bool) (xs : List A) → not (any p xs) ≡ true → All (λ x. p x ≡ false) xs
All-of-none p [] h = tt
All-of-none p (x ∷ xs) h = (ground arith, All-of-none p xs (ground arith))

-- No run has this id, and the conversation has no unfinished run.
abbrev IsFree : ℕ → String → String → List Run → Type 0
IsFree user_number conversation_id run_id runs =
    (not (any (λ r. r.run_id =s run_id) runs) ≡ true)
    × (not (any (is_active_run user_number conversation_id) runs) ≡ true)

Compatible-new_run :
    (user_number : ℕ) (conversation_id run_id : String) (id : ℕ) (db : Db) (runs : List Run)
    → All (λ r. (r.run_id =s run_id) ≡ false) runs
    → All (λ r. is_active_run user_number conversation_id r ≡ false) runs
    → All (λ r. Compatible r (new_run user_number conversation_id run_id id db)) runs
unfolding new_run is_active_run
Compatible-new_run user_number conversation_id run_id id db [] h k = tt
Compatible-new_run user_number conversation_id run_id id db (r ∷ runs) h k = (
  record {
    ids = λ e. ground (arith, h.0, eq_iff r.run_id run_id);
    single = λ a b e. λ f. ground (arith, k.0, eq_iff r.conversation_id conversation_id);
  },
  Compatible-new_run user_number conversation_id run_id id db runs h.1 k.1,
)

locked_conversation-keeps :
    (P : Db → Type 0) (user_number : ℕ) (conversation_id : String)
    → Ensures P (locked_conversation user_number conversation_id) (λ _ db. P db)
unfolding locked_conversation
locked_conversation-keeps P user_number conversation_id =
    Ensures-bind-session _ λ seen. Ensures-weaken _ _ (Ensures-found _ _) (λ c db h. h.0.0)

open_run-Ensures :
    (user_number : ℕ) (conversation_id run_id user_content source : String)
    → Ensures
        (λ db. IsValid db × IsFree user_number conversation_id run_id db.runs)
        (open_run user_number conversation_id run_id user_content source)
        (λ _. IsValid)
unfolding open_run
open_run-Ensures user_number conversation_id run_id user_content source =
    Ensures-bind (λ _ db. IsValid db × IsFree user_number conversation_id run_id db.runs) _ _
      (add_message-IsValid (IsFree user_number conversation_id run_id) user_number conversation_id
        run_id Role.user _ _ _)
      λ message. Ensures-modify _ (λ db h. record {
        runs = Pairwise-snoc Compatible db.runs _ h.0.runs (
            Compatible-new_run user_number conversation_id run_id message.id db db.runs
              (All-of-none _ db.runs h.1.0) (All-of-none _ db.runs h.1.1));
        messages = h.0.messages;
        bounded = h.0.bounded;
      })

create_run-Ensures :
    (user_number : ℕ) (conversation_id run_id user_content source : String)
    → Ensures IsValid
        (create_run user_number conversation_id run_id user_content source)
        (λ _. IsValid)
unfolding create_run
create_run-Ensures user_number conversation_id run_id user_content source =
    Ensures-bind-session _ λ seen.
      Ensures-bind-require (not (any (λ r. r.run_id =s run_id) seen.runs)) _ _ (
        Ensures-bind-require (not (any (is_active_run user_number conversation_id) seen.runs)) _ _ (
          Ensures-strengthen _ _
            (open_run-Ensures user_number conversation_id run_id user_content source)
            (λ db h. (h.0.0.0, (rw (← h.0.0.1) h.0.1, rw (← h.0.0.1) h.1)))))

require_runnable-keeps :
    (P : Db → Type 0) (c : Conversation)
    → Ensures P (require_runnable_conversation c) (λ _ db. P db)
unfolding require_runnable_conversation
require_runnable-keeps P c =
    Ensures-bind-require (is_active_conversation c.status) _ _
      (Ensures-weaken _ _ (Ensures-require (not (is_empty (thread_id c))) _) (λ _ db h. h.0.0))

pub start_turn-Ensures :
    (user_id conversation_id run_id user_content source : String)
    → Ensures IsValid (start_turn user_id conversation_id run_id user_content source) (λ _. IsValid)
unfolding start_turn
start_turn-Ensures user_id conversation_id run_id user_content source =
    Ensures-bind-lift (normalize_user_id user_id) _ λ user.
      Ensures-bind-lift (validate_conversation_id conversation_id) _ λ conversation_id'.
        Ensures-bind-lift (validate_run_id run_id) _ λ run_id'.
          Ensures-bind (λ _. IsValid) (locked_conversation user.1 conversation_id') _
            (locked_conversation-keeps IsValid user.1 conversation_id')
            λ conversation.
              Ensures-bind (λ _. IsValid) (require_runnable_conversation conversation) _
                (require_runnable-keeps IsValid conversation)
                λ _.
                  Ensures-bind (λ _. IsValid)
                    (create_run user.1 conversation_id' run_id' user_content source) _
                    (create_run-Ensures user.1 conversation_id' run_id' user_content source)
                    λ _. Ensures-pure (thread_id conversation) (λ db h. h)

-- The deletion of a conversation's rows keeps the invariant.
pub delete_conversation-Ensures :
    (user_id conversation_id : String)
    → Ensures IsValid (delete_conversation user_id conversation_id) (λ _. IsValid)
unfolding delete_conversation erase_conversation
delete_conversation-Ensures user_id conversation_id =
    Ensures-bind-lift (normalize_user_id user_id) _ λ user.
      Ensures-bind-lift (validate_conversation_id conversation_id) _ λ conversation_id'.
        Ensures-bind (λ _. IsValid) (locked_conversation user.1 conversation_id') _
          (locked_conversation-keeps IsValid user.1 conversation_id')
          λ conversation. Ensures-modify _ (λ db h. record {
            runs = Pairwise-select Compatible _ db.runs h.runs;
            messages = Pairwise-select (λ m n. m.id < n.id) _ db.messages h.messages;
            bounded = All-select (λ m. m.id ≤ db.last_message_id) _ db.messages h.bounded;
          })

-- Closing a conversation keeps the invariant.
pub begin_deletion-Ensures :
    (user_id conversation_id : String)
    → Ensures IsValid (begin_conversation_deletion user_id conversation_id) (λ _. IsValid)
unfolding begin_conversation_deletion
begin_deletion-Ensures user_id conversation_id =
    Ensures-bind-lift (normalize_user_id user_id) _ λ user.
      Ensures-bind-lift (validate_conversation_id conversation_id) _ λ conversation_id'.
        Ensures-bind (λ _. IsValid) (locked_conversation user.1 conversation_id') _
          (locked_conversation-keeps IsValid user.1 conversation_id')
          λ conversation. Ensures-bind-require (not (is_empty (thread_id conversation))) _ _ (
            Ensures-bind-session _ λ seen.
              Ensures-bind (λ _. IsValid) (modify (close_row user.1 conversation_id' seen.now)) _
                (Ensures-modify (close_row user.1 conversation_id' seen.now) (λ db h. record {
                  runs = h.0.0.runs;
                  messages = h.0.0.messages;
                  bounded = h.0.0.bounded;
                }))
                λ _. Ensures-pure (thread_id conversation) (λ db h. h))
