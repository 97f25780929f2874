-- ===== src/ChatLog/Invariant/Requests.antt =====
-- Any sequence of operations keeps the invariant.
use paper_collector_agent.Prelude.{List, [], ◌∷◌, Result, ok, err}
use paper_collector_agent.ChatLog.Types.{Db, ChatError}
use paper_collector_agent.ChatLog.Store.{Transaction, pure, run_operation}
use paper_collector_agent.ChatLog.Requests.{
  Request, start, say, call_tools, return_result, complete, claim, record_sequence, interrupt,
  close, delete, tick, void, perform, serve,
}
use paper_collector_agent.ChatLog.Triples.{
  Post, Ensures, Ensures-bind, Ensures-pure, Ensures-strengthen,
}
use paper_collector_agent.ChatLog.Invariant.{IsValid}
use paper_collector_agent.ChatLog.Invariant.Operations.{
  start_turn-Ensures, delete_conversation-Ensures, begin_deletion-Ensures,
}
use paper_collector_agent.ChatLog.Invariant.Messages.{
  append_text_message-Ensures, append_tool_batch-Ensures, append_tool_result-Ensures,
}
use paper_collector_agent.ChatLog.Invariant.Endings.{IsUnfinished, complete_run-Ensures}
use paper_collector_agent.ChatLog.Invariant.Approvals.{
  claim_pending_action-Ensures, record_terminal-Ensures, mark_interrupted-Ensures,
}

-- A completion is requested for a run that has not ended; nothing is asked of the other requests.
abbrev pub IsTimely : Request → Db → Type 0
IsTimely (complete u c r response ms extra content) db = IsUnfinished r db
IsTimely _ db = Unit

abbrev pub AreTimely : List Request → Db → Type 0
AreTimely [] db = Unit
AreTimely (request ∷ requests) db =
    IsTimely request db × AreTimely requests (run_operation (perform request) db).1

void-Ensures :
    {A : Type 0} {P : Db → Type 0} (m : Transaction A)
    → Ensures P m (λ _. IsValid)
    → Ensures P (void m) (λ _. IsValid)
void-Ensures m h = Ensures-bind (λ _. IsValid) m (λ _. pure tt) h (λ _. Ensures-pure tt (λ db v. v))

-- What needs no condition on the request.
drop_timely :
    {T : Db → Type 0} (m : Transaction (Unit {0}))
    → Ensures IsValid m (λ _. IsValid)
    → Ensures (λ db. IsValid db × T db) m (λ _. IsValid)
drop_timely m h = Ensures-strengthen IsValid m h (λ db v. v.0)

perform-Ensures :
    (request : Request)
    → Ensures (λ db. IsValid db × IsTimely request db) (perform request) (λ _. IsValid)
unfolding perform
perform-Ensures (start u c r content source) =
    drop_timely _ (void-Ensures _ (start_turn-Ensures u c r content source))
perform-Ensures (say u c r content) =
    drop_timely _ (void-Ensures _ (append_text_message-Ensures u c r content))
perform-Ensures (call_tools u c r b calls) =
    drop_timely _ (void-Ensures _ (append_tool_batch-Ensures u c r b calls))
perform-Ensures (return_result u c r b calls result) =
    drop_timely _ (void-Ensures _ (append_tool_result-Ensures u c r b calls result))
perform-Ensures (complete u c r response ms extra content) =
    void-Ensures _ (complete_run-Ensures u c r response ms extra content)
perform-Ensures (claim u c r action decision comment) =
    drop_timely _ (void-Ensures _ (claim_pending_action-Ensures u c r action decision comment))
perform-Ensures (record_sequence u r sequence) =
    drop_timely _ (record_terminal-Ensures u r sequence)
perform-Ensures (interrupt u c r) = drop_timely _ (mark_interrupted-Ensures u c r)
perform-Ensures (close u c) = drop_timely _ (void-Ensures _ (begin_deletion-Ensures u c))
perform-Ensures (delete u c) = drop_timely _ (delete_conversation-Ensures u c)
perform-Ensures (tick now) = record {
  at = λ db h. record { runs = h.0.runs; messages = h.0.messages; bounded = h.0.bounded };
}

-- What an operation ensures holds after its transaction, which is undone if it raises.
committed :
    (m : Transaction (Unit {0})) (db : Db)
    → IsValid db
    → Post (λ _. IsValid) (m db)
    → IsValid (run_operation m db).1
unfolding run_operation
committed m db v h = outcome (m db) h
  where
    outcome :
        (r : Result ChatError (Unit {0} × Db))
        → Post (λ _. IsValid) r
        → IsValid
            (elim r as (λ _. Result ChatError (Unit {0}) × Db) [
              | ok (a, db') ↦ (ok a, db')
              | err e ↦ (err e, db)
            ]).1
    outcome (ok (a, db')) h = h
    outcome (err e) h = v

-- From a valid store, any sequence of operations in which a run is completed only while it has not
-- ended leaves a valid store: run ids are unique, no conversation of a user has two unfinished
-- runs, and message keys rise and stay below the counter. An operation that raises is undone.
pub serve-IsValid :
    (requests : List Request) (db : Db)
    → IsValid db
    → AreTimely requests db
    → IsValid (serve requests db)
unfolding serve
serve-IsValid [] db v t = v
serve-IsValid (request ∷ requests) db v t =
    serve-IsValid requests _
      (committed (perform request) db v ((perform-Ensures request).at db (v, t.0))) t.1
