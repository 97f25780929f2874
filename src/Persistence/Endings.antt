-- ===== src/Persistence/Endings.antt =====
-- The end of a run: its completion, the terminal event and the sequence that the run keeps.
use mathlib.Core.Path.{subst}
use paper_collector_agent.Prelude.{
  ◌≡◌, ◌⊎◌, refl, sym, ap, ◌∙◌, String, Option, none, some, List, [], inl, inr, Bool-cases,
  if◌then◌else◌, is_empty, Result, ok, err,
}
use paper_collector_agent.Json.{Fields}
use paper_collector_agent.ChatLog.Types.{Db, ChatError}
use paper_collector_agent.ChatLog.Store.{Transaction, run_operation, found}
use paper_collector_agent.ChatLog.Completion.{Response, complete_run}
use paper_collector_agent.ChatLog.Interruption.{record_terminal_event_sequence}
use paper_collector_agent.ChatLog.TerminalSequence.{
  IsRecorded, record_terminal_event_sequence-IsRecorded,
}
use paper_collector_agent.StreamEvents.{AgentStreamEvent, insert, latest}
use paper_collector_agent.StreamEvents.Order.{IsValid}
use paper_collector_agent.StreamEvents.Queries.{latest-insert}
use paper_collector_agent.Persistence.{
  terminal, EventDelivery, PublishError, World, Handler, return, then_do, ◌>>=◌, ◌>>◌, of_history,
  join, run_history, inserted, append_event, clear_parts, pending_content, persist_terminal,
  persist_event, broadcast, dispatch,
}

-- The history after a dispatch that returned.
abbrev pub OnSuccess : {A : Type 0} → (World → Type 0) → Result PublishError A × World → Type 0
OnSuccess P (ok a, w) = P w
OnSuccess P (err e, w) = Unit

Result-cases : {E A : Type 0} (r : Result E A) → ((a : A) × (r ≡ ok a)) ⊎ ((e : E) × (r ≡ err e))
Result-cases (ok a) = inl (a, refl)
Result-cases (err e) = inr (e, refl)

run_operation-ok :
    {A : Type 0} (operation : Transaction A) (db : Db) (a : A)
    → (run_operation operation db).0 ≡ ok a
    → operation db ≡ ok (a, (run_operation operation db).1)
unfolding run_operation
run_operation-ok operation db a e = elim (Result-cases (operation db)) [
  | inl (x, q) ↦
      let same : (run_operation operation db).0 ≡ ok x.0 = rw (q, run_operation) refl in
      let eq : x.0 ≡ a = cc in q ∙ (rw (q, run_operation) (ap (λ y. ok (y, x.1)) eq))
  | inr (x, q) ↦ let no : (run_operation operation db).0 ≡ err x = rw (q, run_operation) refl in cc
]

-- A step of the history that succeeds, before what follows it.
of_history-OnSuccess :
    {A B : Type 0} (P : World → Type 0) (r : Result ChatError A) (w : World) (next : A → Handler B)
    → ((a : A) → r ≡ ok a → OnSuccess P (next a w))
    → OnSuccess P (then_do (of_history r) w next)
of_history-OnSuccess P (ok a) w next k = k a refl
of_history-OnSuccess P (err e) w next k = tt

run_history-OnSuccess :
    {A B : Type 0} (P : World → Type 0) (operation : Transaction A) (next : A → Handler B)
    (w : World)
    → ((a : A) (h : Db)
        → operation w.history ≡ ok (a, h)
        → OnSuccess P (next a (record w { history = h })))
    → OnSuccess P ((run_history operation >>= next) w)
unfolding run_history
run_history-OnSuccess P operation next w k =
    of_history-OnSuccess P (run_operation operation w.history).0 _ next
      (λ a e. k a (run_operation operation w.history).1 (run_operation-ok operation w.history a e))

append_event-OnSuccess :
    {B : Type 0} (P : World → Type 0) (d : EventDelivery) (next : AgentStreamEvent → Handler B)
    (w : World)
    → OnSuccess P (next (inserted d w.log).0 (record w { log = (inserted d w.log).1 }))
    → OnSuccess P ((append_event d >>= next) w)
unfolding append_event
append_event-OnSuccess P d next w k = elim (Bool-cases d.has_log) [
  | inl t ↦ rw t k
  | inr f ↦ rw f tt
]

-- The log after the end of a run, and the last step of the history.
record Ends (d : EventDelivery) (w w' : World) : Type 0 where
  between : Db
  recorded :
      record_terminal_event_sequence d.user_id d.root_run_id (inserted d w.log).0.sequence between
      ≡ ok (tt, w'.history)
  logged : w'.log ≡ (inserted d w.log).1

clear_parts-OnSuccess :
    (P : World → Type 0) (content : String) (found : Option AgentStreamEvent) (w : World)
    → ((parts : List String) → join parts ≡ String.[] → P (record w { content_parts = parts }))
    → join w.content_parts ≡ content
    → OnSuccess P
        ((clear_parts (if is_empty content then none else some content) >> return found) w)
unfolding clear_parts
clear_parts-OnSuccess P String.[] found w k e = k w.content_parts e
clear_parts-OnSuccess P (String.◌∷◌ c s) found w k e = k [] refl

persist_terminal-Ends :
    (d : EventDelivery) (response : Response) (extra : Fields) (w : World)
    → OnSuccess (Ends d w) (persist_terminal d response extra (pending_content w.content_parts) w)
unfolding persist_terminal pending_content
persist_terminal-Ends d response extra w =
    run_history-OnSuccess (Ends d w)
      (complete_run d.user_id d.conversation_id d.root_run_id response d.latency_ms (some extra)
        (pending_content w.content_parts))
      _ w
      λ message between completed.
        append_event-OnSuccess (Ends d w) d _ (record w { history = between })
          (run_history-OnSuccess (Ends d w)
            (record_terminal_event_sequence d.user_id d.root_run_id (inserted d w.log).0.sequence) _
            (record w { history = between; log = (inserted d w.log).1 })
            λ u h recorded.
              clear_parts-OnSuccess (Ends d w) (join w.content_parts) _
                (record w { history = h; log = (inserted d w.log).1 })
                (λ parts emptied. record { between = between; recorded = recorded; logged = refl })
                refl)

wake-Ends :
    (d : EventDelivery) (w w' : World) (woken : List AgentStreamEvent)
    → Ends d w w'
    → Ends d w (record w' { woken = woken })
wake-Ends d w w' woken h = record { between = h.between; recorded = h.recorded; logged = h.logged }

broadcast-Ends :
    (d : EventDelivery) (w w' : World) (r : Result PublishError (Option AgentStreamEvent))
    → OnSuccess (Ends d w) (r, w')
    → OnSuccess (Ends d w) (then_do r w' broadcast)
unfolding broadcast
broadcast-Ends d w w' (ok none) h = tt
broadcast-Ends d w w' (ok (some event)) h = wake-Ends d w w' _ h
broadcast-Ends d w w' (err e) h = tt

dispatch-Ends :
    (d : EventDelivery) (response : Response) (extra : Fields) (w w' : World)
    → d.event ≡ terminal response extra
    → dispatch d w ≡ (ok tt, w')
    → Ends d w w'
unfolding dispatch persist_event
dispatch-Ends d response extra w w' is_terminal returned = subst (OnSuccess (Ends d w)) returned (
    subst (λ e. OnSuccess (Ends d w) ((persist_event e d >>= broadcast) w)) (sym is_terminal)
      (broadcast-Ends d w _ _ (persist_terminal-Ends d response extra w)))

-- A terminal event that is published over a valid log: the last event of its run in the log is then the
-- one that was written for it, the run keeps the sequence number of this event, and it no longer waits
-- for one.
pub dispatch-IsRecorded :
    (d : EventDelivery) (response : Response) (extra : Fields) (w w' : World)
    → d.event ≡ terminal response extra
    → IsValid w.log
    → dispatch d w ≡ (ok tt, w')
    → (event : AgentStreamEvent) × (latest d.user_id d.root_run_id w'.log ≡ ok (some event))
      × (event.event_name ≡ d.sse_name)
      × IsRecorded d.user_id d.root_run_id event.sequence w'.history
unfolding insert
dispatch-IsRecorded d response extra w w' is_terminal v returned =
    let h = dispatch-Ends d response extra w w' is_terminal returned in
    (
      (inserted d w.log).0,
      ap (latest d.user_id d.root_run_id) h.logged
          ∙ latest-insert d.user_id d.conversation_id d.root_run_id d.sse_name d.payload w.log v,
      refl,
      record_terminal_event_sequence-IsRecorded d.user_id d.root_run_id
          (inserted d w.log).0.sequence h.between w'.history h.recorded,
    )
