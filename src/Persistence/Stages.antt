-- ===== src/Persistence/Stages.antt =====
-- What the dispatcher has done with an event, when it returns and when it raises.
use paper_collector_agent.Prelude.{
  ◌≡◌, ◌≢◌, ◌⊎◌, refl, ap, ◌∙◌, String, Option, none, some, List, [], ◌∷◌, ◌++◌, inl, inr,
  Bool-cases, Result, ok, err,
}
use paper_collector_agent.Json.{Fields}
use paper_collector_agent.ChatLog.Types.{Db, ChatError}
use paper_collector_agent.ChatLog.Store.{Transaction, run_operation}
use paper_collector_agent.ChatLog.Completion.{Response, complete_run}
use paper_collector_agent.ChatLog.Interruption.{record_terminal_event_sequence}
use paper_collector_agent.StreamEvents.{Table, AgentStreamEvent}
use paper_collector_agent.Persistence.{
  Event, terminal, content_delta, action_started, action_result, other, EventDelivery, PublishError,
  not_persisted, World, Handler, return, then_do, ◌>>=◌, ◌>>◌, of_history, run_history, inserted,
  append_event, clear_parts, add_part, pending_content, persist_message_event, persist_progress,
  persist_terminal, persist_event, broadcast, dispatch,
}

-- The handler wrote the event, or it raised before or behind that; it wakes nobody.
abbrev pub Persisted :
    EventDelivery
    → Table
    → List AgentStreamEvent
    → Result PublishError (Option AgentStreamEvent)
    → World
    → Type 0
Persisted d log woken (ok found) w =
    (found ≡ some (inserted d log).0) × (w.log ≡ (inserted d log).1) × (w.woken ≡ woken)
Persisted d log woken (err e) w =
    (e ≢ not_persisted) × (w.woken ≡ woken) × ((w.log ≡ log) ⊎ (w.log ≡ (inserted d log).1))

abbrev Persists :
    EventDelivery
    → Table
    → List AgentStreamEvent
    → Result PublishError (Option AgentStreamEvent) × World
    → Type 0
Persists d log woken (r, w) = Persisted d log woken r w

of_history-Persists :
    {A : Type 0} (r : Result ChatError A) (w : World) (next : A → Handler (Option AgentStreamEvent))
    (d : EventDelivery) (log : Table) (woken : List AgentStreamEvent)
    → w.woken ≡ woken
    → (w.log ≡ log) ⊎ (w.log ≡ (inserted d log).1)
    → ((a : A) → Persists d log woken (next a w))
    → Persists d log woken (then_do (of_history r) w next)
of_history-Persists (ok a) w next d log woken same stands k = k a
of_history-Persists (err e) w next d log woken same stands k = (λ q. cc, same, stands)

-- A transaction on the history, before or behind the write to the log.
run_history-Persists :
    {A : Type 0} (operation : Transaction A) (next : A → Handler (Option AgentStreamEvent))
    (d : EventDelivery) (log : Table) (woken : List AgentStreamEvent) (w : World)
    → w.woken ≡ woken
    → (w.log ≡ log) ⊎ (w.log ≡ (inserted d log).1)
    → ((a : A) (h : Db) → Persists d log woken (next a (record w { history = h })))
    → Persists d log woken ((run_history operation >>= next) w)
unfolding run_history
run_history-Persists operation next d log woken w same stands k =
    of_history-Persists (run_operation operation w.history).0
      (record w { history = (run_operation operation w.history).1 }) next d log woken same stands
      (λ a. k a (run_operation operation w.history).1)

append_event-Persists :
    (d : EventDelivery) (w : World) (next : AgentStreamEvent → Handler (Option AgentStreamEvent))
    → Persists d w.log w.woken (next (inserted d w.log).0 (record w { log = (inserted d w.log).1 }))
    → Persists d w.log w.woken ((append_event d >>= next) w)
unfolding append_event
append_event-Persists d w next k = elim (Bool-cases d.has_log) [
  | inl t ↦ rw t k
  | inr f ↦ rw f (λ q. cc, refl, inl refl)
]

clear_parts-Persists :
    (pending : Option String) (d : EventDelivery) (log : Table) (woken : List AgentStreamEvent)
    (w : World)
    → w.log ≡ (inserted d log).1
    → w.woken ≡ woken
    → Persists d log woken ((clear_parts pending >> return (some (inserted d log).0)) w)
unfolding clear_parts
clear_parts-Persists none d log woken w e k = (refl, e, k)
clear_parts-Persists (some content) d log woken w e k = (refl, e, k)

persist_progress-Persists :
    (d : EventDelivery) (pending : Option String) (w : World)
    → Persists d w.log w.woken (persist_progress d pending w)
unfolding persist_progress
persist_progress-Persists d pending w =
    run_history-Persists
      (persist_message_event d.user_id d.conversation_id d.root_run_id d.event pending) _ d w.log
      w.woken w refl (inl refl)
      λ a h.
        append_event-Persists d (record w { history = h }) _
          (clear_parts-Persists pending d w.log w.woken
            (record w { history = h; log = (inserted d w.log).1 }) refl refl)

persist_terminal-Persists :
    (d : EventDelivery) (response : Response) (extra : Fields) (pending : Option String) (w : World)
    → Persists d w.log w.woken (persist_terminal d response extra pending w)
unfolding persist_terminal
persist_terminal-Persists d response extra pending w =
    run_history-Persists
      (complete_run d.user_id d.conversation_id d.root_run_id response d.latency_ms (some extra)
        pending)
      _ d w.log w.woken w refl (inl refl)
      λ a h.
        append_event-Persists d (record w { history = h }) _
          (run_history-Persists
            (record_terminal_event_sequence d.user_id d.root_run_id (inserted d w.log).0.sequence) _
            d w.log w.woken (record w { history = h; log = (inserted d w.log).1 }) refl (inr refl)
            λ b h'.
              clear_parts-Persists pending d w.log w.woken
                (record w { history = h'; log = (inserted d w.log).1 }) refl refl)

with_part-Persists :
    (value : Option String) (d : EventDelivery) (w : World)
    → Persists d w.log w.woken (persist_progress d none (add_part value w))
unfolding add_part
with_part-Persists none d w = persist_progress-Persists d none w
with_part-Persists (some part) d w =
    persist_progress-Persists d none (record w { content_parts = w.content_parts ++ part ∷ [] })

persist_event-Persists :
    (event : Event) (d : EventDelivery) (w : World)
    → Persists d w.log w.woken (persist_event event d w)
unfolding persist_event
persist_event-Persists (terminal response extra) d w =
    persist_terminal-Persists d response extra (pending_content w.content_parts) w
persist_event-Persists (content_delta value) d w = with_part-Persists value d w
persist_event-Persists (action_started payload) d w =
    persist_progress-Persists d (pending_content w.content_parts) w
persist_event-Persists (action_result payload result) d w = persist_progress-Persists d none w
persist_event-Persists other d w = persist_progress-Persists d none w

-- A dispatch that returns has woken the followers for the event as it stands in the log; one that
-- raises has woken nobody.
abbrev pub Dispatched : EventDelivery → World → Result PublishError (Unit {0}) × World → Type 0
Dispatched d w (ok u, w') =
    (w'.log ≡ (inserted d w.log).1) × (w'.woken ≡ w.woken ++ (inserted d w.log).0 ∷ [])
Dispatched d w (err e, w') =
    (e ≢ not_persisted)
    × (w'.woken ≡ w.woken)
    × ((w'.log ≡ w.log) ⊎ (w'.log ≡ (inserted d w.log).1))

broadcast-Dispatched :
    (r : Result PublishError (Option AgentStreamEvent)) (d : EventDelivery) (w w' : World)
    → Persisted d w.log w.woken r w'
    → Dispatched d w (then_do r w' broadcast)
unfolding broadcast
broadcast-Dispatched (ok none) d w w' h = cc
broadcast-Dispatched (ok (some event)) d w w' (e, log, woken) =
    let same : event ≡ (inserted d w.log).0 = cc in
    (log, ap (λ l. l ++ event ∷ []) woken ∙ ap (λ x. w.woken ++ x ∷ []) same)
broadcast-Dispatched (err e) d w w' h = h

-- A dispatch that returns has appended the event to the log and then woken the followers of its run
-- with it. One that raises has woken nobody; it has written the event, or left the log as it was; and
-- it never finds an event that was not persisted.
pub dispatch_lem : (d : EventDelivery) (w : World) → Dispatched d w (dispatch d w)
unfolding dispatch
dispatch_lem d w =
    broadcast-Dispatched (persist_event d.event d w).0 d w (persist_event d.event d w).1
      (persist_event-Persists d.event d w)
