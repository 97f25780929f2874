-- ===== src/Persistence/Logged.antt =====
-- Sequences of events, and the rows of those that followers were woken for.
use mathlib.Core.Path.{subst}
use paper_collector_agent.Prelude.{
  any-append, ◌≡◌, sym, ◌∙◌, Bool, true, ◌&&◌, List, [], ◌∷◌, arith, ◌==◌, ◌=s◌, =s_refl, any, inl,
  inr, All, All-append, All-map, Result, ok, err,
}
use paper_collector_agent.StreamEvents.{Table, Row, AgentStreamEvent, insert, new_row}
use paper_collector_agent.StreamEvents.Order.{IsValid, insert-IsValid}
use paper_collector_agent.Persistence.{
  EventDelivery, PublishError, World, inserted, dispatch, dispatch_each,
}
use paper_collector_agent.Persistence.Stages.{Dispatched, dispatch_lem}

inserted-IsValid : (d : EventDelivery) (log : Table) → IsValid log → IsValid (inserted d log).1
inserted-IsValid d log h =
    insert-IsValid d.user_id d.conversation_id d.root_run_id d.sse_name d.payload log h

-- The row of an event.
abbrev pub is_row_of : AgentStreamEvent → Row → Bool
is_row_of event row =
    row.id == event.id
    && row.sequence == event.sequence
    && row.user_id =s event.user_id
    && row.run_id =s event.run_id
    && row.event_name =s event.event_name

abbrev pub Stands : Table → AgentStreamEvent → Type 0
Stands log event = any (is_row_of event) log.rows ≡ true

-- A valid log, in which every event stands that followers were woken for.
pub record IsLogged (w : World) : Type 0 where
  pub valid : IsValid w.log
  pub stands : All (Stands w.log) w.woken

insert-Stands :
    (d : EventDelivery) (log : Table) (event : AgentStreamEvent)
    → Stands log event
    → Stands (inserted d log).1 event
unfolding insert
insert-Stands d log event h = any-append (is_row_of event) log.rows _ ∙ ground (arith, h)

own :
    (d : EventDelivery) (log : Table)
    → is_row_of
        (inserted d log).0
        (new_row d.user_id d.conversation_id d.root_run_id d.sse_name d.payload log)
      ≡ true
unfolding insert new_row
own d log = ground (arith, =s_refl d.user_id, =s_refl d.root_run_id, =s_refl d.sse_name)

inserted-Stands : (d : EventDelivery) (log : Table) → Stands (inserted d log).1 (inserted d log).0
unfolding insert new_row
inserted-Stands d log =
    any-append (is_row_of (inserted d log).0) log.rows _ ∙ ground (arith, own d log)

dispatch-IsLogged :
    (d : EventDelivery) (w : World) (done : Result PublishError (Unit {0}) × World)
    → Dispatched d w done
    → IsLogged w
    → IsLogged done.1
dispatch-IsLogged d w (ok u, w') (log, woken) h = record {
  valid = subst IsValid (sym log) (inserted-IsValid d w.log h.valid);
  stands =
      subst (λ t. All (Stands t) w'.woken) (sym log)
        (subst (All (Stands (inserted d w.log).1)) (sym woken) (
          All-append (Stands (inserted d w.log).1) w.woken _
            (All-map (Stands w.log) (Stands (inserted d w.log).1) w.woken (insert-Stands d w.log)
              h.stands)
            (inserted-Stands d w.log, tt)));
}
dispatch-IsLogged d w (err e, w') (_, woken, inl log) h = record {
  valid = subst IsValid (sym log) h.valid;
  stands =
      subst (λ t. All (Stands t) w'.woken) (sym log)
        (subst (All (Stands w.log)) (sym woken) h.stands);
}
dispatch-IsLogged d w (err e, w') (_, woken, inr log) h = record {
  valid = subst IsValid (sym log) (inserted-IsValid d w.log h.valid);
  stands =
      subst (λ t. All (Stands t) w'.woken) (sym log)
        (subst (All (Stands (inserted d w.log).1)) (sym woken) (
          All-map (Stands w.log) (Stands (inserted d w.log).1) w.woken (insert-Stands d w.log)
            h.stands));
}

-- From a valid log, whatever is published, whether it raises or not: the log stays valid, and every
-- event that followers were woken for stands in it.
pub dispatch_each-IsLogged :
    (ds : List EventDelivery) (w : World) → IsLogged w → IsLogged (dispatch_each ds w)
unfolding dispatch_each
dispatch_each-IsLogged [] w h = h
dispatch_each-IsLogged (d ∷ ds) w h =
    dispatch_each-IsLogged ds (dispatch d w).1
      (dispatch-IsLogged d w (dispatch d w) (dispatch_lem d w) h)
