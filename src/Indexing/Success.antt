-- ===== src/Indexing/Success.antt =====
-- That the workflow ends, and when it reports success.
use paper_collector_agent.Prelude.{
  ◌≡◌, ◌≢◌, ◌⊎◌, refl, ap, sym, Bool, true, false, Option, none, some, arith, inl, inr, Bool-cases,
  any, Result, ok, ◌>>=◌, if◌then◌else◌,
}
use paper_collector_agent.Indexing.Status.{wait_for_rag_terminal_status_lem}
use paper_collector_agent.Indexing.Nodes.{
  RagRunResult, RagError, Stage, State, Request, no_call, no_arguments, invalid, valid,
  initialize_task_indexing_node, check_task_rag_status_node,
}
use paper_collector_agent.Indexing.Workflow.{
  WorkerEnd, finished, late, not_published, ProgressEvent, after_remote, after_result, after_error,
  await_worker, wait_for_remote_task, is_search_completed, Replies, IndexingError, ActionOutcome,
  is_at, run_or_wait, verify_edge, run_edge, check_edge, finalize, finalize_task_indexing_node,
  index_task,
}
use paper_collector_agent.Indexing.Outcome.{
  IsUsable, is_over, initialize-stage, check_edge-HasEnded,
}

-- The runner's wait ends, its progress is published, and a failed run says why.
abbrev pub IsReported : WorkerEnd → Type 0
IsReported (finished result) = (result.is_ok ≡ true) ⊎ ((e : RagError) × (result.error ≡ some e))
IsReported late = Unit
IsReported not_published = ⊥

abbrev Returns : {A : Type 0} → Result IndexingError A → Type 0
Returns {A} r = (a : A) × (r ≡ ok a)

Returns-if :
    {A : Type 0} (b : Bool) (x y : Result IndexingError A)
    → Returns x
    → Returns y
    → Returns (if b then x else y)
Returns-if true x y h k = h
Returns-if false x y h k = k

if_true : {A : Type 0} (b : Bool) (x y : A) → b ≡ true → (if b then x else y) ≡ x
if_true b x y e = rw e refl

after_error-Returns :
    (found : Option RagError) (error : RagError) (state : State)
    → found ≡ some error
    → Returns (after_error found state)
unfolding after_error
after_error-Returns none error state e = cc
after_error-Returns (some x) error state e = (_, refl)

after_result-Returns :
    (event : Option ProgressEvent) (result : RagRunResult) (state : State)
    → IsReported (finished result)
    → Returns (after_result event result state)
unfolding after_result
after_result-Returns event result state (inl e) = (_, if_true _ _ _ e)
after_result-Returns event result state (inr (error, e)) =
    Returns-if result.is_ok _ _ (_, refl) (after_error-Returns result.error error _ e)

await_worker-Returns :
    (end : WorkerEnd) (replies : Replies) (state : State)
    → IsReported end
    → Returns (await_worker end replies state)
unfolding await_worker
await_worker-Returns (finished result) replies state h =
    after_result-Returns replies.latest_event result state h
await_worker-Returns late replies state h = (_, refl)
await_worker-Returns not_published replies state h = absurd h

run_or_wait-Returns :
    (replies : Replies) (state : State)
    → IsReported replies.worker
    → any (λ o. o.is_late) replies.observations ≡ true
    → Returns (run_or_wait replies state)
unfolding run_or_wait wait_for_remote_task
run_or_wait-Returns replies state h waited =
    let worker = await_worker-Returns replies.worker replies state h in
    let (final, e, is_final) = wait_for_rag_terminal_status_lem replies.observations waited in
    Returns-if (is_search_completed state.remote_task_state) _ _ worker (
      Returns-if replies.has_run _ _ worker
        (after_remote final state, ap (λ reply. wait_for_remote_task reply state) e))

run_edge-Returns :
    (replies : Replies) (state : State)
    → IsReported replies.worker
    → any (λ o. o.is_late) replies.observations ≡ true
    → Returns (run_edge replies state)
unfolding run_edge
run_edge-Returns replies state h waited =
    let (ran, e) = run_or_wait-Returns replies state h waited in
    Returns-if (is_at state.stage Stage.indexing) _ _
      (verify_edge replies ran, ap (λ r. r >>= (λ ran. ok (verify_edge replies ran))) e)
      (state, refl)

finalize-Returns :
    (request : Request) (state : State)
    → request ≢ no_call
    → finalize_task_indexing_node request state ≡ ok (finalize state)
unfolding finalize_task_indexing_node
finalize-Returns no_call state h = absurd (h refl)
finalize-Returns no_arguments state h = refl
finalize-Returns (invalid reason) state h = refl
finalize-Returns (valid d) state h = refl

finalize-state : (state : State) → (finalize state).state ≡ state
unfolding finalize
finalize-state state = ground arith

finalize-success :
    (state : State) → (finalize state).is_success ≡ true → is_at state.stage Stage.completed ≡ true
unfolding finalize
finalize-success state h = ground arith

completed-not_late :
    (stage : Stage) → is_at stage Stage.completed ≡ true → is_at stage Stage.timed_out ≡ false
completed-not_late Stage.completed h = refl
completed-not_late Stage.failed h = refl
completed-not_late Stage.timed_out h = cc
completed-not_late Stage.checking_status h = refl
completed-not_late Stage.indexing h = refl
completed-not_late Stage.verifying h = refl

finalize-retryable :
    (state : State)
    → (finalize state).is_retryable ≡ is_at (finalize state).state.stage Stage.timed_out
unfolding finalize
finalize-retryable state = elim (Bool-cases (is_at state.stage Stage.completed)) [
  | inl e ↦ rw e (sym (completed-not_late state.stage e))
  | inr e ↦ rw e refl
]

-- For a call whose batch runner reports and whose remote wait is observed up to its deadline, the
-- workflow returns an outcome; it ended at the stage completed, failed or timed out; it reports
-- success only if its first or its last status said that a review can be generated; and it is
-- retryable exactly if it timed out.
pub index_task_lem :
    (request : Request) (replies : Replies) (state : State)
    → request ≢ no_call
    → IsReported replies.worker
    → any (λ o. o.is_late) replies.observations ≡ true
    → (outcome : ActionOutcome) × (index_task request replies state ≡ ok outcome)
      × (is_over outcome.state.stage ≡ true)
      × (outcome.is_success ≡ true → IsUsable replies.first ⊎ IsUsable replies.last)
      × (outcome.is_retryable ≡ is_at outcome.state.stage Stage.timed_out)
unfolding index_task check_edge
index_task_lem request replies state called reported waited =
    let begun = initialize_task_indexing_node request state in
    let (ended, e) =
      Returns-if (is_at begun.stage Stage.checking_status) _ (ok begun)
        (run_edge-Returns replies (check_task_rag_status_node replies.first begun) reported waited)
        (begun, refl) in
    let has_ended = check_edge-HasEnded replies begun ended (initialize-stage request state) e in
    (
      finalize ended,
      rw e (finalize-Returns request ended called),
      rw (finalize-state ended) has_ended.over,
      λ success. has_ended.usable (finalize-success ended success),
      finalize-retryable ended,
    )
