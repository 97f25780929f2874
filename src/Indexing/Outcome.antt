-- ===== src/Indexing/Outcome.antt =====
-- How the workflow ends.
use mathlib.Core.Path.{subst}
use paper_collector_agent.Prelude.{
  ◌≡◌, ◌⊎◌, refl, Bool, true, false, ◌||◌, Option, none, some, arith, inl, inr, Bool-cases, Result,
  ok, err, >>=-eq-ok, if◌then◌else◌,
}
use paper_collector_agent.Indexing.{
  Fetch, RagStatus, StatusReply, unavailable, known, get_task_rag_status,
  wait_for_rag_terminal_status,
}
use paper_collector_agent.Indexing.Nodes.{
  RagRunResult, RagError, Stage, State, Request, no_call, no_arguments, invalid, valid, failure,
  time_out, status_update, proceed, complete_index, after_check, after_verify,
  initialize_task_indexing_node, check_task_rag_status_node, verify_task_indexing_node,
}
use paper_collector_agent.Indexing.Workflow.{
  Replies, WorkerEnd, finished, late, not_published, ProgressEvent, after_timeout, after_remote,
  after_result, after_error, is_search_completed, await_worker, wait_for_remote_task, IndexingError,
  is_at, run_or_wait, verify_edge, run_edge, check_edge,
}

-- The reply says that a review can be generated.
abbrev pub IsUsable : Fetch → Type 0
IsUsable fetch =
    (s : RagStatus) × (get_task_rag_status fetch ≡ known s) × (s.can_generate_review ≡ true)

-- The node after which no stage is left.
abbrev pub is_over : Stage → Bool
is_over stage =
    is_at stage Stage.completed || is_at stage Stage.failed || is_at stage Stage.timed_out

complete_index-completed :
    (s : RagStatus) (state : State)
    → is_at (complete_index s state).stage Stage.completed ≡ true
    → s.can_generate_review ≡ true
unfolding complete_index failure proceed
complete_index-completed s state h = ground arith

complete_index-over :
    (s : RagStatus) (state : State) → is_over (complete_index s state).stage ≡ true
unfolding complete_index failure proceed
complete_index-over s state = ground arith

after_verify-completed :
    (reply : StatusReply) (state : State)
    → is_at (after_verify reply state).stage Stage.completed ≡ true
    → (s : RagStatus) × (reply ≡ known s) × (s.can_generate_review ≡ true)
unfolding after_verify failure
after_verify-completed (unavailable error) state h = cc
after_verify-completed (known s) state h =
    (s, refl, complete_index-completed s (status_update s state) (ground arith))

after_verify-over :
    (reply : StatusReply) (state : State) → is_over (after_verify reply state).stage ≡ true
unfolding after_verify failure
after_verify-over (unavailable error) state = refl
after_verify-over (known s) state = ground (arith, complete_index-over s (status_update s state))

after_check-completed :
    (reply : StatusReply) (state : State)
    → is_at (after_check reply state).stage Stage.completed ≡ true
    → (s : RagStatus) × (reply ≡ known s) × (s.can_generate_review ≡ true)
unfolding after_check failure proceed
after_check-completed (unavailable error) state h = cc
after_check-completed (known s) state h =
    (s, refl, complete_index-completed s (status_update s state) (ground arith))

-- After the first status the workflow is over or goes on to the index.
after_check-over :
    (reply : StatusReply) (state : State)
    → (is_over (after_check reply state).stage
        || is_at (after_check reply state).stage Stage.indexing)
      ≡ true
unfolding after_check failure proceed
after_check-over (unavailable error) state = refl
after_check-over (known s) state = ground (arith, complete_index-over s (status_update s state))

-- The node that runs or waits ends the workflow or leaves it to be verified.
abbrev is_paused : Stage → Bool
is_paused stage =
    is_at stage Stage.verifying || is_at stage Stage.failed || is_at stage Stage.timed_out

after_timeout-paused :
    (reply : StatusReply) (state : State) → is_paused (after_timeout reply state).stage ≡ true
unfolding after_timeout failure time_out proceed
after_timeout-paused (unavailable error) state = refl
after_timeout-paused (known s) state = ground arith

after_remote-paused :
    (reply : StatusReply) (state : State) → is_paused (after_remote reply state).stage ≡ true
unfolding after_remote failure time_out proceed
after_remote-paused (unavailable error) state = ground arith
after_remote-paused (known s) state = ground arith

-- A node that returns is paused.
abbrev Pauses : Result IndexingError State → Type 0
Pauses (ok ran) = is_paused ran.stage ≡ true
Pauses (err e) = Unit

Pauses-if :
    (b : Bool) (x y : Result IndexingError State)
    → Pauses x
    → Pauses y
    → Pauses (if b then x else y)
Pauses-if true x y h k = h
Pauses-if false x y h k = k

after_error-Pauses : (error : Option RagError) (state : State) → Pauses (after_error error state)
unfolding after_error failure
after_error-Pauses none state = tt
after_error-Pauses (some e) state = refl

after_result-Pauses :
    (event : Option ProgressEvent) (result : RagRunResult) (state : State)
    → Pauses (after_result event result state)
unfolding after_result proceed
after_result-Pauses event result state = elim (Bool-cases result.is_ok) [
  | inl e ↦ rw e refl
  | inr e ↦ rw e (after_error-Pauses result.error _)
]

await_worker-Pauses :
    (end : WorkerEnd) (replies : Replies) (state : State) → Pauses (await_worker end replies state)
unfolding await_worker
await_worker-Pauses (finished result) replies state =
    after_result-Pauses replies.latest_event result state
await_worker-Pauses late replies state =
    after_timeout-paused (get_task_rag_status replies.at_timeout) state
await_worker-Pauses not_published replies state = tt

wait_for_remote_task-Pauses :
    (reply : Option StatusReply) (state : State) → Pauses (wait_for_remote_task reply state)
unfolding wait_for_remote_task
wait_for_remote_task-Pauses none state = tt
wait_for_remote_task-Pauses (some reply) state = after_remote-paused reply state

run_or_wait-Pauses : (replies : Replies) (state : State) → Pauses (run_or_wait replies state)
unfolding run_or_wait
run_or_wait-Pauses replies state =
    let worker = await_worker-Pauses replies.worker replies state in
    Pauses-if (is_search_completed state.remote_task_state) _ _ worker (
      Pauses-if replies.has_run _ _ worker
        (wait_for_remote_task-Pauses (wait_for_rag_terminal_status replies.observations) state))

verify_edge-over :
    (replies : Replies) (ran : State)
    → is_paused ran.stage ≡ true
    → is_over (verify_edge replies ran).stage ≡ true
unfolding verify_edge verify_task_indexing_node
verify_edge-over replies ran h =
    ground (arith, after_verify-over (get_task_rag_status replies.last) ran)

not_completed :
    (stage : Stage)
    → (is_at stage Stage.failed || is_at stage Stage.timed_out) ≡ true
    → is_at stage Stage.completed ≡ true
    → ⊥
not_completed Stage.completed h c = cc
not_completed Stage.failed h c = cc
not_completed Stage.timed_out h c = cc
not_completed Stage.checking_status h c = cc
not_completed Stage.indexing h c = cc
not_completed Stage.verifying h c = cc

verify_edge-completed :
    (replies : Replies) (ran : State)
    → is_paused ran.stage ≡ true
    → is_at (verify_edge replies ran).stage Stage.completed ≡ true
    → IsUsable replies.last
unfolding verify_edge verify_task_indexing_node
verify_edge-completed replies ran h c = elim (Bool-cases (is_at ran.stage Stage.verifying)) [
  | inl e ↦ after_verify-completed (get_task_rag_status replies.last) ran (rw e at c)
  | inr e ↦ absurd (not_completed ran.stage (rw e at h) (rw e at c))
]

-- How the workflow has ended: at a last stage, and completed only by a reply that is usable.
pub record HasEnded (replies : Replies) (ended : State) : Type 0 where
  pub over : is_over ended.stage ≡ true
  pub usable :
      is_at ended.stage Stage.completed ≡ true → IsUsable replies.first ⊎ IsUsable replies.last

run_edge-HasEnded :
    (replies : Replies) (checked ended : State)
    → (is_over checked.stage || is_at checked.stage Stage.indexing) ≡ true
    → (is_at checked.stage Stage.completed ≡ true → IsUsable replies.first)
    → run_edge replies checked ≡ ok ended
    → HasEnded replies ended
unfolding run_edge
run_edge-HasEnded replies checked ended h usable e =
    elim (Bool-cases (is_at checked.stage Stage.indexing)) [
      | inl p ↦
          let (ran, r, k) = >>=-eq-ok (run_or_wait replies checked) _ (rw p at e) in
          let paused : is_paused ran.stage ≡ true =
            subst Pauses r (run_or_wait-Pauses replies checked) in
          let same : verify_edge replies ran ≡ ended = cc in
          record {
            over = rw (← same) (verify_edge-over replies ran paused);
            usable = λ c. inr (verify_edge-completed replies ran paused (rw (← same) at c));
          }
      | inr p ↦
          let same : checked ≡ ended = let k = rw p at e in cc in
          let h' = rw p at h in
          record {
            over = rw (← same) (ground arith);
            usable = λ c. inl (usable (rw (← same) at c));
          }
    ]

pub initialize-stage :
    (request : Request) (state : State)
    → (is_at (initialize_task_indexing_node request state).stage Stage.checking_status
        || is_at (initialize_task_indexing_node request state).stage Stage.failed)
      ≡ true
unfolding initialize_task_indexing_node failure
initialize-stage no_call state = refl
initialize-stage no_arguments state = refl
initialize-stage (invalid reason) state = refl
initialize-stage (valid d) state = refl

pub check_edge-HasEnded :
    (replies : Replies) (begun ended : State)
    → (is_at begun.stage Stage.checking_status || is_at begun.stage Stage.failed) ≡ true
    → check_edge replies begun ≡ ok ended
    → HasEnded replies ended
unfolding check_edge check_task_rag_status_node
check_edge-HasEnded replies begun ended h e =
    elim (Bool-cases (is_at begun.stage Stage.checking_status)) [
      | inl p ↦
          let reply = get_task_rag_status replies.first in
          run_edge-HasEnded replies (after_check reply begun) ended (after_check-over reply begun)
            (after_check-completed reply begun) (rw p at e)
      | inr p ↦
          let same : begun ≡ ended = let k = rw p at e in cc in
          let failed : is_at begun.stage Stage.failed ≡ true = rw p at h in
          record {
            over = rw (← same, failed) (ground arith);
            usable = λ c. absurd (not_completed begun.stage (rw failed refl) (rw (← same) at c));
          }
    ]
