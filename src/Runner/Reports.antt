-- ===== src/Runner/Reports.antt =====
-- app/llm/graph/workflows/task_indexing/nodes/run_or_wait.py with the worker of
-- app/rag/processing/task_rag_batch_runner.py: the workflow that waits for the
-- worker of its task.
use mathlib.Core.Path.{subst}
use paper_collector_agent.Prelude.{
  ◌≡◌, ◌≢◌, ◌⊎◌, refl, sym, Bool, true, false, Option, none, some, List, any, inl, inr, ok,
}
use paper_collector_agent.Indexing.Nodes.{RagError, RagRunResult, Stage, State, Request, no_call}
use paper_collector_agent.Indexing.Workflow.{
  WorkerEnd, finished, late, Replies, ActionOutcome, is_at, index_task,
}
use paper_collector_agent.Indexing.Outcome.{IsUsable, is_over}
use paper_collector_agent.Indexing.Success.{IsReported, index_task_lem}
use paper_collector_agent.Runner.{TaskRun}
use paper_collector_agent.Runner.Worker.{Turn, run_task}
use paper_collector_agent.Runner.Ends.{IsExplained, run_task_lem}

-- `RagRunHandle.result` under the timeout of the workflow: the result of the worker, if it ends before.
unfoldable pub worker_end : Option (RagRunResult × TaskRun) → WorkerEnd
worker_end none = late
worker_end (some done) = finished done.0

explained :
    (b : Bool) (e : Option RagError)
    → IsExplained b e
    → (b ≡ true) ⊎ ((x : RagError) × (e ≡ some x))
explained true e h = inl refl
explained false e h = inr h

worker_end-IsReported :
    (turns : List Turn) (run : TaskRun) (end : Option (RagRunResult × TaskRun))
    → run_task turns run ≡ end
    → IsReported (worker_end end)
unfolding worker_end
worker_end-IsReported turns run none e = tt
worker_end-IsReported turns run (some (result, run')) e =
    explained result.is_ok result.error (run_task_lem turns run run' result e).0

-- A call of the workflow that waits for the worker of its task, and whose remote wait is observed up
-- to its deadline, returns an outcome, however the turns of the worker go and wherever they stop. The
-- outcome ended at the stage completed, failed or timed out, and is a success only if the first or the
-- last status of the task said that a review can be generated.
pub index_task-run_task :
    (request : Request) (replies : Replies) (state : State) (turns : List Turn) (run : TaskRun)
    → request ≢ no_call
    → replies.worker ≡ worker_end (run_task turns run)
    → any (λ o. o.is_late) replies.observations ≡ true
    → (outcome : ActionOutcome) × (index_task request replies state ≡ ok outcome)
      × (is_over outcome.state.stage ≡ true)
      × (outcome.is_success ≡ true → IsUsable replies.first ⊎ IsUsable replies.last)
      × (outcome.is_retryable ≡ is_at outcome.state.stage Stage.timed_out)
index_task-run_task request replies state turns run called same waited =
    index_task_lem request replies state called
      (subst IsReported (sym same) (worker_end-IsReported turns run (run_task turns run) refl))
      waited
