-- ===== src/Runner/Worker.antt =====
-- app/rag/processing/task_rag_batch_runner.py: `_run_task`, the loop over batches. Each turn is the
-- replies to one batch, or a cancellation or another exception, behind what the batch did before.
use Prim.Native.String
use paper_collector_agent.Prelude.{
  String, Bool, true, false, ◌&&◌, Option, none, some, List, [], ◌∷◌, ltb, ◌=s◌, if◌then◌else◌,
  is_empty,
}
use paper_collector_agent.Indexing.Nodes.{RagError, RagRunResult}
use paper_collector_agent.Runner.{TaskRun, EventType, Act, acts, publish}
use paper_collector_agent.Runner.Batch.{BatchReplies, BatchRunResult, Failure, failure_text}
use paper_collector_agent.Runner.Once.{run_once}

pub data Turn : Type 0 where
  batch : BatchReplies → Turn
  cancelled : List Act → Turn
  crashed : List Act → Failure → Turn

-- What the loop does after a batch.
pub data Next : Type 0 where
  again : Next
  succeed : Next
  fail : RagError → Next
  -- `assert batch.error is not None` fails
  no_error : Next

unfoldable pub worker_error : String → String → RagError
worker_error code message = record {
  code = code;
  message = message;
  batch_id = none;
  is_retryable = false;
}

abbrev pub is_state : Option String → String → Bool
is_state none name = false
is_state (some state) name = state =s name

-- `task_state or 'unknown'`
unfoldable pub state_text : Option String → String
state_text none = "unknown"
state_text (some state) = if is_empty state then "unknown" else state

unfoldable pub next_of_error : Option RagError → Next
next_of_error none = no_error
next_of_error (some e) = fail e

-- A batch that returned.
unfoldable pub next_of_state : BatchRunResult → Next
unfolding worker_error state_text
next_of_state b =
    if b.has_failed_papers
    then fail (worker_error "RAG_PAPER_FAILED" "RAG 索引存在失败论文，已停止后续批次。")
    else if is_state b.task_state "RAG_RUNNING" && ltb 0 b.claimed_count
    then again
    else if is_state b.task_state "RAG_COMPLETED"
    then succeed
    else if is_state b.task_state "RAG_RUNNING"
    then fail (worker_error "RAG_NO_CLAIMED_PAPERS" "RAG 仍在运行，但本 worker 未领取到可索引论文。")
    else fail (
        worker_error "RAG_UNEXPECTED_TASK_STATE"
          (String.◌++◌ "RAG worker 收到未预期的任务状态：" (String.◌++◌ (state_text b.task_state) "。")))

unfoldable pub next_of : BatchRunResult → Next
unfolding next_of_error next_of_state
next_of b = if b.is_ok then next_of_state b else next_of_error b.error

abbrev pub batch_of : Option RagError → Option String
batch_of none = none
batch_of (some e) = e.batch_id

-- `_finish_run`
unfoldable pub finish_run :
    Bool → Option String → Option RagError → TaskRun → RagRunResult × TaskRun
finish_run is_ok task_state raised run =
    let kind = if is_ok then EventType.completed else EventType.failed in
    (
      record {
        is_ok = is_ok;
        task_id = run.task_id;
        task_state = task_state;
        summary = run.summary;
        error = raised;
      },
      publish kind (batch_of raised) none raised run,
    )

unfoldable pub finish_error : RagError → Option String → TaskRun → RagRunResult × TaskRun
unfolding finish_run
finish_error e task_state run = finish_run false task_state (some e) run

-- The end of a turn, or the turns behind it.
unfoldable pub after_batch :
    Next
    → Option String
    → TaskRun
    → Option (RagRunResult × TaskRun)
    → Option (RagRunResult × TaskRun)
unfolding finish_run finish_error worker_error
after_batch again task_state run rest = rest
after_batch succeed task_state run rest = some (finish_run true task_state none run)
after_batch (fail e) task_state run rest = some (finish_error e task_state run)
after_batch no_error task_state run rest =
    some (finish_error (worker_error "RAG_WORKER_CRASHED" "AssertionError") task_state run)

-- The loop, from the task state of the last batch; `none` while turns are still to come.
unfoldable pub work : List Turn → Option String → TaskRun → Option (RagRunResult × TaskRun)
unfolding acts next_of finish_error worker_error after_batch
work [] task_state run = none
work (cancelled done ∷ turns) task_state run = some (
    finish_error (worker_error "RAG_WORKER_CANCELLED" "RAG worker 已取消。") task_state (acts done run))
work (crashed done f ∷ turns) task_state run =
    some
      (finish_error (worker_error "RAG_WORKER_CRASHED" (failure_text f)) task_state (acts done run))
work (batch replies ∷ turns) task_state run =
    let done = run_once replies run in
    let rest = work turns done.0.task_state done.1 in
    after_batch (next_of done.0) done.0.task_state done.1 rest

-- `_run_task`
unfoldable pub run_task : List Turn → TaskRun → Option (RagRunResult × TaskRun)
unfolding work
run_task turns run = work turns none (publish EventType.started none none none run)
