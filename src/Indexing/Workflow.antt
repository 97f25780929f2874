-- ===== src/Indexing/Workflow.antt =====
-- app/llm/graph/workflows/task_indexing: `RunOrWaitTaskRagNode`, `finalize_task_indexing_node` and
-- the edges of `build_task_indexing_workflow`. The batch runner is outside this graph: what it
-- returns, and the events it sent, are inputs.
use Prim.Native.String
use paper_collector_agent.Prelude.{
  String, Bool, true, false, Option, none, some, List, ◌==◌, ◌=s◌, if◌then◌else◌, Result, ok, err,
  ◌>>=◌,
}
use paper_collector_agent.ChatLog.Ids.{decimal_text}
use paper_collector_agent.Indexing.{
  TaskState, Fetch, Summary, StatusReply, unavailable, known, Observation, get_task_rag_status,
  is_rag_failed, wait_for_rag_terminal_status,
}
use paper_collector_agent.Indexing.Nodes.{
  Stage, Status, RagRunResult, RagError, State, failure, time_out, status_update, proceed,
  error_text, Request, no_call, initialize_task_indexing_node, check_task_rag_status_node,
  verify_task_indexing_node,
}

-- What raises out of the graph, and `waiting` while the remote task is still watched.
pub data IndexingError : Type 0 where
  publication_error attribute_error runtime_error waiting : IndexingError

-- The last `RagProgressEvent`, in the parts that the node keeps.
pub record ProgressEvent : Type 0 where
  pub summary : Summary
  pub committed_summary : Summary
  pub batch_summary : Summary

-- How the wait for the batch runner ends.
pub data WorkerEnd : Type 0 where
  finished : RagRunResult → WorkerEnd
  late not_published : WorkerEnd

-- What the calls of the graph answer: `has_run` whether `get_active_run` finds a run, `at_timeout` the
-- status after a timeout of the wait, `observations` those of the wait for a remote task.
pub record Replies : Type 0 where
  pub first : Fetch
  pub has_run : Bool
  pub worker : WorkerEnd
  pub latest_event : Option ProgressEvent
  pub at_timeout : Fetch
  pub observations : List Observation
  pub last : Fetch

unfoldable pub event_update : Option ProgressEvent → State → State
event_update none state = state
event_update (some e) state = record state {
  overall_summary = some e.summary;
  committed_summary = some e.committed_summary;
  current_batch_summary = some e.batch_summary;
}

unfoldable pub keep_worker : RagRunResult → State → State
keep_worker result state = record state { worker_result = some result }

-- `except TimeoutError`: of the status only the summaries are kept when the wait has timed out.
unfoldable pub after_timeout : StatusReply → State → State
unfolding failure time_out status_update proceed
after_timeout (unavailable error) state =
    time_out "RAG_INDEX_TIMEOUT" "等待 RAG 索引完成超时，后台索引仍在继续。" state
after_timeout (known s) state =
    let updated = status_update s state in
    if is_rag_failed s
    then failure "RAG_INDEX_FAILED" "RAG 索引在等待超时边界已失败。" updated
    else if s.is_rag_complete
    then proceed Stage.verifying Status.running updated
    else time_out "RAG_INDEX_TIMEOUT" "等待 RAG 索引完成超时，后台索引仍在继续。" (record state {
      overall_summary = some s.summary;
      committed_summary = some s.summary;
      current_batch_summary = none;
    })

unfoldable pub after_error : Option RagError → State → Result IndexingError State
unfolding failure
after_error none state = err IndexingError.attribute_error
after_error (some e) state = ok (failure e.code e.message state)

unfoldable pub after_result :
    Option ProgressEvent → RagRunResult → State → Result IndexingError State
unfolding event_update keep_worker after_error proceed
after_result event result state =
    let updated = keep_worker result (event_update event state) in
    if result.is_ok
    then ok (proceed Stage.verifying Status.running updated)
    else after_error result.error updated

-- The wait for the batch runner, by its end.
unfoldable pub await_worker : WorkerEnd → Replies → State → Result IndexingError State
unfolding after_timeout after_result
await_worker (finished result) replies state = after_result replies.latest_event result state
await_worker late replies state = ok (after_timeout (get_task_rag_status replies.at_timeout) state)
await_worker not_published replies state = err IndexingError.publication_error

abbrev pub is_timeout : Option String → Bool
is_timeout none = false
is_timeout (some e) = e =s "RAG_INDEX_TIMEOUT"

-- The end of `_wait_for_remote_task`, from the reply of the wait.
unfoldable pub after_remote : StatusReply → State → State
unfolding failure time_out status_update proceed error_text
after_remote (unavailable error) state =
    let code = error_text error "RAG_STATUS_FAILED" in
    if is_timeout error
    then time_out code "等待远端 RAG 索引状态失败。" state
    else failure code "等待远端 RAG 索引状态失败。" state
after_remote (known s) state =
    let updated = status_update s state in
    if is_rag_failed s
    then failure "RAG_INDEX_FAILED" "远端 RAG 索引失败。" updated
    else proceed Stage.verifying Status.running updated

unfoldable pub wait_for_remote_task : Option StatusReply → State → Result IndexingError State
unfolding after_remote
wait_for_remote_task none state = err IndexingError.waiting
wait_for_remote_task (some reply) state = ok (after_remote reply state)

abbrev pub is_search_completed : Option TaskState → Bool
is_search_completed (some TaskState.search_completed) = true
is_search_completed _ = false

-- `RunOrWaitTaskRagNode.__call__`
unfoldable pub run_or_wait : Replies → State → Result IndexingError State
unfolding await_worker wait_for_remote_task
run_or_wait replies state =
    if is_search_completed state.remote_task_state
    then await_worker replies.worker replies state
    else if replies.has_run
    then await_worker replies.worker replies state
    else wait_for_remote_task (wait_for_rag_terminal_status replies.observations) state

abbrev pub is_at : Stage → Stage → Bool
is_at Stage.checking_status Stage.checking_status = true
is_at Stage.indexing Stage.indexing = true
is_at Stage.verifying Stage.verifying = true
is_at Stage.completed Stage.completed = true
is_at Stage.failed Stage.failed = true
is_at Stage.timed_out Stage.timed_out = true
is_at _ _ = false

-- The edges: each node is followed by the next one at the stage it expects, and by the final node
-- at any other.
unfoldable pub verify_edge : Replies → State → State
verify_edge replies state =
    if is_at state.stage Stage.verifying
    then verify_task_indexing_node replies.last state
    else state

unfoldable pub run_edge : Replies → State → Result IndexingError State
unfolding run_or_wait verify_edge
run_edge replies state =
    if is_at state.stage Stage.indexing
    then (run_or_wait replies state >>= (λ ran. ok (verify_edge replies ran)))
    else ok state

unfoldable pub check_edge : Replies → State → Result IndexingError State
unfolding run_edge
check_edge replies state =
    if is_at state.stage Stage.checking_status
    then run_edge replies (check_task_rag_status_node replies.first state)
    else ok state

-- The action result of the final node.
pub record ActionOutcome : Type 0 where
  pub is_success : Bool
  pub summary : String
  pub is_retryable : Bool
  pub error_code : Option String
  pub error_message : Option String
  pub state : State

unfoldable pub ready_text : Option Summary → String
ready_text none = "知识库索引完成：0 篇论文可用于全文检索。"
ready_text (some s) =
    let head = String.◌++◌ "知识库索引完成：" (String.◌++◌ (decimal_text s.ready) " 篇论文可用于全文检索。") in
    if s.skipped == 0
    then head
    else String.◌++◌ head (String.◌++◌ "已跳过 " (String.◌++◌ (decimal_text s.skipped) " 篇。"))

unfoldable pub finalize : State → ActionOutcome
unfolding ready_text
finalize state =
    if is_at state.stage Stage.completed
    then record {
      is_success = true;
      summary = ready_text state.overall_summary;
      is_retryable = false;
      error_code = none;
      error_message = none;
      state = state;
    }
    else record {
      is_success = false;
      summary = "知识库索引未完成。";
      is_retryable = is_at state.stage Stage.timed_out;
      error_code = some (error_text state.error_code "TASK_INDEXING_FAILED");
      error_message = state.error;
      state = state;
    }

unfoldable pub finalize_task_indexing_node : Request → State → Result IndexingError ActionOutcome
unfolding finalize
finalize_task_indexing_node no_call state = err IndexingError.runtime_error
finalize_task_indexing_node request state = ok (finalize state)

-- The graph, from the state in which it is started.
unfoldable pub index_task : Request → Replies → State → Result IndexingError ActionOutcome
unfolding check_edge finalize_task_indexing_node
index_task request replies state =
    check_edge replies (initialize_task_indexing_node request state)
    >>= finalize_task_indexing_node request
