-- ===== src/Indexing/Nodes.antt =====
-- app/llm/graph/workflows/task_indexing/nodes: what each node makes of the state. The percentages of
-- the progress display and the published progress events are left out.
use Prim.Native.String
use paper_collector_agent.Prelude.{
  ℕ, String, Bool, true, false, Option, none, some, if◌then◌else◌, is_empty,
}
use paper_collector_agent.Indexing.{
  TaskState, Fetch, Summary, RagStatus, StatusReply, unavailable, known, get_task_rag_status,
  is_rag_failed,
}

pub data Stage : Type 0 where
  checking_status indexing verifying completed failed timed_out : Stage

pub data Status : Type 0 where
  running completed failed timed_out : Status

pub record RagError : Type 0 where
  pub code : String
  pub message : String
  pub batch_id : Option String
  pub is_retryable : Bool

-- `RagRunResult`
pub record RagRunResult : Type 0 where
  pub is_ok : Bool
  pub task_id : ℕ
  pub task_state : Option String
  pub summary : Summary
  pub error : Option RagError

-- `TaskIndexingWorkflowState`; `none` is a missing key or an empty `dict`, and 0 a
-- missing number.
pub record State : Type 0 where
  pub task_id : ℕ
  pub timeout_seconds : ℕ
  pub poll_interval_seconds : ℕ
  pub remote_task_state : Option TaskState
  pub stage : Stage
  pub status : Status
  pub error_code : Option String
  pub error : Option String
  pub rag_status : Option RagStatus
  pub overall_summary : Option Summary
  pub committed_summary : Option Summary
  pub current_batch_summary : Option Summary
  pub worker_result : Option RagRunResult

unfoldable pub failure : String → String → State → State
failure code message state = record state {
  stage = Stage.failed;
  status = Status.failed;
  error_code = some code;
  error = some message;
}

-- `failure` with `timed_out=True`
unfoldable pub time_out : String → String → State → State
time_out code message state = record state {
  stage = Stage.timed_out;
  status = Status.timed_out;
  error_code = some code;
  error = some message;
}

unfoldable pub status_update : RagStatus → State → State
status_update s state = record state {
  rag_status = some s;
  remote_task_state = some s.task_status;
  overall_summary = some s.summary;
  committed_summary = some s.summary;
  current_batch_summary = none;
}

unfoldable pub proceed : Stage → Status → State → State
proceed stage status state = record state { stage = stage; status = status }

-- `str(error or default)`
unfoldable pub error_text : Option String → String → String
error_text none default = default
error_text (some e) default = if is_empty e then default else e

-- The delegation, as the validation of the call's arguments leaves it.
pub record Delegation : Type 0 where
  pub task_id : ℕ
  pub timeout_seconds : ℕ
  pub poll_interval_seconds : ℕ

-- The call that started the workflow: none, one without arguments, or what `model_validate` says.
pub data Request : Type 0 where
  no_call no_arguments : Request
  invalid : (reason : String) → Request
  valid : Delegation → Request

-- The state of a new run of the graph, in which only the keys of the caller are set.
unfoldable pub initialize_task_indexing_node : Request → State → State
unfolding failure
initialize_task_indexing_node (valid d) state = record {
  task_id = d.task_id;
  timeout_seconds = d.timeout_seconds;
  poll_interval_seconds = d.poll_interval_seconds;
  remote_task_state = state.remote_task_state;
  stage = Stage.checking_status;
  status = Status.running;
  error_code = none;
  error = none;
  rag_status = none;
  overall_summary = none;
  committed_summary = none;
  current_batch_summary = none;
  worker_result = none;
}
initialize_task_indexing_node (invalid reason) state =
    failure "INVALID_INDEXING_REQUEST" (String.◌++◌ "invalid task indexing request: " reason) state
initialize_task_indexing_node request state =
    failure "INVALID_INDEXING_REQUEST" "missing task indexing delegation" state

-- A complete index: usable, or without a usable paper.
unfoldable pub complete_index : RagStatus → State → State
unfolding failure proceed
complete_index s state =
    if s.can_generate_review
    then proceed Stage.completed Status.completed state
    else failure "RAG_NO_USABLE_CONTENT" "RAG 已完成，但没有可用于全文检索的论文。" state

-- `INDEXABLE_STATES`
abbrev pub is_indexable : TaskState → Bool
is_indexable TaskState.search_completed = true
is_indexable TaskState.rag_running = true
is_indexable _ = false

-- The first status, from the reply of the query.
unfoldable pub after_check : StatusReply → State → State
unfolding failure proceed status_update error_text complete_index
after_check (unavailable error) state =
    failure "RAG_STATUS_FAILED" (error_text error "RAG 状态查询失败。") state
after_check (known s) state =
    let updated = status_update s state in
    if s.is_rag_complete
    then complete_index s updated
    else if is_rag_failed s
    then failure "RAG_INDEX_FAILED" "RAG 索引已失败，无法保存到知识库。" updated
    else if is_indexable s.task_status
    then proceed Stage.indexing Status.running updated
    else failure "TASK_NOT_READY_FOR_RAG" "任务尚未完成论文检索，无法启动知识库索引。" updated

unfoldable pub check_task_rag_status_node : Fetch → State → State
unfolding after_check
check_task_rag_status_node fetch state = after_check (get_task_rag_status fetch) state

-- The last status, from the reply of the query.
unfoldable pub after_verify : StatusReply → State → State
unfolding failure status_update complete_index
after_verify (unavailable error) state = failure "RAG_STATUS_FAILED" "索引完成后无法确认 RAG 状态。" state
after_verify (known s) state =
    let updated = status_update s state in
    if s.is_rag_complete
    then complete_index s updated
    else if is_rag_failed s
    then failure "RAG_INDEX_FAILED" "RAG 索引失败。" updated
    else failure "RAG_NOT_COMPLETE" "RAG worker 已结束，但远端未确认索引完成。" updated

unfoldable pub verify_task_indexing_node : Fetch → State → State
unfolding after_verify
verify_task_indexing_node fetch state = after_verify (get_task_rag_status fetch) state
