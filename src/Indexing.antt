-- ===== src/Indexing.antt =====
-- The indexing of a task's papers. This file: app/rag/processing/task_rag_status.py, the status of a
-- task from the reply of the paper service, and the wait for a final one. `Nodes` and `Workflow` have
-- the graph of app/llm/graph/workflows/task_indexing.
pub mod Nodes
pub mod Workflow
pub mod Status
pub mod Outcome
pub mod Success
use paper_collector_agent.Prelude.{
  ℕ, ◌+◌, String, Bool, true, false, not, ◌&&◌, ◌||◌, Option, none, some, List, [], ◌∷◌, ltb, ◌==◌,
  if◌then◌else◌, length,
}

-- `TaskState`; `other` is any other text, the empty one included.
pub data TaskState : Type 0 where
  search_pending search_running search_completed search_failed search_partial_completed : TaskState
  cancelled rag_running rag_failed rag_completed other : TaskState

-- The `rag_status` of a paper.
pub data PaperStatus : Type 0 where
  pending indexing ready skipped failed other : PaperStatus

pub record Paper : Type 0 where
  pub rag_status : PaperStatus
  pub chunk_count : ℕ

-- The reply of `get_task_review_papers`: an error, or the state and the papers of the task.
pub data Fetch : Type 0 where
  refused : (error : Option String) → Fetch
  papers : TaskState → List Paper → Fetch

pub record Summary : Type 0 where
  pub total : ℕ
  pub pending : ℕ
  pub indexing : ℕ
  pub ready : ℕ
  pub skipped : ℕ
  pub failed : ℕ
  pub ready_chunks : ℕ

abbrev pub status_eq : PaperStatus → PaperStatus → Bool
status_eq PaperStatus.pending PaperStatus.pending = true
status_eq PaperStatus.indexing PaperStatus.indexing = true
status_eq PaperStatus.ready PaperStatus.ready = true
status_eq PaperStatus.skipped PaperStatus.skipped = true
status_eq PaperStatus.failed PaperStatus.failed = true
status_eq PaperStatus.other PaperStatus.other = true
status_eq _ _ = false

-- `counts[status]`
unfoldable pub count : PaperStatus → List Paper → ℕ
count status [] = 0
count status (p ∷ ps) =
    if status_eq p.rag_status status then count status ps + 1 else count status ps

unfoldable pub ready_chunks : List Paper → ℕ
ready_chunks [] = 0
ready_chunks (p ∷ ps) =
    if status_eq p.rag_status PaperStatus.ready
    then p.chunk_count + ready_chunks ps
    else ready_chunks ps

unfoldable pub summarize : List Paper → Summary
unfolding count ready_chunks
summarize ps = record {
  total = length ps;
  pending = count PaperStatus.pending ps;
  indexing = count PaperStatus.indexing ps;
  ready = count PaperStatus.ready ps;
  skipped = count PaperStatus.skipped ps;
  failed = count PaperStatus.failed ps;
  ready_chunks = ready_chunks ps;
}

abbrev pub is_completed_state : TaskState → Bool
is_completed_state TaskState.rag_completed = true
is_completed_state _ = false

-- `_FAILED_TASK_STATES`
abbrev pub is_failed_state : TaskState → Bool
is_failed_state TaskState.search_failed = true
is_failed_state TaskState.cancelled = true
is_failed_state TaskState.rag_failed = true
is_failed_state _ = false

-- `status["result"]`
pub record RagStatus : Type 0 where
  pub task_status : TaskState
  pub summary : Summary
  pub is_rag_complete : Bool
  pub can_generate_review : Bool

pub data StatusReply : Type 0 where
  unavailable : (error : Option String) → StatusReply
  known : RagStatus → StatusReply

unfoldable pub is_complete : TaskState → Summary → Bool
is_complete state s = is_completed_state state && s.pending == 0 && s.indexing == 0 && s.failed == 0

unfoldable pub rag_status : TaskState → Summary → RagStatus
unfolding is_complete
rag_status state s = record {
  task_status = state;
  summary = s;
  is_rag_complete = is_complete state s;
  can_generate_review = is_complete state s && not (s.ready == 0);
}

unfoldable pub get_task_rag_status : Fetch → StatusReply
unfolding summarize rag_status
get_task_rag_status (refused error) = unavailable error
get_task_rag_status (papers state ps) = known (rag_status state (summarize ps))

unfoldable pub is_rag_failed : RagStatus → Bool
is_rag_failed s = is_failed_state s.task_status || not (s.summary.failed == 0)

-- One turn of the wait: the reply, and whether the deadline has then passed.
pub record Observation : Type 0 where
  pub fetch : Fetch
  pub is_late : Bool

-- The result of one turn, or `none` where the loop sleeps and turns again.
unfoldable pub observe : StatusReply → Bool → Option StatusReply
unfolding is_rag_failed
observe (unavailable error) is_late = some (unavailable error)
observe (known s) is_late =
    if is_rag_failed s || s.is_rag_complete
    then some (known s)
    else if is_late
    then some (unavailable (some "RAG_INDEX_TIMEOUT"))
    else none

-- A turn that returns, or the turns behind it.
unfoldable pub or_later : Option StatusReply → Option StatusReply → Option StatusReply
or_later none rest = rest
or_later (some reply) rest = some reply

-- The wait over what it observes; `none` while it still waits.
unfoldable pub wait_for_rag_terminal_status : List Observation → Option StatusReply
unfolding observe or_later
wait_for_rag_terminal_status [] = none
wait_for_rag_terminal_status (o ∷ observations) =
    let rest = wait_for_rag_terminal_status observations in
    or_later (observe (get_task_rag_status o.fetch) o.is_late) rest
