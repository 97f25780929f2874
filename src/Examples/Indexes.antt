-- ===== src/Examples/Indexes.antt =====
-- Concrete tasks and runs of the indexing workflow.
use paper_collector_agent.Prelude.{
  ◌≡◌, ◌≢◌, ◌⊎◌, refl, inl, true, false, ◌&&◌, none, some, List, [], ◌∷◌, any, all, ok,
}
use paper_collector_agent.Indexing.{
  TaskState, Paper, PaperStatus, papers, refused, Observation, StatusReply, summarize, rag_status,
  is_completed_state, wait_for_rag_terminal_status,
}
use paper_collector_agent.Indexing.Status.{
  is_done, is_ready, IsFinal, can_generate_review_iff, wait_for_rag_terminal_status_lem,
}
use paper_collector_agent.Indexing.Nodes.{Stage, Status, State, Request, valid, no_call}
use paper_collector_agent.Indexing.Workflow.{Replies, finished, ActionOutcome, is_at, index_task}
use paper_collector_agent.Indexing.Outcome.{IsUsable, is_over}
use paper_collector_agent.Indexing.Success.{index_task_lem}

abbrev pub two_papers : List Paper
two_papers =
    record { rag_status = PaperStatus.ready; chunk_count = 12 }
    ∷ record { rag_status = PaperStatus.skipped; chunk_count = 0 }
    ∷ []

can_generate_review_iff_example :
    (rag_status TaskState.rag_completed (summarize two_papers)).can_generate_review ≡ (
      is_completed_state TaskState.rag_completed
      && all is_done two_papers
      && any is_ready two_papers)
can_generate_review_iff_example = can_generate_review_iff TaskState.rag_completed two_papers

-- The remote task is seen running, and then at the deadline.
abbrev pub seen : List Observation
seen =
    record { fetch = papers TaskState.rag_running two_papers; is_late = false }
    ∷ record { fetch = papers TaskState.rag_completed two_papers; is_late = true }
    ∷ []

wait_for_rag_terminal_status_lem_example :
    (final : StatusReply) × (wait_for_rag_terminal_status seen ≡ some final) × IsFinal final
wait_for_rag_terminal_status_lem_example = wait_for_rag_terminal_status_lem seen refl

abbrev pub request : Request
request = valid (record { task_id = 3; timeout_seconds = 600; poll_interval_seconds = 5 })

abbrev replies : Replies
replies = record {
  first = papers TaskState.search_completed two_papers;
  has_run = false;
  worker = finished (record {
    is_ok = true;
    task_id = 3;
    task_state = some "RAG_COMPLETED";
    summary = summarize two_papers;
    error = none;
  });
  latest_event = none;
  at_timeout = refused none;
  observations = seen;
  last = papers TaskState.rag_completed two_papers;
}

abbrev pub fresh_state : State
fresh_state = record {
  task_id = 0;
  timeout_seconds = 0;
  poll_interval_seconds = 0;
  remote_task_state = none;
  stage = Stage.checking_status;
  status = Status.running;
  error_code = none;
  error = none;
  rag_status = none;
  overall_summary = none;
  committed_summary = none;
  current_batch_summary = none;
  worker_result = none;
}

pub request-called : request ≢ no_call
request-called h = cc

index_task_lem_example :
    (outcome : ActionOutcome) × (index_task request replies fresh_state ≡ ok outcome)
    × (is_over outcome.state.stage ≡ true)
    × (outcome.is_success ≡ true → IsUsable replies.first ⊎ IsUsable replies.last)
    × (outcome.is_retryable ≡ is_at outcome.state.stage Stage.timed_out)
index_task_lem_example = index_task_lem request replies fresh_state request-called (inl refl) refl
