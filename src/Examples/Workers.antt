-- ===== src/Examples/Workers.antt =====
-- Concrete workers, batches and calls of the batch runner.
use paper_collector_agent.Prelude.{
  ℕ, ◌+◌, ◌≡◌, ◌≢◌, ◌⊎◌, refl, true, false, none, some, List, [], ◌∷◌, ok, arith,
}
use paper_collector_agent.Indexing.{TaskState, Summary, papers, refused}
use paper_collector_agent.Indexing.Nodes.{Stage, RagRunResult}
use paper_collector_agent.Indexing.Workflow.{Replies, ActionOutcome, is_at, index_task}
use paper_collector_agent.Indexing.Outcome.{IsUsable, is_over}
use paper_collector_agent.Examples.Indexes.{two_papers, seen, request, fresh_state, request-called}
use paper_collector_agent.Runner.{
  EventType, TaskRun, publish, new_event, normalize_summary, empty_summary, new_run, new_runner,
  start_or_join,
}
use paper_collector_agent.Processor.{PaperOutcome, PaperRagResult}
use paper_collector_agent.Runner.Batch.{
  Claim, Completion, BatchReplies, Processed, replied, claimed_batch, claim_papers,
  on_paper_results, claimed_summary, on_paper_result, set_summary, commit, summary_from_complete,
  tally,
}
use paper_collector_agent.Runner.Once.{
  new_chunks, process_claim, run_once, after_claim, after_papers, after_processing, complete_batch,
}
use paper_collector_agent.Runner.Worker.{
  Turn, batch, cancelled, no_error, next_of, next_of_state, finish_run, work, after_batch, run_task,
  is_state,
}
use paper_collector_agent.Runner.Ends.{IsExplained, run_task_lem, run_once_lem}
use paper_collector_agent.Runner.Termination.{run_task-ends}
use paper_collector_agent.Runner.Registry.{start_or_join-again}
use paper_collector_agent.Runner.Counts.{
  IsCounted, on_paper_results_lem, run_once-chunks, committed_chunks,
}
use paper_collector_agent.Runner.Reports.{worker_end, index_task-run_task}

abbrev waiting : Summary
waiting = record empty_summary { total = 3; pending = 3 }

abbrev worker_run : TaskRun
worker_run = new_run 7 (some waiting) 0

abbrev ready_paper : ℕ → ℕ → PaperRagResult
ready_paper id chunks = record {
  paper_id = id;
  status = PaperOutcome.ready;
  chunk_count = chunks;
  error = none;
}

abbrev no_source : ℕ → PaperRagResult
no_source id = record {
  paper_id = id;
  status = PaperOutcome.skipped;
  chunk_count = 0;
  error = some "missing PDF source";
}

abbrev two_results : List PaperRagResult
two_results = ready_paper 1 12 ∷ no_source 2 ∷ []

abbrev claim_of_two : Claim
claim_of_two = record { claimed_count = 2; papers = 1 ∷ 2 ∷ []; task_state = some "RAG_RUNNING" }

abbrev first_completion : Completion
first_completion = record {
  total_count = 3;
  pending_count = 1;
  indexing_count = 0;
  ready_count = 1;
  skipped_count = 1;
  failed_count = 0;
  task_state = "RAG_RUNNING";
}

abbrev first_batch : BatchReplies
first_batch = record {
  batch_id = "b1";
  claim = replied claim_of_two;
  reported = two_results;
  processed = Processed.finished two_results;
  completion = replied first_completion;
}

abbrev last_batch : BatchReplies
last_batch = record {
  batch_id = "b2";
  claim = replied (record { claimed_count = 1; papers = 3 ∷ []; task_state = some "RAG_RUNNING" });
  reported = ready_paper 3 5 ∷ [];
  processed = Processed.finished (ready_paper 3 5 ∷ []);
  completion = replied (record first_completion {
    pending_count = 0;
    ready_count = 2;
    task_state = "RAG_COMPLETED";
  });
}

abbrev two_turns : List Turn
two_turns = batch first_batch ∷ batch last_batch ∷ []

abbrev four_turns : List Turn
four_turns = batch first_batch ∷ batch last_batch ∷ cancelled [] ∷ cancelled [] ∷ []

run_task-ends_example : run_task four_turns worker_run ≢ none
run_task-ends_example = run_task-ends four_turns worker_run (omega arith)

start_or_join-again_example :
    let first = start_or_join 7 (some waiting) true new_runner in
    let second = start_or_join 7 none true first.1 in
    (second.0.key ≡ first.0.key)
    × (second.0.is_started ≡ false)
    × (second.1.next_key ≡ first.1.next_key)
start_or_join-again_example = start_or_join-again 7 (some waiting) none true true new_runner

run_once_lem_example : next_of (run_once first_batch worker_run).0 ≢ no_error
run_once_lem_example = run_once_lem first_batch worker_run

abbrev started_run : TaskRun
started_run = publish EventType.started none none none worker_run

abbrev worked_run : TaskRun
worked_run = (run_once last_batch (run_once first_batch started_run).1).1

abbrev ended : RagRunResult × TaskRun
ended = finish_run true (some "RAG_COMPLETED") none worked_run

two_turns_end : run_task two_turns worker_run ≡ some ended
unfolding run_task work after_batch next_of next_of_state run_once after_claim after_papers
    process_claim after_processing complete_batch claim_papers claimed_batch claimed_summary
    on_paper_results on_paper_result publish new_event set_summary commit summary_from_complete
    tally finish_run normalize_summary
two_turns_end = refl

run_task_lem_example :
    IsExplained ended.0.is_ok ended.0.error
    × (ended.0.is_ok ≡ true → is_state ended.0.task_state "RAG_COMPLETED" ≡ true)
run_task_lem_example = run_task_lem two_turns worker_run ended.1 ended.0 two_turns_end

on_paper_results_lem_example :
    let after =
      on_paper_results "b1" 2 two_results (0, claimed_batch 2, claim_papers "b1" 2 worker_run) in
    IsCounted 2 2 (new_chunks two_results) waiting after.1 after.2.summary
unfolding new_run
on_paper_results_lem_example =
    on_paper_results_lem "b1" 2 two_results worker_run (omega arith) (omega arith)

run_once-chunks_example :
    let after = (run_once first_batch worker_run).1 in
    after.committed_summary.ready_chunks
    ≡ worker_run.committed_summary.ready_chunks + committed_chunks first_batch
run_once-chunks_example = run_once-chunks first_batch worker_run

abbrev replies : Replies
replies = record {
  first = papers TaskState.search_completed two_papers;
  has_run = false;
  worker = worker_end (run_task two_turns worker_run);
  latest_event = none;
  at_timeout = refused none;
  observations = seen;
  last = papers TaskState.rag_completed two_papers;
}

index_task-run_task_example :
    (outcome : ActionOutcome) × (index_task request replies fresh_state ≡ ok outcome)
    × (is_over outcome.state.stage ≡ true)
    × (outcome.is_success ≡ true → IsUsable replies.first ⊎ IsUsable replies.last)
    × (outcome.is_retryable ≡ is_at outcome.state.stage Stage.timed_out)
index_task-run_task_example =
    index_task-run_task request replies fresh_state two_turns worker_run request-called refl refl
