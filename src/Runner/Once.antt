-- ===== src/Runner/Once.antt =====
-- app/rag/processing/task_rag_batch_runner.py: `_run_once` and `_complete_failed_claim`, one batch of
-- papers from its claim to the reply to its results.
use Prim.Native.String
use paper_collector_agent.Prelude.{
  ℕ, ◌+◌, String, Bool, true, false, not, ◌||◌, none, some, List, [], ◌∷◌, ◌==◌, length, any,
}
use paper_collector_agent.Indexing.{Summary}
use paper_collector_agent.Indexing.Nodes.{error_text}
use paper_collector_agent.Runner.{TaskRun, empty_summary}
use paper_collector_agent.Processor.{PaperOutcome, PaperRagResult}
use paper_collector_agent.Runner.Batch.{
  BatchReplies, BatchRunResult, Claim, Completion, Processed, Reply, batch_failure, claim_papers,
  claimed_batch, commit, crashed, failure_text, finished, on_paper_results, raised, refused,
  replied, summary_from_complete,
}

abbrev pub is_failed_outcome : PaperOutcome → Bool
is_failed_outcome PaperOutcome.failed = true
is_failed_outcome _ = false

-- `item.chunk_count` if `item.status == "ready"`
abbrev pub chunks_if_ready : PaperOutcome → ℕ → ℕ
chunks_if_ready PaperOutcome.ready chunks = chunks
chunks_if_ready _ chunks = 0

-- The chunks of the ready papers.
unfoldable pub new_chunks : List PaperRagResult → ℕ
new_chunks [] = 0
new_chunks (item ∷ items) = chunks_if_ready item.status item.chunk_count + new_chunks items

-- The end of a batch that was processed, from the reply to its results.
unfoldable pub complete_batch :
    String
    → Claim
    → List PaperRagResult
    → Summary
    → Reply Completion
    → TaskRun
    → BatchRunResult × TaskRun
unfolding batch_failure failure_text error_text summary_from_complete new_chunks commit
complete_batch batch_id claim results batch (raised f) run = (
  batch_failure "RAG_BATCH_COMPLETE_FAILED" (failure_text f) batch_id (length claim.papers)
      (some (error_text claim.task_state "")) run.summary,
  run,
)
complete_batch batch_id claim results batch (refused e) run = (
  batch_failure "RAG_BATCH_COMPLETE_FAILED" (error_text e "Complete task RAG batch failed") batch_id
      (length claim.papers) (some (error_text claim.task_state "")) run.summary,
  run,
)
complete_batch batch_id claim results batch (replied c) run =
    let summary =
      summary_from_complete c (run.committed_summary.ready_chunks + new_chunks results) in
    (
      record {
        is_ok = true;
        claimed_count = claim.claimed_count;
        task_state = some c.task_state;
        summary = summary;
        error = none;
        has_failed_papers =
            any (λ item. is_failed_outcome item.status) results || not (summary.failed == 0);
      },
      commit batch_id summary batch run,
    )

-- `_complete_failed_claim`, from the reply to the results, all of them failed.
unfoldable pub complete_failed_claim :
    String → ℕ → String → Reply Completion → TaskRun → BatchRunResult × TaskRun
unfolding batch_failure error_text summary_from_complete commit
complete_failed_claim batch_id size message (raised f) run = (
  batch_failure "RAG_BATCH_COMPLETE_FAILED"
      (String.◌++◌ "RAG 处理失败：" (String.◌++◌ message (String.◌++◌ "；失败结果回写异常：" f.message))) batch_id
      size none run.summary,
  run,
)
complete_failed_claim batch_id size message (refused e) run = (
  batch_failure "RAG_BATCH_COMPLETE_FAILED"
      (String.◌++◌ "RAG 处理失败："
        (String.◌++◌ message (String.◌++◌ "；失败结果回写失败：" (error_text e "unknown error"))))
      batch_id size none run.summary,
  run,
)
complete_failed_claim batch_id size message (replied c) run =
    let summary = summary_from_complete c run.committed_summary.ready_chunks in
    (
      batch_failure "RAG_PROCESSING_FAILED" (String.◌++◌ "RAG 解析或索引失败：" message) batch_id size
          (some c.task_state) summary,
      commit batch_id summary (record empty_summary { total = size; failed = size }) run,
    )

-- What follows the processing of the claimed papers.
unfoldable pub after_processing :
    Processed → BatchReplies → Claim → Summary → TaskRun → BatchRunResult × TaskRun
unfolding complete_batch complete_failed_claim failure_text
after_processing (crashed f) replies claim batch run =
    complete_failed_claim replies.batch_id (length claim.papers) (failure_text f) replies.completion
      run
after_processing (finished results) replies claim batch run =
    complete_batch replies.batch_id claim results batch replies.completion run

-- The claimed papers are processed; each reported result is counted.
unfoldable pub process_claim : BatchReplies → Claim → TaskRun → BatchRunResult × TaskRun
unfolding claim_papers on_paper_results after_processing claimed_batch
process_claim replies claim run =
    let size = length claim.papers in
    let (count, batch, run') =
      on_paper_results replies.batch_id size replies.reported
        (0, claimed_batch size, claim_papers replies.batch_id size run) in
    after_processing replies.processed replies claim batch run'

-- A claim, by its papers.
unfoldable pub after_papers : List ℕ → BatchReplies → Claim → TaskRun → BatchRunResult × TaskRun
unfolding error_text process_claim
after_papers [] replies claim run = (
  record {
    is_ok = true;
    claimed_count = 0;
    task_state = some (error_text claim.task_state "");
    summary = run.summary;
    error = none;
    has_failed_papers = false;
  },
  run,
)
after_papers (id ∷ ids) replies claim run = process_claim replies claim run

unfoldable pub after_claim : Reply Claim → BatchReplies → TaskRun → BatchRunResult × TaskRun
unfolding batch_failure failure_text error_text after_papers
after_claim (raised f) replies run =
    (batch_failure "RAG_CLAIM_FAILED" (failure_text f) replies.batch_id 0 none run.summary, run)
after_claim (refused e) replies run = (
  batch_failure "RAG_CLAIM_FAILED" (error_text e "Claim task RAG papers failed") replies.batch_id 0
      none run.summary,
  run,
)
after_claim (replied claim) replies run = after_papers claim.papers replies claim run

-- `_run_once`
unfoldable pub run_once : BatchReplies → TaskRun → BatchRunResult × TaskRun
unfolding after_claim
run_once replies run = after_claim replies.claim replies run
