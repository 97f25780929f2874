-- ===== src/Runner/Batch.antt =====
-- app/rag/processing/task_rag_batch_runner.py: the data of a batch of papers, and how `_run_once` counts
-- the results that the processor reports. The calls of the service and of the processor answer through
-- `BatchReplies`.
use paper_collector_agent.Prelude.{
  ℕ, ◌+◌, ◌-◌, String, Bool, false, Option, none, some, List, [], ◌∷◌, ◌==◌, if◌then◌else◌,
  is_empty,
}
use paper_collector_agent.Indexing.{Summary}
use paper_collector_agent.Indexing.Nodes.{RagError}
use paper_collector_agent.Processor.{PaperOutcome, PaperRagResult}
use paper_collector_agent.Runner.{TaskRun, EventType, empty_summary, publish}

-- An exception, by its text and the name of its class.
pub record Failure : Type 0 where
  pub message : String
  pub class_name : String

-- `str(exc) or exc.__class__.__name__`
unfoldable pub failure_text : Failure → String
failure_text f = if is_empty f.message then f.class_name else f.message

-- A reply of the service: an exception, an error, or a result.
pub data Reply (A : Type 0) : Type 0 where
  raised : Failure → Reply A
  refused : (error : Option String) → Reply A
  replied : A → Reply A

pub record Claim : Type 0 where
  pub claimed_count : ℕ
  pub papers : List ℕ
  pub task_state : Option String

pub record Completion : Type 0 where
  pub total_count : ℕ
  pub pending_count : ℕ
  pub indexing_count : ℕ
  pub ready_count : ℕ
  pub skipped_count : ℕ
  pub failed_count : ℕ
  pub task_state : String

-- What the processor does with the batch: the results that it reports one by one, and then the list
-- that it returns, or an exception.
pub data Processed : Type 0 where
  crashed : Failure → Processed
  finished : List PaperRagResult → Processed

pub record BatchReplies : Type 0 where
  pub batch_id : String
  pub claim : Reply Claim
  pub reported : List PaperRagResult
  pub processed : Processed
  pub completion : Reply Completion

-- `_BatchRunResult`
pub record BatchRunResult : Type 0 where
  pub is_ok : Bool
  pub claimed_count : ℕ
  pub task_state : Option String
  pub summary : Summary
  pub error : Option RagError
  pub has_failed_papers : Bool

unfoldable pub batch_failure :
    String → String → String → ℕ → Option String → Summary → BatchRunResult
batch_failure code message batch_id claimed_count task_state summary = record {
  is_ok = false;
  claimed_count = claimed_count;
  task_state = task_state;
  summary = summary;
  error =
      some
        record { code = code; message = message; batch_id = some batch_id; is_retryable = false };
  has_failed_papers = false;
}

unfoldable pub summary_from_complete : Completion → ℕ → Summary
summary_from_complete c ready_chunks = record {
  total = c.total_count;
  pending = c.pending_count;
  indexing = c.indexing_count;
  ready = c.ready_count;
  skipped = c.skipped_count;
  failed = c.failed_count;
  ready_chunks = ready_chunks;
}

-- `summary[item.status] += 1`, and the chunks of a ready paper.
unfoldable pub tally : PaperOutcome → ℕ → Summary → Summary
tally PaperOutcome.ready chunks s = record s {
  ready = s.ready + 1;
  ready_chunks = s.ready_chunks + chunks;
}
tally PaperOutcome.skipped chunks s = record s { skipped = s.skipped + 1 }
tally PaperOutcome.failed chunks s = record s { failed = s.failed + 1 }

-- The summaries when `size` papers are claimed.
unfoldable pub claimed_batch : ℕ → Summary
claimed_batch size = record empty_summary { total = size; indexing = size }

unfoldable pub claimed_summary : ℕ → Summary → Summary
claimed_summary size s = record s {
  total = if s.total == 0 then size else s.total;
  pending = s.pending - size;
  indexing = s.indexing + size;
}

unfoldable pub set_summary : Summary → TaskRun → TaskRun
set_summary s run = record run { summary = s }

-- `on_paper_result`, with the count of the results and the summary of the batch.
unfoldable pub on_paper_result :
    String → ℕ → PaperRagResult → ℕ × Summary × TaskRun → ℕ × Summary × TaskRun
unfolding tally set_summary
on_paper_result batch_id size item (count, batch, run) =
    let left = record batch { indexing = size - (count + 1) } in
    let tallied = tally item.status item.chunk_count left in
    let moved = record run.summary { indexing = run.summary.indexing - 1 } in
    let counted = set_summary (tally item.status item.chunk_count moved) run in
    (count + 1, tallied, publish EventType.processing (some batch_id) (some tallied) none counted)

unfoldable pub on_paper_results :
    String → ℕ → List PaperRagResult → ℕ × Summary × TaskRun → ℕ × Summary × TaskRun
unfolding on_paper_result
on_paper_results batch_id size [] state = state
on_paper_results batch_id size (item ∷ items) state =
    on_paper_results batch_id size items (on_paper_result batch_id size item state)

-- The run when a batch is claimed.
unfoldable pub claim_papers : String → ℕ → TaskRun → TaskRun
unfolding claimed_batch claimed_summary set_summary
claim_papers batch_id size run =
    publish EventType.claimed (some batch_id) (some (claimed_batch size)) none
      (set_summary (claimed_summary size run.summary) run)

unfoldable pub commit : String → Summary → Summary → TaskRun → TaskRun
commit batch_id summary batch run =
    publish EventType.batch_committed (some batch_id) (some batch) none
      (record run { summary = summary; committed_summary = summary })
