-- ===== src/Runner/Counts.antt =====
-- The counts of a summary while the papers of a batch are indexed.
use mathlib.Core.Path.{subst}
use paper_collector_agent.Prelude.{
  ℕ, ◌+◌, ◌-◌, ◌≤◌, ◌≡◌, refl, ap, ◌∙◌, String, List, [], ◌∷◌, arith, length,
}
use paper_collector_agent.Indexing.{Summary}
use paper_collector_agent.Runner.{TaskRun, publish}
use paper_collector_agent.Processor.{PaperOutcome, PaperRagResult}
use paper_collector_agent.Runner.Batch.{
  Processed, finished, crashed, Reply, raised, refused, Completion, replied, Claim, BatchReplies,
  BatchRunResult, commit, summary_from_complete, tally, claimed_batch, claimed_summary, set_summary,
  on_paper_result, on_paper_results, claim_papers,
}
use paper_collector_agent.Runner.Once.{
  run_once, after_claim, after_papers, process_claim, complete_failed_claim, after_processing,
  complete_batch, chunks_if_ready, new_chunks,
}

-- The papers that a summary counts as being indexed or done, and all that it counts.
abbrev pub taken : Summary → ℕ
taken s = s.indexing + s.ready + s.skipped + s.failed

abbrev pub counted : Summary → ℕ
counted s = s.pending + taken s

-- The summaries after `count` results, whose ready papers have `chunks` chunks; `start` is the
-- summary of the run before the batch.
pub record IsCounted (size count chunks : ℕ) (start : Summary) (batch now : Summary) : Type 0 where
  pub batch_total : batch.total ≡ size
  pub batch_taken : taken batch ≡ size
  pub batch_left : batch.indexing + count ≡ size
  pub batch_chunks : batch.ready_chunks ≡ chunks
  pub run_counted : counted now ≡ counted start
  pub run_left : size ≤ now.indexing + count
  pub run_chunks : now.ready_chunks ≡ start.ready_chunks + chunks

-- A result is counted once, and the papers still being indexed stay.
tally_lem :
    (status : PaperOutcome) (new : ℕ) (s : Summary)
    → ((tally status new s).total ≡ s.total)
      × ((tally status new s).pending ≡ s.pending)
      × ((tally status new s).indexing ≡ s.indexing)
      × (taken (tally status new s) ≡ taken s + 1)
      × ((tally status new s).ready_chunks ≡ s.ready_chunks + chunks_if_ready status new)
unfolding tally
tally_lem PaperOutcome.ready new s = (refl, refl, refl, omega arith, refl)
tally_lem PaperOutcome.skipped new s = (refl, refl, refl, omega arith, omega arith)
tally_lem PaperOutcome.failed new s = (refl, refl, refl, omega arith, omega arith)

tally-IsCounted :
    (size count chunks : ℕ) (start : Summary) (status : PaperOutcome) (new : ℕ)
    (batch now : Summary)
    → count + 1 ≤ size
    → IsCounted size count chunks start batch now
    → IsCounted size
        (count + 1)
        (chunks + chunks_if_ready status new)
        start
        (tally status new (record batch { indexing = size - (count + 1) }))
        (tally status new (record now { indexing = now.indexing - 1 }))
tally-IsCounted size count chunks start status new batch now few h =
    let (total, pending, indexing, one, more) =
      tally_lem status new (record batch { indexing = size - (count + 1) }) in
    let (total', pending', indexing', one', more') =
      tally_lem status new (record now { indexing = now.indexing - 1 }) in
    let a = h.batch_total in
    let b = h.batch_taken in
    let c = h.batch_left in
    let d = h.batch_chunks in
    let e = h.run_counted in
    let f = h.run_left in
    let g = h.run_chunks in
    record {
      batch_total = omega arith;
      batch_taken = omega arith;
      batch_left = omega arith;
      batch_chunks = omega arith;
      run_counted = omega arith;
      run_left = omega arith;
      run_chunks = omega arith;
    }

at :
    {size count count' chunks chunks' : ℕ} {start batch now : Summary}
    → count ≡ count'
    → chunks ≡ chunks'
    → IsCounted size count chunks start batch now
    → IsCounted size count' chunks' start batch now
at {size} {count} {count'} {chunks} {chunks'} {start} {batch} {now} e f h =
    subst (λ n. IsCounted size n chunks' start batch now) e
      (subst (λ n. IsCounted size count n start batch now) f h)

on_paper_results-IsCounted :
    (id : String) (size : ℕ) (start : Summary) (items : List PaperRagResult) (count chunks : ℕ)
    (batch : Summary) (run : TaskRun)
    → count + length items ≤ size
    → IsCounted size count chunks start batch run.summary
    → let after = on_paper_results id size items (count, batch, run) in
      IsCounted size
        (count + length items)
        (chunks + new_chunks items)
        start
        after.1
        after.2.summary
unfolding on_paper_results on_paper_result new_chunks set_summary publish
on_paper_results-IsCounted id size start [] count chunks batch run few h =
    at (omega arith) (omega arith) h
on_paper_results-IsCounted id size start (item ∷ items) count chunks batch run few h =
    let state = on_paper_result id size item (count, batch, run) in
    at (omega arith) (omega arith) (
      on_paper_results-IsCounted id size start items (count + 1)
        (chunks + chunks_if_ready item.status item.chunk_count) state.1 state.2 (omega (arith, few))
        (tally-IsCounted size count chunks start item.status item.chunk_count batch run.summary
          (omega (arith, few)) h))

-- A batch of `size` papers, all of them pending before, whose results are reported one by one, no
-- more than there are papers. Every event shows summaries that add up: the summary of the batch
-- counts its papers, and that of the run counts as many as before the claim.
pub on_paper_results_lem :
    (id : String) (size : ℕ) (items : List PaperRagResult) (run : TaskRun)
    → length items ≤ size
    → size ≤ run.summary.pending
    → let after =
        on_paper_results id size items (0, claimed_batch size, claim_papers id size run) in
      IsCounted size (length items) (new_chunks items) run.summary after.1 after.2.summary
unfolding claim_papers claimed_batch claimed_summary set_summary publish
on_paper_results_lem id size items run few waiting = at (omega arith) (omega arith) (
    on_paper_results-IsCounted id size run.summary items 0 0 (claimed_batch size)
      (claim_papers id size run) (omega arith)
      (record {
        batch_total = refl;
        batch_taken = omega arith;
        batch_left = omega arith;
        batch_chunks = refl;
        run_counted = omega arith;
        run_left = omega arith;
        run_chunks = omega arith;
      }))

on_paper_results-committed :
    (id : String) (size : ℕ) (items : List PaperRagResult) (state : ℕ × Summary × TaskRun)
    → (on_paper_results id size items state).2.committed_summary ≡ state.2.committed_summary
unfolding on_paper_results on_paper_result set_summary publish
on_paper_results-committed id size [] state = refl
on_paper_results-committed id size (item ∷ items) state =
    on_paper_results-committed id size items (on_paper_result id size item state)

-- The chunks that a batch commits: those of the list that the processor returned, if the service
-- took it.
abbrev returned_chunks : Processed → Reply Completion → ℕ
returned_chunks (finished results) (replied c) = new_chunks results
returned_chunks _ _ = 0

abbrev chunks_of_papers : List ℕ → BatchReplies → ℕ
chunks_of_papers [] replies = 0
chunks_of_papers (id ∷ ids) replies = returned_chunks replies.processed replies.completion

abbrev chunks_of_claim : Reply Claim → BatchReplies → ℕ
chunks_of_claim (replied claim) replies = chunks_of_papers claim.papers replies
chunks_of_claim _ replies = 0

abbrev pub committed_chunks : BatchReplies → ℕ
committed_chunks replies = chunks_of_claim replies.claim replies

abbrev HasCommitted : ℕ → BatchRunResult × TaskRun → Type 0
HasCommitted n (result, run) = run.committed_summary.ready_chunks ≡ n

after_processing-chunks :
    (processed : Processed) (reply : Reply Completion) (replies : BatchReplies) (claim : Claim)
    (batch : Summary) (run : TaskRun)
    → replies.completion ≡ reply
    → HasCommitted
        (run.committed_summary.ready_chunks + returned_chunks processed reply)
        (after_processing processed replies claim batch run)
unfolding after_processing complete_batch complete_failed_claim commit publish summary_from_complete
after_processing-chunks (crashed f) (raised g) replies claim batch run e = rw e (omega arith)
after_processing-chunks (crashed f) (refused g) replies claim batch run e = rw e (omega arith)
after_processing-chunks (crashed f) (replied c) replies claim batch run e = rw e (omega arith)
after_processing-chunks (finished l) (raised g) replies claim batch run e = rw e (omega arith)
after_processing-chunks (finished l) (refused g) replies claim batch run e = rw e (omega arith)
after_processing-chunks (finished l) (replied c) replies claim batch run e = rw e (omega arith)

process_claim-chunks :
    (replies : BatchReplies) (claim : Claim) (run : TaskRun)
    → HasCommitted
        (run.committed_summary.ready_chunks + returned_chunks replies.processed replies.completion)
        (process_claim replies claim run)
unfolding process_claim claim_papers set_summary publish
process_claim-chunks replies claim run =
    let size = length claim.papers in
    let start : ℕ × Summary × TaskRun =
      (0, claimed_batch size, claim_papers replies.batch_id size run) in
    let before = on_paper_results replies.batch_id size replies.reported start in
    let kept = on_paper_results-committed replies.batch_id size replies.reported start in
    after_processing-chunks replies.processed replies.completion replies claim before.1 before.2
      refl
    ∙ ap (λ s. s.ready_chunks + returned_chunks replies.processed replies.completion) kept

after_papers-chunks :
    (papers : List ℕ) (replies : BatchReplies) (claim : Claim) (run : TaskRun)
    → HasCommitted
        (run.committed_summary.ready_chunks + chunks_of_papers papers replies)
        (after_papers papers replies claim run)
unfolding after_papers
after_papers-chunks [] replies claim run = omega arith
after_papers-chunks (id ∷ ids) replies claim run = process_claim-chunks replies claim run

after_claim-chunks :
    (claim : Reply Claim) (replies : BatchReplies) (run : TaskRun)
    → HasCommitted
        (run.committed_summary.ready_chunks + chunks_of_claim claim replies)
        (after_claim claim replies run)
unfolding after_claim
after_claim-chunks (raised f) replies run = omega arith
after_claim-chunks (refused e) replies run = omega arith
after_claim-chunks (replied claim) replies run = after_papers-chunks claim.papers replies claim run

-- On every branch of a batch, the chunks that the committed summary counts grow by those of the ready
-- papers in the list that the processor returned, once, if papers were claimed and the service took
-- the list, and by none otherwise; the results that were reported before do not count twice.
pub run_once-chunks :
    (replies : BatchReplies) (run : TaskRun)
    → let after = (run_once replies run).1 in
      after.committed_summary.ready_chunks
      ≡ run.committed_summary.ready_chunks + committed_chunks replies
unfolding run_once
run_once-chunks replies run = after_claim-chunks replies.claim replies run
