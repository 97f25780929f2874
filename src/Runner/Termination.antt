-- ===== src/Runner/Termination.antt =====
-- When the worker of a task ends.
use paper_collector_agent.Prelude.{
  ℕ, ◌+◌, ◌<◌, ◌≤◌, ◌≡◌, ◌≢◌, true, Option, none, List, [], ◌∷◌, arith, String, length,
}
use paper_collector_agent.Runner.Ends.{Fits, next_of-Fits}
use paper_collector_agent.Indexing.{Summary}
use paper_collector_agent.Indexing.Nodes.{RagRunResult}
use paper_collector_agent.Runner.{TaskRun}
use paper_collector_agent.Processor.{PaperRagResult}
use paper_collector_agent.Runner.Batch.{
  BatchReplies, BatchRunResult, Reply, raised, refused, replied, Claim, Completion, Processed,
  crashed, finished, batch_failure,
}
use paper_collector_agent.Runner.Once.{
  run_once, after_claim, after_papers, process_claim, after_processing, complete_batch,
  complete_failed_claim,
}
use paper_collector_agent.Runner.Worker.{
  Turn, batch, cancelled, Next, again, succeed, fail, no_error, next_of, after_batch, work,
  run_task,
}

-- The papers that a claim hands out.
abbrev pub claimed_of : Reply Claim → ℕ
claimed_of (replied claim) = claim.claimed_count
claimed_of _ = 0

abbrev pub claimed_by : Turn → ℕ
claimed_by (batch replies) = claimed_of replies.claim
claimed_by _ = 0

abbrev pub all_claimed : List Turn → ℕ
all_claimed [] = 0
all_claimed (turn ∷ turns) = claimed_by turn + all_claimed turns

-- A batch that returns has claimed no more than was handed out.
abbrev Bounded : ℕ → BatchRunResult × TaskRun → Type 0
Bounded n r = r.0.is_ok ≡ true → r.0.claimed_count ≤ n

complete_batch-Bounded :
    (id : String) (claim : Claim) (results : List PaperRagResult) (s : Summary)
    (reply : Reply Completion) (run : TaskRun)
    → Bounded claim.claimed_count (complete_batch id claim results s reply run)
unfolding complete_batch batch_failure
complete_batch-Bounded id claim results s (raised f) run e = cc
complete_batch-Bounded id claim results s (refused m) run e = cc
complete_batch-Bounded id claim results s (replied c) run e = omega arith

complete_failed_claim-Bounded :
    (n : ℕ) (id : String) (size : ℕ) (message : String) (reply : Reply Completion) (run : TaskRun)
    → Bounded n (complete_failed_claim id size message reply run)
unfolding complete_failed_claim batch_failure
complete_failed_claim-Bounded n id size message (raised f) run e = cc
complete_failed_claim-Bounded n id size message (refused m) run e = cc
complete_failed_claim-Bounded n id size message (replied c) run e = cc

after_processing-Bounded :
    (processed : Processed) (replies : BatchReplies) (claim : Claim) (s : Summary) (run : TaskRun)
    → Bounded claim.claimed_count (after_processing processed replies claim s run)
unfolding after_processing
after_processing-Bounded (crashed f) replies claim s run =
    complete_failed_claim-Bounded _ _ _ _ replies.completion run
after_processing-Bounded (finished results) replies claim s run =
    complete_batch-Bounded _ claim results s replies.completion run

after_papers-Bounded :
    (papers : List ℕ) (replies : BatchReplies) (claim : Claim) (run : TaskRun)
    → Bounded claim.claimed_count (after_papers papers replies claim run)
unfolding after_papers process_claim
after_papers-Bounded [] replies claim run e = omega arith
after_papers-Bounded (id ∷ ids) replies claim run e =
    after_processing-Bounded replies.processed replies claim _ _ e

after_claim-Bounded :
    (claim : Reply Claim) (replies : BatchReplies) (run : TaskRun)
    → Bounded (claimed_of claim) (after_claim claim replies run)
unfolding after_claim batch_failure
after_claim-Bounded (raised f) replies run e = cc
after_claim-Bounded (refused m) replies run e = cc
after_claim-Bounded (replied claim) replies run e =
    after_papers-Bounded claim.papers replies claim run e

run_once-Bounded :
    (replies : BatchReplies) (run : TaskRun)
    → Bounded (claimed_of replies.claim) (run_once replies run)
unfolding run_once
run_once-Bounded replies run = after_claim-Bounded replies.claim replies run

-- A turn that ends the loop, or the turns behind it, which are fewer and claim fewer papers.
after_batch-ends :
    (next : Next) (b : BatchRunResult) (run : TaskRun) (rest : Option (RagRunResult × TaskRun))
    → Fits next b
    → ((b.is_ok ≡ true) × (0 < b.claimed_count) → rest ≢ none)
    → after_batch next b.task_state run rest ≢ none
unfolding after_batch
after_batch-ends again b run rest h k e = k h e
after_batch-ends succeed b run rest h k e = cc
after_batch-ends (fail reason) b run rest h k e = cc
after_batch-ends no_error b run rest h k e = cc

work-ends :
    (turns : List Turn) (state : Option String) (run : TaskRun)
    → all_claimed turns < length turns
    → work turns state run ≢ none
unfolding work
work-ends [] state run h = let no : ⊥ = omega (arith, h) in absurd no
work-ends (cancelled done ∷ turns) state run h = λ e. cc
work-ends (Turn.crashed done f ∷ turns) state run h = λ e. cc
work-ends (batch replies ∷ turns) state run h =
    let done = run_once replies run in
    after_batch-ends (next_of done.0) done.0 done.1 _ (next_of-Fits done.0) λ again.
      work-ends turns done.0.task_state done.1 (
        let few = run_once-Bounded replies run again.0 in let some_claimed = again.1 in omega arith)

-- A worker ends once it has made more turns than papers were handed out in them: it asks for
-- another batch only after a claim of at least one paper.
pub run_task-ends :
    (turns : List Turn) (run : TaskRun)
    → all_claimed turns < length turns
    → run_task turns run ≢ none
unfolding run_task
run_task-ends turns run h = work-ends turns none _ h
