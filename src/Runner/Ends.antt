-- ===== src/Runner/Ends.antt =====
-- How the worker of a task ends.
use mathlib.Core.Path.{subst}
use paper_collector_agent.Prelude.{
  ℕ, ◌<◌, ◌≡◌, ◌≢◌, refl, String, Bool, true, false, ◌&&◌, Option, none, some, List, [], ◌∷◌, arith,
  ltb, if◌then◌else◌,
}
use paper_collector_agent.Indexing.{Summary}
use paper_collector_agent.Indexing.Nodes.{RagError, RagRunResult}
use paper_collector_agent.Runner.{TaskRun}
use paper_collector_agent.Processor.{PaperRagResult}
use paper_collector_agent.Runner.Batch.{
  BatchReplies, BatchRunResult, Reply, raised, refused, replied, Claim, Completion, Processed,
  crashed, finished, batch_failure,
}
use paper_collector_agent.Runner.Once.{
  run_once, after_claim, after_papers, process_claim, after_processing, complete_batch,
  complete_failed_claim,
}
use paper_collector_agent.Runner.Worker.{
  Turn, batch, cancelled, Next, again, succeed, fail, no_error, next_of, next_of_state,
  next_of_error, after_batch, finish_run, finish_error, work, run_task, is_state,
}

-- A result that is not a success says why, and a success says nothing.
abbrev pub IsExplained : Bool → Option RagError → Type 0
IsExplained true e = e ≡ none
IsExplained false e = (reason : RagError) × (e ≡ some reason)

abbrev Explains : BatchRunResult × TaskRun → Type 0
Explains r = IsExplained r.0.is_ok r.0.error

complete_batch-Explains :
    (id : String) (claim : Claim) (results : List PaperRagResult) (s : Summary)
    (reply : Reply Completion) (run : TaskRun)
    → Explains (complete_batch id claim results s reply run)
unfolding complete_batch batch_failure
complete_batch-Explains id claim results s (raised f) run = (_, refl)
complete_batch-Explains id claim results s (refused e) run = (_, refl)
complete_batch-Explains id claim results s (replied c) run = refl

complete_failed_claim-Explains :
    (id : String) (size : ℕ) (message : String) (reply : Reply Completion) (run : TaskRun)
    → Explains (complete_failed_claim id size message reply run)
unfolding complete_failed_claim batch_failure
complete_failed_claim-Explains id size message (raised f) run = (_, refl)
complete_failed_claim-Explains id size message (refused e) run = (_, refl)
complete_failed_claim-Explains id size message (replied c) run = (_, refl)

after_processing-Explains :
    (processed : Processed) (replies : BatchReplies) (claim : Claim) (s : Summary) (run : TaskRun)
    → Explains (after_processing processed replies claim s run)
unfolding after_processing
after_processing-Explains (crashed f) replies claim s run =
    complete_failed_claim-Explains _ _ _ replies.completion run
after_processing-Explains (finished results) replies claim s run =
    complete_batch-Explains _ claim results s replies.completion run

after_papers-Explains :
    (papers : List ℕ) (replies : BatchReplies) (claim : Claim) (run : TaskRun)
    → Explains (after_papers papers replies claim run)
unfolding after_papers process_claim
after_papers-Explains [] replies claim run = refl
after_papers-Explains (id ∷ ids) replies claim run =
    after_processing-Explains replies.processed replies claim _ _

after_claim-Explains :
    (claim : Reply Claim) (replies : BatchReplies) (run : TaskRun)
    → Explains (after_claim claim replies run)
unfolding after_claim batch_failure
after_claim-Explains (raised f) replies run = (_, refl)
after_claim-Explains (refused e) replies run = (_, refl)
after_claim-Explains (replied claim) replies run =
    after_papers-Explains claim.papers replies claim run

-- What a run ends with: a reason, or the state RAG_COMPLETED.
abbrev Closes : Option (RagRunResult × TaskRun) → Type 0
Closes none = Unit
Closes (some r) =
    IsExplained r.0.is_ok r.0.error
    × (r.0.is_ok ≡ true → is_state r.0.task_state "RAG_COMPLETED" ≡ true)

-- The loop succeeds only in the state RAG_COMPLETED, and goes on only after a claim.
abbrev pub Fits : Next → BatchRunResult → Type 0
Fits again b = (b.is_ok ≡ true) × (0 < b.claimed_count)
Fits succeed b = is_state b.task_state "RAG_COMPLETED" ≡ true
Fits (fail e) b = Unit
Fits no_error b = (b.is_ok ≡ false) × (b.error ≡ none)

Fits-if :
    (t : Bool) (x y : Next) (b : BatchRunResult)
    → (t ≡ true → Fits x b)
    → (t ≡ false → Fits y b)
    → Fits (if t then x else y) b
Fits-if true x y b h k = h refl
Fits-if false x y b h k = k refl

next_of_error-Fits :
    (e : Option RagError) (b : BatchRunResult)
    → b.is_ok ≡ false
    → b.error ≡ e
    → Fits (next_of_error e) b
unfolding next_of_error
next_of_error-Fits none b failed same = (failed, same)
next_of_error-Fits (some e) b failed same = tt

pub next_of-Fits : (b : BatchRunResult) → Fits (next_of b) b
unfolding next_of next_of_state
next_of-Fits b =
    Fits-if b.is_ok _ _ b
      (λ o.
        Fits-if b.has_failed_papers _ _ b (λ _. tt)
          (λ _.
            Fits-if (is_state b.task_state "RAG_RUNNING" && ltb 0 b.claimed_count) _ _ b
              (λ e. (o, ground (arith, e)))
              (λ _.
                Fits-if (is_state b.task_state "RAG_COMPLETED") _ _ b (λ e. e)
                  (λ _. Fits-if (is_state b.task_state "RAG_RUNNING") _ _ b (λ _. tt) (λ _. tt)))))
      (λ o. next_of_error-Fits b.error b o refl)

after_batch-Closes :
    (next : Next) (b : BatchRunResult) (run : TaskRun) (rest : Option (RagRunResult × TaskRun))
    → Fits next b
    → Closes rest
    → Closes (after_batch next b.task_state run rest)
unfolding after_batch finish_run finish_error
after_batch-Closes again b run rest h k = k
after_batch-Closes succeed b run rest h k = (refl, λ _. h)
after_batch-Closes (fail e) b run rest h k = ((_, refl), λ f. cc)
after_batch-Closes no_error b run rest h k = ((_, refl), λ f. cc)

work-Closes :
    (turns : List Turn) (state : Option String) (run : TaskRun) → Closes (work turns state run)
unfolding work finish_error finish_run
work-Closes [] state run = tt
work-Closes (cancelled done ∷ turns) state run = ((_, refl), λ f. cc)
work-Closes (Turn.crashed done f ∷ turns) state run = ((_, refl), λ f. cc)
work-Closes (batch replies ∷ turns) state run =
    let done = run_once replies run in
    after_batch-Closes (next_of done.0) done.0 done.1 _ (next_of-Fits done.0)
      (work-Closes turns done.0.task_state done.1)

-- A worker that has ended either succeeded in the state RAG_COMPLETED without an error, or failed
-- with an error.
pub run_task_lem :
    (turns : List Turn) (run run' : TaskRun) (result : RagRunResult)
    → run_task turns run ≡ some (result, run')
    → IsExplained result.is_ok result.error
      × (result.is_ok ≡ true → is_state result.task_state "RAG_COMPLETED" ≡ true)
unfolding run_task
run_task_lem turns run run' result e = subst Closes e (work-Closes turns none _)

not_asserted : (b : BatchRunResult) → IsExplained b.is_ok b.error → Fits no_error b → ⊥
not_asserted b h (failed, missing) =
    let (reason, e) = subst (λ o. IsExplained o b.error) failed h in cc

-- A batch that failed says why, so the assertion of the loop never fails.
pub run_once_lem :
    (replies : BatchReplies) (run : TaskRun) → next_of (run_once replies run).0 ≢ no_error
unfolding run_once
run_once_lem replies run e =
    let done = after_claim replies.claim replies run in
    not_asserted done.0 (after_claim-Explains replies.claim replies run)
      (subst (λ n. Fits n done.0) e (next_of-Fits done.0))
