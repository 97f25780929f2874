-- ===== src/Indexing/Status.antt =====
-- What the status of a task says of its papers.
use paper_collector_agent.Prelude.{
  ◌≡◌, ◌≢◌, refl, Bool, true, false, not, ◌&&◌, ◌||◌, none, some, List, [], ◌∷◌, arith, any, all,
  ◌==◌, inl, inr, Bool-cases, Option-cases,
}
use paper_collector_agent.Indexing.{
  TaskState, Paper, PaperStatus, Summary, StatusReply, unavailable, known, Observation, status_eq,
  count, summarize, is_completed_state, rag_status, get_task_rag_status, is_complete, is_rag_failed,
  is_failed_state, observe, or_later, wait_for_rag_terminal_status,
}

-- A paper that no longer needs work: it is neither pending, nor being indexed, nor failed.
abbrev pub is_done : Paper → Bool
is_done p =
    not (status_eq p.rag_status PaperStatus.pending)
    && not (status_eq p.rag_status PaperStatus.indexing)
    && not (status_eq p.rag_status PaperStatus.failed)

abbrev pub is_ready : Paper → Bool
is_ready p = status_eq p.rag_status PaperStatus.ready

no_work_iff :
    (ps : List Paper)
    → (count PaperStatus.pending ps == 0
        && count PaperStatus.indexing ps == 0
        && count PaperStatus.failed ps == 0)
      ≡ all is_done ps
unfolding count
no_work_iff [] = refl
no_work_iff (p ∷ ps) = ground (arith, no_work_iff ps)

some_ready_iff : (ps : List Paper) → not (count PaperStatus.ready ps == 0) ≡ any is_ready ps
unfolding count
some_ready_iff [] = refl
some_ready_iff (p ∷ ps) = ground (arith, some_ready_iff ps)

-- A review can be generated exactly if the task's index is complete, no paper is pending, being
-- indexed or failed, and some paper is ready.
pub can_generate_review_iff :
    (state : TaskState) (ps : List Paper)
    → (rag_status state (summarize ps)).can_generate_review
      ≡ (is_completed_state state && all is_done ps && any is_ready ps)
unfolding rag_status is_complete summarize
can_generate_review_iff state ps = ground (arith, no_work_iff ps, some_ready_iff ps)

not_failed_state :
    (state : TaskState) → is_completed_state state ≡ true → is_failed_state state ≡ false
not_failed_state TaskState.rag_completed h = refl
not_failed_state TaskState.rag_failed h = cc
not_failed_state TaskState.cancelled h = cc
not_failed_state TaskState.search_failed h = cc
not_failed_state _ h = refl

-- A complete index has not failed.
pub complete-not_failed :
    (state : TaskState) (s : Summary)
    → (rag_status state s).is_rag_complete ≡ true
    → is_rag_failed (rag_status state s) ≡ false
unfolding rag_status is_complete is_rag_failed
complete-not_failed state s h = ground (arith, not_failed_state state)

-- The wait ends with an unavailable status, or with a status that is complete or failed.
abbrev pub IsFinal : StatusReply → Type 0
IsFinal (unavailable error) = Unit
IsFinal (known s) = (is_rag_failed s || s.is_rag_complete) ≡ true

observe-IsFinal :
    (reply : StatusReply) (is_late : Bool) (final : StatusReply)
    → observe reply is_late ≡ some final
    → IsFinal final
unfolding observe
observe-IsFinal (unavailable error) is_late (unavailable e) h = tt
observe-IsFinal (unavailable error) is_late (known s) h = cc
observe-IsFinal (known s) is_late (unavailable e) h = tt
observe-IsFinal (known s) is_late (known s') h =
    elim (Bool-cases (is_rag_failed s || s.is_rag_complete)) [
      | inl e ↦ let same : s ≡ s' = let k = rw e at h in cc in rw (← same) e
      | inr e ↦ absurd (let k = rw e at h in ground arith)
    ]

-- A late observation ends the wait.
observe-late : (reply : StatusReply) → observe reply true ≢ none
unfolding observe
observe-late (unavailable error) h = cc
observe-late (known s) h = ground arith

-- Once an observation is made behind the deadline, the wait of wait_for_rag_terminal_status has
-- ended; and a status that it has ended with is complete or failed.
pub wait_for_rag_terminal_status_lem :
    (observations : List Observation)
    → any (λ o. o.is_late) observations ≡ true
    → (final : StatusReply) × (wait_for_rag_terminal_status observations ≡ some final)
      × IsFinal final
unfolding wait_for_rag_terminal_status or_later
wait_for_rag_terminal_status_lem [] h = cc
wait_for_rag_terminal_status_lem (o ∷ observations) h =
    elim (Option-cases (observe (get_task_rag_status o.fetch) o.is_late)) [
      | inr (final, e) ↦
          (final, rw e refl, observe-IsFinal (get_task_rag_status o.fetch) o.is_late final e)
      | inl e ↦ elim (Bool-cases o.is_late) [
        | inl b ↦ absurd (observe-late (get_task_rag_status o.fetch) (rw b at e))
        | inr b ↦ rw e (wait_for_rag_terminal_status_lem observations (rw b at h))
      ]
    ]
