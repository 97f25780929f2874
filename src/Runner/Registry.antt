-- ===== src/Runner/Registry.antt =====
-- The invariants of the registry of the active runs.
use paper_collector_agent.Prelude.{
  ℕ, ◌≡◌, ◌≢◌, refl, ◌∙◌, Bool, true, false, Option, none, some, List, [], ◌∷◌, arith, ◌==◌, inl,
  inr, Option-cases, All, Pairwise, find_first, find_first-true, find_first-snoc,
  find_first-update_narrow,
}
use paper_collector_agent.Indexing.{Summary}
use paper_collector_agent.Runner.{
  TaskRun, Delivery, Act, announces, hands_over, assigns, joins, drops, act, announce, hand_over,
  call_next, add_listener, drop_listener, new_run, Runner, RagRunHandle, is_task, is_same, join,
  register, start_or_join_found, start_or_join,
}
use paper_collector_agent.Runner.Events.{Hears}
use paper_collector_agent.Runner.Delivered.{IsCalled}

abbrev pub IsHeard : TaskRun → Type 0
IsHeard run = (id : ℕ) → Hears id run

abbrev pub HasOther : TaskRun → TaskRun → Type 0
HasOther a b = a.task_id ≢ b.task_id

-- Each task has at most one active run, the events of a run are due to its listeners in order, and
-- their calls are made in that order.
pub record IsActive (r : Runner) : Type 0 where
  pub one_each : Pairwise HasOther r.runs
  pub heard : All IsHeard r.runs
  pub called : All IsCalled r.runs

call_next-task_id :
    (due : List Delivery) (run : TaskRun) → (call_next due run).task_id ≡ run.task_id
unfolding call_next
call_next-task_id [] run = refl
call_next-task_id (d ∷ due) run = refl

act-task_id : (a : Act) (run : TaskRun) → (act a run).task_id ≡ run.task_id
unfolding act announce hand_over add_listener drop_listener
act-task_id (announces kind batch_id s e) run = refl
act-task_id hands_over run = call_next-task_id run.waiting run
act-task_id (assigns s c) run = refl
act-task_id (joins false) run = refl
act-task_id (joins true) run = refl
act-task_id (drops l) run = refl

act-key : (b : Bool) (run : TaskRun) → (act (joins b) run).key ≡ run.key
unfolding act add_listener
act-key false run = refl
act-key true run = refl

==-refl : (n : ℕ) → (n == n) ≡ true
==-refl n = ground arith

-- A handle on the active run of its task, which stays the active one.
abbrev IsJoined : ℕ → Bool → RagRunHandle × Runner → Type 0
IsJoined task_id is_started (h, r) =
    (h.is_started ≡ is_started)
    × ((run : TaskRun) × (find_first (is_task task_id) r.runs ≡ some run) × (run.key ≡ h.key))

join-IsJoined :
    (task_id : ℕ) (is_started has_listener : Bool) (run : TaskRun) (r : Runner)
    → find_first (is_task task_id) r.runs ≡ some run
    → IsJoined task_id is_started (join is_started has_listener run r)
unfolding join is_task is_same act
join-IsJoined task_id is_started has_listener run r found =
    let t = find_first-true (is_task task_id) r.runs run found in
    let a = act (joins has_listener) run in
    let b = act-task_id (joins has_listener) run in
    (
      refl,
      (
        a,
        find_first-update_narrow (is_task task_id) (is_same run.task_id run.key)
            (act (joins has_listener)) r.runs run (λ y e. ground (arith, e, t)) found (ground arith)
            (ground (arith, b, t)),
        act-key has_listener run,
      ),
    )

register-found :
    (task_id : ℕ) (s : Option Summary) (r : Runner)
    → find_first (is_task task_id) r.runs ≡ none
    → find_first (is_task task_id) (register (new_run task_id s r.next_key) r).runs
      ≡ some (new_run task_id s r.next_key)
unfolding register is_task new_run
register-found task_id s r missing =
    find_first-snoc (is_task task_id) r.runs (new_run task_id s r.next_key) missing
      (==-refl task_id)

start_or_join-of :
    (task_id : ℕ) (s : Option Summary) (has_listener : Bool) (r : Runner) (run : TaskRun)
    → find_first (is_task task_id) r.runs ≡ some run
    → let h = start_or_join task_id s has_listener r in
      (h.0.key ≡ run.key) × (h.0.is_started ≡ false) × (h.1.next_key ≡ r.next_key)
unfolding start_or_join start_or_join_found join
start_or_join-of task_id s has_listener r run found = rw found (refl, refl, refl)

start_or_join-IsJoined :
    (task_id : ℕ) (s : Option Summary) (has_listener : Bool) (r : Runner)
    → (b : Bool) × IsJoined task_id b (start_or_join task_id s has_listener r)
unfolding start_or_join start_or_join_found
start_or_join-IsJoined task_id s has_listener r =
    elim (Option-cases (find_first (is_task task_id) r.runs)) [
      | inl missing ↦
          let run = new_run task_id s r.next_key in
          (
            true,
            rw missing (
                join-IsJoined task_id true has_listener run (register run r)
                  (register-found task_id s r missing)),
          )
      | inr (run, found) ↦ (false, rw found (join-IsJoined task_id false has_listener run r found))
    ]

-- While the run of a task is active, another start of the task returns a handle on the same run,
-- not started by this call, and makes no run.
pub start_or_join-again :
    (task_id : ℕ) (s s' : Option Summary) (has_listener has_listener' : Bool) (r : Runner)
    → let first = start_or_join task_id s has_listener r in
      let second = start_or_join task_id s' has_listener' first.1 in
      (second.0.key ≡ first.0.key)
      × (second.0.is_started ≡ false)
      × (second.1.next_key ≡ first.1.next_key)
start_or_join-again task_id s s' has_listener has_listener' r =
    let (b, (_, (run, found, same))) = start_or_join-IsJoined task_id s has_listener r in
    let (key, started, next) =
      start_or_join-of task_id s' has_listener' (start_or_join task_id s has_listener r).1 run
        found in
    (key ∙ same, started, next)
