-- ===== src/Runner.antt =====
-- app/rag/processing/task_rag_batch_runner.py: the worker that indexes the papers of a task batch by
-- batch. This file: the active runs of `TaskRagBatchRunner`, their listeners and the progress events.
-- `Batch` and `Once` have one batch, `Worker` the loop over batches. Logging and the percentages of the events are
-- left out.
pub mod Batch
pub mod Once
pub mod Worker
pub mod Events
pub mod Delivered
pub mod Registry
pub mod Counts
pub mod Ends
pub mod Termination
pub mod Reports
use paper_collector_agent.Prelude.{
  ℕ, ◌+◌, String, Bool, true, false, not, ◌&&◌, Option, none, some, List, [], ◌∷◌, ◌++◌, ◌==◌,
  if◌then◌else◌, find_first, length, select, update_first, remove_first, is_empty,
}
use paper_collector_agent.Indexing.{Summary}
use paper_collector_agent.Indexing.Nodes.{RagError}

-- `empty_rag_summary`
abbrev pub empty_summary : Summary
empty_summary = record {
  total = 0;
  pending = 0;
  indexing = 0;
  ready = 0;
  skipped = 0;
  failed = 0;
  ready_chunks = 0;
}

-- `normalize_rag_summary` of a summary with every key, or of `None` or an empty `dict`.
unfoldable pub normalize_summary : Option Summary → Summary
normalize_summary none = empty_summary
normalize_summary (some s) = s

pub data EventType : Type 0 where
  started claimed processing batch_committed completed failed : EventType

pub record RagProgressEvent : Type 0 where
  pub kind : EventType
  pub task_id : ℕ
  pub batch_id : Option String
  pub sequence : ℕ
  pub summary : Summary
  pub committed_summary : Summary
  pub batch_summary : Summary
  pub error : Option RagError

-- A call of a listener, which is known by its key; a call that raises is logged and passed over.
pub record Delivery : Type 0 where
  pub listener_id : ℕ
  pub event : RagProgressEvent

-- `_TaskRagRun`, with the calls of its listeners: those that were made, and those that the loop of
-- the current event still waits to make. `addressed` and `missed` are history that the code does not
-- keep: every call that an event was due to make, and how many were left out by loops that were
-- cancelled. `key` stands for the identity of the object.
pub record TaskRun : Type 0 where
  pub task_id : ℕ
  pub key : ℕ
  pub listeners : List ℕ
  pub next_listener_id : ℕ
  pub next_event_sequence : ℕ
  pub summary : Summary
  pub committed_summary : Summary
  pub delivered : List Delivery
  pub waiting : List Delivery
  pub addressed : List Delivery
  pub missed : ℕ

unfoldable pub new_event :
    EventType → Option String → Option Summary → Option RagError → TaskRun → RagProgressEvent
unfolding normalize_summary
new_event kind batch_id batch_summary raised run = record {
  kind = kind;
  task_id = run.task_id;
  batch_id = batch_id;
  sequence = run.next_event_sequence + 1;
  summary = run.summary;
  committed_summary = run.committed_summary;
  batch_summary = normalize_summary batch_summary;
  error = raised;
}

-- The calls that are due for an event: those of `list(run.listeners.values())`.
unfoldable pub calls_for : RagProgressEvent → List ℕ → List Delivery
calls_for event [] = []
calls_for event (id ∷ ids) = record { listener_id = id; event = event } ∷ calls_for event ids

-- `_publish_progress` under the lock: the event gets its number, and the listeners of this moment
-- are copied. Calls of an event before it that still wait were left out by a cancellation.
unfoldable pub announce :
    EventType → Option String → Option Summary → Option RagError → TaskRun → TaskRun
unfolding new_event calls_for
announce kind batch_id batch_summary raised run =
    let due = calls_for (new_event kind batch_id batch_summary raised run) run.listeners in
    record run {
      next_event_sequence = run.next_event_sequence + 1;
      waiting = due;
      addressed = run.addressed ++ due;
      missed = run.missed + length run.waiting;
    }

-- A turn of `for listener in listeners`, without the lock.
unfoldable pub call_next : List Delivery → TaskRun → TaskRun
call_next [] run = run
call_next (d ∷ rest) run = record run { delivered = run.delivered ++ d ∷ []; waiting = rest }

unfoldable pub hand_over : TaskRun → TaskRun
unfolding call_next
hand_over run = call_next run.waiting run

-- `_publish_progress`, when its loop is not cancelled.
unfoldable pub publish :
    EventType → Option String → Option Summary → Option RagError → TaskRun → TaskRun
unfolding announce
publish kind batch_id batch_summary raised run =
    let announced = announce kind batch_id batch_summary raised run in
    record announced { delivered = announced.delivered ++ announced.waiting; waiting = [] }

-- `_add_listener`: the key of the listener, and the run with it.
unfoldable pub add_listener : Bool → TaskRun → Option ℕ × TaskRun
add_listener false run = (none, run)
add_listener true run = (
  some run.next_listener_id,
  record run {
    listeners = run.listeners ++ run.next_listener_id ∷ [];
    next_listener_id = run.next_listener_id + 1;
  },
)

-- `listeners.pop(listener_id, None)`
unfoldable pub drop_listener : ℕ → TaskRun → TaskRun
drop_listener listener_id run = record run {
  listeners = select (λ id. not (id == listener_id)) run.listeners;
}

-- `_runs`, with the count of the run objects that were made.
pub record Runner : Type 0 where
  pub runs : List TaskRun
  pub next_key : ℕ

pub record RagRunHandle : Type 0 where
  pub task_id : ℕ
  pub is_started : Bool
  pub key : ℕ
  pub listener_id : Option ℕ

unfoldable pub is_task : ℕ → TaskRun → Bool
is_task task_id run = run.task_id == task_id

-- `self._runs.get(task_id) is run`
unfoldable pub is_same : ℕ → ℕ → TaskRun → Bool
is_same task_id key run = run.task_id == task_id && run.key == key

unfoldable pub new_run : ℕ → Option Summary → ℕ → TaskRun
unfolding normalize_summary
new_run task_id initial_summary key = record {
  task_id = task_id;
  key = key;
  listeners = [];
  next_listener_id = 0;
  next_event_sequence = 0;
  summary = normalize_summary initial_summary;
  committed_summary = normalize_summary initial_summary;
  delivered = [];
  waiting = [];
  addressed = [];
  missed = 0;
}

-- A handle on the run, which may get a listener.
unfoldable pub join : Bool → Bool → TaskRun → Runner → RagRunHandle × Runner
unfolding is_same add_listener
join is_started has_listener run r =
    let added = add_listener has_listener run in
    (
      record {
        task_id = run.task_id;
        is_started = is_started;
        key = run.key;
        listener_id = added.0;
      },
      record r {
        runs =
            update_first (is_same run.task_id run.key)
              (λ found. (add_listener has_listener found).1) r.runs;
      },
    )

-- The run that is registered when there is none, before a handle on it is made.
unfoldable pub register : TaskRun → Runner → Runner
register run r = record { runs = r.runs ++ run ∷ []; next_key = r.next_key + 1 }

-- Join the run that was found, or start one.
unfoldable pub start_or_join_found :
    Option TaskRun → ℕ → Option Summary → Bool → Runner → RagRunHandle × Runner
unfolding new_run register join
start_or_join_found (some run) task_id initial_summary has_listener r =
    join false has_listener run r
start_or_join_found none task_id initial_summary has_listener r =
    let run = new_run task_id initial_summary r.next_key in
    join true has_listener run (register run r)

unfoldable pub start_or_join : ℕ → Option Summary → Bool → Runner → RagRunHandle × Runner
unfolding is_task start_or_join_found
start_or_join task_id initial_summary has_listener r =
    start_or_join_found (find_first (is_task task_id) r.runs) task_id initial_summary has_listener r

unfoldable pub get_active_run_found : Option TaskRun → Bool → Runner → Option RagRunHandle × Runner
unfolding join
get_active_run_found none has_listener r = (none, r)
get_active_run_found (some run) has_listener r =
    let joined = join false has_listener run r in (some joined.0, joined.1)

unfoldable pub get_active_run : ℕ → Bool → Runner → Option RagRunHandle × Runner
unfolding is_task get_active_run_found
get_active_run task_id has_listener r =
    get_active_run_found (find_first (is_task task_id) r.runs) has_listener r

-- `RagRunHandle.unsubscribe`: the handle forgets its listener, and the run drops it if it is still
-- the active one.
unfoldable pub remove_listener : ℕ → ℕ → ℕ → Runner → Runner
unfolding is_same drop_listener
remove_listener task_id key listener_id r = record r {
  runs = update_first (is_same task_id key) (drop_listener listener_id) r.runs;
}

unfoldable pub unsubscribe_listener : Option ℕ → RagRunHandle → Runner → RagRunHandle × Runner
unfolding remove_listener
unsubscribe_listener none h r = (h, r)
unsubscribe_listener (some listener_id) h r =
    (record h { listener_id = none }, remove_listener h.task_id h.key listener_id r)

unfoldable pub unsubscribe : RagRunHandle → Runner → RagRunHandle × Runner
unfolding unsubscribe_listener
unsubscribe h r = unsubscribe_listener h.listener_id h r

-- `finally` of `_run_task`: the run is no longer active.
unfoldable pub retire : ℕ → ℕ → Runner → Runner
unfolding is_same
retire task_id key r = record r { runs = remove_first (is_same task_id key) r.runs }

-- What may happen to an active run: the worker announces an event, calls the next listener of the
-- event or assigns, a listener comes or goes. A worker whose loop is cancelled announces its next
-- event while calls wait.
pub data Act : Type 0 where
  announces : EventType → Option String → Option Summary → Option RagError → Act
  hands_over : Act
  assigns : (summary committed_summary : Summary) → Act
  joins : Bool → Act
  drops : ℕ → Act

unfoldable pub act : Act → TaskRun → TaskRun
unfolding announce hand_over add_listener drop_listener
act (announces kind batch_id batch_summary raised) run =
    announce kind batch_id batch_summary raised run
act hands_over run = hand_over run
act (assigns summary committed_summary) run = record run {
  summary = summary;
  committed_summary = committed_summary;
}
act (joins has_listener) run = (add_listener has_listener run).1
act (drops listener_id) run = drop_listener listener_id run

unfoldable pub acts : List Act → TaskRun → TaskRun
unfolding act
acts [] run = run
acts (a ∷ rest) run = acts rest (act a run)

-- The calls of the runner, and the acts of the workers of its runs.
pub data Call : Type 0 where
  starts : ℕ → Option Summary → Bool → Call
  gets : ℕ → Bool → Call
  unsubscribes : RagRunHandle → Call
  works : (task_id key : ℕ) → Act → Call
  retires : (task_id key : ℕ) → Call

unfoldable pub work_on : ℕ → ℕ → Act → Runner → Runner
unfolding is_same act
work_on task_id key a r = record r { runs = update_first (is_same task_id key) (act a) r.runs }

unfoldable pub call : Call → Runner → Runner
unfolding start_or_join get_active_run unsubscribe work_on retire
call (starts task_id initial_summary has_listener) r =
    (start_or_join task_id initial_summary has_listener r).1
call (gets task_id has_listener) r = (get_active_run task_id has_listener r).1
call (unsubscribes h) r = (unsubscribe h r).1
call (works task_id key a) r = work_on task_id key a r
call (retires task_id key) r = retire task_id key r

unfoldable pub calls : List Call → Runner → Runner
unfolding call
calls [] r = r
calls (c ∷ cs) r = calls cs (call c r)

-- `__init__`
abbrev pub new_runner : Runner
new_runner = record { runs = []; next_key = 0 }
