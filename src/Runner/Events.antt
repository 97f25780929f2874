-- ===== src/Runner/Events.antt =====
-- The events that the listeners of a run are due to get, whatever else happens to the run.
use mathlib.Core.Path.{subst}
use mathlib.Core.List.{append-nil}
use paper_collector_agent.Prelude.{
  ℕ, ◌+◌, ◌≤◌, ◌<◌, ◌≡◌, refl, sym, ap, ◌∙◌, String, Bool, true, false, not, Option, List, [], ◌∷◌,
  ◌++◌, arith, ◌==◌, if◌then◌else◌, select, inl, inr, Bool-cases,
}
use paper_collector_agent.Indexing.{Summary}
use paper_collector_agent.Indexing.Nodes.{RagError}
use paper_collector_agent.Runner.{
  TaskRun, EventType, Delivery, RagProgressEvent, Act, announces, hands_over, assigns, joins, drops,
  act, announce, hand_over, call_next, new_event, calls_for, add_listener, drop_listener, new_run,
}

-- The sequence numbers of the events in the calls of a listener.
abbrev pub sequences_to : ℕ → List Delivery → List ℕ
sequences_to id [] = []
sequences_to id (d ∷ ds) =
    let rest = sequences_to id ds in if d.listener_id == id then d.event.sequence ∷ rest else rest

abbrev pub enrolled : ℕ → List ℕ → ℕ
enrolled id [] = 0
enrolled id (i ∷ is) = let rest = enrolled id is in if i == id then 1 + rest else rest

-- The numbers behind `a` up to `b`, in order.
abbrev pub IsFrom : ℕ → List ℕ → ℕ → Type 0
IsFrom a [] b = a ≡ b
IsFrom a (n ∷ ns) b = (n ≡ a + 1) × IsFrom n ns b

-- How a run stands to a key of a listener: not given yet, of a listener, or of one that has left.
pub data Hears (id : ℕ) (run : TaskRun) : Type 0 where
  fresh :
      run.next_listener_id ≤ id
      → enrolled id run.listeners ≡ 0
      → sequences_to id run.addressed ≡ []
      → Hears id run
  listening :
      id < run.next_listener_id
      → enrolled id run.listeners ≡ 1
      → (start : ℕ) → IsFrom start (sequences_to id run.addressed) run.next_event_sequence
      → Hears id run
  left :
      id < run.next_listener_id
      → enrolled id run.listeners ≡ 0
      → (start end : ℕ) → IsFrom start (sequences_to id run.addressed) end
      → end ≤ run.next_event_sequence
      → Hears id run

IsFrom-snoc : (a : ℕ) (ns : List ℕ) (b : ℕ) → IsFrom a ns b → IsFrom a (ns ++ (b + 1) ∷ []) (b + 1)
IsFrom-snoc a [] b h = (ap (λ n. n + 1) (sym h), refl)
IsFrom-snoc a (n ∷ ns) b h = (h.0, IsFrom-snoc n ns b h.1)

sequences_to-append :
    (id : ℕ) (ds es : List Delivery)
    → sequences_to id (ds ++ es) ≡ sequences_to id ds ++ sequences_to id es
sequences_to-append id [] es = refl
sequences_to-append id (d ∷ ds) es = ground (arith, sequences_to-append id ds es)

enrolled-append :
    (id : ℕ) (is js : List ℕ) → enrolled id (is ++ js) ≡ enrolled id is + enrolled id js
enrolled-append id [] js = omega arith
enrolled-append id (i ∷ is) js = ground (arith, enrolled-append id is js)

enrolled-drop :
    (id l : ℕ) (is : List ℕ) → (id == l) ≡ true → enrolled id (select (λ i. not (i == l)) is) ≡ 0
enrolled-drop id l [] e = refl
enrolled-drop id l (i ∷ is) e = ground (arith, enrolled-drop id l is e)

enrolled-keep :
    (id l : ℕ) (is : List ℕ)
    → (id == l) ≡ false
    → enrolled id (select (λ i. not (i == l)) is) ≡ enrolled id is
enrolled-keep id l [] e = refl
enrolled-keep id l (i ∷ is) e = ground (arith, enrolled-keep id l is e)

calls_for-none :
    (id : ℕ) (event : RagProgressEvent) (is : List ℕ)
    → enrolled id is ≡ 0
    → sequences_to id (calls_for event is) ≡ []
unfolding calls_for
calls_for-none id event [] e = refl
calls_for-none id event (i ∷ is) e = elim (Bool-cases (i == id)) [
  | inl t ↦ let no : ⊥ = ground (arith, t, e) in absurd no
  | inr f ↦ rw f (calls_for-none id event is (ground (arith, f, e)))
]

calls_for-once :
    (id : ℕ) (event : RagProgressEvent) (is : List ℕ)
    → enrolled id is ≡ 1
    → sequences_to id (calls_for event is) ≡ event.sequence ∷ []
unfolding calls_for
calls_for-once id event [] e = let no : ⊥ = omega (arith, e) in absurd no
calls_for-once id event (i ∷ is) e = elim (Bool-cases (i == id)) [
  | inl t ↦
      rw t (ap (λ ns. event.sequence ∷ ns) (calls_for-none id event is (ground (arith, t, e))))
  | inr f ↦ rw f (calls_for-once id event is (ground (arith, f, e)))
]

announce-Hears :
    (id : ℕ) (kind : EventType) (batch_id : Option String) (s : Option Summary)
    (e : Option RagError) (run : TaskRun)
    → Hears id run
    → Hears id (announce kind batch_id s e run)
unfolding announce new_event
announce-Hears id kind batch_id s e run (fresh new none' empty) = fresh new none' (
    sequences_to-append id run.addressed _
    ∙ ap (λ ns. ns ++ sequences_to id (calls_for (new_event kind batch_id s e run) run.listeners))
        empty
    ∙ calls_for-none id _ run.listeners none')
announce-Hears id kind batch_id s e run (listening old one start h) = listening old one start (
    subst (λ ns. IsFrom start ns (run.next_event_sequence + 1))
      (sym (
        sequences_to-append id run.addressed _
        ∙ ap (λ ns. sequences_to id run.addressed ++ ns) (calls_for-once id _ run.listeners one)))
      (IsFrom-snoc start _ _ h))
announce-Hears id kind batch_id s e run (left old none' start end h le) =
    left old none' start end
      (subst (λ ns. IsFrom start ns end)
        (sym (
          sequences_to-append id run.addressed _
          ∙ ap (λ ns. sequences_to id run.addressed ++ ns) (calls_for-none id _ run.listeners none')
          ∙ append-nil (sequences_to id run.addressed)))
        h)
      (omega arith)

add_listener-Hears :
    (id : ℕ) (b : Bool) (run : TaskRun) → Hears id run → Hears id (add_listener b run).1
unfolding add_listener
add_listener-Hears id false run h = h
add_listener-Hears id true run (fresh new none' empty) =
    elim (Bool-cases (run.next_listener_id == id)) [
      | inl t ↦
          listening (ground (arith, t))
            (enrolled-append id run.listeners _ ∙ ground (arith, t, none')) run.next_event_sequence
            (subst (λ ns. IsFrom run.next_event_sequence ns run.next_event_sequence) (sym empty)
              refl)
      | inr f ↦
          fresh (ground (arith, f, new))
            (enrolled-append id run.listeners _ ∙ ground (arith, f, none')) empty
    ]
add_listener-Hears id true run (listening old one start h) =
    listening (omega arith) (enrolled-append id run.listeners _ ∙ ground (arith, one, old)) start h
add_listener-Hears id true run (left old none' start end h le) =
    left (omega arith) (enrolled-append id run.listeners _ ∙ ground (arith, none', old)) start end h
      le

drop_listener-Hears : (id l : ℕ) (run : TaskRun) → Hears id run → Hears id (drop_listener l run)
unfolding drop_listener
drop_listener-Hears id l run (fresh new none' empty) = elim (Bool-cases (id == l)) [
  | inl t ↦ fresh new (enrolled-drop id l run.listeners t) empty
  | inr f ↦ fresh new (enrolled-keep id l run.listeners f ∙ none') empty
]
drop_listener-Hears id l run (listening old one start h) = elim (Bool-cases (id == l)) [
  | inl t ↦
      left old (enrolled-drop id l run.listeners t) start run.next_event_sequence h (omega arith)
  | inr f ↦ listening old (enrolled-keep id l run.listeners f ∙ one) start h
]
drop_listener-Hears id l run (left old none' start end h le) = elim (Bool-cases (id == l)) [
  | inl t ↦ left old (enrolled-drop id l run.listeners t) start end h le
  | inr f ↦ left old (enrolled-keep id l run.listeners f ∙ none') start end h le
]

call_next-Hears :
    (id : ℕ) (due : List Delivery) (run : TaskRun) → Hears id run → Hears id (call_next due run)
unfolding call_next
call_next-Hears id [] run h = h
call_next-Hears id (d ∷ due) run (fresh new none' empty) = fresh new none' empty
call_next-Hears id (d ∷ due) run (listening old one start h) = listening old one start h
call_next-Hears id (d ∷ due) run (left old none' start end h le) = left old none' start end h le

hand_over-Hears : (id : ℕ) (run : TaskRun) → Hears id run → Hears id (hand_over run)
unfolding hand_over
hand_over-Hears id run h = call_next-Hears id run.waiting run h

-- Whatever happens to a run, a listener that is there is due for every event from the one after it
-- came, and one that has left was for every event from then to some point, each once and in order.
pub act-Hears : (id : ℕ) (a : Act) (run : TaskRun) → Hears id run → Hears id (act a run)
unfolding act
act-Hears id (announces kind batch_id s e) run h = announce-Hears id kind batch_id s e run h
act-Hears id hands_over run h = hand_over-Hears id run h
act-Hears id (assigns s c) run (fresh new none' empty) = fresh new none' empty
act-Hears id (assigns s c) run (listening old one start h) = listening old one start h
act-Hears id (assigns s c) run (left old none' start end h le) = left old none' start end h le
act-Hears id (joins b) run h = add_listener-Hears id b run h
act-Hears id (drops l) run h = drop_listener-Hears id l run h

pub new_run-Hears :
    (id task_id : ℕ) (s : Option Summary) (key : ℕ) → Hears id (new_run task_id s key)
unfolding new_run
new_run-Hears id task_id s key = fresh (omega arith) refl refl
