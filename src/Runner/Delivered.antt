-- ===== src/Runner/Delivered.antt =====
-- The calls of listeners that are made, beside those that the events of the run were due to make.
use mathlib.Core.Path.{subst}
use mathlib.Core.List.{append_assoc}
use paper_collector_agent.Prelude.{
  ℕ, ◌+◌, ◌≡◌, refl, sym, ap, ◌∙◌, String, true, false, Option, List, [], ◌∷◌, ◌++◌, arith, length,
  length-append, inl, inr, ◌⊎◌,
}
use paper_collector_agent.Indexing.{Summary}
use paper_collector_agent.Indexing.Nodes.{RagError}
use paper_collector_agent.Runner.{
  TaskRun, EventType, Delivery, Act, announces, hands_over, assigns, joins, drops, act, announce,
  hand_over, call_next, add_listener, drop_listener, new_run,
}

-- Some of the calls of the second list, in its order.
abbrev pub IsPart : List Delivery → List Delivery → Type 0
IsPart ds [] = ds ≡ []
IsPart ds (e ∷ es) = IsPart ds es ⊎ ((rest : List Delivery) × (ds ≡ e ∷ rest) × IsPart rest es)

IsPart-nil : (es : List Delivery) → IsPart [] es
IsPart-nil [] = refl
IsPart-nil (e ∷ es) = inl (IsPart-nil es)

IsPart-refl : (ds : List Delivery) → IsPart ds ds
IsPart-refl [] = refl
IsPart-refl (d ∷ ds) = inr (ds, refl, IsPart-refl ds)

IsPart-start : (ds ws es : List Delivery) → IsPart (ds ++ ws) es → IsPart ds es
IsPart-start [] ws es h = IsPart-nil es
IsPart-start (d ∷ ds) ws [] h = cc
IsPart-start (d ∷ ds) ws (e ∷ es) (inl h) = inl (IsPart-start (d ∷ ds) ws es h)
IsPart-start (d ∷ ds) ws (e ∷ es) (inr (rest, same, h)) =
    let here : d ≡ e = cc in
    let after : ds ++ ws ≡ rest = cc in
    inr (ds, ap (λ x. x ∷ ds) here, IsPart-start ds ws es (subst (λ l. IsPart l es) (sym after) h))

IsPart-append : (ds es ns : List Delivery) → IsPart ds es → IsPart (ds ++ ns) (es ++ ns)
IsPart-append ds [] ns h = subst (λ l. IsPart (l ++ ns) ns) (sym h) (IsPart-refl ns)
IsPart-append ds (e ∷ es) ns (inl h) = inl (IsPart-append ds es ns h)
IsPart-append ds (e ∷ es) ns (inr (rest, same, h)) =
    inr (rest ++ ns, ap (λ l. l ++ ns) same, IsPart-append rest es ns h)

-- The calls that were made and those that wait are due, in this order, and all that are due but for
-- those that cancelled loops left out.
pub record IsCalled (run : TaskRun) : Type 0 where
  pub due : IsPart (run.delivered ++ run.waiting) run.addressed
  pub counted : length run.delivered + length run.waiting + run.missed ≡ length run.addressed

announce_count :
    (ds ws es ns : List Delivery) (missed : ℕ)
    → length ds + length ws + missed ≡ length es
    → length ds + length ns + (missed + length ws) ≡ length (es ++ ns)
announce_count ds ws es ns missed h = omega (arith, h, length-append es ns)

hand_over_count :
    (ds : List Delivery) (d : Delivery) (due ws es : List Delivery) (missed : ℕ)
    → ws ≡ d ∷ due
    → length ds + length ws + missed ≡ length es
    → length (ds ++ d ∷ []) + length due + missed ≡ length es
hand_over_count ds d due ws es missed e h =
    let one : length ws ≡ 1 + length due = ap length e ∙ omega arith in
    omega (arith, h, one, length-append ds (d ∷ []))

announce-IsCalled :
    (kind : EventType) (batch_id : Option String) (s : Option Summary) (e : Option RagError)
    (run : TaskRun)
    → IsCalled run
    → IsCalled (announce kind batch_id s e run)
unfolding announce
announce-IsCalled kind batch_id s e run h = record {
  due =
      IsPart-append run.delivered run.addressed _
        (IsPart-start run.delivered run.waiting run.addressed h.due);
  counted = announce_count run.delivered run.waiting run.addressed _ run.missed h.counted;
}

call_next-IsCalled :
    (due : List Delivery) (run : TaskRun)
    → run.waiting ≡ due
    → IsCalled run
    → IsCalled (call_next due run)
unfolding call_next
call_next-IsCalled [] run e h = h
call_next-IsCalled (d ∷ due) run e h = record {
  due =
      subst (λ l. IsPart l run.addressed)
        (ap (λ l. run.delivered ++ l) e ∙ sym (append_assoc run.delivered (d ∷ []) due)) h.due;
  counted = hand_over_count run.delivered d due run.waiting run.addressed run.missed e h.counted;
}

pub act-IsCalled : (a : Act) (run : TaskRun) → IsCalled run → IsCalled (act a run)
unfolding act hand_over add_listener drop_listener
act-IsCalled (announces kind batch_id s e) run h = announce-IsCalled kind batch_id s e run h
act-IsCalled hands_over run h = call_next-IsCalled run.waiting run refl h
act-IsCalled (assigns s c) run h = record { due = h.due; counted = h.counted }
act-IsCalled (joins false) run h = h
act-IsCalled (joins true) run h = record { due = h.due; counted = h.counted }
act-IsCalled (drops l) run h = record { due = h.due; counted = h.counted }

pub new_run-IsCalled :
    (task_id : ℕ) (s : Option Summary) (key : ℕ) → IsCalled (new_run task_id s key)
unfolding new_run
new_run-IsCalled task_id s key = record { due = refl; counted = refl }
