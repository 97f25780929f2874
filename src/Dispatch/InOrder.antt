-- ===== src/Dispatch/InOrder.antt =====
-- Every pending call gets one result, in order.
use paper_collector_agent.Prelude.{
  ℕ, zero, suc, ◌+◌, ◌*◌, ◌≤◌, String, ◌≡◌, refl, sym, ap, ◌∙◌, true, false, none, some, List, [],
  ◌∷◌, ◌++◌, ◌=s◌, arith, if◌then◌else◌, length, inl, inr, Bool-cases,
}
use mathlib.Core.List.{append-nil, append_assoc}
use paper_collector_agent.Dispatch.{
  ToolCall, ToolOutput, ActionResult, State, Node, active_target, after_dispatch, after_confirm,
  dispatch_tool_call_node, add_result, tool_result, rejection, approved, confirm_node, tool_node,
  on_call, work,
}

module _ (decide : ToolCall → String) (output : ToolCall → ToolOutput)
    (delegate : ToolCall → ActionResult) where
  -- The result of running a call.
  abbrev pub run_call : ToolCall → ActionResult
  run_call call = if call.is_subagent then delegate call else tool_result call (output call)

  -- The result of a call: one that requires a confirmation runs only if it is approved.
  unfoldable pub result_of : ToolCall → ActionResult
  result_of call =
      if call.requires_confirmation
      then if decide call =s "approved" then run_call (approved call) else rejection call
      else run_call call

  unfoldable pub results_of : List ToolCall → List ActionResult
  unfolding result_of
  results_of [] = []
  results_of (call ∷ calls) = result_of call ∷ results_of calls

  -- With nothing active, a call from the front of the pending calls is worked off in at most three
  -- nodes.
  pub work-run :
      (fuel : ℕ) (call : ToolCall) (calls : List ToolCall) (results : List ActionResult)
      → call.requires_confirmation ≡ false
      → work decide output delegate
          (suc fuel)
          (active_target call)
          (record { pending_tool_calls = calls; active_tool_call = some call; results = results })
        ≡ work decide output delegate fuel Node.dispatch (record {
          pending_tool_calls = calls;
          active_tool_call = none;
          results = results ++ run_call call ∷ [];
        })
  unfolding work active_target on_call tool_node add_result
  work-run fuel call calls results e = elim (Bool-cases call.is_subagent) [
    | inl p ↦ simp (e, p)
    | inr p ↦ simp (e, p)
  ]

  -- The state with these pending calls and results, and nothing active.
  abbrev pub waiting : List ToolCall → List ActionResult → State
  waiting calls results = record {
    pending_tool_calls = calls;
    active_tool_call = none;
    results = results;
  }

  -- The first pending call becomes the active one.
  work-dispatch :
      (fuel : ℕ) (call : ToolCall) (calls : List ToolCall) (results : List ActionResult)
      → work decide output delegate (suc fuel) Node.dispatch (waiting (call ∷ calls) results)
        ≡ work decide output delegate fuel
            (active_target call)
            (record { pending_tool_calls = calls; active_tool_call = some call; results = results })
  unfolding work dispatch_tool_call_node after_dispatch
  work-dispatch fuel call calls results = refl

  work-approved :
      (fuel : ℕ) (call : ToolCall) (calls : List ToolCall) (results : List ActionResult)
      → call.requires_confirmation ≡ true
      → (decide call =s "approved") ≡ true
      → work decide output delegate
          (suc fuel)
          (active_target call)
          (record { pending_tool_calls = calls; active_tool_call = some call; results = results })
        ≡ work decide output delegate fuel (active_target (approved call)) (record {
          pending_tool_calls = calls;
          active_tool_call = some (approved call);
          results = results;
        })
  unfolding work active_target on_call confirm_node after_confirm
  work-approved fuel call calls results e p = simp (e, p)

  work-rejected :
      (fuel : ℕ) (call : ToolCall) (calls : List ToolCall) (results : List ActionResult)
      → call.requires_confirmation ≡ true
      → (decide call =s "approved") ≡ false
      → work decide output delegate
          (suc fuel)
          (active_target call)
          (record { pending_tool_calls = calls; active_tool_call = some call; results = results })
        ≡ work decide output delegate fuel Node.dispatch
            (waiting calls (results ++ rejection call ∷ []))
  unfolding work active_target on_call confirm_node after_confirm add_result
  work-rejected fuel call calls results e p = simp (e, p)

  -- The first call is worked off by at most three nodes, with its result.
  work-first :
      (fuel : ℕ) (call : ToolCall) (calls : List ToolCall) (results : List ActionResult)
      → (left : ℕ) × (fuel ≤ left)
        × (work decide output delegate
              (suc (suc (suc fuel)))
              Node.dispatch
              (waiting (call ∷ calls) results)
            ≡ work decide output delegate left Node.dispatch
                (waiting calls (results ++ result_of call ∷ [])))
  unfolding result_of
  work-first fuel call calls results = elim (Bool-cases call.requires_confirmation) [
    | inr e ↦ (
      suc fuel,
      omega arith,
      work-dispatch (suc (suc fuel)) call calls results
          ∙ work-run (suc fuel) call calls results e
          ∙ ap
              (λ r.
                work decide output delegate (suc fuel) Node.dispatch
                  (waiting calls (results ++ r ∷ [])))
              (sym (simp e)),
    )
    | inl e ↦ elim (Bool-cases (decide call =s "approved")) [
      | inl p ↦ (
        fuel,
        omega arith,
        work-dispatch (suc (suc fuel)) call calls results
            ∙ work-approved (suc fuel) call calls results e p
            ∙ work-run fuel (approved call) calls results (unfold approved in refl)
            ∙ ap
                (λ r.
                  work decide output delegate fuel Node.dispatch
                    (waiting calls (results ++ r ∷ [])))
                (sym (simp (e, p))),
      )
      | inr p ↦ (
        suc fuel,
        omega arith,
        work-dispatch (suc (suc fuel)) call calls results
            ∙ work-rejected (suc fuel) call calls results e p
            ∙ ap
                (λ r.
                  work decide output delegate (suc fuel) Node.dispatch
                    (waiting calls (results ++ r ∷ [])))
                (sym (simp (e, p))),
      )
    ]
  ]

  -- Enough nodes for the pending calls work off all of them: the model is asked again with no call
  -- left, and each call has added one result, in the order of the calls.
  pub work_lem :
      (calls : List ToolCall) (results : List ActionResult) (fuel : ℕ)
      → 3 * length calls + 2 ≤ fuel
      → work decide output delegate fuel Node.dispatch (waiting calls results)
        ≡ (Node.solve, waiting [] (results ++ results_of calls))
  unfolding results_of
  work_lem [] results zero h = absurd (omega arith)
  work_lem [] results (suc zero) h = absurd (omega arith)
  work_lem [] results (suc (suc fuel)) h =
      unfold work dispatch_tool_call_node after_dispatch in
      ap (λ r. (Node.solve, waiting [] r)) (sym (append-nil results))
  work_lem (call ∷ calls) results zero h = absurd (omega arith)
  work_lem (call ∷ calls) results (suc zero) h = absurd (omega arith)
  work_lem (call ∷ calls) results (suc (suc zero)) h = absurd (omega arith)
  work_lem (call ∷ calls) results (suc (suc (suc fuel))) h =
      let (left, enough, e) = work-first fuel call calls results in
      e
      ∙ work_lem calls (results ++ result_of call ∷ []) left (omega arith)
      ∙ ap (λ r. (Node.solve, waiting [] r))
          (append_assoc results (result_of call ∷ []) (results_of calls))
