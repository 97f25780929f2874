-- ===== src/Examples/Calls.antt =====
-- A concrete batch of tool calls.
use paper_collector_agent.Prelude.{◌≡◌, ◌++◌, String, none, List, [], ◌∷◌, arith, true, false}
use paper_collector_agent.Dispatch.{ToolCall, ToolOutput, ActionResult, ActionStatus, Node, work}
use paper_collector_agent.Dispatch.InOrder.{waiting, results_of, work_lem}

abbrev batch : List ToolCall
batch =
    record {
      id = "a";
      name = "search_web";
      is_subagent = false;
      requires_confirmation = false;
      batch_id = "b";
    }
    ∷ record {
      id = "b";
      name = "task_indexing";
      is_subagent = true;
      requires_confirmation = true;
      batch_id = "b";
    }
    ∷ []

abbrev decide : ToolCall → String
decide call = "approved"

abbrev output : ToolCall → ToolOutput
output call = record { content = "found"; is_error = false; error_type = none }

abbrev delegate : ToolCall → ActionResult
delegate call = record {
  action_id = call.id;
  is_subagent = true;
  name = call.name;
  batch_id = call.batch_id;
  status = ActionStatus.success;
  summary = "indexed";
  content = none;
  error_code = none;
  error_message = none;
}

work_lem_example :
    work decide output delegate 8 Node.dispatch (waiting decide output delegate batch []) ≡ (
      Node.solve,
      waiting decide output delegate [] ([] ++ results_of decide output delegate batch),
    )
work_lem_example = work_lem decide output delegate batch [] 8 (omega arith)
