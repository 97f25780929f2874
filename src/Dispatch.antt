-- ===== src/Dispatch.antt =====
-- app/llm/graph/main: how the main agent works off the tool calls of one answer of the model: the
-- conditions of condition.py, and the nodes dispatch, confirm, tool and final.
pub mod InOrder
use Prim.Native.String
use paper_collector_agent.Prelude.{
  ℕ, zero, suc, String, Bool, true, false, Option, none, some, List, [], ◌∷◌, ◌++◌, ◌=s◌,
  if◌then◌else◌, is_empty,
}

-- `PendingToolCallState`, without the arguments, which the tools read; `is_subagent` says whether
-- `kind` is `subagent`.
pub record ToolCall : Type 0 where
  pub id : String
  pub name : String
  pub is_subagent : Bool
  pub requires_confirmation : Bool
  pub batch_id : String

pub data ActionStatus : Type 0 where
  success partial error rejected : ActionStatus

-- The `last_action_result` of `build_action_result_update`, with the `data` as a text.
pub record ActionResult : Type 0 where
  pub action_id : String
  pub is_subagent : Bool
  pub name : String
  pub batch_id : String
  pub status : ActionStatus
  pub summary : String
  pub content : Option String
  pub error_code : Option String
  pub error_message : Option String

-- The part of `MainAgentState` that these nodes read and write; `results` are the tool messages that
-- they have added, in order.
pub record State : Type 0 where
  pub pending_tool_calls : List ToolCall
  pub active_tool_call : Option ToolCall
  pub results : List ActionResult

pub data Node : Type 0 where
  solve dispatch confirm tool subagent : Node

unfoldable pub active_target : ToolCall → Node
active_target call =
    if call.requires_confirmation
    then Node.confirm
    else if call.is_subagent
    then Node.subagent
    else Node.tool

unfoldable pub after_dispatch : State → Node
unfolding active_target
after_dispatch s = elim s.active_tool_call [ none ↦ Node.solve | some call ↦ active_target call ]

unfoldable pub after_confirm : State → Node
unfolding active_target
after_confirm s = elim s.active_tool_call [ none ↦ Node.dispatch | some call ↦ active_target call ]

unfoldable pub dispatch_tool_call_node : State → State
dispatch_tool_call_node s = elim s.active_tool_call [
  | some call ↦ s
  | none ↦ elim s.pending_tool_calls [
    | [] ↦ s
    | call ∷ calls ↦ record s { active_tool_call = some call; pending_tool_calls = calls }
  ]
]

-- What a tool returns.
pub record ToolOutput : Type 0 where
  pub content : String
  pub is_error : Bool
  pub error_type : Option String

-- The result of `build_action_result_update`, and the state with it.
unfoldable pub add_result : ActionResult → State → State
add_result result s = record s { active_tool_call = none; results = s.results ++ result ∷ [] }

unfoldable pub tool_result : ToolCall → ToolOutput → ActionResult
tool_result call out = record {
  action_id = call.id;
  is_subagent = call.is_subagent;
  name = call.name;
  batch_id = call.batch_id;
  status = if out.is_error then ActionStatus.error else ActionStatus.success;
  summary = if out.is_error then "tool failed" else "tool completed";
  content = some out.content;
  error_code = out.error_type;
  error_message = if out.is_error then some out.content else none;
}

unfoldable pub rejection : ToolCall → ActionResult
rejection call = record {
  action_id = call.id;
  is_subagent = call.is_subagent;
  name = call.name;
  batch_id = call.batch_id;
  status = ActionStatus.rejected;
  summary = "用户拒绝执行该操作。";
  content = none;
  error_code = some "USER_REJECTED";
  error_message = none;
}

-- `{**call, "requires_confirmation": False}`
unfoldable pub approved : ToolCall → ToolCall
approved call = record call { requires_confirmation = false }

-- The confirm node, from the decision that the interrupt is resumed with.
unfoldable pub confirm_node : String → ToolCall → State → State
unfolding approved rejection add_result
confirm_node decision call s =
    if decision =s "approved"
    then record s { active_tool_call = some (approved call) }
    else add_result (rejection call) s

unfoldable pub tool_node : ToolOutput → ToolCall → State → State
unfolding tool_result add_result
tool_node out call s = add_result (tool_result call out) s

pub record Final : Type 0 where
  pub reply : String
  pub is_completed : Bool
  pub error : Option String

-- The final node, from whether the run is completed, its reply and its error.
unfoldable pub final_node : Bool → String → Option String → Final
final_node true reply message = record { reply = reply; is_completed = true; error = none }
final_node false reply none = record {
  reply = "任务执行失败：agent failed";
  is_completed = false;
  error = some "agent failed";
}
final_node false reply (some message) =
    let shown = if is_empty message then "agent failed" else message in
    record { reply = String.◌++◌ "任务执行失败：" shown; is_completed = false; error = some shown }

-- The decision on each call, the output of each tool, and the result of each subagent, whose graph is
-- not part of this model.
module _ (decide : ToolCall → String) (output : ToolCall → ToolOutput)
    (delegate : ToolCall → ActionResult) where
  -- A node that works on the active call.
  unfoldable pub on_call : Node → ToolCall → State → State
  unfolding confirm_node tool_node add_result
  on_call Node.confirm call s = confirm_node (decide call) call s
  on_call Node.tool call s = tool_node (output call) call s
  on_call Node.subagent call s = add_result (delegate call) s
  on_call _ call s = s

  -- The graph from a node on: the nodes in the order that the conditions give, until the model is
  -- asked again.
  unfoldable pub work : ℕ → Node → State → Node × State
  unfolding on_call after_dispatch after_confirm dispatch_tool_call_node
  work zero node s = (node, s)
  work (suc fuel) Node.solve s = (Node.solve, s)
  work (suc fuel) Node.dispatch s =
      let t = dispatch_tool_call_node s in work fuel (after_dispatch t) t
  work (suc fuel) Node.confirm s =
      let t = elim s.active_tool_call as (λ _. State) [
        | none ↦ s
        | some call ↦ on_call Node.confirm call s
      ] in
      work fuel (after_confirm t) t
  work (suc fuel) node s =
      let t = elim s.active_tool_call as (λ _. State) [
        | none ↦ s
        | some call ↦ on_call node call s
      ] in
      work fuel Node.dispatch t
