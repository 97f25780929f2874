-- ===== src/ChatLog/Tools/Firsts.antt =====
-- Of the results of each call the one that came first.
use paper_collector_agent.Prelude.{
  String, ◌≡◌, ◌≢◌, ap, true, Option, none, some, List, [], ◌∷◌, arith, ◌=s◌, if◌then◌else◌,
  Bool-cases, inl, inr, =s→≡,
}
use paper_collector_agent.ChatLog.Types.{Block}
use paper_collector_agent.ChatLog.Tools.{ActionResult, tool_result_block}
use paper_collector_agent.ChatLog.Tools.Results.{Received, receive}

-- For each call the result that came first.
unfoldable pub first_result : List ActionResult → Received
unfolding tool_result_block
first_result [] id = none
first_result (result ∷ results) id =
    let later = first_result results id in
    if id =s result.action_id then some (tool_result_block result) else later

-- What was received before, and else what came first.
abbrev pub first_of : Received → List ActionResult → Received
first_of f results id = elim (f id) as (λ _. Option Block) [
  | some b ↦ some b
  | none ↦ first_result results id
]

pub first_of-nil : (f : Received) (id : String) → f id ≡ first_of f [] id
unfolding first_result
first_of-nil f id = ground arith

-- A result that is passed over, because its call is not of the batch or has a result.
pub first_of-passed :
    (f : Received) (result : ActionResult) (results : List ActionResult) (id : String)
    → ((id =s result.action_id) ≡ true → f id ≢ none)
    → first_of f results id ≡ first_of f (result ∷ results) id
unfolding first_result
first_of-passed f result results id h = ground (arith, h)

pub first_of-stored :
    (f : Received) (result : ActionResult) (results : List ActionResult) (id : String)
    → f result.action_id ≡ none
    → first_of (receive result.action_id (tool_result_block result) f) results id
      ≡ first_of f (result ∷ results) id
unfolding first_result receive
first_of-stored f result results id missing = elim (Bool-cases (id =s result.action_id)) [
  | inl t ↦
      let same : id ≡ result.action_id = =s→≡ id result.action_id t in
      ground (arith, t, missing, ap f same)
  | inr n ↦ ground (arith, n)
]
