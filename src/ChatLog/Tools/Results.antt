-- ===== src/ChatLog/Tools/Results.antt =====
-- The results of a batch: in which order they stand, and when the batch is complete.
use paper_collector_agent.Prelude.{
  ℕ, ◌≤◌, String, ◌≡◌, ◌≢◌, ◌↔◌, refl, ap, ◌∙◌, Bool, true, Option, none, some, List, [], ◌∷◌,
  arith, ◌=s◌, if◌then◌else◌, All, All-map, any, length, Bool-cases, Option-cases, inl, inr, eq_iff,
  =s_refl, =s→≡,
}
use paper_collector_agent.Json.{Json}
use paper_collector_agent.ChatLog.Types.{Message, Block, tool_result, MessageStatus}
use paper_collector_agent.ChatLog.Tools.{find_result, ordered_blocks, result_status, add_result}

-- The results that were received, by call.
abbrev pub Received : Type 0
Received = String → Option Block

-- The received results of these calls, in the order of the calls.
unfoldable pub collect : List String → Received → List Block
collect [] f = []
collect (id ∷ ids) f = let rest = collect ids f in elim (f id) [ none ↦ rest | some b ↦ b ∷ rest ]

-- Each block is the result of the call that it is received for.
abbrev pub IsTagged : Received → Type 0
IsTagged f =
    (id : String) (b : Block)
    → f id ≡ some b
    → (content : Json) × (is_error : Bool) × (b ≡ tool_result id content is_error)

-- One more result.
unfoldable pub receive : String → Block → Received → Received
receive tool_use_id b f id = if id =s tool_use_id then some b else f id

ordered_blocks-collect :
    (ids : List String) (tool_use_id : String) (b : Block) (blocks : List Block)
    → ordered_blocks ids tool_use_id b blocks
      ≡ collect ids (receive tool_use_id b (λ id. find_result id blocks))
unfolding ordered_blocks collect receive
ordered_blocks-collect [] tool_use_id b blocks = refl
ordered_blocks-collect (id ∷ ids) tool_use_id b blocks =
    ground (arith, ordered_blocks-collect ids tool_use_id b blocks)

abbrev pub is_call : List String → String → Bool
is_call ids id = any (λ j. j =s id) ids

find_result-cons :
    (id j : String) (content : Json) (is_error : Bool) (blocks : List Block)
    → find_result id (tool_result j content is_error ∷ blocks)
      ≡ elim (find_result id blocks) as (λ _. Option Block) [
        | some b ↦ some b
        | none ↦ if j =s id then some (tool_result j content is_error) else none
      ]
unfolding find_result
find_result-cons id j content is_error blocks = refl

-- Reading back what was collected.
find_result-collect :
    (f : Received) (ids : List String) (id : String)
    → IsTagged f
    → find_result id (collect ids f) ≡ (if is_call ids id then f id else none)
unfolding collect
find_result-collect f [] id h = unfold find_result in refl
find_result-collect f (j ∷ ids) id h = elim (Option-cases (f j)) [
  | inl e ↦ rw (e, collect) (ground (arith, find_result-collect f ids id h, eq_iff j id, e))
  | inr (b, e) ↦
      let (content, is_error, tag) = h j b e in
      rw (e, collect)
        (rw tag (
          rw (find_result-cons id j content is_error (collect ids f))
            (ground (arith, find_result-collect f ids id h, eq_iff j id, e, tag))))
]

-- Only what is received for these calls counts.
pub collect-ext :
    (ids : List String) (f g : Received)
    → All (λ id. f id ≡ g id) ids
    → collect ids f ≡ collect ids g
unfolding collect
collect-ext [] f g h = refl
collect-ext (id ∷ ids) f g h = ground (arith, h.0, collect-ext ids f g h.1)

pub All-is_call : (ids : List String) → All (λ id. is_call ids id ≡ true) ids
All-is_call [] = tt
All-is_call (j ∷ ids) =
    (rw (=s_refl j) refl, All-map _ _ ids (λ id h. ground (arith, h)) (All-is_call ids))

All-of {ℓ} : {P : String → Type ℓ} (ids : List String) → ((id : String) → P id) → All P ids
All-of [] f = tt
All-of (id ∷ ids) f = (f id, All-of ids f)

-- A message whose blocks were collected from the results received so far.
abbrev pub Holds : List String → Received → Message → Type 0
Holds ids f m = m.content ≡ collect ids f

pub read-collect :
    (ids : List String) (f : Received) (m : Message) (id : String)
    → IsTagged f
    → Holds ids f m
    → is_call ids id ≡ true
    → find_result id m.content ≡ f id
read-collect ids f m id h e c = ap (find_result id) e ∙ find_result-collect f ids id h ∙ (rw c refl)

receive_cong :
    (tool_use_id : String) (b : Block) (f g : Received) (id : String)
    → f id ≡ g id
    → receive tool_use_id b f id ≡ receive tool_use_id b g id
unfolding receive
receive_cong tool_use_id b f g id e = rw e refl

-- The message after one more result holds what was received with that result.
pub add_result-Holds :
    (user_number : ℕ) (ids : List String) (tool_use_id : String) (b : Block) (now : ℕ) (m : Message)
    (f : Received)
    → IsTagged f
    → Holds ids f m
    → Holds ids (receive tool_use_id b f) (add_result user_number ids tool_use_id b now m)
unfolding add_result
add_result-Holds user_number ids tool_use_id b now m f h e =
    let read : Received = λ id. find_result id m.content in
    ordered_blocks-collect ids tool_use_id b m.content
    ∙ collect-ext ids (receive tool_use_id b read) (receive tool_use_id b f) (
        All-map (λ id. is_call ids id ≡ true) _ ids
          (λ id c. receive_cong tool_use_id b read f id (read-collect ids f m id h e c))
          (All-is_call ids))

-- The received results are tagged after one more.
pub IsTagged-receive :
    (tool_use_id : String) (content : Json) (is_error : Bool) (f : Received)
    → IsTagged f
    → IsTagged (receive tool_use_id (tool_result tool_use_id content is_error) f)
unfolding receive
IsTagged-receive tool_use_id content is_error f h id b e = elim (Bool-cases (id =s tool_use_id)) [
  | inl p ↦ (content, is_error, ground (arith, p, e, =s→≡ id tool_use_id p))
  | inr p ↦ h id b (rw p at e)
]

-- Nothing received.
abbrev pub nothing : Received
nothing id = none

pub collect-nothing : (ids : List String) → collect ids nothing ≡ []
unfolding collect
collect-nothing [] = refl
collect-nothing (id ∷ ids) = collect-nothing ids

length-collect-le : (ids : List String) (f : Received) → length (collect ids f) ≤ length ids
unfolding collect
length-collect-le [] f = omega arith
length-collect-le (id ∷ ids) f = ground (arith, length-collect-le ids f)

collect_full :
    (ids : List String) (f : Received)
    → length (collect ids f) ≡ length ids
    → All (λ id. f id ≢ none) ids
unfolding collect
collect_full [] f e = tt
collect_full (id ∷ ids) f e = (
  λ p. ground (arith, length-collect-le ids f, p, e),
  collect_full ids f (ground (arith, length-collect-le ids f, e)),
)

full_collect :
    (ids : List String) (f : Received)
    → All (λ id. f id ≢ none) ids
    → length (collect ids f) ≡ length ids
unfolding collect
full_collect [] f h = refl
full_collect (id ∷ ids) f h = ground (arith, h.0, full_collect ids f h.1)

-- After a result, the message is completed exactly if every call of the batch has a result.
pub add_result-completed_iff :
    (user_number : ℕ) (ids : List String) (tool_use_id : String) (b : Block) (now : ℕ) (m : Message)
    → ((add_result user_number ids tool_use_id b now m).status ≡ MessageStatus.completed)
      ↔ All (λ id. receive tool_use_id b (λ j. find_result j m.content) id ≢ none) ids
unfolding add_result result_status
add_result-completed_iff user_number ids tool_use_id b now m =
    let f = receive tool_use_id b (λ j. find_result j m.content) in
    rw (ordered_blocks-collect ids tool_use_id b m.content)
      (λ e. collect_full ids f (ground arith), λ h. ground (arith, full_collect ids f h))
