-- ===== src/ChatLog/Invariant/Messages.antt =====
-- The operations that append messages keep the invariant.
use paper_collector_agent.Prelude.{ℕ, String, refl, Option, none, some, List, [], any, ◌=s◌, ◌&&◌}
use paper_collector_agent.Json.{Json, Fields}
use paper_collector_agent.ChatLog.Types.{Message, Role, Block, MessageStatus}
use paper_collector_agent.ChatLog.Store.{lock_run, save_message, add_message, find_batch_message}
use paper_collector_agent.ChatLog.Ids.{normalize_user_id}
use paper_collector_agent.ChatLog.Tools.{
  Call, ActionResult, store_batch, append_text_message, append_tool_batch, append_tool_result,
  result_message, record_result, reuse_batch, block_eq, blocks_eq, has_manifest, tool_call_manifest,
  tool_call_blocks, call_ids, tool_result_block, add_result,
}
use paper_collector_agent.ChatLog.Triples.{
  Ensures, Ensures-bind, Ensures-pure, Ensures-weaken, Ensures-strengthen, Ensures-bind-lift,
  Ensures-bind-session, Ensures-bind-require,
}
use paper_collector_agent.ChatLog.Invariant.{
  IsValid, lock_run-IsLocked, add_message-IsValid, save_message-IsValid,
}

-- The lock on the run, where nothing later is assigned to the run.
lock_run-keeps :
    (user_number : ℕ) (conversation_id run_id : String)
    → Ensures IsValid (lock_run user_number conversation_id run_id) (λ _. IsValid)
lock_run-keeps user_number conversation_id run_id =
    Ensures-weaken _ _ (lock_run-IsLocked IsValid user_number conversation_id run_id)
      (λ r db h. h.0)

add_message-keeps :
    (user_number : ℕ) (conversation_id run_id : String) (role : Role) (blocks : List Block)
    (status : MessageStatus) (payload : Fields)
    → Ensures IsValid
        (add_message user_number conversation_id run_id role blocks status payload)
        (λ _. IsValid)
add_message-keeps user_number conversation_id run_id role blocks status payload =
    Ensures-weaken _ _
      (Ensures-strengthen _ _
        (add_message-IsValid (λ _. Unit {0}) user_number conversation_id run_id role blocks status
          payload)
        (λ db h. (h, tt)))
      (λ m db h. h.0)

pub append_text_message-Ensures :
    (user_id conversation_id run_id content : String)
    → Ensures IsValid (append_text_message user_id conversation_id run_id content) (λ _. IsValid)
unfolding append_text_message
append_text_message-Ensures user_id conversation_id run_id content =
    Ensures-bind-lift (normalize_user_id user_id) _ λ user.
      Ensures-bind (λ _. IsValid) (lock_run user.1 conversation_id run_id) _ (lock_run-keeps _ _ _)
        λ _.
          Ensures-bind (λ _. IsValid) (add_message _ _ _ _ _ _ _) _
            (add_message-keeps _ _ _ _ _ _ _) λ m. Ensures-pure m.id (λ db h. h)

reuse_batch-keeps :
    (m : Message) (blocks : List Block) (manifest : Json)
    → Ensures IsValid (reuse_batch m blocks manifest) (λ _. IsValid)
unfolding reuse_batch
reuse_batch-keeps m blocks manifest =
    Ensures-bind-require (blocks_eq m.content blocks && has_manifest m manifest) _ _
      (Ensures-pure m.id (λ db h. h.0))

store_batch-keeps :
    (user_number : ℕ) (conversation_id run_id batch_id : String) (calls : List Call)
    (o : Option Message)
    → Ensures IsValid
        (store_batch user_number conversation_id run_id batch_id calls o)
        (λ _. IsValid)
unfolding store_batch
store_batch-keeps user_number conversation_id run_id batch_id calls (some m) =
    reuse_batch-keeps m (tool_call_blocks calls) (tool_call_manifest calls)
store_batch-keeps user_number conversation_id run_id batch_id calls none =
    Ensures-bind (λ _. IsValid) (add_message _ _ _ _ _ _ _) _ (add_message-keeps _ _ _ _ _ _ _)
      λ m. Ensures-pure m.id (λ db h. h)

pub append_tool_batch-Ensures :
    (user_id conversation_id run_id batch_id : String) (calls : List Call)
    → Ensures IsValid
        (append_tool_batch user_id conversation_id run_id batch_id calls)
        (λ _. IsValid)
unfolding append_tool_batch
append_tool_batch-Ensures user_id conversation_id run_id batch_id calls =
    Ensures-bind-lift (normalize_user_id user_id) _ λ user.
      Ensures-bind (λ _. IsValid) (lock_run user.1 conversation_id run_id) _ (lock_run-keeps _ _ _)
        λ _. Ensures-bind-session _ λ seen.
          Ensures-strengthen IsValid _
            (store_batch-keeps user.1 conversation_id run_id batch_id calls
              (find_batch_message run_id Role.assistant batch_id "tool_calls" seen))
            (λ db h. h.0)

result_message-keeps :
    (user_number : ℕ) (conversation_id run_id batch_id : String) (calls : List Call)
    (o : Option Message)
    → Ensures IsValid
        (result_message user_number conversation_id run_id batch_id calls o)
        (λ _. IsValid)
unfolding result_message
result_message-keeps user_number conversation_id run_id batch_id calls (some m) =
    Ensures-bind-require (has_manifest m (tool_call_manifest calls)) _ _
      (Ensures-pure m (λ db h. h.0))
result_message-keeps user_number conversation_id run_id batch_id calls none =
    add_message-keeps user_number conversation_id run_id Role.user [] MessageStatus.streaming _

record_result-keeps :
    (user_number : ℕ) (ids : List String) (tool_use_id : String) (block : Block) (m : Message)
    (o : Option Block)
    → Ensures IsValid (record_result user_number ids tool_use_id block m o) (λ _. IsValid)
unfolding record_result
record_result-keeps user_number ids tool_use_id block m (some prior) =
    Ensures-bind-require (block_eq prior block) _ _ (Ensures-pure m.id (λ db h. h.0))
record_result-keeps user_number ids tool_use_id block m none = Ensures-bind-session _ λ seen.
    Ensures-bind (λ _. IsValid)
      (save_message m.id (add_result user_number ids tool_use_id block seen.now)) _
      (Ensures-strengthen IsValid _ (save_message-IsValid m.id _ (λ x. refl)) (λ db h. h.0))
      λ _. Ensures-pure m.id (λ db h. h)

pub append_tool_result-Ensures :
    (user_id conversation_id run_id batch_id : String) (calls : List Call) (result : ActionResult)
    → Ensures IsValid
        (append_tool_result user_id conversation_id run_id batch_id calls result)
        (λ _. IsValid)
unfolding append_tool_result
append_tool_result-Ensures user_id conversation_id run_id batch_id calls result =
    Ensures-bind-lift (normalize_user_id user_id) _ λ user.
      Ensures-bind (λ _. IsValid) (lock_run user.1 conversation_id run_id) _ (lock_run-keeps _ _ _)
        λ _. Ensures-bind-require (any (λ id. id =s result.action_id) (call_ids calls)) _ _ (
          Ensures-bind-session _ λ seen.
            Ensures-bind (λ _. IsValid)
              (result_message user.1 conversation_id run_id batch_id calls
                (find_batch_message run_id Role.user batch_id "tool_results" seen))
              _
              (Ensures-strengthen IsValid _
                (result_message-keeps user.1 conversation_id run_id batch_id calls _)
                (λ db h. h.0.0))
              λ m.
                record_result-keeps user.1 (call_ids calls) result.action_id
                  (tool_result_block result) m _)
