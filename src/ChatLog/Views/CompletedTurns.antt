-- ===== src/ChatLog/Views/CompletedTurns.antt =====
-- app/history/chat_log.py: `list_completed_turns_after`, the turns that are handed to the memory.
use paper_collector_agent.Prelude.{
  ℕ, zero, suc, ◌+◌, ◌<◌, String, ◌≡◌, refl, sym, ap, ◌∙◌, Bool, true, false, ◌&&◌, Option, none,
  some, List, [], ◌∷◌, ◌++◌, arith, ◌==◌, ◌=s◌, leb, ltb, if◌then◌else◌, select, take, length,
  length-append, Result, ok, err, ◌>>=◌, inl, inr, Bool-cases, Option-cases,
}
use mathlib.Core.List.{append-nil, append_assoc}
use paper_collector_agent.ChatLog.Types.{Run, RunStatus, Message, Db, ChatError, value_error}
use paper_collector_agent.ChatLog.Ids.{normalize_user_id, validate_conversation_id}
use paper_collector_agent.ChatLog.Views.{display_text, message_by_id}

pub record HistoryTurn : Type 0 where
  pub user_message_id : ℕ
  pub assistant_message_id : ℕ
  pub user_content : String
  pub assistant_content : String
  pub completed_at : ℕ

abbrev pub is_succeeded : RunStatus → Bool
is_succeeded RunStatus.succeeded = true
is_succeeded _ = false

abbrev pub is_given : Option ℕ → Bool
is_given none = false
is_given (some id) = true

-- The `WHERE` clause.
unfoldable pub is_completed_run : ℕ → String → Run → Bool
is_completed_run user_number conversation_id r =
    r.creator_id == user_number
    && r.conversation_id =s conversation_id
    && is_succeeded r.status
    && is_given r.input_message_id
    && is_given r.output_message_id

-- `output_message_id`, which the query has made sure of
unfoldable pub output_id : Run → ℕ
output_id r = elim r.output_message_id [ none ↦ 0 | some id ↦ id ]

-- `ORDER BY output_message_id`
unfoldable pub insert_by_output : Run → List Run → List Run
unfolding output_id
insert_by_output r [] = r ∷ []
insert_by_output r (s ∷ runs) =
    let rest = insert_by_output r runs in
    if leb (output_id r) (output_id s) then r ∷ s ∷ runs else s ∷ rest

unfoldable pub order_by_output : List Run → List Run
unfolding insert_by_output
order_by_output [] = []
order_by_output (r ∷ runs) = insert_by_output r (order_by_output runs)

-- `after_assistant_message_id is not None and run.output_message_id <= after_assistant_message_id`
unfoldable pub is_covered : Option ℕ → Run → Bool
unfolding output_id
is_covered none r = false
is_covered (some after) r = leb (output_id r) after

unfoldable pub turn_of_messages : Option Message → Option Message → Option HistoryTurn
turn_of_messages (some user) (some assistant) = some record {
  user_message_id = user.id;
  assistant_message_id = assistant.id;
  user_content = display_text user.content;
  assistant_content = display_text assistant.content;
  completed_at = assistant.created_at;
}
turn_of_messages _ _ = none

unfoldable pub message_of_key : Option ℕ → Db → Option Message
unfolding message_by_id
message_of_key none db = none
message_of_key (some id) db = message_by_id id db

unfoldable pub turn_of : Run → Db → Option HistoryTurn
unfolding turn_of_messages message_of_key
turn_of r db =
    turn_of_messages (message_of_key r.input_message_id db) (message_of_key r.output_message_id db)

-- The loop, with the turns that were collected.
unfoldable pub collect_turns : Option ℕ → ℕ → Db → List Run → List HistoryTurn → List HistoryTurn
unfolding is_covered turn_of
collect_turns after limit db [] turns = turns
collect_turns after limit db (r ∷ runs) turns =
    let skip = collect_turns after limit db runs turns in
    if is_covered after r then skip else elim (turn_of r db) [
      | none ↦ skip
      | some turn ↦
          let more = turns ++ turn ∷ [] in
          let rest = collect_turns after limit db runs more in
          if length more == limit then more else rest
    ]

unfoldable pub list_completed_turns_after :
    String → String → Option ℕ → ℕ → Db → Result ChatError (List HistoryTurn)
unfolding collect_turns order_by_output is_completed_run
list_completed_turns_after user_id conversation_id after limit db =
    if ltb limit 1 then err value_error else do
      (_, user_number) ← normalize_user_id user_id
      conversation_id ← validate_conversation_id conversation_id
      ok (
          collect_turns after limit db
            (order_by_output (select (is_completed_run user_number conversation_id) db.runs)) [])

-- All the turns behind the key, in the order of the runs.
unfoldable pub turns_after : Option ℕ → Db → List Run → List HistoryTurn
turns_after after db [] = []
turns_after after db (r ∷ runs) =
    let rest = turns_after after db runs in
    if is_covered after r
    then rest
    else elim (turn_of r db) [ none ↦ rest | some turn ↦ turn ∷ rest ]

take-append_full {ℓ} : {A : Type ℓ} (xs ys : List A) → take (length xs) (xs ++ ys) ≡ xs
take-append_full [] ys = refl
take-append_full (x ∷ xs) ys = ap (λ l. x ∷ l) (take-append_full xs ys)

take_all {ℓ} : {A : Type ℓ} (n : ℕ) (xs : List A) → length xs < n → take n xs ≡ xs
take_all zero xs h = absurd (omega arith)
take_all (suc n) [] h = refl
take_all (suc n) (x ∷ xs) h = ap (λ l. x ∷ l) (take_all n xs (omega arith))

-- One more turn ends the loop, or leaves room for the turns behind it.
last_turn :
    (limit : ℕ) (turns : List HistoryTurn) (turn : HistoryTurn) (behind rest : List HistoryTurn)
    → length turns < limit
    → (length (turns ++ turn ∷ []) < limit → rest ≡ take limit ((turns ++ turn ∷ []) ++ behind))
    → (if length (turns ++ turn ∷ []) == limit then turns ++ turn ∷ [] else rest)
      ≡ take limit (turns ++ turn ∷ behind)
last_turn limit turns turn behind rest h later =
    let more = turns ++ turn ∷ [] in
    let size : length more ≡ length turns + 1 = length-append turns (turn ∷ []) in
    let joined = append_assoc turns (turn ∷ []) behind in
    elim (Bool-cases (length more == limit)) [
      | inl e ↦
          let full : limit ≡ length more = ground arith in
          rw e (
            sym (take-append_full more behind)
            ∙ ap (λ n. take n (more ++ behind)) (sym full)
            ∙ ap (take limit) joined)
      | inr e ↦ rw e (later (ground arith) ∙ ap (take limit) joined)
    ]

-- From fewer turns than the limit, the loop returns these turns and the turns of the runs behind the
-- key, in the order of the runs, up to the limit.
pub collect_turns_lem :
    (after : Option ℕ) (limit : ℕ) (db : Db) (runs : List Run) (turns : List HistoryTurn)
    → length turns < limit
    → collect_turns after limit db runs turns ≡ take limit (turns ++ turns_after after db runs)
unfolding collect_turns turns_after
collect_turns_lem after limit db [] turns h =
    sym (take_all limit turns h) ∙ ap (take limit) (sym (append-nil turns))
collect_turns_lem after limit db (r ∷ runs) turns h = elim (Bool-cases (is_covered after r)) [
  | inl e ↦ rw e (collect_turns_lem after limit db runs turns h)
  | inr e ↦ elim (Option-cases (turn_of r db)) [
    | inl f ↦ rw (e, f) (collect_turns_lem after limit db runs turns h)
    | inr (turn, f) ↦
        rw (e, f)
          (last_turn limit turns turn (turns_after after db runs)
            (collect_turns after limit db runs (turns ++ turn ∷ [])) h
            (collect_turns_lem after limit db runs (turns ++ turn ∷ [])))
  ]
]
