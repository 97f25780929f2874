-- ===== src/ChatLog/ApprovedOnce.antt =====
-- An approval is granted once.
use mathlib.Core.Path.{subst}
use paper_collector_agent.Prelude.{
  ℕ, String, ◌≡◌, refl, sym, ◌∙◌, Bool, true, false, ◌&&◌, Option, some, Result, ok, arith,
  update_first, =s_refl, Bool-cases, inl, inr, if◌then◌else◌,
}
use paper_collector_agent.Json.{Fields, Items, nil, cons, obj, arr, get, dict_laws}
use paper_collector_agent.ChatLog.Types.{Db, Run, ChatError, pending_action_conflict}
use paper_collector_agent.ChatLog.Ids.{normalize_user_id}
use paper_collector_agent.ChatLog.Store.{pure, lock_run, same_run, save_run, ◌>>=◌, has_text}
use paper_collector_agent.ChatLog.Approval.{
  claim_pending_action, grant, resume, is_running, is_waiting, is_pending_action, was_approved,
  any_approval, as_list, approved_metadata, append_item, approval,
}
use paper_collector_agent.ChatLog.Locking.{
  IsFound, IsFound-update, lock_run-IsFound, lock_run-found, require-eq-ok, lift-eq-ok, bind-eq-ok,
  bind-ok,
}

-- The assignment to a run of the approval of an action, with the approvals and the metadata before it.
abbrev resumed : ℕ → Items → Fields → String → String → Option String → ℕ → Run → Run
resumed user_number approvals metadata action_id decision comment now =
    resume user_number
      (approved_metadata (append_item approvals (approval action_id decision comment now)) metadata)
      now

any_approval-append :
    (action_id decision : String) (comment : Option String) (now : ℕ) (items : Items)
    → any_approval action_id (append_item items (approval action_id decision comment now)) ≡ true
unfolding any_approval append_item approval has_text get
any_approval-append action_id decision comment now nil = rw (=s_refl action_id) refl
any_approval-append action_id decision comment now (cons (obj f) items) =
    ground (arith, any_approval-append action_id decision comment now items)
any_approval-append action_id decision comment now (cons x items) =
    any_approval-append action_id decision comment now items

get-approved_metadata :
    (items : Items) (metadata : Fields)
    → get "approval_history" (approved_metadata items metadata) ≡ some (arr items)
unfolding approved_metadata
get-approved_metadata items metadata = simp dict_laws

was_approved-resumed :
    (user_number : ℕ) (approvals : Items) (action_id decision : String) (comment : Option String)
    (now : ℕ) (metadata : Fields) (r : Run)
    → was_approved action_id (
        get "approval_history"
          (resumed user_number approvals metadata action_id decision comment now r).metadata)
      ≡ true
unfolding resume was_approved
was_approved-resumed user_number approvals action_id decision comment now metadata r =
    rw
      (get-approved_metadata (append_item approvals (approval action_id decision comment now))
        metadata)
      (any_approval-append action_id decision comment now approvals)

-- What a granted approval does to the store.
abbrev GrantedBy : ℕ → Run → String → String → Option String → Db → Db → Type 0
GrantedBy user_number r action_id decision comment db db' =
    (approvals : Items) × (db' ≡ record db {
      runs =
          update_first (same_run r)
            (resumed user_number approvals r.metadata action_id decision comment db.now) db.runs;
    })

ok-injective :
    {x y : Db} → ◌≡◌ {A = Result ChatError (Bool × Db)} (ok (true, x)) (ok (true, y)) → y ≡ x
ok-injective {x} {y} h = cc

grant-true :
    (user_number : ℕ) (r : Run) (action_id decision : String) (comment : Option String)
    (db db' : Db)
    → grant user_number r action_id decision comment db ≡ ok (true, db')
    → GrantedBy user_number r action_id decision comment db db'
unfolding grant save_run
grant-true user_number r action_id decision comment db db' h =
    let (pending, h1) =
      require-eq-ok (is_pending_action r action_id) pending_action_conflict _ db h in
    elim (Bool-cases (is_running r.status)) [
      | inl running ↦ absurd (let k = rw running at h1 in cc)
      | inr other ↦
          let h2 = rw other at h1 in
          let (waiting, h3) = require-eq-ok (is_waiting r.status) pending_action_conflict _ db h2 in
          let (approvals, listed, h4) =
            lift-eq-ok (as_list (get "approval_history" r.metadata)) _ db h3 in
          (approvals, ok-injective h4)
    ]

claim_true :
    (user_number : ℕ) (r : Run) (action_id decision : String) (comment : Option String)
    (db db' : Db)
    → (if is_running r.status && was_approved action_id (get "approval_history" r.metadata)
          then pure false
          else grant user_number r action_id decision comment)
        db
      ≡ ok (true, db')
    → GrantedBy user_number r action_id decision comment db db'
claim_true user_number r action_id decision comment db db' h =
    elim (Bool-cases
      (is_running r.status && was_approved action_id (get "approval_history" r.metadata))) [
        | inl b ↦ absurd (let k = rw b at h in cc)
        | inr b ↦ grant-true user_number r action_id decision comment db db' (rw b at h)
      ]

-- Once an approval is granted, `claim_pending_action` sees it in the run's approvals.
again :
    (number : ℕ) (conversation_id run_id : String) (r : Run) (action_id decision decision' : String)
    (comment comment' : Option String) (db seen db' : Db)
    → lock_run number conversation_id run_id db ≡ ok (r, seen)
    → GrantedBy number r action_id decision comment seen db'
    → (lock_run number conversation_id run_id >>= (λ run.
          if is_running run.status && was_approved action_id (get "approval_history" run.metadata)
          then pure false
          else grant number run action_id decision' comment'))
        db'
      ≡ ok (false, db')
unfolding resume
again number conversation_id run_id r action_id decision decision' comment comment' db seen db'
      locked (approvals, stored) =
    let (was, same) = lock_run-IsFound number conversation_id run_id r db seen locked in
    let was_seen = subst (IsFound number conversation_id run_id r) (sym same) was in
    let change = resumed number approvals r.metadata action_id decision comment seen.now in
    let is = IsFound-update number conversation_id run_id r seen change refl refl refl was_seen in
    let found = lock_run-found number conversation_id run_id (change r) _ is in
    let approved =
      was_approved-resumed number approvals action_id decision comment seen.now r.metadata r in
    rw stored (bind-ok (lock_run number conversation_id run_id) _ _ found ∙ rw approved refl)

-- An approval that `claim_pending_action` grants is granted once: after the call that returns
-- `True`, a call for the same action, with any decision and comment, returns `False` and
-- leaves the store as it is.
pub claim_pending_action-once :
    (user_id conversation_id run_id action_id decision decision' : String)
    (comment comment' : Option String) (db db' : Db)
    → claim_pending_action user_id conversation_id run_id action_id decision comment db
      ≡ ok (true, db')
    → claim_pending_action user_id conversation_id run_id action_id decision' comment' db'
      ≡ ok (false, db')
unfolding claim_pending_action resume
claim_pending_action-once user_id conversation_id run_id action_id decision decision' comment
      comment' db db' h =
    let (named, checked, h1) = lift-eq-ok (normalize_user_id user_id) _ db h in
    let (r, seen, locked, h2) = bind-eq-ok (lock_run named.1 conversation_id run_id) _ db h1 in
    rw checked (
      again named.1 conversation_id run_id r action_id decision decision' comment comment' db seen
        db' locked (claim_true named.1 r action_id decision comment seen db' h2))
