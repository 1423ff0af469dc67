-- ===== src/Commands/Once.antt =====
-- Several decisions on one approval, `resolveApproval` of packages/cli/src/store.ts.
use agentis.Prelude.{
  sym, subst, find_by_sound, ==_iff, count_by, ◌||◌, not, leb, Ensures-bind, Ensures_eq, Ensures-if,
  ok, inl, inr, ◌⊎◌, ==_refl, ◌≡◌, refl, true, false, ◌&&◌, some, arith, ◌==◌, find_by-update_where,
  Ensures, holds, threw, Ensures-option,
}
use agentis.Schema.{
  RunRow, ApplyInput, CommandReceipt, ActionState, Ident, Decision, ApprovalRow, is_pending,
}
use agentis.StoreDb.{Db, Env, emit, message}
use agentis.Lifecycle.{find_run, FinishRunInput, finish_run, finish_found}
use agentis.Commands.Approval.{
  already_decided, is_waiting_approval, expiry, denial, record_decision, expire_approval_and_run,
  resolve_open, after_decision, resolve_approval, decision_state, decide_tables, expire_tables,
  find_approval,
}

-- That this approval is there, and no longer pending.
abbrev Settled : Ident → Db → Type 0
Settled id db = (a : ApprovalRow) × (find_approval id db ≡ some a) × (is_pending a.state ≡ false)

finish_run-approvals :
    (env : Env) (input : FinishRunInput) (db : Db)
    → Ensures (λ db'. db'.approvals ≡ db.approvals) (finish_run env input db)
unfolding finish_run finish_found message emit
finish_run-approvals env input db =
    Ensures-option (find_run input.run_id db) (λ _. threw) (λ r _. holds refl)

expire_tables-Settled :
    (a : ApprovalRow) (db : Db)
    → find_approval a.id db ≡ some a
    → Settled a.id (expire_tables a.id db)
expire_tables-Settled a db e = (
  record a { state = ActionState.expired },
  ground (
    arith,
    ==_refl a.id,
    find_by-update_where (λ x. x.id == a.id) (λ x. x.id == a.id)
        (λ x. record x { state = ActionState.expired }) db.approvals (λ x i. x.id == a.id),
  ),
  refl,
)

decide_tables-Settled :
    (session_id : Ident) (a : ApprovalRow) (decision : Decision) (db : Db)
    → find_approval a.id db ≡ some a
    → is_pending a.state ≡ true
    → Settled a.id (decide_tables session_id a (decision_state decision) db)
decide_tables-Settled session_id a decision db e p = (
  record a { state = decision_state decision; resolver = some session_id },
  ground (
    arith,
    ==_refl a.id,
    find_by-update_where (λ x. x.id == a.id) (λ x. x.id == a.id && is_pending x.state)
        (λ x. record x { state = decision_state decision; resolver = some session_id }) db.approvals
        (λ x i. x.id == a.id),
  ),
  not_pending decision,
)
  where
    not_pending : (d : Decision) → is_pending (decision_state d) ≡ false
    not_pending Decision.allowed = refl
    not_pending Decision.denied = refl

-- Of a command that was accepted.
abbrev SettledBy : Ident → CommandReceipt × Db → Type 0
SettledBy id s = (s.0.accepted ≡ false) ⊎ Settled id s.1

after_decision-Settled :
    (env : Env) (command_id : Ident) (input : ApplyInput) (a : ApprovalRow) (decision : Decision)
    (db : Db)
    → Settled a.id db
    → Ensures (SettledBy a.id) (after_decision env command_id input a decision db)
unfolding after_decision
after_decision-Settled env command_id input a Decision.allowed db s = holds (inr s)
after_decision-Settled env command_id input a Decision.denied db (x, e, p) =
    Ensures-bind (finish_run-approvals env (denial a command_id input.now_ms) db)
      λ db' v. holds (inr (x, rw v e, p))

resolve_open-Settled :
    (env : Env) (command_id : Ident) (input : ApplyInput) (a : ApprovalRow) (r : RunRow)
    (decision : Decision) (db : Db)
    → find_approval a.id db ≡ some a
    → is_pending a.state ≡ true
    → Ensures (SettledBy a.id) (resolve_open env command_id input a r decision db)
unfolding resolve_open expire_approval_and_run record_decision emit message
resolve_open-Settled env command_id input a r decision db e p =
    Ensures-if (leb a.expires_at input.now_ms)
      (λ _.
        Ensures-bind
          (finish_run-approvals env (expiry a input.now_ms (some command_id))
            (expire_tables a.id db))
          (λ db' v. holds (inl refl)))
      λ _.
        Ensures-if (not (count_by (λ x. x.id == a.id && is_pending x.state) db.approvals == 1))
          (λ _. threw)
          λ _.
            after_decision-Settled env command_id input a decision _
              (decide_tables-Settled input.principal.session_id a decision db e p)

resolve_approval-Settled :
    (env : Env) (command_id : Ident) (input : ApplyInput) (approval_id : Ident)
    (decision : Decision) (db : Db)
    → Ensures
        (SettledBy approval_id)
        (resolve_approval env command_id input approval_id decision db)
unfolding resolve_approval
resolve_approval-Settled env command_id input approval_id decision db =
    Ensures-option (find_approval approval_id db) (λ _. holds (inl refl))
      λ a e.
        Ensures-if (not (is_pending a.state)) (λ _. holds (inl refl))
          λ p.
            Ensures-option (find_run a.run_id db) (λ _. holds (inl refl))
              λ r f.
                Ensures-if (not (is_waiting_approval r.status) || db.latched)
                  (λ _. holds (inl refl))
                  λ g.
                    let same =
                      (==_iff a.id approval_id).0
                        (find_by_sound (λ x. x.id == approval_id) db.approvals a e) in
                    subst
                      (λ k.
                        Ensures (SettledBy k) (resolve_open env command_id input a r decision db))
                      same
                      (resolve_open-Settled env command_id input a r decision db
                        (subst (λ k. find_approval k db ≡ some a) (sym same) e) (ground (arith, p)))

-- Once a decision on an approval was accepted, no later decision on it is: it is denied, and leaves the
-- database as it is, whatever the decision, the command and the time.
pub resolve_approval_once :
    (env : Env) (command_id later_id : Ident) (input later : ApplyInput) (approval_id : Ident)
    (decision again : Decision) (receipt : CommandReceipt) (db db' : Db)
    → resolve_approval env command_id input approval_id decision db ≡ ok (receipt, db')
    → receipt.accepted ≡ true
    → (refusal : CommandReceipt) × (resolve_approval env later_id later approval_id again db'
        ≡ ok (refusal, db'))
      × (refusal.accepted ≡ false)
unfolding resolve_approval
resolve_approval_once env command_id later_id input later approval_id decision again receipt db db'
      h t =
    elim (Ensures_eq (resolve_approval-Settled env command_id input approval_id decision db) h) [
      | inl f ↦ absurd (ground (arith, f, t))
      | inr (a, e, p) ↦
          (already_decided later_id approval_id a, rw (resolve_approval, e, p) refl, refl)
    ]
