-- ===== src/Commands/Approval.antt =====
-- `expireApprovalAndRun` and `resolveApproval` of packages/cli/src/store.ts.
use Prim.Native.String.{String, ◌++◌}
use agentis.Prelude.{
  ℕ, Bool, true, false, not, ◌&&◌, ◌||◌, List, [], ◌∷◌, Option, some, none, ◌==◌, leb, some_eq,
  if◌then◌else◌, find_by, count_by, update_where, StoreErrorCode, Result, ok, throw, ◌>>=◌,
}
use agentis.Schema.{
  Ident, RunStatus, WaitingReason, ActionState, Decision, Effect, AuthorKind, AuthorName,
  MessageAuthorRole, MessageKind, MessageImportance, TransitionReason, DedupeKey, MessageBody,
  EventBody, ApprovalRow, PendingActionRow, RunRow, CommandReceipt, ApplyInput, is_pending,
  action_state_text, run_status_text,
}
use agentis.StoreDb.{Db, Env, emit, message}
use agentis.Receipts.{denied, accepted}
use agentis.Lifecycle.{FinishedRunStatus, FinishRunInput, finish_run, find_run}

abbrev pub find_approval : Ident → Db → Option ApprovalRow
find_approval id db = find_by (λ a. a.id == id) db.approvals

-- UPDATE pending_actions SET state=? WHERE approval_id=? AND state='pending'.
abbrev pub settle_actions : Ident → ActionState → List PendingActionRow → List PendingActionRow
settle_actions approval_id state =
    update_where (λ a. some_eq a.approval_id approval_id && is_pending a.state)
      (λ a. record a { state = state })

-- The two updates of an expiry. The first is by the identifier alone.
abbrev pub expire_tables : Ident → Db → Db
expire_tables id db = record db {
  approvals =
      update_where (λ a. a.id == id) (λ a. record a { state = ActionState.expired }) db.approvals;
  pending_actions = settle_actions id ActionState.expired db.pending_actions;
}

abbrev pub expiry : ApprovalRow → ℕ → Option Ident → FinishRunInput
expiry a now command_id = record {
  run_id = a.run_id;
  status = FinishedRunStatus.failed;
  now_ms = now;
  latest_artifact_id = none;
  message = record {
    author_kind = AuthorKind.system;
    author_name = AuthorName.agentis_name;
    author_role = MessageAuthorRole.system;
    kind = MessageKind.failure;
    importance = MessageImportance.blocking;
    dedupe_key = DedupeKey.approval_expired a.id;
    body = MessageBody.text "Approval expired before a decision was recorded.";
  };
  reason = TransitionReason.run_failed;
  event_body = EventBody.run_error a.run_id "approval expired" command_id;
}

unfoldable pub expire_approval_and_run : Env → ApprovalRow → ℕ → Option Ident → Db → Result Db
expire_approval_and_run env a now command_id db =
    finish_run env (expiry a now command_id) (expire_tables a.id db)

abbrev pub decision_state : Decision → ActionState
decision_state Decision.allowed = ActionState.allowed
decision_state Decision.denied = ActionState.denied

abbrev pub is_waiting_approval : RunStatus → Bool
is_waiting_approval RunStatus.waiting_approval = true
is_waiting_approval _ = false

abbrev pub clear_prompt : RunRow → RunRow
clear_prompt r = record r { provider_state = record (r.provider_state) { pending_prompt = none } }

-- The compare-and-set of the approval, the actions that wait for it, and the prompt of the run.
abbrev pub decide_tables : Ident → ApprovalRow → ActionState → Db → Db
decide_tables session_id a next db = record db {
  approvals =
      update_where (λ x. x.id == a.id && is_pending x.state)
        (λ x. record x { state = next; resolver = some session_id }) db.approvals;
  pending_actions = settle_actions a.id next db.pending_actions;
}

abbrev pub decision_text : Decision → String
decision_text d = "approval " ++ action_state_text (decision_state d)

-- The message and the event of a decision, between the updates.
unfoldable pub record_decision :
    Env → Ident → ApplyInput → ApprovalRow → RunRow → Decision → Db → Db
unfolding message emit
record_decision env command_id input a r decision db =
    emit env TransitionReason.approval_resolved
      (EventBody.approval_decided a.id decision a.run_id command_id) input.now_ms
      (message env
        (record {
          thread_id = r.thread_id;
          task_id = a.task_id;
          run_id = some a.run_id;
          author_kind = AuthorKind.human;
          author_name = AuthorName.owner;
          author_role = MessageAuthorRole.operator;
          kind = MessageKind.approval;
          importance = MessageImportance.decision;
          dedupe_key = DedupeKey.approval_decision a.id;
          body = MessageBody.text (decision_text decision);
          now_ms = input.now_ms;
        })
        (decide_tables input.principal.session_id a (decision_state decision) db)).0

abbrev pub update_run : Ident → (RunRow → RunRow) → Db → Db
update_run id f db = record db { runs = update_where (λ r. r.id == id) f db.runs }

abbrev pub denial : ApprovalRow → Ident → ℕ → FinishRunInput
denial a command_id now = record {
  run_id = a.run_id;
  status = FinishedRunStatus.failed;
  now_ms = now;
  latest_artifact_id = none;
  message = record {
    author_kind = AuthorKind.system;
    author_name = AuthorName.agentis_name;
    author_role = MessageAuthorRole.system;
    kind = MessageKind.failure;
    importance = MessageImportance.blocking;
    dedupe_key = DedupeKey.approval_denied a.id;
    body = MessageBody.text "The owner denied the requested action; the run failed.";
  };
  reason = TransitionReason.run_failed;
  event_body = EventBody.run_error a.run_id "approval denied" (some command_id);
}

abbrev pub resume_row : RunRow → RunRow
resume_row r = record r { status = RunStatus.running; waiting_reason = WaitingReason.none }

abbrev pub about_approval : Ident → ApprovalRow → List Effect → CommandReceipt
about_approval command_id a effects = record (accepted command_id effects) {
  approval_id = some a.id;
  run_id = some a.run_id;
  task_id = some a.task_id;
}

-- What follows the decision: a denied run fails, an allowed one runs on.
unfoldable pub after_decision :
    Env → Ident → ApplyInput → ApprovalRow → Decision → Db → Result (CommandReceipt × Db)
after_decision env command_id input a Decision.denied db = do
  db' ← finish_run env (denial a command_id input.now_ms) db
  ok (about_approval command_id a (Effect.reject_tool ∷ []), db')
after_decision env command_id input a Decision.allowed db =
    ok (about_approval command_id a (Effect.dispatch_tool ∷ []), update_run a.run_id resume_row db)

abbrev pub expired_receipt : Ident → ApprovalRow → CommandReceipt
expired_receipt command_id a = record (denied command_id "approval expired") {
  approval_id = some a.id;
  run_id = some a.run_id;
  task_id = some a.task_id;
  effects = Effect.interrupt_provider ∷ [];
}

-- An approval that is still open, of a run that waits for it: it expires or is decided.
unfoldable pub resolve_open :
    Env → Ident → ApplyInput → ApprovalRow → RunRow → Decision → Db → Result (CommandReceipt × Db)
resolve_open env command_id input a r decision db =
    if leb a.expires_at input.now_ms
    then (expire_approval_and_run env a input.now_ms (some command_id) db >>= λ db'.
        ok (expired_receipt command_id a, db'))
    else if not (count_by (λ x. x.id == a.id && is_pending x.state) db.approvals == 1)
    then throw StoreErrorCode.conflict "approval compare-and-set lost"
    else after_decision env command_id input a decision
        (update_run a.run_id clear_prompt (record_decision env command_id input a r decision db))

abbrev pub not_actionable : Ident → Ident → String → CommandReceipt
not_actionable command_id approval_id status =
    record (denied command_id ("run " ++ (status ++ "; approval no longer actionable"))) {
      approval_id = some approval_id;
    }

abbrev pub already_decided : Ident → Ident → ApprovalRow → CommandReceipt
already_decided command_id approval_id a =
    record (denied command_id ("approval already " ++ action_state_text a.state)) {
      approval_id = some approval_id;
    }

unfoldable pub resolve_approval :
    Env → Ident → ApplyInput → (approval_id : Ident) → Decision → Db → Result (CommandReceipt × Db)
resolve_approval env command_id input approval_id decision db =
    elim (find_approval approval_id db) [
      | none ↦ ok (denied command_id "approval not found", db)
      | some a ↦
          if not (is_pending a.state)
          then ok (already_decided command_id approval_id a, db)
          else elim (find_run a.run_id db) [
            | none ↦ ok (not_actionable command_id approval_id "missing", db)
            | some r ↦
                if not (is_waiting_approval r.status) || db.latched
                then ok (not_actionable command_id approval_id (run_status_text r.status), db)
                else resolve_open env command_id input a r decision db
          ]
    ]
