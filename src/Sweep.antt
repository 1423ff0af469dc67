-- ===== src/Sweep.antt =====
-- `sweepRunTimeouts` and `interruptActive` of packages/cli/src/store.ts.
pub mod Overwrites
use agentis.Prelude.{
  ℕ, Bool, ◌&&◌, List, [], ◌∷◌, ◌++◌, some, none, ◌==◌, leb, if◌then◌else◌, map, filter_by,
  update_where, Result, ok, ◌>>=◌,
}
use agentis.Schema.{
  Ident, RunStatus, WaitingReason, HandoffState, AuthorKind, AuthorName, MessageAuthorRole,
  MessageKind, MessageImportance, TransitionReason, DedupeKey, MessageBody, EventBody, RunRow,
  HandoffRow, ApprovalRow, is_proposed, is_pending,
}
use agentis.StoreDb.{Db, Env, emit, message}
use agentis.Lifecycle.{FinishedRunStatus, FinishRunInput, finish_run, is_active_run_status}
use agentis.Handoff.{reject_handoff}
use agentis.Commands.Approval.{expire_approval_and_run}
use agentis.Commands.Control.{fail_loading}

-- `RunSweepEffect`: the run whose provider is to be interrupted; its effects are that one.
abbrev pub SweepEffects : Type 0
SweepEffects = List Ident

abbrev add_effect : Bool → Ident → SweepEffects → SweepEffects
add_effect rejected run_id effects = if rejected then effects ++ run_id ∷ [] else effects

-- The first loop: proposals whose time is up.
unfoldable pub sweep_handoffs :
    Env → ℕ → List HandoffRow → SweepEffects × Db → Result (SweepEffects × Db)
sweep_handoffs env now [] s = ok s
sweep_handoffs env now (h ∷ hs) (effects, db) =
    (if is_proposed h.state && leb h.expires_at now
      then (reject_handoff env h.recipient_run_id HandoffState.expired FinishedRunStatus.failed
            "acceptance timed out" now db
          >>= λ r. ok (add_effect r.0 h.recipient_run_id effects, r.1))
      else ok (effects, db))
    >>= sweep_handoffs env now hs

abbrev pub overdue : Ident → ℕ → FinishRunInput
overdue run_id now = record {
  run_id = run_id;
  status = FinishedRunStatus.failed;
  now_ms = now;
  latest_artifact_id = none;
  message = record {
    author_kind = AuthorKind.system;
    author_name = AuthorName.agentis_name;
    author_role = MessageAuthorRole.system;
    kind = MessageKind.failure;
    importance = MessageImportance.blocking;
    dedupe_key = DedupeKey.deadline run_id;
    body = MessageBody.text "The run deadline was exceeded.";
  };
  reason = TransitionReason.run_failed;
  event_body = EventBody.run_error run_id "run deadline exceeded" none;
}

-- The second loop: active runs past their deadline.
unfoldable pub sweep_overdue : Env → ℕ → List Ident → SweepEffects × Db → Result (SweepEffects × Db)
sweep_overdue env now [] s = ok s
sweep_overdue env now (id ∷ ids) (effects, db) = finish_run env (overdue id now) db >>= λ db'.
    sweep_overdue env now ids (effects ++ id ∷ [], db')

-- The third loop: pending approvals past their time.
unfoldable pub sweep_approvals :
    Env → ℕ → List ApprovalRow → SweepEffects × Db → Result (SweepEffects × Db)
sweep_approvals env now [] s = ok s
sweep_approvals env now (a ∷ as') (effects, db) =
    expire_approval_and_run env a now none db >>= λ db'.
    sweep_approvals env now as' (effects ++ a.run_id ∷ [], db')

abbrev pub overdue_ids : ℕ → Db → List Ident
overdue_ids now db =
    map (λ r. r.id)
      (filter_by (λ r. is_active_run_status r.status && leb r.deadline_at now) db.runs)

abbrev pub expired_approvals : ℕ → Db → List ApprovalRow
expired_approvals now db = filter_by (λ a. is_pending a.state && leb a.expires_at now) db.approvals

-- Each loop reads its rows when it begins.
unfoldable pub sweep_run_timeouts : Env → ℕ → Db → Result (SweepEffects × Db)
sweep_run_timeouts env now db = do
  s₁ ← sweep_handoffs env now db.handoffs ([], db)
  s₂ ← sweep_overdue env now (overdue_ids now s₁.1) s₁
  sweep_approvals env now (expired_approvals now s₂.1) s₂

abbrev pub interrupted_row : RunRow → RunRow
interrupted_row r = record r {
  status = RunStatus.interrupted;
  waiting_reason = WaitingReason.interrupted;
}

-- One round of the loop of `interruptActive`.
unfoldable pub interrupt_one : Env → ℕ → RunRow → Db → Db
unfolding message
interrupt_one env now r db =
    (message env
      (record {
        thread_id = r.thread_id;
        task_id = r.task_id;
        run_id = some r.id;
        author_kind = AuthorKind.system;
        author_name = AuthorName.agentis_name;
        author_role = MessageAuthorRole.system;
        kind = MessageKind.system;
        importance = MessageImportance.blocking;
        dedupe_key = DedupeKey.daemon_restart r.id now;
        body = MessageBody.text "The daemon restarted while this run was active.";
        now_ms = now;
      })
      (record db { runs = update_where (λ x. x.id == r.id) interrupted_row db.runs })).0

unfoldable pub interrupt_runs : Env → ℕ → List RunRow → Db → Db
interrupt_runs env now [] db = db
interrupt_runs env now (r ∷ rs) db = interrupt_runs env now rs (interrupt_one env now r db)

abbrev pub note_restart : Env → ℕ → List RunRow → Db → Db
note_restart env now [] db = db
note_restart env now (r ∷ rs) db =
    emit env TransitionReason.daemon_restart (EventBody.runs_interrupted (map (λ x. x.id) (r ∷ rs)))
      now db

abbrev pub active_runs : Db → List RunRow
active_runs db = filter_by (λ r. is_active_run_status r.status) db.runs

unfoldable pub interrupt_active : Env → ℕ → Db → List Ident × Db
interrupt_active env now db = (
  map (λ r. r.id) (active_runs db),
  note_restart env now (active_runs db) (fail_loading (interrupt_runs env now (active_runs db) db)),
)
