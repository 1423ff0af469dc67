-- ===== src/Journal/Engine.antt =====
-- The extension of the journal by what a provider reports, by the sweeps and by the browser's setup.
use agentis.Lifecycle.{find_task, find_run}
use agentis.Journal.Finish.{reject_handoff-Logged, finish_run-Logged}
use agentis.Handoff.{handoff_for_run}
use agentis.Handoff.Decide.{claim_draft}
use agentis.Journal.Base.{
  Extends-trans, said-Extends, message-Extends, emit-Extends, log_of, Logged-trans, Extends-refl,
  LoggedWith, Logged,
}
use agentis.Engine.Waiting.{
  input_row, wait_approval_tables, WaitApprovalInput, request_input, request_approval, wait_input,
  wait_approval,
}
use agentis.Engine.{
  has_accepted_handoff, run_message_context, is_active, MessageContext, provider_state,
  engine_claim_draft,
}
use agentis.Engine.Outcome.{
  insert_artifact, success, unused_artifact_id, unaccepted, CompleteInput, fail_active,
  note_artifact, fail, complete,
}
use agentis.Engine.Progress.{
  task_exhausted, running_tables, run_exhausted, peer_message, bump_action, peer_said, mark_running,
  peer_progress,
}
use Prim.Native.String.{String}
use agentis.Prelude.{
  true, false, none, some, update_where, Ensures-map, inr, inl, Ensures-any, Ensures-bind,
  Ensures-if, some, Bool-cases, Ensures-option, Option, ℕ, Bool, not, ◌==◌, any_by, ◌||◌, ◌&&◌,
  Ensures, holds, threw,
}
use agentis.Schema.{ProviderState, Ident, HandoffRow, HandoffState, is_accepted}
use agentis.StoreDb.{fresh, message, Db, Env}

pub mark_running-Logged :
    (env : Env) (run_id session_id : Ident) (now : ℕ) (db : Db)
    → LoggedWith db (mark_running env run_id session_id now db)
unfolding mark_running
mark_running-Logged env run_id session_id now db = elim (Bool-cases (is_active run_id db)) [
  | inl a ↦ rw a (emit-Extends env _ _ now (running_tables run_id session_id now db))
  | inr a ↦ rw a (Extends-refl (log_of db))
]

pub bump_action-Logged :
    (run_id task_id : Ident) (db : Db) → LoggedWith db (bump_action run_id task_id db)
unfolding bump_action
bump_action-Logged run_id task_id db = elim (Bool-cases (is_active run_id db)) [
  | inr a ↦ rw a (Extends-refl (log_of db))
  | inl a ↦
      elim (Bool-cases
        (run_exhausted (find_run run_id db) || task_exhausted (find_task task_id db))) [
          | inl b ↦ rw (a, b) (Extends-refl (log_of db))
          | inr b ↦ rw (a, b) (Extends-refl (log_of db))
        ]
]

pub provider_state-Logged :
    (run_id : Ident) (change : ProviderState → ProviderState) (db : Db)
    → Logged db (provider_state run_id change db)
unfolding provider_state
provider_state-Logged run_id change db = Extends-refl (log_of db)

pub engine_claim_draft-Logged :
    (run_id : Ident) (db : Db) → LoggedWith db (engine_claim_draft run_id db)
unfolding engine_claim_draft claim_draft
engine_claim_draft-Logged run_id db =
    elim (Bool-cases (is_active run_id db && has_accepted_handoff run_id db)) [
      | inl a ↦ rw a (Extends-refl (log_of db))
      | inr a ↦ rw a (Extends-refl (log_of db))
    ]

peer_said-Logged :
    (env : Env) (h : HandoffRow) (run_id : Ident) (body : String) (now : ℕ) (c : MessageContext)
    (db : Db)
    → Logged db (peer_said env h run_id body now c db)
unfolding peer_said
peer_said-Logged env h run_id body now c db =
    let m = peer_message env h run_id body now c in
    elim (Bool-cases (not (message env m db).1)) [
      | inl a ↦ rw a (message-Extends env m db)
      | inr a ↦ rw a (said-Extends env _ _ now m db)
    ]

pub peer_progress-Logged :
    (env : Env) (run_id : Ident) (body : String) (now : ℕ) (db : Db)
    → Ensures (Logged db) (peer_progress env run_id body now db)
unfolding peer_progress
peer_progress-Logged env run_id body now db =
    Ensures-option (handoff_for_run run_id db) (λ _. holds (Extends-refl (log_of db)))
      λ h _.
        Ensures-if (not (is_accepted h.state) || not (is_active run_id db))
          (λ _. holds (Extends-refl (log_of db)))
          λ _.
            Ensures-bind (Ensures-any (run_message_context run_id db))
              (λ c _. holds (peer_said-Logged env h run_id body now c db))

pub wait_approval-Logged :
    (env : Env) (input : WaitApprovalInput) (db : Db)
    → Ensures (LoggedWith db) (wait_approval env input db)
unfolding wait_approval request_approval
wait_approval-Logged env input db =
    Ensures-if (not (is_active input.run_id db)) (λ _. holds (Extends-refl (log_of db)))
      λ a.
        Ensures-if
          (any_by (λ x. x.id == fresh env 0 db) db.approvals
            || any_by (λ x. x.id == fresh env 1 db) db.pending_actions)
          (λ _. threw)
          λ _.
            Ensures-bind (Ensures-any (run_message_context input.run_id db)) (λ c _.
              holds (said-Extends env _ _ input.now_ms _ (wait_approval_tables env input db)))

pub wait_input-Logged :
    (env : Env) (run_id : Ident) (prompt : String) (now : ℕ) (db : Db)
    → Ensures (Logged db) (wait_input env run_id prompt now db)
unfolding wait_input request_input
wait_input-Logged env run_id prompt now db =
    Ensures-if (not (is_active run_id db)) (λ _. holds (Extends-refl (log_of db)))
      λ a. Ensures-bind (Ensures-any (run_message_context run_id db)) (λ c _. holds (
        said-Extends env _ _ now _
          (record db { runs = update_where (λ r. r.id == run_id) input_row db.runs })))

note_artifact-Logged :
    (env : Env) (h : Option HandoffRow) (input : CompleteInput) (artifact_id : Ident) (db db' : Db)
    → Logged db db'
    → Logged db (note_artifact env h input artifact_id db')
unfolding note_artifact
note_artifact-Logged env none input artifact_id db db' v = v
note_artifact-Logged env (some h) input artifact_id db db' v =
    Extends-trans (log_of db) (log_of db') _ v (emit-Extends env _ _ input.now_ms db')

pub complete-Logged :
    (env : Env) (input : CompleteInput) (db : Db) → Ensures (LoggedWith db) (complete env input db)
unfolding complete
complete-Logged env input db =
    Ensures-if (not (is_active input.run_id db)) (λ _. holds (Extends-refl (log_of db)))
      λ _.
        Ensures-if (unaccepted (handoff_for_run input.run_id db))
          (λ _. holds (Extends-refl (log_of db)))
          λ _. Ensures-bind (Ensures-any (run_message_context input.run_id db)) λ c _.
            Ensures-bind (Ensures-any (unused_artifact_id env db)) λ _ _.
              Ensures-bind
                (finish_run-Logged env (success env input c (fresh env 0 db))
                  (insert_artifact env input c db))
                λ db' v.
                  holds
                    (note_artifact-Logged env (handoff_for_run input.run_id db) input _ db db' v)

pub fail-Logged :
    (env : Env) (run_id task_id : Ident) (error : String) (now : ℕ) (db : Db)
    → Ensures (Logged db) (fail env run_id task_id error now db)
unfolding fail fail_active
fail-Logged env run_id task_id error now db =
    Ensures-if (not (is_active run_id db)) (λ _. holds (Extends-refl (log_of db)))
      λ _.
        Ensures-bind (reject_handoff-Logged env run_id HandoffState.rejected _ error now db) after
  where
    after :
        (s : Bool × Db)
        → LoggedWith db s
        → Ensures (Logged db) (fail_active env run_id task_id error now s)
    after (true, db') v = holds v
    after (false, db') v =
        Ensures-bind (Ensures-any (run_message_context run_id db'))
          λ c _. Ensures-map (λ db2 w. Logged-trans db db' db2 v w) (finish_run-Logged env _ db')
