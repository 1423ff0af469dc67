-- ===== src/Runs/Engine.antt =====
-- The evolution of runs under what a provider reports.
use agentis.Engine.Progress.{peer_progress}
use agentis.Engine.Outcome.{success, unused_artifact_id}
use Prim.Native.String.{String}
use agentis.Handoff.{handoff_for_run}
use agentis.Handoff.Decide.{claim_draft}
use agentis.Engine.Outcome.{
  insert_artifact, unaccepted, CompleteInput, fail_active, note_artifact, fail, complete,
}
use agentis.Lifecycle.{
  find_task, is_finished_run_status, is_active_run_status, find_run, is_active_or_loading,
}
use agentis.Engine.{
  has_accepted_handoff, run_message_context, MessageContext, provider_state, engine_claim_draft,
  is_active,
}
use agentis.Engine.Waiting.{
  request_input, request_approval, approval_row, input_row, WaitApprovalInput, wait_input,
  wait_approval,
}
use agentis.Engine.Progress.{
  peer_message, task_exhausted, peer_said, run_exhausted, running_row, mark_running, bump_action,
}
use agentis.Schema.{HandoffRow, Ident, RunRow, ProviderState, is_loading, is_accepted, HandoffState}
use agentis.Prelude.{
  find_by_none, update_where_absent, Ensures-option, Ensures-map, Ensures-any, inr, Ensures-bind,
  any_by, inl, Bool-cases, update_where, Option-cases, Ensures-if, suc, ℕ, Bool, true, false, not,
  ◌&&◌, ◌||◌, ◌≡◌, some, none, Option, arith, ◌==◌, Ensures, holds, threw,
}
use agentis.StoreDb.{message, fresh, emit, Db, Env}
use agentis.Runs.Evolution.{
  AllEvolve-trans, AllEvolve-update_where, Evolves-refl, AllEvolve-update_found, AllEvolve-refl,
  Distinct, Evolves, AllEvolve,
}
use agentis.Runs.Lifecycle.{Evolved, EvolvedWith, finish_run-Evolved, reject_handoff-Evolved}

-- An active run is in the table with an active status.
is_active-found :
    (run_id : Ident) (db : Db)
    → is_active run_id db ≡ true
    → (r : RunRow) × (find_run run_id db ≡ some r) × (is_active_run_status r.status ≡ true)
unfolding is_active
is_active-found run_id db h = elim (Option-cases (find_run run_id db)) [
  | inl e ↦ absurd (ground (arith, e))
  | inr (r, e) ↦ (r, e, ground (arith, e))
]

-- An update of an active run that keeps it active, or at least keeps what evolution keeps.
active-AllEvolve :
    (run_id : Ident) (f : RunRow → RunRow) (db : Db)
    → Distinct db.runs
    → is_active run_id db ≡ true
    → ((r : RunRow) → is_active_run_status r.status ≡ true → Evolves r (f r))
    → AllEvolve db.runs (update_where (λ r. r.id == run_id) f db.runs)
active-AllEvolve run_id f db d a h =
    let (r, e, s) = is_active-found run_id db a in
    AllEvolve-update_found run_id f db.runs r d e (h r s)

running_row-Evolves :
    (session_id : Ident) (now : ℕ) (r : RunRow)
    → is_active_run_status r.status ≡ true
    → Evolves r (running_row session_id now r)
unfolding is_active_or_loading is_active_run_status is_finished_run_status
running_row-Evolves session_id now r h = ground arith

approval_row-Evolves :
    (r : RunRow) → is_active_run_status r.status ≡ true → Evolves r (approval_row r)
unfolding is_active_or_loading is_active_run_status is_finished_run_status
approval_row-Evolves r h = ground arith

input_row-Evolves : (r : RunRow) → is_active_run_status r.status ≡ true → Evolves r (input_row r)
unfolding is_active_or_loading is_active_run_status is_finished_run_status
input_row-Evolves r h = ground arith

pub mark_running-Evolved :
    (env : Env) (run_id session_id : Ident) (now : ℕ) (db : Db)
    → Distinct db.runs
    → EvolvedWith db (mark_running env run_id session_id now db)
unfolding mark_running emit
mark_running-Evolved env run_id session_id now db d = elim (Bool-cases (is_active run_id db)) [
  | inl a ↦ rw a (
      active-AllEvolve run_id (running_row session_id now) db d a
        (running_row-Evolves session_id now))
  | inr a ↦ rw a (AllEvolve-refl db.runs)
]

abbrev bumped : RunRow → RunRow
bumped r = record r { action_count = suc r.action_count }

bumped-Evolves : (r : RunRow) → Evolves r (bumped r)
unfolding is_active_or_loading
bumped-Evolves r = ground (arith, Evolves-refl r)

pub bump_action-Evolved :
    (run_id task_id : Ident) (db : Db) → EvolvedWith db (bump_action run_id task_id db)
unfolding bump_action
bump_action-Evolved run_id task_id db = elim (Bool-cases (is_active run_id db)) [
  | inr a ↦ rw a (AllEvolve-refl db.runs)
  | inl a ↦
      elim (Bool-cases
        (run_exhausted (find_run run_id db) || task_exhausted (find_task task_id db))) [
          | inl b ↦ rw (a, b) (AllEvolve-refl db.runs)
          | inr b ↦ rw (a, b) (AllEvolve-update_where _ bumped db.runs (λ r _. bumped-Evolves r))
        ]
]

abbrev changed : (ProviderState → ProviderState) → RunRow → RunRow
changed change r = record r { provider_state = change r.provider_state }

changed-Evolves :
    (change : ProviderState → ProviderState) (r : RunRow)
    → (is_loading r.provider_state.load_status
        || not (is_loading (change r.provider_state).load_status))
      ≡ true
    → Evolves r (changed change r)
unfolding is_active_or_loading
changed-Evolves change r h = ground (arith, Evolves-refl r)

-- A driver reports that a session is loading only of a run whose load was begun by a command.
abbrev pub StartsNoLoad : Ident → (ProviderState → ProviderState) → Db → Type 0
StartsNoLoad run_id change db =
    (r : RunRow)
    → find_run run_id db ≡ some r
    → (is_loading r.provider_state.load_status
        || not (is_loading (change r.provider_state).load_status))
      ≡ true

pub provider_state-Evolved :
    (run_id : Ident) (change : ProviderState → ProviderState) (db : Db)
    → Distinct db.runs
    → StartsNoLoad run_id change db
    → Evolved db (provider_state run_id change db)
unfolding provider_state
provider_state-Evolved run_id change db d h = elim (Option-cases (find_run run_id db)) [
  | inl e ↦
      rw
        (update_where_absent (λ r. r.id == run_id) (changed change) db.runs
          (find_by_none (λ r. r.id == run_id) db.runs e))
        (AllEvolve-refl db.runs)
  | inr (r, e) ↦
      AllEvolve-update_found run_id (changed change) db.runs r d e
        (changed-Evolves change r (h r e))
]

-- The claim of a draft action is of the action alone.
pub engine_claim_draft-Evolved :
    (run_id : Ident) (db : Db) → EvolvedWith db (engine_claim_draft run_id db)
unfolding engine_claim_draft claim_draft
engine_claim_draft-Evolved run_id db =
    elim (Bool-cases (is_active run_id db && has_accepted_handoff run_id db)) [
      | inl a ↦ rw a (AllEvolve-refl db.runs)
      | inr a ↦ rw a (AllEvolve-refl db.runs)
    ]

peer_said-Evolved :
    (env : Env) (h : HandoffRow) (run_id : Ident) (body : String) (now : ℕ) (c : MessageContext)
    (db : Db)
    → Evolved db (peer_said env h run_id body now c db)
unfolding peer_said emit message
peer_said-Evolved env h run_id body now c db =
    elim (Bool-cases (not (message env (peer_message env h run_id body now c) db).1)) [
      | inl a ↦ rw a (AllEvolve-refl db.runs)
      | inr a ↦ rw a (AllEvolve-refl db.runs)
    ]

pub peer_progress-Evolved :
    (env : Env) (run_id : Ident) (body : String) (now : ℕ) (db : Db)
    → Ensures (Evolved db) (peer_progress env run_id body now db)
unfolding peer_progress
peer_progress-Evolved env run_id body now db =
    Ensures-option (handoff_for_run run_id db) (λ _. holds (AllEvolve-refl db.runs))
      λ h _.
        Ensures-if (not (is_accepted h.state) || not (is_active run_id db))
          (λ _. holds (AllEvolve-refl db.runs))
          λ _.
            Ensures-bind (Ensures-any (run_message_context run_id db))
              (λ c _. holds (peer_said-Evolved env h run_id body now c db))

pub wait_approval-Evolved :
    (env : Env) (input : WaitApprovalInput) (db : Db)
    → Distinct db.runs
    → Ensures (EvolvedWith db) (wait_approval env input db)
unfolding wait_approval request_approval message emit
wait_approval-Evolved env input db d =
    Ensures-if (not (is_active input.run_id db)) (λ _. holds (AllEvolve-refl db.runs))
      λ a.
        Ensures-if
          (any_by (λ x. x.id == fresh env 0 db) db.approvals
            || any_by (λ x. x.id == fresh env 1 db) db.pending_actions)
          (λ _. threw)
          λ _. Ensures-bind (Ensures-any (run_message_context input.run_id db)) (λ c _.
            holds
              (active-AllEvolve input.run_id approval_row db d (ground arith) approval_row-Evolves))

pub wait_input-Evolved :
    (env : Env) (run_id : Ident) (prompt : String) (now : ℕ) (db : Db)
    → Distinct db.runs
    → Ensures (Evolved db) (wait_input env run_id prompt now db)
unfolding wait_input request_input message emit
wait_input-Evolved env run_id prompt now db d =
    Ensures-if (not (is_active run_id db)) (λ _. holds (AllEvolve-refl db.runs))
      λ a.
        Ensures-bind (Ensures-any (run_message_context run_id db))
          (λ c _. holds (active-AllEvolve run_id input_row db d (ground arith) input_row-Evolves))

note_artifact-Evolved :
    (env : Env) (h : Option HandoffRow) (input : CompleteInput) (artifact_id : Ident) (db db' : Db)
    → Evolved db db'
    → Evolved db (note_artifact env h input artifact_id db')
unfolding note_artifact emit
note_artifact-Evolved env none input artifact_id db db' v = v
note_artifact-Evolved env (some h) input artifact_id db db' v = v

pub complete-Evolved :
    (env : Env) (input : CompleteInput) (db : Db) → Ensures (EvolvedWith db) (complete env input db)
unfolding complete
complete-Evolved env input db =
    Ensures-if (not (is_active input.run_id db)) (λ _. holds (AllEvolve-refl db.runs))
      λ _.
        Ensures-if (unaccepted (handoff_for_run input.run_id db))
          (λ _. holds (AllEvolve-refl db.runs))
          λ _. Ensures-bind (Ensures-any (run_message_context input.run_id db)) λ c _.
            Ensures-bind (Ensures-any (unused_artifact_id env db)) λ _ _.
              Ensures-bind
                (finish_run-Evolved env (success env input c (fresh env 0 db))
                  (insert_artifact env input c db))
                λ db' v.
                  holds
                    (note_artifact-Evolved env (handoff_for_run input.run_id db) input _ db db' v)

pub fail-Evolved :
    (env : Env) (run_id task_id : Ident) (error : String) (now : ℕ) (db : Db)
    → Ensures (Evolved db) (fail env run_id task_id error now db)
unfolding fail fail_active
fail-Evolved env run_id task_id error now db =
    Ensures-if (not (is_active run_id db)) (λ _. holds (AllEvolve-refl db.runs))
      λ _.
        Ensures-bind (reject_handoff-Evolved env run_id HandoffState.rejected _ error now db)
          λ s v. after s v
  where
    after :
        (s : Bool × Db)
        → EvolvedWith db s
        → Ensures (Evolved db) (fail_active env run_id task_id error now s)
    after (true, db') v = holds v
    after (false, db') v = Ensures-bind (Ensures-any (run_message_context run_id db')) λ c _.
        Ensures-map (λ db2 w. AllEvolve-trans db.runs db'.runs db2.runs v w)
          (finish_run-Evolved env _ db')
