-- ===== src/System/Moves.antt =====
-- How each step of the store changes the runs: they evolve, or one of them takes a slot.
use agentis.Runs.Sweeps.{interrupt_active-Evolved, sweep_run_timeouts-Evolved}
use agentis.Runs.Commands.{
  stop_all-Evolved, cancel_run-Evolved, answer_input-Evolved, resolve_approval-Evolved,
}
use agentis.Runs.Lifecycle.{decide_handoff-Evolved}
use agentis.Browser.{ExchangeInput, acknowledge}
use agentis.Runs.Engine.{
  fail-Evolved, complete-Evolved, wait_input-Evolved, wait_approval-Evolved, bump_action-Evolved,
  provider_state-Evolved, peer_progress-Evolved, engine_claim_draft-Evolved, mark_running-Evolved,
}
use agentis.Prelude.{
  Bool, ◌||◌, count_by, none, filter_by, find_by, Ensures-option, Ensures-if, ℕ, Option-cases,
  Ensures_of_ok, inr, inl, ◌==◌, Ensures_eq, not, any_by, Ensures-map, Bool-cases, List, Ensures,
  holds, threw, ok, err, Result,
}
use agentis.Schema.{
  same_provider, SourceKind, ProviderKind, is_owner, CommandReceipt, Ident, RunRow, ApplyInput,
  Command,
}
use agentis.StoreDb.{fresh, emit, Db, Env}
use agentis.Commands.Submit.{Staged}
use agentis.Commands.Dispatch.{
  draw_command, prior_command, Store, run_command, dispatch, settle, apply_command,
}
use agentis.Runs.Evolution.{AllEvolve, AllEvolve-refl, Distinct}
use agentis.Runs.Starts.{load_session-Starts, propose_handoff-Starts, submit_task-Starts, Starts}
use agentis.Browser.{
  acknowledge, is_usable, is_nil, is_changed, is_spent, browser_session, exchange_bootstrap,
  issue_bootstrap, acknowledge_setup,
}
use agentis.System.{
  Step, applies, marks_running, decides, claims, reports_progress, reports_state, bumps,
  waits_approval, waits_input, completes, fails, sweeps, interrupts, issues, exchanges,
  acknowledges,
}

pub data Moves (latched : Bool) (rs rs' : List RunRow) : Type 0 where
  evolved : AllEvolve rs rs' → Moves latched rs rs'
  started : Starts latched rs rs' → Moves latched rs rs'

abbrev pub MovesWith {ℓ} : {A : Type ℓ} → Db → A × Db → Type 0
MovesWith db s = Moves db.latched db.runs s.1.runs

run_command-Moves :
    (env : Env) (id : Ident) (input : ApplyInput) (command : Command) (db : Db)
    → Distinct db.runs
    → Ensures (MovesWith db) (run_command env id input command db).1
unfolding run_command
run_command-Moves env id input (Command.submit_task c) db d =
    Ensures-map (λ s v. started v) (submit_task-Starts env id input c db)
run_command-Moves env id input (Command.propose_handoff source context) db d =
    Ensures-map (λ s v. started v) (propose_handoff-Starts env id input source context db)
run_command-Moves env id input (Command.resolve_approval a decision) db d =
    Ensures-map (λ s v. evolved v) (resolve_approval-Evolved env id input a decision db d)
run_command-Moves env id input (Command.answer_input r answers) db d =
    Ensures-map (λ s v. evolved v) (answer_input-Evolved env id input r answers db d)
run_command-Moves env id input (Command.cancel_run r) db d =
    Ensures-map (λ s v. evolved v) (cancel_run-Evolved env id input r db)
run_command-Moves env id input Command.stop_all db d =
    Ensures-map (λ s v. evolved v) (stop_all-Evolved env id input db)
run_command-Moves env id input (Command.load_session r) db d =
    Ensures-map (λ s v. started v) (load_session-Starts id r db)

settle-Moves :
    (env : Env) (input : ApplyInput) (s : Store) (result : Staged × Result (CommandReceipt × Db))
    → Ensures (MovesWith s.db) result.1
    → Moves s.db.latched s.db.runs (settle env input s result).0.db.runs
unfolding settle
settle-Moves env input s (staged, err e) v = evolved (AllEvolve-refl s.db.runs)
settle-Moves env input s (staged, ok (receipt, db)) v =
    elim (Bool-cases (any_by (λ c. c.id == receipt.command_id) db.commands)) [
      | inl t ↦ rw t (evolved (AllEvolve-refl s.db.runs))
      | inr t ↦ rw t (Ensures_of_ok v)
    ]

pub apply_command-Moves :
    (env : Env) (input : ApplyInput) (s : Store)
    → Distinct s.db.runs
    → Moves s.db.latched s.db.runs (apply_command env input s).0.db.runs
unfolding apply_command dispatch
apply_command-Moves env input s d = elim (Bool-cases (not (is_owner input.principal.kind))) [
  | inl t ↦ rw t (evolved (AllEvolve-refl s.db.runs))
  | inr t ↦ rw t (elim (Option-cases (prior_command input.idempotency_key s.db)) [
    | inl e ↦ rw e (
        settle-Moves env input s (dispatch env input s.db)
          (run_command-Moves env (fresh env 0 s.db) input input.command (draw_command s.db) d))
    | inr (prior, e) ↦ rw e (evolved (AllEvolve-refl s.db.runs))
  ])
]

same : (db : Db) → Moves db.latched db.runs db.runs
same db = evolved (AllEvolve-refl db.runs)

exchange_bootstrap-Moves :
    (input : ExchangeInput) (db : Db) → Ensures (MovesWith db) (exchange_bootstrap input db)
unfolding exchange_bootstrap
exchange_bootstrap-Moves input db =
    Ensures-option (find_by (is_usable input.code_hash input.now_ms) db.bootstraps)
      (λ _. holds (same db))
      λ b _.
        Ensures-if (not (count_by (is_usable input.code_hash input.now_ms) db.bootstraps == 1))
          (λ _. holds (same db))
          λ _.
            Ensures-if (any_by (λ s. s.token_hash == input.token_hash) db.sessions) (λ _. threw)
              (λ _. holds (same db))

issue_bootstrap-Moves :
    (code_hash owner_session : Ident) (now expires_at : ℕ) (db : Db)
    → Ensures (MovesWith db) (issue_bootstrap code_hash owner_session now expires_at db)
unfolding issue_bootstrap
issue_bootstrap-Moves code_hash owner_session now expires_at db =
    Ensures-if
      (any_by (λ b. b.code_hash == code_hash) (filter_by (λ b. not (is_spent now b)) db.bootstraps))
      (λ _. threw) (λ _. holds (same db))

acknowledge_setup-Moves :
    (env : Env) (token_hash : Ident) (provider : ProviderKind) (kinds : List SourceKind) (now : ℕ)
    (db : Db)
    → MovesWith db (acknowledge_setup env token_hash provider kinds now db)
unfolding acknowledge_setup acknowledge emit
acknowledge_setup-Moves env token_hash provider kinds now db =
    elim (Option-cases (browser_session token_hash none now db)) [
      | inl e ↦ rw (acknowledge_setup, e) (same db)
      | inr (s, e) ↦
          rw (acknowledge_setup, e)
            (elim (Bool-cases (not (same_provider s.provider provider) || is_nil kinds)) [
              | inl t ↦ rw t (same db)
              | inr t ↦ rw t (elim (Bool-cases (not (is_changed s kinds))) [
                | inl u ↦ rw u (same db)
                | inr u ↦ rw u (same db)
              ])
            ])
    ]

-- From here on: every step.
pub Step-Moves :
    (env : Env) (s t : Store)
    → Step env s t
    → Distinct s.db.runs
    → Moves s.db.latched s.db.runs t.db.runs
Step-Moves env s _ (applies input) d = apply_command-Moves env input s d
Step-Moves env s _ (marks_running run_id session_id now) d =
    evolved (mark_running-Evolved env run_id session_id now s.db d)
Step-Moves env s _ (decides run_id session_id text now accepted db' h) d =
    evolved (Ensures_eq (decide_handoff-Evolved env run_id session_id text now s.db) h)
Step-Moves env s _ (claims run_id) d = evolved (engine_claim_draft-Evolved run_id s.db)
Step-Moves env s _ (reports_progress run_id body now db' h) d =
    evolved (Ensures_eq (peer_progress-Evolved env run_id body now s.db) h)
Step-Moves env s _ (reports_state run_id change h) d =
    evolved (provider_state-Evolved run_id change s.db d h)
Step-Moves env s _ (bumps run_id task_id) d = evolved (bump_action-Evolved run_id task_id s.db)
Step-Moves env s _ (waits_approval input approval_id db' h) d =
    evolved (Ensures_eq (wait_approval-Evolved env input s.db d) h)
Step-Moves env s _ (waits_input run_id prompt now db' h) d =
    evolved (Ensures_eq (wait_input-Evolved env run_id prompt now s.db d) h)
Step-Moves env s _ (completes input artifact_id db' h) d =
    evolved (Ensures_eq (complete-Evolved env input s.db) h)
Step-Moves env s _ (fails run_id task_id error now db' h) d =
    evolved (Ensures_eq (fail-Evolved env run_id task_id error now s.db) h)
Step-Moves env s _ (sweeps now effects db' h) d =
    evolved (Ensures_eq (sweep_run_timeouts-Evolved env now s.db) h)
Step-Moves env s _ (interrupts now) d = evolved (interrupt_active-Evolved env now s.db d)
Step-Moves env s _ (issues code_hash owner_session now expires_at db' h) d =
    Ensures_eq (issue_bootstrap-Moves code_hash owner_session now expires_at s.db) h
Step-Moves env s _ (exchanges input accepted db' h) d =
    Ensures_eq (exchange_bootstrap-Moves input s.db) h
Step-Moves env s _ (acknowledges token_hash provider kinds now) d =
    acknowledge_setup-Moves env token_hash provider kinds now s.db
