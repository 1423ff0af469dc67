-- ===== src/Runs/Starts.antt =====
-- The three commands that take a slot: a submission, a proposal and a session load.
use agentis.Commands.LoadSession.{loading_row, load_blocked, load_session}
use agentis.Handoff.Propose.{source_run, read_verified_source, propose_handoff}
use agentis.Commands.Submit.{submitted_bot, submit_task}
use Prim.Native.String.{String}
use agentis.Lifecycle.{is_active_run_status, find_run, active_of, active_total}
use agentis.Versions.{max_actions_per_task, max_active_runs_per_bot, max_active_runs}
use agentis.Handoff.{note}
use agentis.Handoff.Propose.{proposal_taken, newest, recipient_run, insert_proposal, propose_draft}
use agentis.Commands.Submit.{
  submitted_run, submit_message, source_of, submit_rows, submit_taken, submitted_source_path,
  submit_refusal, insert_task,
}
use agentis.Prelude.{
  Bool, update_where, some, find_by, insert_row, List, Option-cases, filter_by, Ensures-option,
  Ensures-if, ◌+◌, Ensures-option, Ensures-if, false, not, ◌||◌, ◌≡◌, none, arith, ◌==◌, Ensures,
  holds, threw, is_some, leb, any_by, ltb, refl, inl, inr, Bool-cases,
}
use agentis.Schema.{
  is_fake, is_codex, HandoffRow, TaskRow, Ident, RunRow, ApplyInput, SubmitTask, Bot,
}
use agentis.StoreDb.{fresh, message, emit, Db, Env}
use agentis.Runs.Caps.{update_found-WithinCaps, insert_row-WithinCaps, WithinCaps}

-- How the commands that take a slot change `runs`: not at all, by a new run, or by a load.
pub data Starts (latched : Bool) (rs : List RunRow) : List RunRow → Type 0 where
  unchanged : Starts latched rs rs
  inserted :
      (r : RunRow)
      → any_by (λ x. x.id == r.id) rs ≡ false
      → latched ≡ false
      → leb max_active_runs (active_total rs) ≡ false
      → leb max_active_runs_per_bot (active_of r.frozen.bot rs) ≡ false
      → Starts latched rs (insert_row r rs)
  loaded :
      (id : Ident) (r : RunRow)
      → find_by (λ x. x.id == id) rs ≡ some r
      → latched ≡ false
      → leb max_active_runs (active_total rs) ≡ false
      → leb max_active_runs_per_bot (active_of r.frozen.bot rs) ≡ false
      → Starts latched rs (update_where (λ x. x.id == id) loading_row rs)

abbrev pub StartsWith {ℓ} : {A : Type ℓ} → Db → A × Db → Type 0
StartsWith db s = Starts db.latched db.runs s.1.runs

pub Starts-WithinCaps :
    (latched : Bool) (rs rs' : List RunRow) → Starts latched rs rs' → WithinCaps rs → WithinCaps rs'
Starts-WithinCaps latched rs _ unchanged w = w
Starts-WithinCaps latched rs _ (inserted r f l t b) w = insert_row-WithinCaps r rs f t b w
Starts-WithinCaps latched rs _ (loaded id r e l t b) w =
    update_found-WithinCaps id loading_row rs r e (λ x. refl) refl t b w

submit_rows-Starts :
    (env : Env) (command_id : Ident) (input : ApplyInput) (command : SubmitTask) (bot : Bot)
    (db : Db)
    → submit_refusal command_id input command bot db ≡ none
    → submit_taken env db ≡ false
    → Starts db.latched db.runs (submit_rows env command_id input command bot db).runs
unfolding submit_refusal submit_taken submit_rows submit_message emit message
submit_rows-Starts env command_id input command bot db g t =
    inserted (submitted_run env input command bot db) (ground arith) (ground arith) (ground arith)
      (ground arith)

insert_task-Starts :
    (env : Env) (command_id : Ident) (input : ApplyInput) (command : SubmitTask) (bot : Bot)
    (db : Db)
    → submit_refusal command_id input command bot db ≡ none
    → Ensures (StartsWith db) (insert_task env command_id input command bot db).1
unfolding insert_task
insert_task-Starts env command_id input command bot db g =
    elim (Bool-cases (env.writes (submitted_source_path env input db) (source_of command).text)) [
      | inl h ↦ rw h (
          Ensures-if (submit_taken env db) (λ _. threw)
            (λ t. holds (submit_rows-Starts env command_id input command bot db g t)))
      | inr h ↦ rw h threw
    ]

pub submit_task-Starts :
    (env : Env) (command_id : Ident) (input : ApplyInput) (command : SubmitTask) (db : Db)
    → Ensures (StartsWith db) (submit_task env command_id input command db).1
unfolding submit_task
submit_task-Starts env command_id input command db =
    elim (Bool-cases (is_some command.attachments || is_some command.mcp_servers)) [
      | inl h ↦ rw h (holds unchanged)
      | inr h ↦ rw h (elim (Option-cases (submitted_bot command)) [
        | inl e ↦ rw e (holds unchanged)
        | inr (bot, e) ↦
            rw e (elim (Option-cases (submit_refusal command_id input command bot db)) [
              | inl f ↦ rw f (insert_task-Starts env command_id input command bot db f)
              | inr (refusal, f) ↦ rw f (holds unchanged)
            ])
      ])
    ]

insert_proposal-Starts :
    (env : Env) (command_id : Ident) (input : ApplyInput) (h : HandoffRow) (source : RunRow)
    (db : Db)
    → db.latched ≡ false
    → (leb max_active_runs (active_total db.runs)
        || leb max_active_runs_per_bot (active_of Bot.ivo db.runs))
      ≡ false
    → Ensures
        (StartsWith db)
        (insert_proposal env command_id input h (recipient_run env input source db) db)
unfolding insert_proposal note emit message
insert_proposal-Starts env command_id input h source db l g =
    let r = recipient_run env input source db in
    Ensures-if (proposal_taken h r (fresh env 3 db) db) (λ _. threw)
      λ t. holds (inserted r (ground arith) (ground arith) (ground arith) (ground arith))

propose_draft-Starts :
    (env : Env) (command_id : Ident) (input : ApplyInput) (source : RunRow) (task : TaskRow)
    (request : String) (db : Db)
    → db.latched ≡ false
    → (leb max_active_runs (active_total db.runs)
        || leb max_active_runs_per_bot (active_of Bot.ivo db.runs))
      ≡ false
    → Ensures (StartsWith db) (propose_draft env command_id input source task request db)
unfolding propose_draft
propose_draft-Starts env command_id input source task request db l g =
    Ensures-option (newest (filter_by (λ a. a.run_id == source.id) db.artifacts))
      (λ _. holds unchanged)
      λ a _.
        Ensures-if (ltb 65536 a.byte_size) (λ _. holds unchanged)
          λ _.
            Ensures-option (read_verified_source env a source.frozen.workspace_id)
              (λ _. holds unchanged)
              λ draft _. insert_proposal-Starts env command_id input _ source db l g

pub propose_handoff-Starts :
    (env : Env) (command_id : Ident) (input : ApplyInput) (source_run_id : Ident) (context : String)
    (db : Db)
    → Ensures (StartsWith db) (propose_handoff env command_id input source_run_id context db)
unfolding propose_handoff
propose_handoff-Starts env command_id input source_run_id context db =
    Ensures-option (source_run source_run_id db) (λ _. holds unchanged)
      λ (source, task) _.
        Ensures-if (not (task.owner_session == input.principal.session_id)) (λ _. holds unchanged)
          λ _.
            Ensures-if (any_by (λ h. h.task_id == source.task_id) db.handoffs)
              (λ _. holds unchanged)
              λ _.
                Ensures-if db.latched (λ _. holds unchanged)
                  λ l.
                    Ensures-if
                      (leb max_active_runs (active_total db.runs)
                        || leb max_active_runs_per_bot (active_of Bot.ivo db.runs))
                      (λ _. holds unchanged)
                      λ g.
                        Ensures-if (ltb max_actions_per_task (task.action_count + 2))
                          (λ _. holds unchanged)
                          λ _.
                            Ensures-if (not (is_codex source.frozen.provider))
                              (λ _. holds unchanged)
                              λ _.
                                propose_draft-Starts env command_id input source task context db l g

pub load_session-Starts :
    (command_id run_id : Ident) (db : Db)
    → Ensures (StartsWith db) (load_session command_id run_id db)
unfolding load_session load_blocked
load_session-Starts command_id run_id db =
    Ensures-option (find_run run_id db) (λ _. holds unchanged)
      λ r e.
        Ensures-if (not (is_some r.provider_session_id) || is_active_run_status r.status)
          (λ _. holds unchanged)
          λ _.
            Ensures-if (is_fake r.frozen.provider) (λ _. holds unchanged)
              λ _.
                Ensures-if (load_blocked r db) (λ _. holds unchanged)
                  λ b. holds (loaded run_id r e (ground arith) (ground arith) (ground arith))
