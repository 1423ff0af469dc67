-- ===== src/Journal/Commands.antt =====
-- The extension of the journal by the owner's commands.
use agentis.Versions.{max_actions_per_task, max_active_runs_per_bot, max_active_runs}
use agentis.Journal.Finish.{note-Logged, finish_run-Logged, reject_handoff-Logged}
use agentis.Lifecycle.{
  active_of, active_total, is_active_run_status, is_finished_run_status, find_run,
}
use agentis.Commands.Dispatch.{run_command}
use agentis.Journal.Base.{
  append_nil, Extends-trans, emit-Extends, message-Extends, Logged-trans, log_of, Extends,
  Extends-refl, said-Extends, LoggedWith, Logged,
}
use agentis.Commands.Control.{
  cancel_approvals, answered_row, fail_loading, is_waiting_input, active_ids, latch, cancel_all,
  cancel_one, record_answer, stop_all,
}
use agentis.Commands.Control.{cancel_run}
use agentis.Commands.Control.{answer_input}
use agentis.Commands.Approval.{
  decision_state, decide_tables, expire_tables, clear_prompt, update_run, is_waiting_approval,
  find_approval, expire_approval_and_run, after_decision, resolve_open, record_decision,
  resolve_approval,
}
use agentis.Commands.LoadSession.{load_blocked, load_session}
use agentis.Handoff.Propose.{
  read_verified_source, newest, propose_tables, source_run, proposal_taken, insert_proposal,
  propose_draft, propose_handoff,
}
use agentis.Commands.Submit.{
  submit_refusal, submitted_bot, queue_launch, submit_tables, submit_taken, source_of,
  submitted_source_path, submit_message, insert_task, submit_rows, submit_task,
}
use Prim.Native.String.{String}
use agentis.Prelude.{
  refl, true, false, filter_by, ◌+◌, Option-cases, ltb, update_where, inr, inl, count_by,
  Bool-cases, Ensures-map, is_some, Ensures-option, Ensures-if, Ensures-bind, ◌≡◌, true, ℕ, Bool,
  not, ◌==◌, leb, any_by, ◌||◌, ◌&&◌, List, [], ◌∷◌, Ensures, holds, threw,
}
use agentis.Schema.{
  is_codex, is_fake, Bot, SubmitTask, Ident, HandoffRow, HandoffState, ApplyInput, Decision,
  ApprovalRow, RunRow, DedupeKey, Command, is_pending,
}
use agentis.StoreDb.{fresh, Db, Env}

record_decision-Logged :
    (env : Env) (command_id : Ident) (input : ApplyInput) (a : ApprovalRow) (r : RunRow)
    (decision : Decision) (db : Db)
    → Logged db (record_decision env command_id input a r decision db)
unfolding record_decision
record_decision-Logged env command_id input a r decision db =
    said-Extends env _ _ input.now_ms _
      (decide_tables input.principal.session_id a (decision_state decision) db)

after_decision-Logged :
    (env : Env) (command_id : Ident) (input : ApplyInput) (a : ApprovalRow) (decision : Decision)
    (db : Db)
    → Ensures (LoggedWith db) (after_decision env command_id input a decision db)
unfolding after_decision
after_decision-Logged env command_id input a Decision.allowed db = holds (Extends-refl (log_of db))
after_decision-Logged env command_id input a Decision.denied db =
    Ensures-bind (finish_run-Logged env _ db) (λ db' v. holds v)

resolve_open-Logged :
    (env : Env) (command_id : Ident) (input : ApplyInput) (a : ApprovalRow) (r : RunRow)
    (decision : Decision) (db : Db)
    → Ensures (LoggedWith db) (resolve_open env command_id input a r decision db)
unfolding resolve_open expire_approval_and_run
resolve_open-Logged env command_id input a r decision db =
    Ensures-if (leb a.expires_at input.now_ms)
      (λ _. Ensures-bind (finish_run-Logged env _ (expire_tables a.id db)) (λ db' v. holds v))
      λ _.
        Ensures-if (not (count_by (λ x. x.id == a.id && is_pending x.state) db.approvals == 1))
          (λ _. threw)
          λ _.
            let decided = record_decision env command_id input a r decision db in
            Ensures-map
              (λ s v.
                Logged-trans db decided s.1
                  (record_decision-Logged env command_id input a r decision db) v)
              (after_decision-Logged env command_id input a decision
                (update_run a.run_id clear_prompt decided))

resolve_approval-Logged :
    (env : Env) (command_id : Ident) (input : ApplyInput) (approval_id : Ident)
    (decision : Decision) (db : Db)
    → Ensures (LoggedWith db) (resolve_approval env command_id input approval_id decision db)
unfolding resolve_approval
resolve_approval-Logged env command_id input approval_id decision db =
    let same = Extends-refl (log_of db) in
    Ensures-option (find_approval approval_id db) (λ _. holds same)
      λ a _.
        Ensures-if (not (is_pending a.state)) (λ _. holds same)
          λ _.
            Ensures-option (find_run a.run_id db) (λ _. holds same)
              λ r e.
                Ensures-if (not (is_waiting_approval r.status) || db.latched) (λ _. holds same)
                  λ g. resolve_open-Logged env command_id input a r decision db

record_answer-Logged :
    (env : Env) (command_id : Ident) (input : ApplyInput) (r : RunRow)
    (answers : List (String × String)) (db : Db)
    → Logged db (record_answer env command_id input r answers db)
unfolding record_answer
record_answer-Logged env command_id input r answers db =
    said-Extends env _ _ input.now_ms _
      (record db { runs = update_where (λ x. x.id == r.id) answered_row db.runs })

answer_input-Logged :
    (env : Env) (command_id : Ident) (input : ApplyInput) (run_id : Ident)
    (answers : List (String × String)) (db : Db)
    → Ensures (LoggedWith db) (answer_input env command_id input run_id answers db)
unfolding answer_input
answer_input-Logged env command_id input run_id answers db =
    Ensures-option (find_run run_id db) (λ _. holds (Extends-refl (log_of db)))
      λ r e.
        Ensures-if (not (is_waiting_input r.status)) (λ _. holds (Extends-refl (log_of db)))
          λ g. holds (record_answer-Logged env command_id input r answers db)

cancel_one-Logged :
    (env : Env) (run_id : Ident) (key : DedupeKey) (reason text : String) (command_id : Ident)
    (now : ℕ) (db : Db)
    → Ensures (Logged db) (cancel_one env run_id key reason text command_id now db)
unfolding cancel_one
cancel_one-Logged env run_id key reason text command_id now db =
    Ensures-bind (reject_handoff-Logged env run_id HandoffState.rejected _ reason now db) λ s v.
      Ensures-bind (finish_run-Logged env _ s.1) (λ db' w. holds (Logged-trans db s.1 db' v w))

cancel_run-Logged :
    (env : Env) (command_id : Ident) (input : ApplyInput) (run_id : Ident) (db : Db)
    → Ensures (LoggedWith db) (cancel_run env command_id input run_id db)
unfolding cancel_run
cancel_run-Logged env command_id input run_id db =
    Ensures-option (find_run run_id db) (λ _. holds (Extends-refl (log_of db)))
      λ r e.
        Ensures-if (is_finished_run_status r.status) (λ _. holds (Extends-refl (log_of db)))
          λ _.
            Ensures-bind (cancel_one-Logged env run_id _ _ _ command_id input.now_ms db)
              (λ db' v. holds v)

pub cancel_all-Logged :
    (env : Env) (command_id : Ident) (now : ℕ) (ids : List Ident) (db : Db)
    → Ensures (Logged db) (cancel_all env command_id now ids db)
unfolding cancel_all
cancel_all-Logged env command_id now [] db = holds (Extends-refl (log_of db))
cancel_all-Logged env command_id now (id ∷ ids) db =
    Ensures-bind (cancel_one-Logged env id _ _ _ command_id now db) λ db1 v.
      Ensures-map (λ db2 w. Logged-trans db db1 db2 v w)
        (cancel_all-Logged env command_id now ids db1)

or_true : (b : Bool) → (b || true) ≡ true
or_true true = refl
or_true false = refl

-- The latch is set, if it was not.
latch-Logged : (now : ℕ) (db : Db) → Logged db (latch now db)
latch-Logged now db = record {
  same_commands = refl;
  keeps_latch = or_true (not db.latched);
  added = [];
  appended = append_nil db.events;
  numbered = refl;
  unique = λ u. u;
}

stop_all-Logged :
    (env : Env) (command_id : Ident) (input : ApplyInput) (db : Db)
    → Ensures (LoggedWith db) (stop_all env command_id input db)
unfolding stop_all
stop_all-Logged env command_id input db =
    Ensures-bind
      (cancel_all-Logged env command_id input.now_ms (active_ids db) (latch input.now_ms db))
      λ db' v. holds (
        Extends-trans (log_of db) (log_of (latch input.now_ms db)) _ (latch-Logged input.now_ms db)
          (Extends-trans (log_of (latch input.now_ms db)) (log_of db') _ v
            (emit-Extends env _ _ input.now_ms (fail_loading (cancel_approvals db')))))

submit_rows-Logged :
    (env : Env) (command_id : Ident) (input : ApplyInput) (command : SubmitTask) (bot : Bot)
    (db : Db)
    → Logged db (submit_rows env command_id input command bot db)
unfolding submit_rows submit_message
submit_rows-Logged env command_id input command bot db =
    let written = submit_message env command_id input command bot db in
    Extends-trans (log_of db) (log_of written) _
      (message-Extends env _ (submit_tables env input command bot db))
      (emit-Extends env _ _ input.now_ms (queue_launch env input db written))

submit_task-Logged :
    (env : Env) (command_id : Ident) (input : ApplyInput) (command : SubmitTask) (db : Db)
    → Ensures (LoggedWith db) (submit_task env command_id input command db).1
unfolding submit_task insert_task
submit_task-Logged env command_id input command db =
    elim (Bool-cases (is_some command.attachments || is_some command.mcp_servers)) [
      | inl h ↦ rw h (holds same)
      | inr h ↦ rw h (elim (Option-cases (submitted_bot command)) [
        | inl e ↦ rw e (holds same)
        | inr (bot, e) ↦
            rw e (elim (Option-cases (submit_refusal command_id input command bot db)) [
              | inl f ↦ rw f (inserted_task bot)
              | inr (refusal, f) ↦ rw f (holds same)
            ])
      ])
    ]
  where
    same : Extends (log_of db) (log_of db)
    same = Extends-refl (log_of db)

    inserted_task :
        (bot : Bot) → Ensures (LoggedWith db) (insert_task env command_id input command bot db).1
    inserted_task bot =
        elim (Bool-cases
          (env.writes (submitted_source_path env input db) (source_of command).text)) [
            | inl h ↦ rw h (
                Ensures-if (submit_taken env db) (λ _. threw)
                  (λ t. holds (submit_rows-Logged env command_id input command bot db)))
            | inr h ↦ rw h threw
          ]

insert_proposal-Logged :
    (env : Env) (command_id : Ident) (input : ApplyInput) (h : HandoffRow) (r : RunRow) (db : Db)
    → Ensures (LoggedWith db) (insert_proposal env command_id input h r db)
unfolding insert_proposal
insert_proposal-Logged env command_id input h r db =
    Ensures-if (proposal_taken h r (fresh env 3 db) db) (λ _. threw)
      λ t.
        holds
          (note-Logged env h HandoffState.proposed _ input.now_ms (propose_tables env input h r db))

propose_handoff-Logged :
    (env : Env) (command_id : Ident) (input : ApplyInput) (source_run_id : Ident) (context : String)
    (db : Db)
    → Ensures (LoggedWith db) (propose_handoff env command_id input source_run_id context db)
unfolding propose_handoff propose_draft
propose_handoff-Logged env command_id input source_run_id context db =
    let same = Extends-refl (log_of db) in
    Ensures-option (source_run source_run_id db) (λ _. holds same)
      λ (source, task) _.
        Ensures-if (not (task.owner_session == input.principal.session_id)) (λ _. holds same)
          λ _.
            Ensures-if (any_by (λ h. h.task_id == source.task_id) db.handoffs) (λ _. holds same)
              λ _.
                Ensures-if db.latched (λ _. holds same)
                  λ _.
                    Ensures-if
                      (leb max_active_runs (active_total db.runs)
                        || leb max_active_runs_per_bot (active_of Bot.ivo db.runs))
                      (λ _. holds same)
                      λ g.
                        Ensures-if (ltb max_actions_per_task (task.action_count + 2))
                          (λ _. holds same)
                          λ _.
                            Ensures-if (not (is_codex source.frozen.provider)) (λ _. holds same)
                              λ _.
                                Ensures-option
                                  (newest (filter_by (λ a. a.run_id == source.id) db.artifacts))
                                  (λ _. holds same)
                                  λ a _.
                                    Ensures-if (ltb 65536 a.byte_size) (λ _. holds same)
                                      λ _.
                                        Ensures-option
                                          (read_verified_source env a source.frozen.workspace_id)
                                          (λ _. holds same)
                                          λ draft _.
                                            insert_proposal-Logged env command_id input _ _ db

load_session-Logged :
    (command_id run_id : Ident) (db : Db)
    → Ensures (LoggedWith db) (load_session command_id run_id db)
unfolding load_session
load_session-Logged command_id run_id db =
    let same = Extends-refl (log_of db) in
    Ensures-option (find_run run_id db) (λ _. holds same)
      λ r e.
        Ensures-if (not (is_some r.provider_session_id) || is_active_run_status r.status)
          (λ _. holds same)
          λ _.
            Ensures-if (is_fake r.frozen.provider) (λ _. holds same)
              λ _. Ensures-if (load_blocked r db) (λ _. holds same) (λ b. holds same)

pub run_command-Logged :
    (env : Env) (id : Ident) (input : ApplyInput) (command : Command) (db : Db)
    → Ensures (LoggedWith db) (run_command env id input command db).1
unfolding run_command
run_command-Logged env id input (Command.submit_task c) db = submit_task-Logged env id input c db
run_command-Logged env id input (Command.propose_handoff source context) db =
    propose_handoff-Logged env id input source context db
run_command-Logged env id input (Command.resolve_approval a decision) db =
    resolve_approval-Logged env id input a decision db
run_command-Logged env id input (Command.answer_input r answers) db =
    answer_input-Logged env id input r answers db
run_command-Logged env id input (Command.cancel_run r) db = cancel_run-Logged env id input r db
run_command-Logged env id input Command.stop_all db = stop_all-Logged env id input db
run_command-Logged env id input (Command.load_session r) db = load_session-Logged id r db
