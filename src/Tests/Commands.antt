-- ===== src/Tests/Commands.antt =====
-- The theorems on commands, budgets, approvals and browser sessions, at concrete rows.
use agentis.Engine.Budget.{bump_action_bounded}
use agentis.Versions.{max_actions_per_task}
use agentis.Sweep.Overwrites.{sweep_run_timeouts_overwrites}
use agentis.Lifecycle.{
  finish_run, finish_found, is_finished_run_status, find_task, find_run, is_active_run_status,
  is_active_or_loading,
}
use agentis.Commands.Once.{resolve_approval_once}
use agentis.Engine.{is_active}
use agentis.Sweep.{sweep_overdue, sweep_handoffs, sweep_run_timeouts, sweep_approvals}
use agentis.Journal.Idempotence.{apply_command_reused}
use text.Mathlib.Text.{◌==◌ as str_eq}
use agentis.Engine.Progress.{bump_action}
use agentis.Prelude.{
  ◌≡◌, ◌≤◌, refl, [], ◌∷◌, some, none, true, false, ok, Result, StoreErrorCode, StoreError, throw,
  suc, ◌⊎◌,
}
use agentis.Schema.{
  Effect, Bot, RunRow, Command, CommandReceipt, ApplyInput, Decision, RunStatus, WaitingReason,
  ActionState, ApprovalRow, TaskRow, SubmitTask, SourceOrigin, SourceKind, Channel, ProviderKind,
}
use agentis.StoreDb.{Db, emit, message, is_duplicate, empty_db}
use agentis.Commands.Dispatch.{
  command_row, Store, apply_command, dispatch, run_command, settle, draw_command,
}
use agentis.Commands.Submit.{
  browser_may_submit, submit_message, submit_rows, submit_taken, insert_task, submit_refusal,
  submitted_bot, submitted_run, submitted_task, submit_task,
}
use agentis.Commands.Approval.{
  expire_approval_and_run, expire_tables, expiry, clear_prompt, resume_row, update_run,
  resolve_approval, resolve_open, record_decision, after_decision,
}
use agentis.Commands.Authority.{Authorized, submit_task-Authorized}
use agentis.Tests.{test_env, submission, submitted, request, task_command, owner}
use agentis.System.{empty_store}

abbrev pub first_receipt : CommandReceipt
first_receipt = record {
  command_id = 0;
  replayed = false;
  accepted = true;
  error = none;
  error_code = none;
  handoff_id = none;
  task_id = some 1;
  run_id = some 3;
  thread_id = some 2;
  approval_id = none;
  effects = Effect.launch ∷ [];
}

pub submitted_ok : apply_command test_env submission empty_store ≡ (submitted, ok first_receipt)
unfolding apply_command dispatch run_command submit_task submitted_bot submit_refusal insert_task
    submit_taken submit_rows submit_message emit message is_duplicate settle is_active_or_loading
    is_active_run_status is_finished_run_status
submitted_ok = refl

apply_command_reused_example :
    apply_command test_env (request 900 Command.stop_all 99) submitted
    ≡ (submitted, throw StoreErrorCode.conflict "idempotency key reused with a different payload")
apply_command_reused_example =
    apply_command_reused test_env submission (request 900 Command.stop_all 99) empty_store submitted
      first_receipt submitted_ok refl refl refl

-- A workspace with a row under the identifier that the next command draws.
abbrev taken_store : Store
taken_store = record {
  db = record empty_db {
    commands =
        (record (command_row test_env submission first_receipt) { idempotency_key = 1 }) ∷ [];
  };
  files = ("notes", "kept") ∷ [];
}

abbrev taken_error : StoreError
taken_error = record {
  code = StoreErrorCode.internal;
  message = "UNIQUE constraint failed";
  subject = none;
}

-- Its submission has written its source when the insert of its row throws.
source_written :
    (dispatch test_env submission taken_store.db).0 ≡ ("source", "Write the brief") ∷ []
unfolding dispatch run_command submit_task submitted_bot submit_refusal insert_task submit_taken
    submit_rows is_active_or_loading is_active_run_status is_finished_run_status
source_written = refl

-- The submitted task and its run.
abbrev first_task : TaskRow
first_task = submitted_task test_env submission task_command Bot.mara (draw_command empty_store.db)

abbrev pub first_run : RunRow
first_run = submitted_run test_env submission task_command Bot.mara (draw_command empty_store.db)

abbrev pub one_run : Db
one_run = record empty_db { runs = first_run ∷ []; tasks = first_task ∷ [] }

abbrev bumped : Db
bumped = (bump_action 3 1 one_run).1

one_run_bumps : bump_action 3 1 one_run ≡ (false, bumped)
unfolding bump_action is_active is_active_run_status
one_run_bumps = refl

bump_action_bounded_example :
    (is_active 3 one_run ≡ true)
    × ((r : RunRow) × (find_run 3 one_run ≡ some r)
        × (find_run 3 bumped ≡ some (record r { action_count = suc r.action_count }))
        × (suc r.action_count ≤ r.frozen.action_budget))
    × (find_task 1 bumped ≡ some (record first_task { action_count = 1 }))
    × (1 ≤ max_actions_per_task)
bump_action_bounded_example = bump_action_bounded 3 1 one_run bumped first_task one_run_bumps refl

-- A run that waits for an approval.
abbrev pending_approval : ApprovalRow
pending_approval = record {
  id = 40;
  run_id = 3;
  task_id = 1;
  state = ActionState.pending;
  tool = "write";
  argument_digest = 0;
  expires_at = 1000;
  resolver = none;
  created_at = 20;
}

abbrev waiting : Db
waiting = record one_run {
  runs =
      record first_run {
        status = RunStatus.waiting_approval;
        waiting_reason = WaitingReason.approval;
      }
      ∷ [];
  approvals = pending_approval ∷ [];
}

abbrev decision_input : ApplyInput
decision_input = request 902 (Command.resolve_approval 40 Decision.allowed) 30

abbrev decided : Result (CommandReceipt × Db)
decided = resolve_approval test_env 70 decision_input 40 Decision.allowed waiting

abbrev allowed_receipt : CommandReceipt
allowed_receipt = record {
  command_id = 70;
  replayed = false;
  accepted = true;
  error = none;
  error_code = none;
  handoff_id = none;
  task_id = some 1;
  run_id = some 3;
  thread_id = none;
  approval_id = some 40;
  effects = Effect.dispatch_tool ∷ [];
}

-- The database after the decision.
abbrev allowed_db : Db
allowed_db = update_run 3 resume_row (
    update_run 3 clear_prompt (
      record_decision test_env 70 decision_input pending_approval
        (record first_run {
          status = RunStatus.waiting_approval;
          waiting_reason = WaitingReason.approval;
        })
        Decision.allowed waiting))

allowed_ok :
    resolve_approval test_env 70 decision_input 40 Decision.allowed waiting
    ≡ ok (allowed_receipt, allowed_db)
unfolding resolve_approval resolve_open after_decision
allowed_ok = refl

resolve_approval_once_example :
    (refusal : CommandReceipt) × (resolve_approval test_env 71
        (request 903 (Command.resolve_approval 40 Decision.denied) 31)
        40
        Decision.denied
        allowed_db
      ≡ ok (refusal, allowed_db))
    × (refusal.accepted ≡ false)
resolve_approval_once_example =
    resolve_approval_once test_env 70 71 decision_input
      (request 903 (Command.resolve_approval 40 Decision.denied) 31) 40 Decision.allowed
      Decision.denied allowed_receipt waiting allowed_db allowed_ok refl

-- A run that has succeeded while its approval was open.
abbrev succeeded_run : RunRow
succeeded_run = record first_run { status = RunStatus.succeeded; completed_at = some 50 }

abbrev succeeded_db : Db
succeeded_db = record waiting { runs = succeeded_run ∷ [] }

-- What the sweep leaves: the effects are those of the third loop.
abbrev swept : Db
swept =
    finish_found test_env (expiry pending_approval 2000 none) succeeded_run
      (expire_tables 40 succeeded_db)

swept_ok : sweep_run_timeouts test_env 2000 succeeded_db ≡ ok (3 ∷ [], swept)
unfolding sweep_run_timeouts sweep_handoffs sweep_overdue sweep_approvals is_active_run_status
    expire_approval_and_run finish_run
swept_ok = refl

sweep_run_timeouts_overwrites_example :
    (r : RunRow) × (find_run 3 swept ≡ some r)
    × (r.status ≡ RunStatus.failed)
    × (r.completed_at ≡ some 2000)
sweep_run_timeouts_overwrites_example =
    sweep_run_timeouts_overwrites test_env 3 2000 (3 ∷ []) succeeded_db swept refl swept_ok

abbrev browser_command : SubmitTask
browser_command = record task_command {
  source = some (record {
    origin = SourceOrigin.pasted;
    label = "Notes";
    text = "Some notes";
    citations = [];
  });
}

abbrev browser_input : ApplyInput
browser_input = record submission {
  principal = record owner { channel = some Channel.browser; browser_session_hash = some 6 };
  command = Command.submit_task browser_command;
}

abbrev with_session : Db
with_session = record empty_db {
  sessions =
      (record {
        token_hash = 6;
        csrf_hash = 7;
        owner_session = 500;
        provider = ProviderKind.codex;
        provider_acknowledged_at = some 5;
        sources = (record { source = SourceKind.pasted; acknowledged_at = 5 }) ∷ [];
        expires_at = 100;
        created_at = 1;
      })
      ∷ [];
}

abbrev browser_receipt : CommandReceipt
browser_receipt = record first_receipt {
  command_id = 77;
  task_id = some 0;
  thread_id = some 1;
  run_id = some 2;
}

abbrev browser_submitted : Db
browser_submitted = submit_rows test_env 77 browser_input browser_command Bot.mara with_session

browser_submitted_ok :
    (submit_task test_env 77 browser_input browser_command with_session).1
    ≡ ok (browser_receipt, browser_submitted)
unfolding submit_task submitted_bot submit_refusal insert_task submit_taken browser_may_submit
    is_active_or_loading is_active_run_status is_finished_run_status
browser_submitted_ok = refl

submit_task-Authorized_example :
    ((browser_receipt.accepted ≡ false) × (browser_submitted ≡ with_session))
    ⊎ Authorized browser_input browser_command with_session
submit_task-Authorized_example =
    submit_task-Authorized test_env 77 browser_input browser_command with_session browser_submitted
      browser_receipt browser_submitted_ok refl
