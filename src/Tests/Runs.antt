-- ===== src/Tests/Runs.antt =====
-- The theorems on runs and on the journal, after one submission to a new workspace.
use agentis.Schema.{RunStatus}
use agentis.Commands.Control.{cancel_all, cancel_one}
use agentis.Handoff.{reject_handoff}
use agentis.Lifecycle.{finish_run, finish_found}
use agentis.System.Reports.{Ignored, inactive_run-Ignored}
use agentis.Prelude.{false}
use agentis.StoreDb.{Db, emit, message, is_duplicate}
use agentis.Commands.Dispatch.{apply_command, dispatch, run_command, settle, Store, draw_command}
use agentis.Replay.Window.{transitions_after_window, Follows}
use agentis.Journal.Steps.{reachable_journal}
use agentis.Runs.Persists.{Kept}
use agentis.Versions.{event_replay_limit, max_active_runs_per_bot, max_active_runs}
use agentis.System.Latch.{latched_for_good}
use agentis.Journal.AppendOnly.{journal_append_only}
use agentis.System.Safety.{
  reachable_concurrency, empty-WithinCaps, reachable_run-Kept, Step-WithinCaps,
}
use agentis.Runs.StopAll.{stop_all_lem, Stopped}
use agentis.Journal.Base.{UniqueKeys, Numbered}
use agentis.Replay.{transitions_after, Transition}
use agentis.Lifecycle.{
  is_finished_run_status, is_active_run_status, is_active_or_loading, active_of, active_total,
  find_run,
}
use agentis.Runs.Caps.{WithinCaps}
use agentis.Commands.Control.{stop_all}
use agentis.Commands.Submit.{
  submit_message, submit_rows, submit_taken, insert_task, submit_refusal, submitted_bot,
  submitted_run, submit_task,
}
use agentis.Prelude.{◌≡◌, ◌≤◌, refl, arith, List, some, true, ok, ◌++◌, length}
use agentis.Schema.{Command, Bot, RunRow, EventRow, CommandReceipt}
use agentis.Tests.{test_env, submission, submitted, submitting, request, task_command}
use agentis.System.{empty_store, done, next, applies}

submitted_runs : active_total submitted.db.runs ≡ 1
unfolding apply_command dispatch run_command submit_task submitted_bot submit_refusal insert_task
    submit_taken submit_rows submit_message emit message is_duplicate settle is_active_or_loading
    is_active_run_status is_finished_run_status
submitted_runs = refl

-- The run that the submission queued.
abbrev queued : RunRow
queued = submitted_run test_env submission task_command Bot.mara (draw_command empty_store.db)

queued_found : find_run 3 submitted.db ≡ some queued
unfolding apply_command dispatch run_command submit_task submitted_bot submit_refusal insert_task
    submit_taken submit_rows submit_message emit message is_duplicate settle is_active_or_loading
    is_active_run_status is_finished_run_status
queued_found = refl

reachable_concurrency_example :
    (active_total submitted.db.runs ≤ max_active_runs)
    × (active_of Bot.mara submitted.db.runs ≤ max_active_runs_per_bot)
reachable_concurrency_example = reachable_concurrency test_env submitted Bot.mara submitting

Step-WithinCaps_example : WithinCaps submitted.db.runs
Step-WithinCaps_example =
    Step-WithinCaps test_env empty_store submitted (applies submission) empty-WithinCaps

abbrev stopped : Store
stopped = (apply_command test_env (request 901 Command.stop_all 20) submitted).0

reachable_run-Kept_example : (r' : RunRow) × (find_run 3 stopped.db ≡ some r') × Kept queued r'
reachable_run-Kept_example =
    reachable_run-Kept test_env submitted stopped 3 queued submitting
      (next (applies (request 901 Command.stop_all 20)) done) queued_found

reachable_journal_example :
    Numbered 0 submitted.db.last_seq submitted.db.events × UniqueKeys submitted.db.messages
reachable_journal_example = reachable_journal test_env submitted submitting

journal_append_only_example :
    (added : List EventRow) × (stopped.db.events ≡ submitted.db.events ++ added)
    × Numbered submitted.db.last_seq stopped.db.last_seq added
journal_append_only_example =
    journal_append_only test_env submitted stopped
      (next (applies (request 901 Command.stop_all 20)) done)

stop_all_lem_example :
    (receipt : CommandReceipt) × (db' : Db) × (stop_all test_env 77
        (request 901 Command.stop_all 20)
        submitted.db
      ≡ ok (receipt, db'))
    × (receipt.accepted ≡ true)
    × Stopped db'
stop_all_lem_example =
    stop_all_lem test_env 77 (request 901 Command.stop_all 20) submitted.db
      (Step-WithinCaps test_env empty_store submitted (applies submission)
        empty-WithinCaps).distinct

abbrev latched_store : Store
latched_store = (apply_command test_env (request 901 Command.stop_all 20) empty_store).0

latched_store_latched : latched_store.db.latched ≡ true
unfolding apply_command dispatch run_command submit_task submitted_bot submit_refusal insert_task
    submit_taken submit_rows submit_message emit message is_duplicate settle is_active_or_loading
    is_active_run_status is_finished_run_status stop_all cancel_all
latched_store_latched = refl

abbrev refused_store : Store
refused_store = (apply_command test_env submission latched_store).0

latched_for_good_example :
    (refused_store.db.latched ≡ true)
    × (active_total refused_store.db.runs ≤ active_total latched_store.db.runs)
latched_for_good_example =
    latched_for_good test_env latched_store refused_store
      (next (applies (request 901 Command.stop_all 20)) done) latched_store_latched
      (next (applies submission) done)

submitted_last_seq : submitted.db.last_seq ≡ 1
unfolding apply_command dispatch run_command submit_task submitted_bot submit_refusal insert_task
    submit_taken submit_rows submit_message emit message is_duplicate settle is_active_or_loading
    is_active_run_status is_finished_run_status
submitted_last_seq = refl

transitions_after_window_example :
    (ts : List Transition) × (transitions_after 0 submitted.db ≡ ok ts)
    × Follows 0 submitted.db.last_seq ts
    × (length ts ≤ event_replay_limit)
transitions_after_window_example =
    transitions_after_window test_env submitted 0 submitting (omega arith)
      (omega (arith, submitted_last_seq))

abbrev canceled : RunRow
canceled = record queued { status = RunStatus.canceled; completed_at = some 20 }

canceled_found : find_run 3 stopped.db ≡ some canceled
unfolding apply_command dispatch run_command submit_task submitted_bot submit_refusal insert_task
    submit_taken submit_rows submit_message emit message is_duplicate settle is_active_or_loading
    is_active_run_status is_finished_run_status stop_all cancel_all cancel_one reject_handoff
    finish_run finish_found
canceled_found = refl

canceled_inactive : is_active_run_status canceled.status ≡ false
unfolding is_active_run_status
canceled_inactive = refl

inactive_run-Ignored_example : Ignored test_env 3 stopped.db
inactive_run-Ignored_example =
    inactive_run-Ignored test_env stopped stopped 3 canceled
      (next (applies submission) (next (applies (request 901 Command.stop_all 20)) done)) done
      canceled_found canceled_inactive
