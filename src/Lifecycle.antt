-- ===== src/Lifecycle.antt =====
-- packages/cli/src/run-lifecycle.ts: the active and the finished statuses of a run, and `finishRun`.
pub mod Finish
use agentis.Prelude.{
  ℕ, Bool, true, false, ◌&&◌, ◌||◌, List, [], Option, some, none, ◌==◌, find_by, count_by,
  update_where, coalesce, StoreErrorCode, Result, ok, err,
}
use agentis.Schema.{
  Ident, RunStatus, TaskStatus, WaitingReason, AuthorKind, AuthorName, MessageAuthorRole,
  MessageKind, MessageImportance, DedupeKey, MessageBody, TransitionReason, EventBody, RunRow,
  TaskRow, is_loading, same_bot, Bot, ProviderState, LoadStatus,
}
use agentis.StoreDb.{Db, Env, MessageInput, emit, message}

-- ACTIVE_RUN_STATUSES, and with it ACTIVE_RUN_SQL.
unfoldable pub is_active_run_status : RunStatus → Bool
is_active_run_status RunStatus.queued = true
is_active_run_status RunStatus.running = true
is_active_run_status RunStatus.waiting_approval = true
is_active_run_status RunStatus.waiting_input = true
is_active_run_status _ = false

unfoldable pub is_finished_run_status : RunStatus → Bool
is_finished_run_status RunStatus.succeeded = true
is_finished_run_status RunStatus.failed = true
is_finished_run_status RunStatus.canceled = true
is_finished_run_status _ = false

-- ACTIVE_RUN_OR_LOADING_SQL.
unfoldable pub is_active_or_loading : RunRow → Bool
unfolding is_active_run_status
is_active_or_loading r = is_active_run_status r.status || is_loading r.provider_state.load_status

-- COUNT(*) of the active and loading runs, of all bots and of one.
abbrev pub active_total : List RunRow → ℕ
active_total = count_by is_active_or_loading

abbrev pub active_of : Bot → List RunRow → ℕ
active_of bot = count_by (λ r. is_active_or_loading r && same_bot r.frozen.bot bot)

-- The idle provider state, the default of the column `provider_state`.
abbrev pub idle_state : ProviderState
idle_state = record {
  load_status = LoadStatus.idle;
  capabilities = [];
  history = [];
  pending_prompt = none;
  failure_detail = none;
  load_history = none;
  failure = none;
}

pub data FinishedRunStatus : Type 0 where
  succeeded failed canceled : FinishedRunStatus

abbrev pub to_run_status : FinishedRunStatus → RunStatus
to_run_status FinishedRunStatus.succeeded = RunStatus.succeeded
to_run_status FinishedRunStatus.failed = RunStatus.failed
to_run_status FinishedRunStatus.canceled = RunStatus.canceled

abbrev pub finished_task_status : FinishedRunStatus → TaskStatus
finished_task_status FinishedRunStatus.succeeded = TaskStatus.completed
finished_task_status FinishedRunStatus.failed = TaskStatus.failed
finished_task_status FinishedRunStatus.canceled = TaskStatus.canceled

pub record FinishRunMessage : Type 0 where
  pub author_kind : AuthorKind
  pub author_name : AuthorName
  pub author_role : MessageAuthorRole
  pub kind : MessageKind
  pub importance : MessageImportance
  pub dedupe_key : DedupeKey
  pub body : MessageBody

pub record FinishRunInput : Type 0 where
  pub run_id : Ident
  pub status : FinishedRunStatus
  pub now_ms : ℕ
  pub latest_artifact_id : Option Ident
  pub message : FinishRunMessage
  pub reason : TransitionReason
  pub event_body : EventBody

abbrev pub find_run : Ident → Db → Option RunRow
find_run id db = find_by (λ r. r.id == id) db.runs

abbrev pub find_task : Ident → Db → Option TaskRow
find_task id db = find_by (λ t. t.id == id) db.tasks

-- The UPDATE of `runs` in `finishRun`.
abbrev pub finish_row : FinishRunInput → RunRow → RunRow
finish_row input r = record r {
  status = to_run_status input.status;
  waiting_reason = WaitingReason.none;
  completed_at = some input.now_ms;
}

-- The UPDATE of `tasks`, of the task whose current run this is.
abbrev pub finish_task : FinishRunInput → TaskRow → TaskRow
finish_task input t = record t {
  status = finished_task_status input.status;
  updated_at = input.now_ms;
  latest_artifact_id = coalesce input.latest_artifact_id t.latest_artifact_id;
}

abbrev pub finish_tables : FinishRunInput → RunRow → Db → Db
finish_tables input current db = record db {
  runs = update_where (λ r. r.id == input.run_id) (finish_row input) db.runs;
  tasks =
      update_where (λ t. t.id == current.task_id && t.current_run_id == input.run_id)
        (finish_task input) db.tasks;
}

abbrev pub finish_message : FinishRunInput → RunRow → MessageInput
finish_message input current = record {
  thread_id = current.thread_id;
  task_id = current.task_id;
  run_id = some input.run_id;
  author_kind = input.message.author_kind;
  author_name = input.message.author_name;
  author_role = input.message.author_role;
  kind = input.message.kind;
  importance = input.message.importance;
  dedupe_key = input.message.dedupe_key;
  body = input.message.body;
  now_ms = input.now_ms;
}

-- `finishRun` once its run is found: both updates, the message, and the event.
unfoldable pub finish_found : Env → FinishRunInput → RunRow → Db → Db
finish_found env input current db =
    emit env input.reason input.event_body input.now_ms
      (message env (finish_message input current) (finish_tables input current db)).0

unfoldable pub finish_run : Env → FinishRunInput → Db → Result Db
finish_run env input db = elim (find_run input.run_id db) [
  | none ↦ err (record {
    code = StoreErrorCode.internal;
    message = "finishRun requires an existing run";
    subject = some input.run_id;
  })
  | some current ↦ ok (finish_found env input current db)
]
