-- ===== src/Engine/Progress.antt =====
-- `markRunning`, `bumpAction` and `peerProgress` of `mutateForEngine` in packages/cli/src/store.ts.
use Prim.Native.String.{String}
use agentis.Prelude.{
  ℕ, suc, Bool, true, false, not, ◌&&◌, ◌||◌, Option, some, none, ◌==◌, leb, coalesce,
  if◌then◌else◌, update_where, Result, ok, ◌>>=◌,
}
use agentis.Schema.{
  Ident, RunStatus, WaitingReason, TaskStatus, ActionState, AuthorKind, AuthorName, MessageKind,
  MessageImportance, TransitionReason, DedupeKey, MessageBody, EventBody, RunRow, TaskRow,
  HandoffRow, is_launch, is_pending, is_accepted,
}
use agentis.Versions.{max_actions_per_run, max_actions_per_task}
use agentis.StoreDb.{Db, Env, MessageInput, emit, message}
use agentis.Lifecycle.{find_run, find_task}
use agentis.Handoff.{handoff_for_run}
use agentis.Engine.{is_active, MessageContext, run_message_context}

abbrev pub running_row : Ident → ℕ → RunRow → RunRow
running_row session_id now r = record r {
  status = RunStatus.running;
  waiting_reason = WaitingReason.none;
  provider_session_id = some session_id;
  started_at = coalesce r.started_at (some now);
}

abbrev pub running_tables : Ident → Ident → ℕ → Db → Db
running_tables run_id session_id now db = record db {
  runs = update_where (λ r. r.id == run_id) (running_row session_id now) db.runs;
  tasks =
      update_where (λ t. t.current_run_id == run_id)
        (λ t. record t { status = TaskStatus.running; updated_at = now }) db.tasks;
  pending_actions =
      update_where (λ a. a.run_id == run_id && is_launch a.kind && is_pending a.state)
        (λ a. record a { state = ActionState.claimed }) db.pending_actions;
}

unfoldable pub mark_running : Env → Ident → (session_id : Ident) → ℕ → Db → Bool × Db
mark_running env run_id session_id now db = if not (is_active run_id db) then (false, db) else (
  true,
  emit env TransitionReason.run_running (EventBody.run_started run_id session_id) now
      (running_tables run_id session_id now db),
)

-- The budgets that `bumpAction` reads: of the run that is found, and of the task.
abbrev pub run_exhausted : Option RunRow → Bool
run_exhausted none = leb max_actions_per_run 0
run_exhausted (some r) = leb r.frozen.action_budget r.action_count

abbrev pub task_exhausted : Option TaskRow → Bool
task_exhausted none = leb max_actions_per_task 0
task_exhausted (some t) = leb max_actions_per_task t.action_count

abbrev pub bump_tables : Ident → Ident → Db → Db
bump_tables run_id task_id db = record db {
  runs =
      update_where (λ r. r.id == run_id) (λ r. record r { action_count = suc r.action_count })
        db.runs;
  tasks =
      update_where (λ t. t.id == task_id) (λ t. record t { action_count = suc t.action_count })
        db.tasks;
}

-- The result is `exhausted`.
unfoldable pub bump_action : Ident → (task_id : Ident) → Db → Bool × Db
bump_action run_id task_id db =
    if not (is_active run_id db)
    then (true, db)
    else if run_exhausted (find_run run_id db) || task_exhausted (find_task task_id db)
    then (true, db)
    else (false, bump_tables run_id task_id db)

abbrev pub peer_message : Env → HandoffRow → Ident → String → ℕ → MessageContext → MessageInput
peer_message env h run_id body now context = record {
  thread_id = h.thread_id;
  task_id = h.task_id;
  run_id = some run_id;
  author_kind = AuthorKind.bot;
  author_name = AuthorName.ivo;
  author_role = context.author_role;
  kind = MessageKind.progress;
  importance = MessageImportance.routine;
  dedupe_key = DedupeKey.peer run_id (env.text_digest body);
  body = MessageBody.text body;
  now_ms = now;
}

-- The message and, if it is new, the event of Ivo's progress under an accepted handoff.
unfoldable pub peer_said : Env → HandoffRow → Ident → String → ℕ → MessageContext → Db → Db
unfolding message emit
peer_said env h run_id body now context db =
    let s = message env (peer_message env h run_id body now context) db in
    if not s.1
    then s.0
    else emit env TransitionReason.peer_progress
        (EventBody.peer_said h.task_id h.thread_id run_id body) now s.0

unfoldable pub peer_progress : Env → Ident → (body : String) → ℕ → Db → Result Db
peer_progress env run_id body now db = elim (handoff_for_run run_id db) [
  | none ↦ ok db
  | some h ↦ if not (is_accepted h.state) || not (is_active run_id db) then ok db else do
    context ← run_message_context run_id db
    ok (peer_said env h run_id body now context db)
]
