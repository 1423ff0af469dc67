-- ===== src/Engine/Outcome.antt =====
-- `complete` and `fail` of `mutateForEngine` in packages/cli/src/store.ts.
use Prim.Native.String.{String}
use agentis.Prelude.{
  ℕ, suc, Bool, true, false, not, List, [], ◌∷◌, Option, some, none, ◌==◌, ltb, if◌then◌else◌,
  any_by, filter_by, insert_row, StoreErrorCode, Result, ok, throw, ◌>>=◌,
}
use agentis.Schema.{
  Ident, Bot, AuthorKind, AuthorName, MessageKind, MessageImportance, HandoffState,
  TransitionReason, DedupeKey, MessageBody, EventBody, Citation, EvidenceRow, ArtifactRow, TaskRow,
  HandoffRow, is_accepted,
}
use agentis.StoreDb.{Db, Env, fresh, emit}
use agentis.Lifecycle.{FinishedRunStatus, FinishRunInput, finish_run, find_task}
use agentis.Handoff.{handoff_for_run, reject_handoff}
use agentis.Engine.{is_active, MessageContext, run_message_context, author_of}

pub record CompleteInput : Type 0 where
  pub run_id : Ident
  pub task_id : Ident
  pub source : String
  pub media_type : String
  pub sha256 : Ident
  pub byte_size : ℕ
  pub path : String
  pub now_ms : ℕ

-- ORDER BY created_at LIMIT 1, of the evidence of one task.
abbrev pub oldest : List EvidenceRow → Option EvidenceRow
oldest [] = none
oldest (e ∷ rest) = elim (oldest rest) [
  | none ↦ some e
  | some f ↦ some (if ltb f.created_at e.created_at then f else e)
]

abbrev pub citations_of : Ident → Db → List Citation
citations_of task_id db = elim (oldest (filter_by (λ e. e.task_id == task_id) db.task_sources)) [
  | none ↦ []
  | some e ↦ e.citations
]

abbrev pub bot_of : AuthorName → Bot
bot_of AuthorName.ivo = Bot.ivo
bot_of _ = Bot.mara

abbrev pub made_artifact : Env → CompleteInput → MessageContext → Db → ArtifactRow
made_artifact env input context db = record {
  id = fresh env 0 db;
  task_id = input.task_id;
  run_id = input.run_id;
  author = bot_of context.author_name;
  source = input.source;
  media_type = input.media_type;
  sha256 = input.sha256;
  byte_size = input.byte_size;
  path = input.path;
  citations = citations_of input.task_id db;
  created_at = input.now_ms;
}

abbrev pub insert_artifact : Env → CompleteInput → MessageContext → Db → Db
insert_artifact env input context db = record db {
  drawn = suc db.drawn;
  artifacts = insert_row (made_artifact env input context db) db.artifacts;
}

abbrev pub success : Env → CompleteInput → MessageContext → Ident → FinishRunInput
success env input context artifact_id = record {
  run_id = input.run_id;
  status = FinishedRunStatus.succeeded;
  now_ms = input.now_ms;
  latest_artifact_id = some artifact_id;
  message = record {
    author_kind = AuthorKind.bot;
    author_name = context.author_name;
    author_role = context.author_role;
    kind = MessageKind.result;
    importance = MessageImportance.result;
    dedupe_key = DedupeKey.result input.run_id;
    body = MessageBody.result_ready artifact_id;
  };
  reason = TransitionReason.run_succeeded;
  event_body = EventBody.artifact_made input.run_id artifact_id;
}

-- The event that a completed handoff adds.
unfoldable pub note_artifact : Env → Option HandoffRow → CompleteInput → Ident → Db → Db
note_artifact env none input artifact_id db = db
note_artifact env (some h) input artifact_id db =
    emit env TransitionReason.handoff_artifact
      (EventBody.handoff_made h.id h.task_id h.thread_id input.run_id artifact_id) input.now_ms db

-- Whether a handoff of this run stands in the way of its completion.
abbrev pub unaccepted : Option HandoffRow → Bool
unaccepted none = false
unaccepted (some h) = not (is_accepted h.state)

-- PRIMARY KEY (id) of `artifacts`.
abbrev pub unused_artifact_id : Env → Db → Result (Unit {0})
unused_artifact_id env db =
    if any_by (λ a. a.id == fresh env 0 db) db.artifacts
    then throw StoreErrorCode.internal "UNIQUE constraint failed"
    else ok tt

-- The artifact's identifier, unless the run may not complete.
unfoldable pub complete : Env → CompleteInput → Db → Result (Option Ident × Db)
complete env input db =
    if not (is_active input.run_id db)
    then ok (none, db)
    else if unaccepted (handoff_for_run input.run_id db)
    then ok (none, db)
    else do
      context ← run_message_context input.run_id db
      _ ← unused_artifact_id env db
      db' ←
          finish_run env (success env input context (fresh env 0 db))
            (insert_artifact env input context db)
      ok (
        some (fresh env 0 db),
        note_artifact env (handoff_for_run input.run_id db) input (fresh env 0 db) db',
      )

abbrev pub failing_author : Option TaskRow → AuthorName
failing_author none = AuthorName.mara
failing_author (some t) = author_of t.bot_name

abbrev pub failure : Env → Ident → Option TaskRow → MessageContext → String → ℕ → FinishRunInput
failure env run_id task context error now = record {
  run_id = run_id;
  status = FinishedRunStatus.failed;
  now_ms = now;
  latest_artifact_id = none;
  message = record {
    author_kind = AuthorKind.bot;
    author_name = failing_author task;
    author_role = context.author_role;
    kind = MessageKind.failure;
    importance = MessageImportance.blocking;
    dedupe_key = DedupeKey.failure run_id (env.text_digest error);
    body = MessageBody.text error;
  };
  reason = TransitionReason.run_failed;
  event_body = EventBody.run_error run_id error none;
}

-- A proposal that is still open is rejected instead, which finishes the run.
unfoldable pub fail_active : Env → Ident → (task_id : Ident) → String → ℕ → Bool × Db → Result Db
fail_active env run_id task_id error now (true, db) = ok db
fail_active env run_id task_id error now (false, db) = do
  context ← run_message_context run_id db
  finish_run env (failure env run_id (find_task task_id db) context error now) db

unfoldable pub fail : Env → Ident → (task_id : Ident) → (error : String) → ℕ → Db → Result Db
fail env run_id task_id error now db = if not (is_active run_id db) then ok db else do
  rejected ← reject_handoff env run_id HandoffState.rejected FinishedRunStatus.failed error now db
  fail_active env run_id task_id error now rejected
