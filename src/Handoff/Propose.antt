-- ===== src/Handoff/Propose.antt =====
-- `proposeHandoff` of packages/cli/src/handoff-store.ts.
use Prim.Native.String.{String}
use agentis.Prelude.{
  ◌+◌, Bool, true, false, not, ◌&&◌, ◌||◌, List, [], ◌∷◌, Option, some, none, ◌==◌, ltb, leb,
  if◌then◌else◌, find_by, any_by, filter_by, insert_row, StoreErrorCode, Result, ok, throw,
}
use agentis.Schema.{
  Ident, RunStatus, ActionState, WaitingReason, HandoffState, Bot, ActionKind, Effect, RunRow,
  TaskRow, ArtifactRow, HandoffRow, HandoffContext, ActionPayload, CommandReceipt, ApplyInput,
  FrozenConfig, ProviderKind, is_mara, is_codex,
}
use agentis.Versions.{
  max_active_runs, max_active_runs_per_bot, max_actions_per_task, run_deadline_ms,
}
use agentis.VerifiedFile.{read_verified_file}
use agentis.StoreDb.{Db, Env, fresh}
use agentis.Lifecycle.{active_total, active_of, idle_state}
use agentis.Receipts.{denied}
use agentis.Profile.{frozen_config}
use agentis.Handoff.{note}

abbrev pub is_succeeded : RunStatus → Bool
is_succeeded RunStatus.succeeded = true
is_succeeded _ = false

-- The run and the task of the JOIN: Mara's succeeded run, of a task that Mara owns.
abbrev pub source_run : Ident → Db → Option (RunRow × TaskRow)
source_run id db =
    elim (find_by (λ r. r.id == id && is_succeeded r.status && is_mara r.frozen.bot) db.runs) [
      | none ↦ none
      | some r ↦ elim (find_by (λ t. t.id == r.task_id && is_mara t.bot_name) db.tasks) [
        | none ↦ none
        | some t ↦ some (r, t)
      ]
    ]

-- ORDER BY created_at DESC LIMIT 1.
abbrev pub newest : List ArtifactRow → Option ArtifactRow
newest [] = none
newest (a ∷ rest) = elim (newest rest) [
  | none ↦ some a
  | some b ↦ some (if ltb a.created_at b.created_at then b else a)
]

-- `readVerifiedSource`.
abbrev pub read_verified_source : Env → ArtifactRow → String → Option String
read_verified_source env artifact root =
    elim (read_verified_file env.fs (record {
      path = artifact.path;
      root = root;
      byte_size = artifact.byte_size;
      sha256 = artifact.sha256;
    })) [ none ↦ none | some bytes ↦ some (env.fs.utf8 bytes) ]

-- The run of Ivo that a proposal queues. Draws 0 to 3 are the run, the handoff, the revision and the
-- launch action.
abbrev pub recipient_config : Env → ApplyInput → FrozenConfig → Db → FrozenConfig
recipient_config env input original db = frozen_config (record {
  bot = Bot.ivo;
  provider = ProviderKind.claude;
  execution_boundary = original.execution_boundary;
  workspace_id = env.run_workspace input.workspace_id (fresh env 0 db);
  mode = none;
  deadline_ms = some original.deadline_ms;
  action_budget = some original.action_budget;
})

abbrev pub recipient_run : Env → ApplyInput → RunRow → Db → RunRow
recipient_run env input source db = record {
  id = fresh env 0 db;
  task_id = source.task_id;
  thread_id = source.thread_id;
  bot_config_revision_id = fresh env 2 db;
  status = RunStatus.queued;
  waiting_reason = WaitingReason.none;
  frozen = recipient_config env input source.frozen db;
  provider_state = idle_state;
  provider_session_id = none;
  fixture = none;
  action_count = 0;
  deadline_at = input.now_ms + run_deadline_ms;
  created_at = input.now_ms;
  started_at = none;
  completed_at = none;
}

abbrev pub proposed_handoff : Env → ApplyInput → RunRow → HandoffContext → Db → HandoffRow
proposed_handoff env input source context db = record {
  id = fresh env 1 db;
  task_id = source.task_id;
  thread_id = source.thread_id;
  source_run_id = source.id;
  recipient_run_id = fresh env 0 db;
  context = context;
  state = HandoffState.proposed;
  expires_at = input.now_ms + 60000;
}

-- The PRIMARY KEY and UNIQUE constraints of the four tables that a proposal writes to.
abbrev pub proposal_taken : HandoffRow → RunRow → Ident → Db → Bool
proposal_taken h r action_id db =
    any_by (λ x. x.id == r.bot_config_revision_id) db.revisions
    || any_by
        (λ x.
          x.id == h.id
          || x.task_id == h.task_id
          || x.source_run_id == h.source_run_id
          || x.recipient_run_id == h.recipient_run_id)
        db.handoffs
    || any_by (λ x. x.id == r.id) db.runs
    || any_by (λ x. x.id == action_id) db.pending_actions

abbrev pub propose_tables : Env → ApplyInput → HandoffRow → RunRow → Db → Db
propose_tables env input h r db = record db {
  drawn = db.drawn + 4;
  revisions =
      insert_row
        (record { id = r.bot_config_revision_id; frozen = r.frozen; created_at = input.now_ms })
        db.revisions;
  handoffs = insert_row h db.handoffs;
  runs = insert_row r db.runs;
  pending_actions =
      insert_row
        (record {
          id = fresh env 3 db;
          run_id = r.id;
          kind = ActionKind.launch;
          state = ActionState.pending;
          payload = ActionPayload.for_handoff h.id;
          approval_id = none;
          created_at = input.now_ms;
        })
        db.pending_actions;
}

-- The inserts of an accepted proposal, its note and its receipt.
unfoldable pub insert_proposal :
    Env → Ident → ApplyInput → HandoffRow → RunRow → Db → Result (CommandReceipt × Db)
insert_proposal env command_id input h r db =
    if proposal_taken h r (fresh env 3 db) db
    then throw StoreErrorCode.internal "UNIQUE constraint failed"
    else ok (
      record {
        command_id = command_id;
        replayed = false;
        accepted = true;
        error = none;
        error_code = none;
        handoff_id = some h.id;
        task_id = some h.task_id;
        run_id = some r.id;
        thread_id = some h.thread_id;
        approval_id = none;
        effects = Effect.launch ∷ [];
      },
      note env h HandoffState.proposed
          "Mara requests Ivo's explicit acceptance; draft only, no onward delegation" input.now_ms
          (propose_tables env input h r db),
    )

-- The second half of the guards: the source draft has to be there, small and unchanged.
unfoldable pub propose_draft :
    Env
    → Ident
    → ApplyInput
    → RunRow
    → TaskRow
    → (request : String) → Db
    → Result (CommandReceipt × Db)
propose_draft env command_id input source task request db =
    elim (newest (filter_by (λ a. a.run_id == source.id) db.artifacts)) [
      | none ↦ ok (denied command_id "handoff requires a source draft of at most 65536 bytes", db)
      | some artifact ↦
          if ltb 65536 artifact.byte_size
          then ok (denied command_id "handoff requires a source draft of at most 65536 bytes", db)
          else elim (read_verified_source env artifact source.frozen.workspace_id) [
            | none ↦ ok (
              denied command_id
                  "source draft is missing, changed, oversized, or not a regular file",
              db,
            )
            | some draft ↦
                insert_proposal env command_id input
                  (proposed_handoff env input source
                    (record {
                      source_run_id = source.id;
                      brief = task.brief;
                      constraints = task.constraints;
                      source_draft = draft;
                      request = request;
                    })
                    db)
                  (recipient_run env input source db) db
          ]
    ]

unfoldable pub propose_handoff :
    Env
    → Ident
    → ApplyInput
    → (source_run_id : Ident) → (context : String) → Db
    → Result (CommandReceipt × Db)
propose_handoff env command_id input source_run_id context db = elim (source_run source_run_id db) [
  | none ↦ ok (denied command_id "handoff requires the owner's completed Mara source run", db)
  | some (source, task) ↦
      if not (task.owner_session == input.principal.session_id)
      then ok (denied command_id "handoff requires the owner's completed Mara source run", db)
      else if any_by (λ h. h.task_id == source.task_id) db.handoffs
      then ok (denied command_id "task already has a bounded handoff", db)
      else if db.latched
      then ok (denied command_id "stop-all is latched", db)
      else if leb max_active_runs (active_total db.runs)
          || leb max_active_runs_per_bot (active_of Bot.ivo db.runs)
      then ok (denied command_id "handoff concurrency exceeded", db)
      else if ltb max_actions_per_task (task.action_count + 2)
      then ok (denied command_id "task action budget exhausted", db)
      else if not (is_codex source.frozen.provider)
      then ok (denied command_id "handoff requires Codex coordinator and Claude specialist", db)
      else propose_draft env command_id input source task context db
]
