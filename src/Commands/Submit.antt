-- ===== src/Commands/Submit.antt =====
-- `submitTask` of packages/cli/src/store.ts.
use Prim.Native.String.{String}
use text.Mathlib.Text.{◌==◌ as str_eq}
use agentis.Prelude.{
  ◌+◌, Bool, false, not, ◌&&◌, ◌||◌, List, [], ◌∷◌, Option, some, none, ◌==◌, leb, if◌then◌else◌,
  find_by, any_by, insert_row, is_some, or_else, StoreErrorCode, Result, ok, throw,
}
use agentis.Schema.{
  Ident, RunStatus, WaitingReason, ActionState, TaskStatus, Bot, ActionKind, ActionPayload, Effect,
  AuthorKind, AuthorName, MessageAuthorRole, MessageKind, MessageImportance, TransitionReason,
  DedupeKey, MessageBody, EventBody, ErrorCode, ProviderKind, SourceKind, SourceOrigin,
  SourcePacket, GithubOrigin, SubmitTask, FrozenConfig, RunRow, TaskRow, EvidenceRow,
  SourceAcknowledgement, CommandReceipt, ApplyInput, is_claude, is_plan, is_mara, is_browser,
  same_provider, same_source, source_kind,
}
use agentis.Versions.{max_active_runs, max_active_runs_per_bot, run_deadline_ms}
use agentis.StoreDb.{Db, Env, fresh, emit, message}
use agentis.Receipts.{denied, denied_as, accepted}
use agentis.Lifecycle.{active_total, active_of, idle_state}
use agentis.Profile.{frozen_config, bot_role}

-- `command.bot ?? "mara"`, if it is one of the two bots.
unfoldable pub submitted_bot : SubmitTask → Option Bot
submitted_bot command =
    let name = or_else command.bot "mara" in
    if str_eq name "mara" then some Bot.mara else if str_eq name "ivo" then some Bot.ivo else none

abbrev pub provider_of : ProviderKind → Bot → ProviderKind
provider_of ProviderKind.fake bot = ProviderKind.fake
provider_of _ Bot.ivo = ProviderKind.claude
provider_of _ Bot.mara = ProviderKind.codex

abbrev pub acknowledges : SourceKind → List SourceAcknowledgement → Bool
acknowledges kind = any_by (λ a. same_source a.source kind)

-- The test of a browser's session: unexpired, for this provider, with the provider and the source
-- acknowledged, and for Mara.
unfoldable pub browser_may_submit : ApplyInput → SubmitTask → Bot → Db → Bool
browser_may_submit input command bot db = elim input.principal.browser_session_hash [
  | none ↦ false
  | some hash ↦ elim (find_by (λ s. s.token_hash == hash) db.sessions) [
    | none ↦ false
    | some s ↦ elim command.source [
      | none ↦ false
      | some source ↦
          not (leb s.expires_at input.now_ms)
          && same_provider s.provider input.provider
          && is_some s.provider_acknowledged_at
          && acknowledges (source_kind source.origin) s.sources
          && is_mara bot
    ]
  ]
]

abbrev pub from_browser : ApplyInput → Bool
from_browser input = elim input.principal.channel [ none ↦ false | some c ↦ is_browser c ]

abbrev pub asks_plan : SubmitTask → Bool
asks_plan command = elim command.mode [ none ↦ false | some m ↦ is_plan m ]

-- `command.source ??` the brief as a pasted source.
abbrev pub source_of : SubmitTask → SourcePacket
source_of command = or_else command.source (record {
  origin = SourceOrigin.pasted;
  label = "CLI brief";
  text = command.brief;
  citations = [];
})

abbrev pub outcome_of : SubmitTask → String
outcome_of command = or_else command.outcome command.brief

-- Draws 0 to 4 are the task, the thread, the run, the evidence and the config revision.
abbrev pub workspace_of : Env → ApplyInput → Db → String
workspace_of env input db = env.run_workspace input.workspace_id (fresh env 2 db)

abbrev pub submitted_source_path : Env → ApplyInput → Db → String
submitted_source_path env input db = env.source_path (workspace_of env input db) (fresh env 3 db)

abbrev pub submitted_config : Env → ApplyInput → SubmitTask → Bot → Db → FrozenConfig
submitted_config env input command bot db = frozen_config (record {
  bot = bot;
  provider = provider_of input.provider bot;
  execution_boundary = input.execution_boundary;
  workspace_id = workspace_of env input db;
  mode = command.mode;
  deadline_ms = none;
  action_budget = none;
})

abbrev pub github_field : SourceOrigin → (GithubOrigin → Option String) → Option String
github_field SourceOrigin.pasted f = none
github_field (SourceOrigin.github_briefing o) f = f o

abbrev pub submitted_evidence : Env → ApplyInput → SourcePacket → Db → EvidenceRow
submitted_evidence env input source db = record {
  id = fresh env 3 db;
  task_id = fresh env 0 db;
  source = source_kind source.origin;
  label = source.label;
  repository = github_field source.origin (λ o. some o.repository);
  revision = github_field source.origin (λ o. some o.revision);
  url = github_field source.origin (λ o. o.url);
  content_digest = env.text_digest source.text;
  byte_size = env.byte_length source.text;
  path = submitted_source_path env input db;
  citations = source.citations;
  created_at = input.now_ms;
}

abbrev pub submitted_task : Env → ApplyInput → SubmitTask → Bot → Db → TaskRow
submitted_task env input command bot db = record {
  id = fresh env 0 db;
  brief = outcome_of command;
  thread_id = fresh env 1 db;
  outcome = outcome_of command;
  owner_session = input.principal.session_id;
  bot_name = bot;
  bot_role = bot_role bot;
  workspace_ref = fresh env 0 db;
  constraints = or_else command.constraints [];
  evidence = fresh env 3 db ∷ [];
  current_run_id = fresh env 2 db;
  latest_artifact_id = none;
  status = TaskStatus.opened;
  action_count = 0;
  created_at = input.now_ms;
  updated_at = input.now_ms;
}

abbrev pub submitted_run : Env → ApplyInput → SubmitTask → Bot → Db → RunRow
submitted_run env input command bot db = record {
  id = fresh env 2 db;
  task_id = fresh env 0 db;
  thread_id = fresh env 1 db;
  bot_config_revision_id = fresh env 4 db;
  status = RunStatus.queued;
  waiting_reason = WaitingReason.none;
  frozen = submitted_config env input command bot db;
  provider_state = idle_state;
  provider_session_id = none;
  fixture = command.fixture;
  action_count = 0;
  deadline_at = input.now_ms + run_deadline_ms;
  created_at = input.now_ms;
  started_at = none;
  completed_at = none;
}

-- The inserts up to the request message: five draws are used.
abbrev pub submit_tables : Env → ApplyInput → SubmitTask → Bot → Db → Db
submit_tables env input command bot db = record db {
  drawn = db.drawn + 5;
  revisions =
      insert_row
        (record {
          id = fresh env 4 db;
          frozen = submitted_config env input command bot db;
          created_at = input.now_ms;
        })
        db.revisions;
  task_sources = insert_row (submitted_evidence env input (source_of command) db) db.task_sources;
  tasks = insert_row (submitted_task env input command bot db) db.tasks;
  threads =
      insert_row
        (record { id = fresh env 1 db; task_id = fresh env 0 db; created_at = input.now_ms })
        db.threads;
  runs = insert_row (submitted_run env input command bot db) db.runs;
}

unfoldable pub submit_message : Env → Ident → ApplyInput → SubmitTask → Bot → Db → Db
unfolding message
submit_message env command_id input command bot db =
    (message env
      (record {
        thread_id = fresh env 1 db;
        task_id = fresh env 0 db;
        run_id = some (fresh env 2 db);
        author_kind = AuthorKind.human;
        author_name = AuthorName.owner;
        author_role = MessageAuthorRole.operator;
        kind = MessageKind.request;
        importance = MessageImportance.decision;
        dedupe_key = DedupeKey.request command_id;
        body = MessageBody.text (outcome_of command);
        now_ms = input.now_ms;
      })
      (submit_tables env input command bot db)).0

-- The launch action, which draw 6 names; the draws of `db` name its run, its task and its thread.
abbrev pub queue_launch : Env → ApplyInput → (db db' : Db) → Db
queue_launch env input db db' = record db' {
  drawn = db'.drawn + 1;
  pending_actions =
      insert_row
        (record {
          id = fresh env 0 db';
          run_id = fresh env 2 db;
          kind = ActionKind.launch;
          state = ActionState.pending;
          payload = ActionPayload.task_thread (fresh env 0 db) (fresh env 1 db);
          approval_id = none;
          created_at = input.now_ms;
        })
        db'.pending_actions;
}

-- All rows and the event.
unfoldable pub submit_rows : Env → Ident → ApplyInput → SubmitTask → Bot → Db → Db
unfolding submit_message emit
submit_rows env command_id input command bot db =
    emit env TransitionReason.task_submitted
      (EventBody.task_created (fresh env 0 db) (fresh env 2 db) (fresh env 1 db)
        input.principal.session_id bot command_id)
      input.now_ms (queue_launch env input db (submit_message env command_id input command bot db))

-- The PRIMARY KEY and UNIQUE constraints of the tables that a submission writes to.
unfoldable pub submit_taken : Env → Db → Bool
submit_taken env db =
    any_by (λ x. x.id == fresh env 4 db) db.revisions
    || any_by (λ x. x.id == fresh env 3 db) db.task_sources
    || any_by (λ x. x.id == fresh env 0 db || x.thread_id == fresh env 1 db) db.tasks
    || any_by (λ x. x.id == fresh env 1 db) db.threads
    || any_by (λ x. x.id == fresh env 2 db) db.runs
    || any_by (λ x. x.id == fresh env 6 db) db.pending_actions

-- The files that a command has written when it returns or throws: `stagedPaths`, with their contents.
abbrev pub Staged : Type 0
Staged = List (String × String)

-- The part of `submitTask` behind its guards: the source file, then the rows.
unfoldable pub insert_task :
    Env → Ident → ApplyInput → SubmitTask → Bot → Db → Staged × Result (CommandReceipt × Db)
insert_task env command_id input command bot db =
    let path = submitted_source_path env input db in
    let source = source_of command in
    if not (env.writes path source.text)
    then ([], throw StoreErrorCode.internal "the scratch file cannot be written")
    else (
      (path, source.text) ∷ [],
      if submit_taken env db
          then throw StoreErrorCode.internal "UNIQUE constraint failed"
          else ok (
            record (accepted command_id (Effect.launch ∷ [])) {
              task_id = some (fresh env 0 db);
              run_id = some (fresh env 2 db);
              thread_id = some (fresh env 1 db);
            },
            submit_rows env command_id input command bot db,
          ),
    )

-- The reason for which a submission is refused, in the order of the guards.
unfoldable pub submit_refusal : Ident → ApplyInput → SubmitTask → Bot → Db → Option CommandReceipt
submit_refusal command_id input command bot db =
    if from_browser input && not (browser_may_submit input command bot db)
    then some (
        denied command_id
          "browser submission requires acknowledged eligible provider and source authority")
    else if is_claude (provider_of input.provider bot) && asks_plan command
    then some
        (denied_as command_id ErrorCode.unsupported_capability "native plan mode is unavailable")
    else if db.latched
    then some (denied command_id "stop-all is latched")
    else if leb max_active_runs (active_total db.runs)
    then some (denied command_id "global run concurrency exceeded")
    else if leb max_active_runs_per_bot (active_of bot db.runs)
    then some (denied command_id "per-bot run concurrency exceeded")
    else none

unfoldable pub submit_task :
    Env → Ident → ApplyInput → SubmitTask → Db → Staged × Result (CommandReceipt × Db)
submit_task env command_id input command db =
    if is_some command.attachments || is_some command.mcp_servers
    then (
      [],
      ok (
        denied_as command_id ErrorCode.unsupported_capability
            "attachments and MCP configuration are not available through Agentis",
        db,
      ),
    )
    else elim (submitted_bot command) [
      | none ↦ (
        [],
        ok (
          denied_as command_id ErrorCode.unsupported_provider "unsupported-provider: unknown bot",
          db,
        ),
      )
      | some bot ↦ elim (submit_refusal command_id input command bot db) [
        | some refusal ↦ ([], ok (refusal, db))
        | none ↦ insert_task env command_id input command bot db
      ]
    ]
