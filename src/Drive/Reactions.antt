-- ===== src/Drive/Reactions.antt =====
-- What the daemon does of one effect of a receipt, in `applyReceiptEffects` of packages/cli/src/engine.ts.
use agentis.Snapshot.{read_snapshot}
use agentis.Prelude.{none, if◌then◌else◌, some, String, ℕ, false, List, true, Option, Bool}
use agentis.Drive.{
  ProviderBrief, Flow, then_return, DriveInput, followed_by, run_in, skip, provider_brief, catching,
  ProviderCall, Act, Platform, fail_run,
}
use agentis.Drive.Fake.{drive_after_commit, write_artifact}
use agentis.Schema.{
  is_fake, is_claude, Decision, ExecutionBoundary, FixtureKind, ProviderKind, RunRow,
  CommandReceipt, Command, Ident,
}

-- The input of a drive: the frozen configuration of the run, and what differs from call to call.
abbrev pub drive_input :
    RunRow
    → (task_id : Ident) → Option FixtureKind
    → ProviderKind
    → ExecutionBoundary
    → String
    → ℕ
    → (brief : String) → (load_session : Bool) → DriveInput
drive_input run task_id fixture provider boundary workspace_root now brief load_session = record {
  run_id = run.id;
  task_id = task_id;
  fixture = fixture;
  provider = provider;
  execution_boundary = boundary;
  workspace = run.frozen.workspace_id;
  workspace_root = workspace_root;
  now_ms = now;
  brief = brief;
  load_session = load_session;
}

-- The arguments of `applyReceiptEffects`, less the store.
pub record EffectsInput : Type 0 where
  pub receipt : CommandReceipt
  pub command : Command
  pub provider : ProviderKind
  pub execution_boundary : ExecutionBoundary
  pub now_ms : ℕ
  pub workspace_root : String

abbrev pub load_input : EffectsInput → RunRow → (brief : String) → DriveInput
load_input input run brief =
    drive_input run run.task_id run.fixture run.frozen.provider run.frozen.execution_boundary
      input.workspace_root input.now_ms brief true

abbrev pub launch_input :
    EffectsInput → ProviderKind → (task_id : Ident) → RunRow → (brief : String) → DriveInput
launch_input input provider task_id run brief =
    drive_input run task_id run.fixture provider run.frozen.execution_boundary input.workspace_root
      input.now_ms brief false

abbrev pub finish_input :
    EffectsInput
    → ProviderKind
    → FixtureKind
    → (task_id : Ident) → RunRow
    → (brief : String) → DriveInput
finish_input input provider fixture task_id run brief =
    drive_input run task_id (some fixture) provider ExecutionBoundary.unverified_host_scratch
      input.workspace_root input.now_ms brief false

-- A session is loaded; an error of the adapter is dropped.
unfoldable pub load_selected : Platform → EffectsInput → RunRow → Act
unfolding fail_run drive_after_commit
load_selected p input run db =
    elim (provider_brief p.env.fs (read_snapshot db) run.id input.workspace_root) [
      | ProviderBrief.unverified e ↦ then_return (fail_run p run.id run.task_id e) db
      | ProviderBrief.briefed text ↦
          then_return (catching (drive_after_commit p (load_input input run text)) (λ e. skip)) db
    ]

-- The body of the `try` of a launch.
unfoldable pub launch_run : Platform → EffectsInput → ProviderKind → (run_id task_id : Ident) → Act
unfolding fail_run drive_after_commit
launch_run p input provider run_id task_id db = elim (run_in run_id (read_snapshot db)) [
  | none ↦ (db, Flow.go)
  | some run ↦ elim (provider_brief p.env.fs (read_snapshot db) run.id input.workspace_root) [
    | ProviderBrief.unverified e ↦ then_return (fail_run p run_id task_id e) db
    | ProviderBrief.briefed text ↦
        drive_after_commit p (launch_input input provider task_id run text) db
  ]
]

-- An error fails the run.
unfoldable pub launch : Platform → EffectsInput → ProviderKind → (run_id task_id : Ident) → Act
unfolding launch_run fail_run
launch p input provider run_id task_id =
    catching (launch_run p input provider run_id task_id)
      (λ e. then_return (fail_run p run_id task_id e))

-- The fake provider goes on with a run that was allowed or answered; it writes its artifact.
unfoldable pub finish_fake :
    Platform → EffectsInput → ProviderKind → FixtureKind → (run_id task_id : Ident) → Act
unfolding fail_run write_artifact
finish_fake p input provider fixture run_id task_id db = elim (run_in run_id (read_snapshot db)) [
  | none ↦ (db, Flow.halt)
  | some run ↦ elim (provider_brief p.env.fs (read_snapshot db) run.id input.workspace_root) [
    | ProviderBrief.unverified e ↦ then_return (fail_run p run.id task_id e) db
    | ProviderBrief.briefed text ↦
        write_artifact p (finish_input input provider fixture task_id run text) db
  ]
]

unfoldable pub dispatch_tool :
    Platform → EffectsInput → ProviderKind → (run_id task_id : Ident) → Act
unfolding finish_fake
dispatch_tool p input ProviderKind.claude run_id task_id db =
    p.provider (ProviderCall.resolve_approval_call ProviderKind.claude run_id Decision.allowed) db
dispatch_tool p input ProviderKind.codex run_id task_id db =
    p.provider (ProviderCall.resolve_approval_call ProviderKind.codex run_id Decision.allowed) db
dispatch_tool p input ProviderKind.fake run_id task_id db =
    finish_fake p input ProviderKind.fake FixtureKind.allow run_id task_id db

unfoldable pub reject_tool : Platform → ProviderKind → (run_id : Ident) → Act
reject_tool p provider run_id =
    if is_claude provider
    then p.provider (ProviderCall.resolve_approval_call ProviderKind.claude run_id Decision.denied)
    else p.provider (ProviderCall.resolve_approval_call ProviderKind.codex run_id Decision.denied)

abbrev pub answers_of : Command → Option (List (String × String))
answers_of (Command.answer_input run_id answers) = some answers
answers_of _ = none

-- The answers go to the run's adapter; the fake provider, and any command without answers, goes on
-- without them.
unfoldable pub resume_input :
    Platform → EffectsInput → ProviderKind → (run_id task_id : Ident) → Act
unfolding finish_fake
resume_input p input provider run_id task_id = elim (answers_of input.command) [
  | none ↦ finish_fake p input provider FixtureKind.input run_id task_id
  | some answers ↦
      if is_fake provider
      then finish_fake p input provider FixtureKind.input run_id task_id
      else p.provider (ProviderCall.answer_input_call provider run_id answers)
]

-- Both adapters are told, whichever drives the run.
unfoldable pub interrupt_provider : Platform → ExecutionBoundary → Option Ident → Act
interrupt_provider p boundary none =
    followed_by (p.provider (ProviderCall.interrupt_all ProviderKind.claude))
      (p.provider (ProviderCall.interrupt_all ProviderKind.codex))
interrupt_provider p boundary (some run_id) =
    followed_by (p.provider (ProviderCall.interrupt ProviderKind.claude run_id none))
      (p.provider (ProviderCall.interrupt ProviderKind.codex run_id (some boundary)))
