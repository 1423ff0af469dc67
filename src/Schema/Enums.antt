-- ===== src/Schema/Enums.antt =====
-- The literal types of packages/cli/src/schema.ts and packages/cli/src/provider-contract.ts, with
-- the tests and the spellings that the store's code uses.
use Prim.Native.String.{String}
use agentis.Prelude.{ℕ, Bool, true, false}

-- Identifiers, keys, hashes and session names are strings of which the code uses equality alone.
abbrev pub Ident : Type 0
Ident = ℕ

pub data PrincipalKind : Type 0 where
  owner bot : PrincipalKind

pub data Channel : Type 0 where
  cli browser : Channel

pub data ExecutionBoundary : Type 0 where
  docker_desktop_run_container docker_fixture_container unverified_host_scratch : ExecutionBoundary

pub data ProviderKind : Type 0 where
  fake codex claude : ProviderKind

pub data FixtureKind : Type 0 where
  smoke allow deny input cancel : FixtureKind

pub data RunStatus : Type 0 where
  queued running waiting_approval waiting_input interrupted succeeded failed canceled : RunStatus

-- The states of `pending_actions` and of `approvals`.
pub data ActionState : Type 0 where
  pending allowed denied expired canceled claimed : ActionState

pub data WaitingReason : Type 0 where
  approval input interrupted none : WaitingReason

pub data Bot : Type 0 where
  mara ivo : Bot

pub data Role : Type 0 where
  coordinator specialist : Role

pub data Mode : Type 0 where
  agent plan : Mode

pub data SourceKind : Type 0 where
  pasted github_briefing : SourceKind

pub data Decision : Type 0 where
  allowed denied : Decision

pub data HandoffState : Type 0 where
  proposed accepted rejected expired : HandoffState

-- `opened` is the status 'open'.
pub data TaskStatus : Type 0 where
  opened running completed failed canceled : TaskStatus

pub data LoadStatus : Type 0 where
  idle loading succeeded failed : LoadStatus

pub data ErrorCode : Type 0 where
  unsupported_provider unsupported_capability : ErrorCode

-- The strings that stand in `CommandReceipt.effects`.
pub data Effect : Type 0 where
  launch load_session dispatch_tool reject_tool resume_input interrupt_provider : Effect

-- The kinds of `pending_actions`.
pub data ActionKind : Type 0 where
  launch tool handoff_draft : ActionKind

pub data AuthorKind : Type 0 where
  human bot system : AuthorKind

pub data AuthorName : Type 0 where
  owner mara ivo agentis_name : AuthorName

pub data MessageAuthorRole : Type 0 where
  operator coordinator specialist system : MessageAuthorRole

pub data MessageKind : Type 0 where
  request question answer progress approval handoff result failure system : MessageKind

pub data MessageImportance : Type 0 where
  routine decision blocking result : MessageImportance

pub data TransitionReason : Type 0 where
  task_submitted run_running waiting_approval approval_resolved waiting_input : TransitionReason
  input_answered run_canceled stop_all daemon_restart run_succeeded run_failed : TransitionReason
  handoff_proposed handoff_accepted handoff_rejected handoff_expired : TransitionReason
  handoff_artifact peer_progress setup_acknowledged : TransitionReason

abbrev pub same_bot : Bot → Bot → Bool
same_bot Bot.mara Bot.mara = true
same_bot Bot.mara Bot.ivo = false
same_bot Bot.ivo Bot.mara = false
same_bot Bot.ivo Bot.ivo = true

abbrev pub is_mara : Bot → Bool
is_mara Bot.mara = true
is_mara Bot.ivo = false

abbrev pub is_owner : PrincipalKind → Bool
is_owner PrincipalKind.owner = true
is_owner PrincipalKind.bot = false

abbrev pub is_browser : Channel → Bool
is_browser Channel.browser = true
is_browser Channel.cli = false

abbrev pub is_fake : ProviderKind → Bool
is_fake ProviderKind.fake = true
is_fake _ = false

abbrev pub is_codex : ProviderKind → Bool
is_codex ProviderKind.codex = true
is_codex _ = false

abbrev pub is_claude : ProviderKind → Bool
is_claude ProviderKind.claude = true
is_claude _ = false

abbrev pub same_provider : ProviderKind → ProviderKind → Bool
same_provider ProviderKind.fake p = is_fake p
same_provider ProviderKind.codex p = is_codex p
same_provider ProviderKind.claude p = is_claude p

abbrev pub is_plan : Mode → Bool
is_plan Mode.plan = true
is_plan Mode.agent = false

abbrev pub same_source : SourceKind → SourceKind → Bool
same_source SourceKind.pasted SourceKind.pasted = true
same_source SourceKind.pasted SourceKind.github_briefing = false
same_source SourceKind.github_briefing SourceKind.pasted = false
same_source SourceKind.github_briefing SourceKind.github_briefing = true

abbrev pub is_pending : ActionState → Bool
is_pending ActionState.pending = true
is_pending _ = false

abbrev pub is_allowed : ActionState → Bool
is_allowed ActionState.allowed = true
is_allowed _ = false

abbrev pub is_proposed : HandoffState → Bool
is_proposed HandoffState.proposed = true
is_proposed _ = false

abbrev pub is_accepted : HandoffState → Bool
is_accepted HandoffState.accepted = true
is_accepted _ = false

abbrev pub is_loading : LoadStatus → Bool
is_loading LoadStatus.loading = true
is_loading _ = false

abbrev pub is_launch : ActionKind → Bool
is_launch ActionKind.launch = true
is_launch _ = false

abbrev pub is_handoff_draft : ActionKind → Bool
is_handoff_draft ActionKind.handoff_draft = true
is_handoff_draft _ = false

abbrev pub action_state_text : ActionState → String
action_state_text ActionState.pending = "pending"
action_state_text ActionState.allowed = "allowed"
action_state_text ActionState.denied = "denied"
action_state_text ActionState.expired = "expired"
action_state_text ActionState.canceled = "canceled"
action_state_text ActionState.claimed = "claimed"

abbrev pub run_status_text : RunStatus → String
run_status_text RunStatus.queued = "queued"
run_status_text RunStatus.running = "running"
run_status_text RunStatus.waiting_approval = "waiting_approval"
run_status_text RunStatus.waiting_input = "waiting_input"
run_status_text RunStatus.interrupted = "interrupted"
run_status_text RunStatus.succeeded = "succeeded"
run_status_text RunStatus.failed = "failed"
run_status_text RunStatus.canceled = "canceled"

abbrev pub handoff_state_text : HandoffState → String
handoff_state_text HandoffState.proposed = "proposed"
handoff_state_text HandoffState.accepted = "accepted"
handoff_state_text HandoffState.rejected = "rejected"
handoff_state_text HandoffState.expired = "expired"
