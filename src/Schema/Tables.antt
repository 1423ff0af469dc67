-- ===== src/Schema/Tables.antt =====
-- The rows of the store's tables: the DDL and the row types of packages/cli/src/store.ts, HANDOFF_DDL of
-- packages/cli/src/handoff-store.ts, and `ProviderState` of packages/cli/src/provider-contract.ts.
use Prim.Native.String.{String}
use agentis.Prelude.{ℕ, Bool, List, Option}
use agentis.Schema.Enums.{
  Ident, PrincipalKind, ExecutionBoundary, ProviderKind, FixtureKind, RunStatus, ActionState,
  WaitingReason, Bot, Role, Mode, SourceKind, TaskStatus, LoadStatus, ActionKind,
}
use agentis.Schema.Commands.{Citation, CommandReceipt}

pub record FrozenConfig : Type 0 where
  pub bot : Bot
  pub role : Role
  pub mode : Mode
  pub provider : ProviderKind
  pub transport : String
  pub executable_version : String
  pub model : String
  pub effort : Option String
  pub skills : List String
  pub grants : List String
  pub public_config : List (String × String)
  pub execution_boundary : ExecutionBoundary
  pub execution_location : String
  pub auth_mode : String
  pub workspace_id : String
  pub deadline_ms : ℕ
  pub action_budget : ℕ

pub data CapabilityName : Type 0 where
  session_loading permissions questions plans mcp_http mcp_sse images audio : CapabilityName
  embedded_context usage : CapabilityName

pub data CapabilityState : Type 0 where
  negotiated documented unavailable : CapabilityState

pub data CapabilityReason : Type 0 where
  advertised documented_unproven not_advertised not_negotiated : CapabilityReason
  native_plan_output_without_blocking_approval : CapabilityReason

-- `operation` is 'available' or 'unavailable' where it is given.
pub record Capability : Type 0 where
  pub name : CapabilityName
  pub operation : Option Bool
  pub state : CapabilityState
  pub reason : CapabilityReason

pub data ProviderFailure : Type 0 where
  auth_unavailable quota crash malformed_response : ProviderFailure
  unsupported_capability provider_error : ProviderFailure

pub record ProviderState : Type 0 where
  pub load_status : LoadStatus
  pub capabilities : List Capability
  pub history : List String
  pub pending_prompt : Option String
  pub failure_detail : Option String
  pub load_history : Option (List String)
  pub failure : Option ProviderFailure

pub record CommandRow : Type 0 where
  pub id : Ident
  pub idempotency_key : Ident
  pub principal_kind : PrincipalKind
  pub payload_digest : Ident
  pub result : CommandReceipt
  pub created_at : ℕ

-- `workspace_ref` is 'task:' with the identifier that stands here.
pub record TaskRow : Type 0 where
  pub id : Ident
  pub brief : String
  pub thread_id : Ident
  pub outcome : String
  pub owner_session : Ident
  pub bot_name : Bot
  pub bot_role : Role
  pub workspace_ref : Ident
  pub constraints : List String
  pub evidence : List Ident
  pub current_run_id : Ident
  pub latest_artifact_id : Option Ident
  pub status : TaskStatus
  pub action_count : ℕ
  pub created_at : ℕ
  pub updated_at : ℕ

pub record ThreadRow : Type 0 where
  pub id : Ident
  pub task_id : Ident
  pub created_at : ℕ

pub record RunRow : Type 0 where
  pub id : Ident
  pub task_id : Ident
  pub thread_id : Ident
  pub bot_config_revision_id : Ident
  pub status : RunStatus
  pub waiting_reason : WaitingReason
  pub frozen : FrozenConfig
  pub provider_state : ProviderState
  pub provider_session_id : Option Ident
  pub fixture : Option FixtureKind
  pub action_count : ℕ
  pub deadline_at : ℕ
  pub created_at : ℕ
  pub started_at : Option ℕ
  pub completed_at : Option ℕ

pub record BotConfigRevisionRow : Type 0 where
  pub id : Ident
  pub frozen : FrozenConfig
  pub created_at : ℕ

pub record EvidenceRow : Type 0 where
  pub id : Ident
  pub task_id : Ident
  pub source : SourceKind
  pub label : String
  pub repository : Option String
  pub revision : Option String
  pub url : Option String
  pub content_digest : Ident
  pub byte_size : ℕ
  pub path : String
  pub citations : List Citation
  pub created_at : ℕ

pub record ApprovalRow : Type 0 where
  pub id : Ident
  pub run_id : Ident
  pub task_id : Ident
  pub state : ActionState
  pub tool : String
  pub argument_digest : Ident
  pub expires_at : ℕ
  pub resolver : Option Ident
  pub created_at : ℕ

-- The payload of an action: JSON that no code of the store reads back.
pub data ActionPayload : Type 0 where
  task_thread : (task_id thread_id : Ident) → ActionPayload
  tool_name : String → ActionPayload
  for_handoff : (handoff_id : Ident) → ActionPayload

pub record PendingActionRow : Type 0 where
  pub id : Ident
  pub run_id : Ident
  pub kind : ActionKind
  pub state : ActionState
  pub payload : ActionPayload
  pub approval_id : Option Ident
  pub created_at : ℕ

pub record ArtifactRow : Type 0 where
  pub id : Ident
  pub task_id : Ident
  pub run_id : Ident
  pub author : Bot
  pub source : String
  pub media_type : String
  pub sha256 : Ident
  pub byte_size : ℕ
  pub path : String
  pub citations : List Citation
  pub created_at : ℕ
