-- ===== src/Schema/Commands.antt =====
-- Commands and receipts: packages/cli/src/schema.ts, and `Principal` and `ApplyInput` of
-- packages/cli/src/store.ts.
use Prim.Native.String.{String}
use agentis.Prelude.{ℕ, Bool, List, Option}
use agentis.Schema.Enums.{
  Ident, PrincipalKind, Channel, ExecutionBoundary, ProviderKind, FixtureKind, SourceKind, Decision,
  Mode, ErrorCode, Effect,
}

pub record Citation : Type 0 where
  pub label : String
  pub excerpt : String
  pub url : Option String

-- Both variants of `SourcePacket`; `origin` holds the fields that only 'github_briefing' has.
pub record GithubOrigin : Type 0 where
  pub repository : String
  pub revision : String
  pub url : Option String

pub data SourceOrigin : Type 0 where
  pasted : SourceOrigin
  github_briefing : GithubOrigin → SourceOrigin

pub record SourcePacket : Type 0 where
  pub origin : SourceOrigin
  pub label : String
  pub text : String
  pub citations : List Citation

abbrev pub source_kind : SourceOrigin → SourceKind
source_kind SourceOrigin.pasted = SourceKind.pasted
source_kind (SourceOrigin.github_briefing o) = SourceKind.github_briefing

-- `UnsupportedAttachment`: a record of strings.
abbrev pub Attachment : Type 0
Attachment = List (String × String)

-- `bot` is any string; the store accepts two of them.
pub record SubmitTask : Type 0 where
  pub brief : String
  pub outcome : Option String
  pub constraints : Option (List String)
  pub source : Option SourcePacket
  pub bot : Option String
  pub attachments : Option (List Attachment)
  pub mcp_servers : Option (List Attachment)
  pub mode : Option Mode
  pub fixture : Option FixtureKind

pub data Command : Type 0 where
  submit_task : SubmitTask → Command
  propose_handoff : (source_run_id : Ident) (context : String) → Command
  resolve_approval : (approval_id : Ident) → Decision → Command
  answer_input : (run_id : Ident) (answers : List (String × String)) → Command
  cancel_run : (run_id : Ident) → Command
  stop_all : Command
  load_session : (run_id : Ident) → Command

pub record CommandReceipt : Type 0 where
  pub command_id : Ident
  pub replayed : Bool
  pub accepted : Bool
  pub error : Option String
  pub error_code : Option ErrorCode
  pub handoff_id : Option Ident
  pub task_id : Option Ident
  pub run_id : Option Ident
  pub thread_id : Option Ident
  pub approval_id : Option Ident
  pub effects : List Effect

pub record Principal : Type 0 where
  pub kind : PrincipalKind
  pub session_id : Ident
  pub channel : Option Channel
  pub browser_session_hash : Option Ident

pub record ApplyInput : Type 0 where
  pub principal : Principal
  pub idempotency_key : Ident
  pub command : Command
  pub now_ms : ℕ
  pub provider : ProviderKind
  pub execution_boundary : ExecutionBoundary
  pub workspace_id : String
