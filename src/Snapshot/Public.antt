-- ===== src/Snapshot/Public.antt =====
-- The public types of packages/cli/src/schema.ts, and the projections of `workspaceSnapshot` of
-- packages/cli/src/store.ts into them.
use Prim.Native.String.{String}
use agentis.Prelude.{false, true, ℕ, Bool, List, Option, some, none}
use agentis.Json.{Json}
use agentis.Prompt.{PendingQuestion, public_pending_prompt}
use agentis.Schema.{
  Ident, Bot, Role, RunStatus, TaskStatus, WaitingReason, LoadStatus, ActionState, ActionKind,
  ProviderKind, ProviderFailure, ExecutionBoundary, SourceKind, HandoffState, AuthorKind,
  AuthorName, MessageAuthorRole, MessageKind, MessageImportance, MessageBody, Citation,
  SourceAcknowledgement, TaskRow, ThreadRow, RunRow, BotConfigRevisionRow, EvidenceRow,
  PendingActionRow, ArtifactRow, MessageRow, HandoffRow,
}

-- `requestedBy` holds its one value, 'owner'.
pub record PublicTask : Type 0 where
  pub id : Ident
  pub thread_id : Ident
  pub outcome : String
  pub current_owner : Bot
  pub owner_role : Role
  pub workspace_ref : Ident
  pub constraints : List String
  pub evidence : List Ident
  pub current_run_id : Ident
  pub latest_artifact_id : Option Ident
  pub status : TaskStatus
  pub action_count : ℕ
  pub created_at : ℕ
  pub updated_at : ℕ

abbrev pub public_task : TaskRow → PublicTask
public_task t = record {
  id = t.id;
  thread_id = t.thread_id;
  outcome = t.outcome;
  current_owner = t.bot_name;
  owner_role = t.bot_role;
  workspace_ref = t.workspace_ref;
  constraints = t.constraints;
  evidence = t.evidence;
  current_run_id = t.current_run_id;
  latest_artifact_id = t.latest_artifact_id;
  status = t.status;
  action_count = t.action_count;
  created_at = t.created_at;
  updated_at = t.updated_at;
}

pub record PublicHandoff : Type 0 where
  pub id : Ident
  pub task_id : Ident
  pub thread_id : Ident
  pub source_run_id : Ident
  pub recipient_run_id : Ident
  pub sender : Bot
  pub recipient : Bot
  pub context : String
  pub state : HandoffState
  pub expires_at : ℕ

-- `publicHandoffContext`: of the envelope, which the store itself has written, only the request.
abbrev pub public_handoff : HandoffRow → (sender recipient : Bot) → PublicHandoff
public_handoff h sender recipient = record {
  id = h.id;
  task_id = h.task_id;
  thread_id = h.thread_id;
  source_run_id = h.source_run_id;
  recipient_run_id = h.recipient_run_id;
  sender = sender;
  recipient = recipient;
  context = h.context.request;
  state = h.state;
  expires_at = h.expires_at;
}

-- What a run failed of: the provider's text, or else the class of the failure.
pub data FailureText : Type 0 where
  detail : String → FailureText
  class : ProviderFailure → FailureText

pub record PublicRun : Type 0 where
  pub id : Ident
  pub task_id : Ident
  pub thread_id : Ident
  pub bot_config_revision_id : Ident
  pub status : RunStatus
  pub waiting_reason : WaitingReason
  pub provider_load_status : LoadStatus
  pub pending_prompt : Option (List PendingQuestion)
  pub failure : Option FailureText
  pub action_count : ℕ
  pub queued_at : ℕ
  pub started_at : Option ℕ
  pub deadline_at : ℕ
  pub completed_at : Option ℕ

abbrev pub is_waiting_input_status : RunStatus → Bool
is_waiting_input_status RunStatus.waiting_input = true
is_waiting_input_status _ = false

-- `failureDetail ?? failure`.
abbrev pub failure_text : Option String → Option ProviderFailure → Option FailureText
failure_text (some text) failure = some (FailureText.detail text)
failure_text none (some failure) = some (FailureText.class failure)
failure_text none none = none

abbrev pub public_run : (parse : String → Option Json) → RunRow → PublicRun
public_run parse r = record {
  id = r.id;
  task_id = r.task_id;
  thread_id = r.thread_id;
  bot_config_revision_id = r.bot_config_revision_id;
  status = r.status;
  waiting_reason = r.waiting_reason;
  provider_load_status = r.provider_state.load_status;
  pending_prompt =
      public_pending_prompt parse (is_waiting_input_status r.status)
        r.provider_state.pending_prompt;
  failure = failure_text r.provider_state.failure_detail r.provider_state.failure;
  action_count = r.action_count;
  queued_at = r.created_at;
  started_at = r.started_at;
  deadline_at = r.deadline_at;
  completed_at = r.completed_at;
}

pub record PublicRevision : Type 0 where
  pub id : Ident
  pub bot : Bot
  pub role : Role
  pub provider : ProviderKind
  pub model : String
  pub effort : Option String
  pub skills : List String
  pub grants : List String
  pub public_config : List (String × String)
  pub execution_boundary : ExecutionBoundary
  pub execution_location : String
  pub auth_mode : String
  pub created_at : ℕ

abbrev pub public_revision : BotConfigRevisionRow → PublicRevision
public_revision r = record {
  id = r.id;
  bot = r.frozen.bot;
  role = r.frozen.role;
  provider = r.frozen.provider;
  model = r.frozen.model;
  effort = r.frozen.effort;
  skills = r.frozen.skills;
  grants = r.frozen.grants;
  public_config = r.frozen.public_config;
  execution_boundary = r.frozen.execution_boundary;
  execution_location = r.frozen.execution_location;
  auth_mode = r.frozen.auth_mode;
  created_at = r.created_at;
}

pub record PublicEvidence : Type 0 where
  pub id : Ident
  pub source : SourceKind
  pub label : String
  pub repository : Option String
  pub revision : Option String
  pub url : Option String
  pub content_digest : Ident
  pub byte_size : ℕ
  pub citations : List Citation
  pub created_at : ℕ

abbrev pub public_evidence : EvidenceRow → PublicEvidence
public_evidence e = record {
  id = e.id;
  source = e.source;
  label = e.label;
  repository = e.repository;
  revision = e.revision;
  url = e.url;
  content_digest = e.content_digest;
  byte_size = e.byte_size;
  citations = e.citations;
  created_at = e.created_at;
}

-- `pendingDetail`; the kinds that the store writes are these three.
abbrev pub pending_detail : ActionKind → String
pending_detail ActionKind.launch = "Run queued for launch."
pending_detail ActionKind.tool = "Approval is required for a proposed action."
pending_detail ActionKind.handoff_draft = "Ivo may create one bounded draft."

pub record PublicPending : Type 0 where
  pub id : Ident
  pub run_id : Ident
  pub kind : ActionKind
  pub state : ActionState
  pub detail : String
  pub approval_id : Option Ident

abbrev pub public_pending : PendingActionRow → PublicPending
public_pending a = record {
  id = a.id;
  run_id = a.run_id;
  kind = a.kind;
  state = a.state;
  detail = pending_detail a.kind;
  approval_id = a.approval_id;
}

-- The two URLs are made of the identifier, '/v1/artifacts/<id>' and '/v1/artifacts/<id>/content'.
pub record PublicArtifact : Type 0 where
  pub id : Ident
  pub task_id : Ident
  pub run_id : Ident
  pub author : Bot
  pub source : String
  pub media_type : String
  pub sha256 : Ident
  pub byte_size : ℕ
  pub citations : List Citation
  pub created_at : ℕ

abbrev pub public_artifact : ArtifactRow → PublicArtifact
public_artifact a = record {
  id = a.id;
  task_id = a.task_id;
  run_id = a.run_id;
  author = a.author;
  source = a.source;
  media_type = a.media_type;
  sha256 = a.sha256;
  byte_size = a.byte_size;
  citations = a.citations;
  created_at = a.created_at;
}

pub record PublicMessage : Type 0 where
  pub id : Ident
  pub thread_id : Ident
  pub task_id : Ident
  pub run_id : Option Ident
  pub author_kind : AuthorKind
  pub author_name : AuthorName
  pub author_role : MessageAuthorRole
  pub kind : MessageKind
  pub importance : MessageImportance
  pub body : MessageBody
  pub created_at : ℕ

abbrev pub public_message : MessageRow → PublicMessage
public_message m = record {
  id = m.id;
  thread_id = m.thread_id;
  task_id = m.task_id;
  run_id = m.run_id;
  author_kind = m.author_kind;
  author_name = m.author_name;
  author_role = m.author_role;
  kind = m.kind;
  importance = m.importance;
  body = m.body;
  created_at = m.created_at;
}

pub record ProviderInfo : Type 0 where
  pub kind : ProviderKind
  pub model : String
  pub auth_mode : String
  pub execution_location : String
  pub eligible : Bool
  pub ineligible_reason : Option String
  pub acknowledged_at : Option ℕ

-- `OwnerSession` of packages/cli/src/schema.ts.
pub record OwnerSession : Type 0 where
  pub expires_at : ℕ
  pub provider : ProviderInfo
  pub sources : List SourceAcknowledgement

-- `schemaId` is a constant.
pub record WorkspaceSnapshot : Type 0 where
  pub cursor : ℕ
  pub stop_all : Bool
  pub session : OwnerSession
  pub tasks : List PublicTask
  pub threads : List ThreadRow
  pub handoffs : List PublicHandoff
  pub runs : List PublicRun
  pub revisions : List PublicRevision
  pub evidence : List PublicEvidence
  pub pending : List PublicPending
  pub artifacts : List PublicArtifact
  pub messages : List PublicMessage
