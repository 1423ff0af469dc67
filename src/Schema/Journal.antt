-- ===== src/Schema/Journal.antt =====
-- The rows that record what happened, handoffs and browser sessions: the DDL of
-- packages/cli/src/store.ts and HANDOFF_DDL of packages/cli/src/handoff-store.ts.
use Prim.Native.String.{String}
use agentis.Prelude.{ℕ, List, Option}
use agentis.Schema.Enums.{
  Ident, ProviderKind, Bot, SourceKind, Decision, HandoffState, AuthorKind, AuthorName,
  MessageAuthorRole, MessageKind, MessageImportance, TransitionReason,
}

-- A dedupe key is a prefix with identifiers behind it: one constructor for each prefix.
pub data DedupeKey : Type 0 where
  request approval_decision approval_expired approval_denied input_answer : Ident → DedupeKey
  run_canceled stop_all approval result deadline : Ident → DedupeKey
  daemon_restart peer question failure : Ident → ℕ → DedupeKey
  handoff : Ident → HandoffState → DedupeKey

pub data MessageBody : Type 0 where
  text : String → MessageBody
  answers : List (String × String) → MessageBody
  result_ready : (artifact_id : Ident) → MessageBody

pub record MessageRow : Type 0 where
  pub id : Ident
  pub thread_id : Ident
  pub task_id : Ident
  pub run_id : Option Ident
  pub author_kind : AuthorKind
  pub author_name : AuthorName
  pub author_role : MessageAuthorRole
  pub kind : MessageKind
  pub importance : MessageImportance
  pub dedupe_key : DedupeKey
  pub body : MessageBody
  pub created_at : ℕ

-- The body of an event: JSON that no code of the store reads back.
pub data EventBody : Type 0 where
  task_created : (task_id run_id thread_id owner : Ident) → Bot → (command_id : Ident) → EventBody
  run_started : (run_id provider_session_id : Ident) → EventBody
  approval_wanted : (run_id approval_id : Ident) → (tool : String) → EventBody
  approval_decided : (approval_id : Ident) → Decision → (run_id command_id : Ident) → EventBody
  input_wanted : (run_id : Ident) → (prompt : String) → EventBody
  input_given : (run_id : Ident) → List (String × String) → (command_id : Ident) → EventBody
  run_ended : (run_id command_id : Ident) → EventBody
  runs_stopped : List Ident → (command_id : Ident) → EventBody
  runs_interrupted : List Ident → EventBody
  artifact_made : (run_id artifact_id : Ident) → EventBody
  run_error : (run_id : Ident) → (error : String) → (command_id : Option Ident) → EventBody
  handoff_noted :
      (handoff_id task_id thread_id run_id : Ident) → Bot → (reason : String) → EventBody
  handoff_made : (handoff_id task_id thread_id run_id artifact_id : Ident) → EventBody
  peer_said : (task_id thread_id run_id : Ident) → (body : String) → EventBody
  setup_done : ProviderKind → List SourceKind → EventBody

pub record EventRow : Type 0 where
  pub seq : ℕ
  pub id : Ident
  pub type : TransitionReason
  pub body : EventBody
  pub created_at : ℕ

-- The JSON envelope that a handoff carries to its recipient; its sender is Mara.
pub record HandoffContext : Type 0 where
  pub source_run_id : Ident
  pub brief : String
  pub constraints : List String
  pub source_draft : String
  pub request : String

-- `grants` and `onwardDelegation` hold their one value, 'draft_only' and false.
pub record HandoffRow : Type 0 where
  pub id : Ident
  pub task_id : Ident
  pub thread_id : Ident
  pub source_run_id : Ident
  pub recipient_run_id : Ident
  pub context : HandoffContext
  pub state : HandoffState
  pub expires_at : ℕ

pub record BootstrapRow : Type 0 where
  pub code_hash : Ident
  pub owner_session : Ident
  pub expires_at : ℕ
  pub consumed_at : Option ℕ

pub record SourceAcknowledgement : Type 0 where
  pub source : SourceKind
  pub acknowledged_at : ℕ

pub record BrowserSessionRow : Type 0 where
  pub token_hash : Ident
  pub csrf_hash : Ident
  pub owner_session : Ident
  pub provider : ProviderKind
  pub provider_acknowledged_at : Option ℕ
  pub sources : List SourceAcknowledgement
  pub expires_at : ℕ
  pub created_at : ℕ
