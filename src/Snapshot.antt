-- ===== src/Snapshot.antt =====
-- `readSnapshot`, `readArtifact` and `workspaceSnapshot` of packages/cli/src/store.ts: what a reader of the
-- store sees, and the public projections of packages/cli/src/schema.ts that a browser gets.
pub mod Public
pub mod Secrets
use Prim.Native.String.{String}
use agentis.VerifiedFile.{max_safe_integer}
use agentis.Replay.{high_water}
use agentis.Browser.{browser_session}
use agentis.StoreDb.{Db, Env}
use agentis.Snapshot.Public.{
  public_message, public_artifact, public_pending, public_evidence, public_revision, public_run,
  public_task, WorkspaceSnapshot, public_handoff, OwnerSession, PublicHandoff,
}
use agentis.Prelude.{
  ℕ, ◌+◌, Bool, true, false, not, ◌&&◌, List, [], ◌∷◌, Option, some, none, ◌==◌, leb, if◌then◌else◌,
  map, find_by, or_else, StoreErrorCode, Result, ok, throw, ◌>>=◌,
}
use agentis.Schema.{
  same_provider, SourceAcknowledgement, Ident, Bot, RunStatus, TaskRow, ThreadRow, RunRow,
  BotConfigRevisionRow, EvidenceRow, PendingActionRow, ArtifactRow, MessageRow, HandoffRow,
  BrowserSessionRow, ProviderKind, ProviderFailure, ActionKind,
}

-- ORDER BY: the rows by a column, those of one value in the order of the table.
module _ {ℓ} {A : Type ℓ} where
  pub insert_ordered : (A → ℕ) → A → List A → List A
  insert_ordered column x [] = x ∷ []
  insert_ordered column x (y ∷ ys) =
      let rest = insert_ordered column x ys in
      if leb (column x) (column y) then x ∷ y ∷ ys else y ∷ rest

  unfoldable pub order_by : (A → ℕ) → List A → List A
  unfolding insert_ordered
  order_by column [] = []
  order_by column (x ∷ xs) = insert_ordered column x (order_by column xs)

-- The rows that `readSnapshotUnlocked` decodes; of a session and of events it reads nothing but the
-- last number.
pub record Snapshot : Type 0 where
  pub cursor : ℕ
  pub stop_all : Bool
  pub handoffs : List HandoffRow
  pub threads : List ThreadRow
  pub tasks : List TaskRow
  pub runs : List RunRow
  pub pending : List PendingActionRow
  pub artifacts : List ArtifactRow
  pub messages : List MessageRow
  pub evidence : List EvidenceRow
  pub revisions : List BotConfigRevisionRow

unfoldable pub read_snapshot : Db → Snapshot
read_snapshot db = record {
  cursor = high_water db.events;
  stop_all = db.latched;
  handoffs = db.handoffs;
  threads = order_by (λ x. x.created_at) db.threads;
  tasks = order_by (λ x. x.created_at) db.tasks;
  runs = order_by (λ x. x.created_at) db.runs;
  pending = order_by (λ x. x.created_at) db.pending_actions;
  artifacts = order_by (λ x. x.created_at) db.artifacts;
  messages = order_by (λ x. x.created_at) db.messages;
  evidence = order_by (λ x. x.created_at) db.task_sources;
  revisions = order_by (λ x. x.created_at) db.revisions;
}

unfoldable pub read_artifact : Ident → Db → Option ArtifactRow
read_artifact id db = find_by (λ a. a.id == id) db.artifacts

pub record BrowserRuntime : Type 0 where
  pub provider : ProviderKind
  pub model : String
  pub auth_mode : String
  pub execution_location : String
  pub eligible : Bool
  pub ineligible_reason : Option String

-- Who reads: the hash of a browser's token, or the session of an owner.
pub data Reader : Type 0 where
  with_token : (token_hash : Ident) → Reader
  as_owner : (owner_session : Ident) → Reader

-- The parts of the session that the snapshot uses.
pub record ReadingSession : Type 0 where
  pub provider : ProviderKind
  pub acknowledged_at : Option ℕ
  pub sources : List SourceAcknowledgement
  pub expires_at : ℕ

unfoldable pub reading_session : Reader → ℕ → BrowserRuntime → Db → Option ReadingSession
reading_session (Reader.with_token token_hash) now runtime db =
    elim (browser_session token_hash none now db) [
      | none ↦ none
      | some s ↦ some (record {
        provider = s.provider;
        acknowledged_at = s.provider_acknowledged_at;
        sources = s.sources;
        expires_at = s.expires_at;
      })
    ]
reading_session (Reader.as_owner owner_session) now runtime db = some (record {
  provider = runtime.provider;
  acknowledged_at = none;
  sources = [];
  expires_at = max_safe_integer;
})

abbrev pub owner_view : BrowserRuntime → ReadingSession → OwnerSession
owner_view runtime s = record {
  expires_at = s.expires_at;
  provider = record {
    kind = runtime.provider;
    model = runtime.model;
    auth_mode = runtime.auth_mode;
    execution_location = runtime.execution_location;
    eligible = runtime.eligible;
    ineligible_reason = runtime.ineligible_reason;
    acknowledged_at = if same_provider s.provider runtime.provider then s.acknowledged_at else none;
  };
  sources = s.sources;
}

-- The bot of a run's configuration; identifiers are PRIMARY KEYs, so the last row is the first one.
unfoldable pub bot_of_run : Ident → List RunRow → List BotConfigRevisionRow → Option Bot
bot_of_run run_id runs revisions = elim (find_by (λ r. r.id == run_id) runs) [
  | none ↦ none
  | some r ↦ elim (find_by (λ v. v.id == r.bot_config_revision_id) revisions) [
    | none ↦ none
    | some v ↦ some v.frozen.bot
  ]
]

unfoldable pub bot_for_run : Ident → Snapshot → Result Bot
bot_for_run run_id s = elim (bot_of_run run_id s.runs s.revisions) [
  | none ↦
      throw StoreErrorCode.internal "handoff references a run without a stored bot config revision"
  | some bot ↦ ok bot
]

unfoldable pub show_handoffs : Snapshot → List HandoffRow → Result (List PublicHandoff)
show_handoffs s [] = ok []
show_handoffs s (h ∷ hs) = do
  sender ← bot_for_run h.source_run_id s
  recipient ← bot_for_run h.recipient_run_id s
  rest ← show_handoffs s hs
  ok (public_handoff h sender recipient ∷ rest)

unfoldable pub show_snapshot :
    Env → BrowserRuntime → ReadingSession → Snapshot → Result WorkspaceSnapshot
show_snapshot env runtime session s = do
  handoffs ← show_handoffs s s.handoffs
  ok (record {
    cursor = s.cursor;
    stop_all = s.stop_all;
    session = owner_view runtime session;
    tasks = map public_task s.tasks;
    threads = s.threads;
    handoffs = handoffs;
    runs = map (public_run env.parse_json) s.runs;
    revisions = map public_revision s.revisions;
    evidence = map public_evidence s.evidence;
    pending = map public_pending s.pending;
    artifacts = map public_artifact s.artifacts;
    messages = map public_message s.messages;
  })

unfoldable pub workspace_snapshot :
    Env → Reader → ℕ → BrowserRuntime → Db → Result WorkspaceSnapshot
workspace_snapshot env reader now runtime db = elim (reading_session reader now runtime db) [
  | none ↦ throw StoreErrorCode.forbidden "authentication required"
  | some session ↦ show_snapshot env runtime session (read_snapshot db)
]
