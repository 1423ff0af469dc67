-- ===== src/StoreDb.antt =====
-- The database handle of packages/cli/src/store-db.ts: the state of every table, `withTxn`, `emit` and
-- `message`, and what the store takes from outside (`Env`).
use Prim.Native.String.{String}
use agentis.Prelude.{
  ℕ, suc, ◌+◌, Bool, false, not, ◌&&◌, ◌||◌, List, [], Option, ◌==◌, if◌then◌else◌, any_by,
  insert_row, Result, ok, err,
}
use agentis.Json.{Json}
use agentis.VerifiedFile.{FileSystem}
use agentis.Schema.{
  Ident, AuthorKind, AuthorName, MessageAuthorRole, MessageKind, MessageImportance, HandoffState,
  TransitionReason, DedupeKey, MessageBody, EventBody, CommandRow, TaskRow, ThreadRow, RunRow,
  BotConfigRevisionRow, EvidenceRow, ApprovalRow, PendingActionRow, ArtifactRow, MessageRow,
  EventRow, HandoffRow, BootstrapRow, BrowserSessionRow, Command,
}

-- The tables. `drawn` counts the identifiers minted so far; `last_seq` is the AUTOINCREMENT counter of
-- `events`; `latched` and `latch_updated_at` are the one row of `stop_all`.
pub record Db : Type 0 where
  pub drawn : ℕ
  pub commands : List CommandRow
  pub tasks : List TaskRow
  pub threads : List ThreadRow
  pub runs : List RunRow
  pub revisions : List BotConfigRevisionRow
  pub task_sources : List EvidenceRow
  pub approvals : List ApprovalRow
  pub pending_actions : List PendingActionRow
  pub artifacts : List ArtifactRow
  pub messages : List MessageRow
  pub last_seq : ℕ
  pub events : List EventRow
  pub handoffs : List HandoffRow
  pub bootstraps : List BootstrapRow
  pub sessions : List BrowserSessionRow
  pub latched : Bool
  pub latch_updated_at : ℕ

-- What the store takes from its platform: random identifiers, SHA-256, the byte length of a text, the
-- paths that `join` makes of a workspace and an identifier, whether a scratch file can be written, the
-- file system, `JSON.parse`, and the decoding of a handoff decision (its handoff, and whether it accepts) from JSON.
pub record Env : Type 0 where
  pub uuid : ℕ → Ident
  pub command_digest : Command → Ident
  pub text_digest : String → Ident
  pub byte_length : String → ℕ
  pub run_workspace : String → Ident → String
  pub source_path : String → Ident → String
  pub writes : String → String → Bool
  pub fs : FileSystem
  pub parse_json : String → Option Json
  pub decode_decision : String → Option (Ident × Bool)

-- The identifier that the k-th next draw gives.
abbrev pub fresh : Env → ℕ → Db → Ident
fresh env k db = env.uuid (db.drawn + k)

-- The database of a new store, after `openStore` has created its tables.
abbrev pub empty_db : Db
empty_db = record {
  drawn = 0;
  commands = [];
  tasks = [];
  threads = [];
  runs = [];
  revisions = [];
  task_sources = [];
  approvals = [];
  pending_actions = [];
  artifacts = [];
  messages = [];
  last_seq = 0;
  events = [];
  handoffs = [];
  bootstraps = [];
  sessions = [];
  latched = false;
  latch_updated_at = 0;
}

-- BEGIN IMMEDIATE, then COMMIT with the result, or ROLLBACK and rethrow. The identifiers drawn by a
-- transaction that is rolled back stand in no row, so drawing them again cannot be told apart.
unfoldable pub with_txn {ℓ} : {A : Type ℓ} → (Db → Result (A × Db)) → Db → Db × Result A
with_txn f db = elim (f db) [ ok (a, db') ↦ (db', ok a) | err e ↦ (db, err e) ]

unfoldable pub emit : Env → TransitionReason → EventBody → ℕ → Db → Db
emit env type body now db = record db {
  drawn = suc db.drawn;
  last_seq = suc db.last_seq;
  events =
      insert_row
        (record {
          seq = suc db.last_seq;
          id = env.uuid db.drawn;
          type = type;
          body = body;
          created_at = now;
        })
        db.events;
}

-- The argument of `message`; every call of the program gives a kind, an importance and a dedupe key.
pub record MessageInput : Type 0 where
  pub thread_id : Ident
  pub task_id : Ident
  pub run_id : Option Ident
  pub author_kind : AuthorKind
  pub author_name : AuthorName
  pub author_role : MessageAuthorRole
  pub kind : MessageKind
  pub importance : MessageImportance
  pub dedupe_key : DedupeKey
  pub body : MessageBody
  pub now_ms : ℕ

-- The prefix of a dedupe key, as a number, and the values behind it.
abbrev key_parts : DedupeKey → ℕ × ℕ × ℕ
key_parts (DedupeKey.request c) = (0, c, 0)
key_parts (DedupeKey.approval_decision a) = (1, a, 0)
key_parts (DedupeKey.approval_expired a) = (2, a, 0)
key_parts (DedupeKey.approval_denied a) = (3, a, 0)
key_parts (DedupeKey.input_answer c) = (4, c, 0)
key_parts (DedupeKey.run_canceled r) = (5, r, 0)
key_parts (DedupeKey.stop_all r) = (6, r, 0)
key_parts (DedupeKey.approval a) = (7, a, 0)
key_parts (DedupeKey.result r) = (8, r, 0)
key_parts (DedupeKey.deadline r) = (9, r, 0)
key_parts (DedupeKey.daemon_restart r now) = (10, r, now)
key_parts (DedupeKey.peer r d) = (11, r, d)
key_parts (DedupeKey.question r d) = (12, r, d)
key_parts (DedupeKey.failure r d) = (13, r, d)
key_parts (DedupeKey.handoff h HandoffState.proposed) = (14, h, 0)
key_parts (DedupeKey.handoff h HandoffState.accepted) = (14, h, 1)
key_parts (DedupeKey.handoff h HandoffState.rejected) = (14, h, 2)
key_parts (DedupeKey.handoff h HandoffState.expired) = (14, h, 3)

unfoldable pub same_key : DedupeKey → DedupeKey → Bool
same_key a b = let x = key_parts a in let y = key_parts b in x.0 == y.0 && x.1 == y.1 && x.2 == y.2

-- Whether the id or the dedupe key of a new message is taken, so that INSERT OR IGNORE ignores it.
unfoldable pub is_duplicate : Ident → DedupeKey → List MessageRow → Bool
is_duplicate id key = any_by (λ m. m.id == id || same_key m.dedupe_key key)

-- The message row is inserted unless it is ignored; the second part says whether it was inserted.
unfoldable pub message : Env → MessageInput → Db → Db × Bool
message env m db =
    let ignored = is_duplicate (env.uuid db.drawn) m.dedupe_key db.messages in
    (
      record db {
        drawn = suc db.drawn;
        messages =
            if ignored
            then db.messages
            else insert_row
                (record {
                  id = env.uuid db.drawn;
                  thread_id = m.thread_id;
                  task_id = m.task_id;
                  run_id = m.run_id;
                  author_kind = m.author_kind;
                  author_name = m.author_name;
                  author_role = m.author_role;
                  kind = m.kind;
                  importance = m.importance;
                  dedupe_key = m.dedupe_key;
                  body = m.body;
                  created_at = m.now_ms;
                })
                db.messages;
      },
      not ignored,
    )
