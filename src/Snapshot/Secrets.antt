-- ===== src/Snapshot/Secrets.antt =====
-- What `workspaceSnapshot` of packages/cli/src/store.ts keeps from its reader.
use agentis.Replay.{high_water}
use agentis.Prelude.{
  ap, ◌∙◌, sym, ltb, ◌&&◌, refl, inr, false, inl, arith, ◌∷◌, ◌==◌, Option, some, filter_by,
  find_by, Option-cases, [], ℕ, map, ◌≡◌, none, Bool, List,
}
use agentis.Snapshot.{
  workspace_snapshot, public_message, public_artifact, public_pending, public_evidence,
  public_revision, public_run, public_task, ReadingSession, BrowserRuntime, read_snapshot, Snapshot,
  reading_session, show_snapshot, bot_for_run, show_handoffs, insert_ordered, order_by, bot_of_run,
  Reader,
}
use agentis.Browser.{browser_session}
use agentis.StoreDb.{Db, Env}
use agentis.Schema.{
  ActionPayload, EventBody, Ident, DedupeKey, ArtifactRow, EvidenceRow, FrozenConfig, HandoffRow,
  BrowserSessionRow, TaskRow, MessageRow, EventRow, BotConfigRevisionRow, RunRow, PendingActionRow,
}

-- The rows without what no snapshot shows: paths on the host, the provider's own session and history,
-- payloads, keys, hashes, and the source draft of a handoff's envelope.
abbrev pub redact_frozen : FrozenConfig → FrozenConfig
redact_frozen c = record c {
  transport = "";
  executable_version = "";
  workspace_id = "";
  deadline_ms = 0;
  action_budget = 0;
}

abbrev pub redact_run : RunRow → RunRow
redact_run r = record r {
  frozen = redact_frozen r.frozen;
  provider_session_id = none;
  fixture = none;
  provider_state = record (r.provider_state) {
    capabilities = [];
    history = [];
    load_history = none;
  };
}

abbrev pub redact_task : TaskRow → TaskRow
redact_task t = record t { brief = ""; owner_session = 0 }

abbrev pub redact_revision : BotConfigRevisionRow → BotConfigRevisionRow
redact_revision r = record r { frozen = redact_frozen r.frozen }

abbrev pub redact_evidence : EvidenceRow → EvidenceRow
redact_evidence e = record e { task_id = 0; path = "" }

abbrev pub redact_action : PendingActionRow → PendingActionRow
redact_action a = record a { payload = ActionPayload.tool_name "" }

abbrev pub redact_artifact : ArtifactRow → ArtifactRow
redact_artifact a = record a { path = "" }

abbrev pub redact_message : MessageRow → MessageRow
redact_message m = record m { dedupe_key = DedupeKey.request 0 }

abbrev pub redact_handoff : HandoffRow → HandoffRow
redact_handoff h = record h {
  context = record (h.context) {
    source_run_id = 0;
    brief = "";
    constraints = [];
    source_draft = "";
  };
}

abbrev pub redact_event : EventRow → EventRow
redact_event e = record e { id = 0; body = EventBody.run_ended 0 0 }

abbrev pub redact_session : BrowserSessionRow → BrowserSessionRow
redact_session s = record s { csrf_hash = 0; owner_session = 0 }

abbrev pub is_reader : Reader → BrowserSessionRow → Bool
is_reader (Reader.with_token token_hash) s = s.token_hash == token_hash
is_reader (Reader.as_owner owner_session) s = false

-- The database without them, and without the commands, the approvals, the bootstrap codes and the
-- sessions of others.
unfoldable pub redact : Reader → Db → Db
redact reader db = record db {
  drawn = 0;
  commands = [];
  approvals = [];
  bootstraps = [];
  last_seq = 0;
  latch_updated_at = 0;
  tasks = map redact_task db.tasks;
  runs = map redact_run db.runs;
  revisions = map redact_revision db.revisions;
  task_sources = map redact_evidence db.task_sources;
  pending_actions = map redact_action db.pending_actions;
  artifacts = map redact_artifact db.artifacts;
  messages = map redact_message db.messages;
  events = map redact_event db.events;
  handoffs = map redact_handoff db.handoffs;
  sessions = map redact_session (filter_by (is_reader reader) db.sessions);
}

module _ {ℓ} {A : Type ℓ} where
  insert_ordered-map :
      (f : A → A) (column : A → ℕ) (x : A) (xs : List A)
      → ((y : A) → column (f y) ≡ column y)
      → insert_ordered column (f x) (map f xs) ≡ map f (insert_ordered column x xs)
  unfolding insert_ordered
  insert_ordered-map f column x [] h = refl
  insert_ordered-map f column x (y ∷ ys) h =
      ground (arith, h x, h y, insert_ordered-map f column x ys h)

  order_by-map :
      (f : A → A) (column : A → ℕ) (xs : List A)
      → ((y : A) → column (f y) ≡ column y)
      → order_by column (map f xs) ≡ map f (order_by column xs)
  unfolding order_by
  order_by-map f column [] h = refl
  order_by-map f column (x ∷ xs) h =
      rw (order_by-map f column xs h) (insert_ordered-map f column x (order_by column xs) h)

  map_same {κ} :
      {B : Type κ} (f : A → A) (g : A → B) (xs : List A)
      → ((y : A) → g (f y) ≡ g y)
      → map g (map f xs) ≡ map g xs
  map_same f g [] h = refl
  map_same f g (x ∷ xs) h = rw (h x, map_same f g xs h) refl

  -- The redaction of a table stands in front of its order, and its projection does not see it.
  table_same {κ} :
      {B : Type κ} (f : A → A) (g : A → B) (column : A → ℕ) (xs : List A)
      → ((y : A) → column (f y) ≡ column y)
      → ((y : A) → g (f y) ≡ g y)
      → map g (order_by column (map f xs)) ≡ map g (order_by column xs)
  table_same f g column xs h k =
      rw (order_by-map f column xs h) (map_same f g (order_by column xs) k)

  find_by-map :
      (p : A → Bool) (f : A → A) (xs : List A)
      → ((y : A) → p (f y) ≡ p y)
      → find_by p (map f xs) ≡ elim (find_by p xs) [ none ↦ none | some x ↦ some (f x) ]
  find_by-map p f [] h = refl
  find_by-map p f (x ∷ xs) h = ground (arith, h x, find_by-map p f xs h)

high_water-redact : (es : List EventRow) → high_water (map redact_event es) ≡ high_water es
unfolding high_water
high_water-redact [] = refl
high_water-redact (e ∷ es) = rw (high_water-redact es) refl

abbrev pub redact_found {ℓ} : {A : Type ℓ} → (A → A) → Option A → Option A
redact_found f none = none
redact_found f (some x) = some (f x)

bot_of_run-redact :
    (run_id : Ident) (runs : List RunRow) (revisions : List BotConfigRevisionRow)
    → bot_of_run run_id (map redact_run runs) (map redact_revision revisions)
      ≡ bot_of_run run_id runs revisions
unfolding bot_of_run
bot_of_run-redact run_id runs revisions = elim (Option-cases (find_by (λ r. r.id == run_id) runs)) [
  | inl e ↦ ground (arith, find_by-map (λ r. r.id == run_id) redact_run runs (λ y. refl))
  | inr (r, e) ↦ ground (
    arith,
    find_by-map (λ r. r.id == run_id) redact_run runs (λ y. refl),
    find_by-map (λ v. v.id == r.bot_config_revision_id) redact_revision revisions (λ y. refl),
  )
]

find_by-own :
    (token_hash : Ident) (now : ℕ) (sessions : List BrowserSessionRow)
    → find_by
        (λ s. s.token_hash == token_hash && ltb now s.expires_at)
        (map redact_session (filter_by (is_reader (Reader.with_token token_hash)) sessions))
      ≡ redact_found redact_session
          (find_by (λ s. s.token_hash == token_hash && ltb now s.expires_at) sessions)
find_by-own token_hash now [] = refl
find_by-own token_hash now (s ∷ sessions) = ground (arith, find_by-own token_hash now sessions)

bot_for_run-redact :
    (run_id : Ident) (db : Db) (reader : Reader)
    → bot_for_run run_id (read_snapshot (redact reader db)) ≡ bot_for_run run_id (read_snapshot db)
unfolding bot_for_run read_snapshot redact
bot_for_run-redact run_id db reader =
    rw
      (
        bot_for_run,
        order_by-map redact_run (λ x. x.created_at) db.runs (λ y. refl),
        order_by-map redact_revision (λ x. x.created_at) db.revisions (λ y. refl),
        bot_of_run-redact run_id (order_by (λ x. x.created_at) db.runs)
            (order_by (λ x. x.created_at) db.revisions),
      )
      refl

show_handoffs-redact :
    (s t : Snapshot) (hs : List HandoffRow)
    → ((run_id : Ident) → bot_for_run run_id s ≡ bot_for_run run_id t)
    → show_handoffs s (map redact_handoff hs) ≡ show_handoffs t hs
unfolding show_handoffs
show_handoffs-redact s t [] e = refl
show_handoffs-redact s t (h ∷ hs) e =
    rw (e h.source_run_id, e h.recipient_run_id, show_handoffs-redact s t hs e) refl

reading_session-redact :
    (reader : Reader) (now : ℕ) (runtime : BrowserRuntime) (db : Db)
    → reading_session reader now runtime (redact reader db) ≡ reading_session reader now runtime db
unfolding reading_session redact browser_session
reading_session-redact (Reader.as_owner owner_session) now runtime db = refl
reading_session-redact (Reader.with_token token_hash) now runtime db =
    elim (Option-cases
      (find_by (λ s. s.token_hash == token_hash && ltb now s.expires_at) db.sessions)) [
        | inl e ↦ ground (arith, find_by-own token_hash now db.sessions)
        | inr (s, e) ↦ ground (arith, find_by-own token_hash now db.sessions)
      ]

show_snapshot-redact :
    (env : Env) (reader : Reader) (runtime : BrowserRuntime) (session : ReadingSession) (db : Db)
    → show_snapshot env runtime session (read_snapshot (redact reader db))
      ≡ show_snapshot env runtime session (read_snapshot db)
unfolding show_snapshot read_snapshot redact
show_snapshot-redact env reader runtime session db =
    rw
      (
        show_handoffs-redact (read_snapshot (redact reader db)) (read_snapshot db) db.handoffs
            (λ run_id. bot_for_run-redact run_id db reader),
        table_same redact_task public_task (λ x. x.created_at) db.tasks (λ y. refl) (λ y. refl),
        table_same redact_run (public_run env.parse_json) (λ x. x.created_at) db.runs (λ y. refl)
            (λ y. refl),
        table_same redact_revision public_revision (λ x. x.created_at) db.revisions (λ y. refl)
            (λ y. refl),
        table_same redact_evidence public_evidence (λ x. x.created_at) db.task_sources (λ y. refl)
            (λ y. refl),
        table_same redact_action public_pending (λ x. x.created_at) db.pending_actions (λ y. refl)
            (λ y. refl),
        table_same redact_artifact public_artifact (λ x. x.created_at) db.artifacts (λ y. refl)
            (λ y. refl),
        table_same redact_message public_message (λ x. x.created_at) db.messages (λ y. refl)
            (λ y. refl),
        high_water-redact db.events,
      )
      refl

workspace_snapshot-redact :
    (env : Env) (reader : Reader) (now : ℕ) (runtime : BrowserRuntime) (db : Db)
    → workspace_snapshot env reader now runtime (redact reader db)
      ≡ workspace_snapshot env reader now runtime db
unfolding workspace_snapshot
workspace_snapshot-redact env reader now runtime db =
    elim (Option-cases (reading_session reader now runtime db)) [
      | inl e ↦ rw (workspace_snapshot, reading_session-redact reader now runtime db, e) refl
      | inr (s, e) ↦
          rw (workspace_snapshot, reading_session-redact reader now runtime db, e)
            (show_snapshot-redact env reader runtime s db)
    ]

-- Two databases that `redact` makes equal give a reader the same snapshot, or the same refusal. So it depends on
-- none of what `redact` blanks or drops: the paths of artifacts and sources, the briefs of tasks, provider sessions,
-- capabilities and histories, the payloads of pending actions, dedupe keys, the bodies of events, the drafts and
-- briefs in handoffs, the transport, version, workspace and budgets of a frozen configuration, owners' sessions,
-- CSRF hashes, other browsers' sessions, bootstrap codes, approvals and commands. The content digests of artifacts
-- and sources stay, and are shown.
pub workspace_snapshot_private :
    (env : Env) (reader : Reader) (now : ℕ) (runtime : BrowserRuntime) (db db' : Db)
    → redact reader db ≡ redact reader db'
    → workspace_snapshot env reader now runtime db ≡ workspace_snapshot env reader now runtime db'
workspace_snapshot_private env reader now runtime db db' h =
    sym (workspace_snapshot-redact env reader now runtime db)
    ∙ ap (workspace_snapshot env reader now runtime) h
    ∙ workspace_snapshot-redact env reader now runtime db'
