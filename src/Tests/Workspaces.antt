-- ===== src/Tests/Workspaces.antt =====
-- The theorems on the browser's workspace and on what a snapshot shows it, at concrete states.
use agentis.Web.Events.Retry.{handle_all-sent, replicate}
use agentis.Web.Dispose.{dispose_reopens}
use agentis.Web.Refresh.{refresh, status_answered}
use agentis.Web.Refresh.Quiet.{sent}
use agentis.Web.Actions.{dispatch_command, send_command, start_session, start}
use agentis.Web.Events.Sound.{handle_all-IsSound}
use agentis.Web.Events.Ends.{refresh_ends, answers}
use agentis.Tests.{test_env}
use agentis.Schema.{SourceKind, Bot, Command, ProviderKind, ArtifactRow}
use agentis.Web.Sound.{IsSound}
use agentis.Snapshot.Secrets.{workspace_snapshot_private, redact}
use agentis.Snapshot.{Reader, BrowserRuntime, workspace_snapshot}
use agentis.Web.Events.{Event, handle, handle_all}
use agentis.StoreDb.{empty_db, Db}
use agentis.Prelude.{
  is_some, ◌++◌, ◌∷◌, ◌<◌, some, refl, [], false, arith, none, true, ◌≡◌, String, ℕ, List, ◌≤◌,
}
use agentis.Snapshot.Public.{WorkspaceSnapshot, OwnerSession}
use agentis.Web.{
  has_token, update, Waiter, new_web, Flight, ApiFailure, authentication_failed, Web, RetryRequest,
  dispose,
}

abbrev test_session : OwnerSession
test_session = record {
  expires_at = 100;
  provider = record {
    kind = ProviderKind.codex;
    model = "model";
    auth_mode = "chatgpt";
    execution_location = "host";
    eligible = true;
    ineligible_reason = none;
    acknowledged_at = some 5;
  };
  sources = (record { source = SourceKind.pasted; acknowledged_at = 5 }) ∷ [];
}

abbrev snapshot_at : ℕ → WorkspaceSnapshot
snapshot_at cursor = record {
  cursor = cursor;
  stop_all = false;
  session = test_session;
  tasks = [];
  threads = [];
  handoffs = [];
  runs = [];
  revisions = [];
  evidence = [];
  pending = [];
  artifacts = [];
  messages = [];
}

-- The owner opens the workspace, its stream fails, and the timer reconnects it.
abbrev opening : List Event
opening = Event.starts none (some "token") ∷ Event.gets_session test_session ∷ []

abbrev reconnecting : List Event
reconnecting =
    Event.starts none (some "token")
    ∷ Event.gets_session test_session
    ∷ Event.gets_status (snapshot_at 4)
    ∷ Event.stream_opens 1
    ∷ Event.stream_fails 1
    ∷ Event.timer_fires
    ∷ []

handle_all-IsSound_example : IsSound (handle_all reconnecting new_web)
handle_all-IsSound_example = handle_all-IsSound reconnecting

abbrev polls : List Event
polls =
    Event.gets_status (snapshot_at 4)
    ∷ Event.retries
    ∷ Event.gets_status (snapshot_at 3)
    ∷ Event.gets_status (snapshot_at 3)
    ∷ []

opening_flies : is_some (handle_all opening new_web).refresh_flight ≡ true
unfolding handle_all handle start start_session update refresh
opening_flies = refl

three_answers : 3 ≤ answers polls
three_answers = omega arith

refresh_ends_example :
    (handle_all opening new_web).landed < (handle_all polls (handle_all opening new_web)).landed
refresh_ends_example = refresh_ends opening polls opening_flies three_answers

abbrev stopping : RetryRequest
stopping = record {
  label = "Stop all";
  request = record { idempotency_key = 9; command = Command.stop_all };
  notifies = false;
}

abbrev sending : Web
sending =
    handle_all
      (Event.starts none (some "token") ∷ Event.sends "Stop all" Command.stop_all false 9 ∷ [])
      new_web

abbrev offline : ApiFailure
offline = record { message = "offline"; code = none }

abbrev retrying : List Event
retrying =
    Event.command_fails offline stopping
    ∷ Event.sends "Cancel" (Command.cancel_run 3) false 10
    ∷ Event.retries
    ∷ []

sending_held : sending.retry_request ≡ some stopping
unfolding handle_all handle start send_command dispatch_command update has_token
sending_held = refl

offline_is_unresolved : authentication_failed offline ≡ false
unfolding authentication_failed
offline_is_unresolved = refl

handle_all-sent_example :
    ((handle_all retrying sending).retry_request ≡ some stopping)
    × ((n : ℕ) × (sent (handle_all retrying sending).calls
          ≡ sent sending.calls ++ replicate n stopping.request))
handle_all-sent_example =
    handle_all-sent retrying stopping sending sending_held (offline_is_unresolved, (tt, (tt, tt)))

abbrev waiting_flight : Flight
waiting_flight = record { reconnect = true; regressions = 0; waiters = Waiter.from_start ∷ [] }

abbrev flying_web : Web
flying_web = record new_web { refresh_flight = some waiting_flight }

flying_web-IsSound : IsSound flying_web
flying_web-IsSound = record {
  streams = refl;
  timed = tt;
  least = omega arith;
  most = omega arith;
  flying = omega arith;
}

dispose_reopens_example :
    ((dispose flying_web).open_sources ≡ [])
    × ((status_answered (snapshot_at 4) (dispose flying_web)).open_sources ≡ 2 ∷ [])
dispose_reopens_example =
    dispose_reopens (snapshot_at 4) waiting_flight flying_web flying_web-IsSound refl (omega arith)

-- Two databases of which one holds a bootstrap code and another draft's path.
abbrev shown_artifact : String → ArtifactRow
shown_artifact path = record {
  id = 8;
  task_id = 1;
  run_id = 3;
  author = Bot.mara;
  source = "codex";
  media_type = "text/markdown";
  sha256 = 5;
  byte_size = 1;
  path = path;
  citations = [];
  created_at = 20;
}

abbrev plain_store : Db
plain_store = record empty_db { artifacts = shown_artifact "root/a.md" ∷ [] }

abbrev secret_store : Db
secret_store = record empty_db {
  artifacts = shown_artifact "root/b.md" ∷ [];
  bootstraps =
      (record { code_hash = 5; owner_session = 500; expires_at = 20; consumed_at = none }) ∷ [];
}

abbrev pub test_runtime : BrowserRuntime
test_runtime = record {
  provider = ProviderKind.codex;
  model = "model";
  auth_mode = "chatgpt";
  execution_location = "host";
  eligible = true;
  ineligible_reason = none;
}

redacted_alike :
    redact (Reader.as_owner 500) plain_store ≡ redact (Reader.as_owner 500) secret_store
unfolding redact
redacted_alike = refl

workspace_snapshot_private_example :
    workspace_snapshot test_env (Reader.as_owner 500) 30 test_runtime plain_store
    ≡ workspace_snapshot test_env (Reader.as_owner 500) 30 test_runtime secret_store
workspace_snapshot_private_example =
    workspace_snapshot_private test_env (Reader.as_owner 500) 30 test_runtime plain_store
      secret_store redacted_alike
