-- ===== src/Web.antt =====
-- The browser's workspace: the state of `WorkspaceStore` of packages/cli/web/src/workspace-store.ts, and
-- its event stream with the reconnect timer. Each method is cut at its awaits; what runs between two
-- awaits is one function of the state.
pub mod Sound
pub mod Refresh
pub mod Actions
pub mod Events
pub mod Dispose
use Prim.Native.String.{String}
use text.Mathlib.Text.{◌==◌ as str_eq}
use agentis.Snapshot.Public.{WorkspaceSnapshot, OwnerSession, PublicArtifact}
use agentis.Prompt.{is_empty}
use agentis.Schema.{CommandReceipt, SourceKind, Command, ProviderKind, Ident}
use agentis.Prelude.{
  ◌*◌, min, is_some, ◌||◌, ◌==◌, filter_by, [], not, if◌then◌else◌, false, List, ◌∷◌, true, ℕ, suc,
  insert_row, Bool, Option, some, none,
}

-- An error that an API call throws: its message, and `detail.code` of an `ApiClientError`.
pub record ApiFailure : Type 0 where
  pub message : String
  pub code : Option String

-- `messageOf`.
unfoldable pub message_of : ApiFailure → String
unfolding is_empty
message_of e =
    if is_empty e.message then "The workspace could not complete that request." else e.message

unfoldable pub authentication_failed : ApiFailure → Bool
authentication_failed e = elim e.code [
  | none ↦ false
  | some code ↦ str_eq code "unauthorized" || str_eq code "forbidden"
]

pub data Phase : Type 0 where
  starting setup ready signed_out : Phase

pub data StreamState : Type 0 where
  idle connecting connected reconnecting : StreamState

-- The error that is shown: each constructor is one template of the source, with what fills it.
pub data Notice : Type 0 where
  said : String → Notice
  open_again : String → Notice
  missing_csrf : Notice
  retry_first : (label : String) → Notice
  not_accepted : (label : String) → Notice
  invalid_event : String → Notice

pub data PreviewStatus : Type 0 where
  loading download_only : PreviewStatus
  ready : (text : String) → PreviewStatus
  failed : (error : String) → PreviewStatus

pub record ArtifactPreview : Type 0 where
  pub artifact : PublicArtifact
  pub status : PreviewStatus

-- `WorkspaceState`, what is shown.
pub record WorkspaceState : Type 0 where
  pub phase : Phase
  pub session : Option OwnerSession
  pub snapshot : Option WorkspaceSnapshot
  pub stream : StreamState
  pub busy : Bool
  pub error : Option Notice
  pub retry_label : Option String
  pub artifact_preview : Option ArtifactPreview

-- `CommandRequest`.
pub record CommandRequest : Type 0 where
  pub idempotency_key : Ident
  pub command : Command

pub record RetryRequest : Type 0 where
  pub label : String
  pub request : CommandRequest
  pub notifies : Bool

-- What a caller that awaits a refresh does when it ends.
pub data Waiter : Type 0 where
  from_start from_setup from_check_first from_check from_command from_resync from_event : Waiter

-- The refresh under way: `reconnect`, the count of cursors that went back, and who awaits it.
pub record Flight : Type 0 where
  pub reconnect : Bool
  pub regressions : ℕ
  pub waiters : List Waiter

-- The calls of the API and of the page, and the callback of an accepted command.
pub data Call : Type 0 where
  exchange_bootstrap_code : String → Call
  read_session : Call
  send_setup : (csrf : String) → ProviderKind → List SourceKind → Call
  read_status : (check_connection : Bool) → Call
  post_command : (csrf : String) → CommandRequest → Call
  open_stream : (cursor : ℕ) → Call
  fetch_artifact : (id : Ident) → Call
  on_accepted : CommandReceipt → Call

-- The fields of `WorkspaceStore`, less the listeners, which only read. `event_source` holds the
-- generation under which the source was opened. Three fields are of the page: the sources that are
-- open, the calls made, and how many refreshes have ended.
pub record Web : Type 0 where
  pub state : WorkspaceState
  pub csrf_token : Option String
  pub event_source : Option ℕ
  pub event_generation : ℕ
  pub reconnect_timer : Option ℕ
  pub reconnect_delay_ms : ℕ
  pub refresh_flight : Option Flight
  pub pending_cursor : ℕ
  pub retry_request : Option RetryRequest
  pub artifact_bytes : List (Ident × String)
  pub artifact_generation : ℕ
  pub disposed : Bool
  pub open_sources : List ℕ
  pub calls : List Call
  pub landed : ℕ

abbrev pub new_web : Web
new_web = record {
  state = record {
    phase = Phase.starting;
    session = none;
    snapshot = none;
    stream = StreamState.idle;
    busy = false;
    error = none;
    retry_label = none;
    artifact_preview = none;
  };
  csrf_token = none;
  event_source = none;
  event_generation = 0;
  reconnect_timer = none;
  reconnect_delay_ms = 500;
  refresh_flight = none;
  pending_cursor = 0;
  retry_request = none;
  artifact_bytes = [];
  artifact_generation = 0;
  disposed = false;
  open_sources = [];
  calls = [];
  landed = 0;
}

-- `#update`.
unfoldable pub update : (WorkspaceState → WorkspaceState) → Web → Web
update change w = if w.disposed then w else record w { state = change w.state }

abbrev pub call : Call → Web → Web
call c w = record w { calls = insert_row c w.calls }

-- A missing token and an empty one are alike: `!this.#csrfToken`.
unfoldable pub has_token : Option String → Bool
unfolding is_empty
has_token none = false
has_token (some token) = not (is_empty token)

abbrev pub without : Option ℕ → List ℕ → List ℕ
without none sources = sources
without (some g) sources = filter_by (λ x. not (x == g)) sources

abbrev pub set_stream : StreamState → WorkspaceState → WorkspaceState
set_stream stream v = record v { stream = stream }

-- `#closeEvents`.
unfoldable pub close_events : Web → Web
close_events w = record w {
  event_generation = suc w.event_generation;
  event_source = none;
  open_sources = without w.event_source w.open_sources;
}

-- `#connectEvents`: a pending reconnect is dropped and the old source is closed.
unfoldable pub connect_events : (cursor : ℕ) → Web → Web
unfolding close_events update
connect_events cursor w =
    let closed = close_events (record w { reconnect_timer = none }) in
    let connecting = update (set_stream StreamState.connecting) closed in
    record (call (Call.open_stream cursor) connecting) {
      event_source = some connecting.event_generation;
      open_sources = connecting.event_generation ∷ connecting.open_sources;
    }

abbrev pub max_reconnect_delay_ms : ℕ
max_reconnect_delay_ms = 30000

-- `#scheduleResync`; the timer holds its delay.
unfoldable pub schedule_resync : (generation : ℕ) → Web → Web
unfolding close_events update
schedule_resync generation w =
    if not (generation == w.event_generation) || w.disposed || is_some w.reconnect_timer
    then w
    else let closed = update (set_stream StreamState.reconnecting) (close_events w) in
      record closed {
        reconnect_timer = some closed.reconnect_delay_ms;
        reconnect_delay_ms = min (closed.reconnect_delay_ms * 2) max_reconnect_delay_ms;
      }

abbrev pub is_signed_out : Phase → Bool
is_signed_out Phase.signed_out = true
is_signed_out _ = false

-- The state of a session that is over.
abbrev pub over : String → WorkspaceState → WorkspaceState
over message v = record v {
  phase = Phase.signed_out;
  stream = StreamState.idle;
  error = some (Notice.open_again message);
}

-- `#signedOut`.
unfoldable pub sign_out : String → Web → Web
unfolding close_events update
sign_out message w = update (over message) (close_events (record w { reconnect_timer = none }))

unfoldable pub dispose : Web → Web
unfolding close_events
dispose w = close_events (record w { disposed = true; reconnect_timer = none })
