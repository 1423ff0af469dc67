-- ===== src/Web/Events.antt =====
-- Everything that can happen to the workspace of packages/cli/web/src/workspace-store.ts: the owner's actions, the
-- answers of the API, the event stream of `#connectEvents` and the reconnect timer.
pub mod Sound
pub mod Retry
pub mod Ends
use agentis.Web.Actions.{
  send_command, clear_error, close_artifact, artifact_failed, artifact_answered, open_artifact,
  command_failed, command_answered, retry_command, check_connection, setup_failed, setup_answered,
  acknowledge_in_browser, start_session, start_exchanged, start,
}
use agentis.Web.Refresh.{status_failed, status_answered, start_failed, show_error, refresh}
use agentis.Prelude.{
  [], Bool, none, false, leb, true, is_some, not, ◌==◌, ℕ, ◌∷◌, if◌then◌else◌, String, Option, List,
}
use agentis.Web.{
  set_stream, dispose, schedule_resync, PublicArtifact, RetryRequest, CommandReceipt, Ident,
  Command, WorkspaceSnapshot, Waiter, SourceKind, Notice, StreamState, ProviderKind, OwnerSession,
  ApiFailure, message_of, Web, update,
}

-- A 'transition' of the source opened under `generation`: its cursor, or why it cannot be decoded.
unfoldable pub transition_seen : (generation : ℕ) → (cursor : ℕ) → Web → Web
unfolding refresh
transition_seen generation cursor w =
    if not (generation == w.event_generation)
    then w
    else if leb cursor w.pending_cursor
    then w
    else refresh false false Waiter.from_event (record w { pending_cursor = cursor })

unfoldable pub transition_invalid : (generation : ℕ) → ApiFailure → Web → Web
unfolding update message_of
transition_invalid generation e w =
    if not (generation == w.event_generation)
    then w
    else show_error (Notice.invalid_event (message_of e)) w

unfoldable pub source_opened : (generation : ℕ) → Web → Web
unfolding update
source_opened generation w =
    if generation == w.event_generation
    then update (set_stream StreamState.connected) (record w { reconnect_delay_ms = 500 })
    else w

-- The timer runs out, if it is set.
unfoldable pub timer_fired : Web → Web
unfolding refresh
timer_fired w =
    if is_some w.reconnect_timer
    then refresh true false Waiter.from_resync (record w { reconnect_timer = none })
    else w

pub data Event : Type 0 where
  starts : (bootstrap cookie : Option String) → Event
  exchanges : (csrf_token : String) → Event
  gets_session : OwnerSession → Event
  start_fails : ApiFailure → Event
  acknowledges : ProviderKind → List SourceKind → Event
  is_set_up : OwnerSession → Event
  setup_fails : ApiFailure → Event
  checks : Event
  gets_status : WorkspaceSnapshot → Event
  status_fails : ApiFailure → Event
  sends : String → Command → (notifies : Bool) → (key : Ident) → Event
  retries : Event
  gets_receipt : CommandReceipt → RetryRequest → Event
  command_fails : ApiFailure → RetryRequest → Event
  opens_artifact : PublicArtifact → Event
  gets_artifact : (generation : ℕ) → PublicArtifact → String → Event
  artifact_fails : (generation : ℕ) → PublicArtifact → ApiFailure → Event
  closes_artifact : Event
  clears_error : Event
  stream_opens : (generation : ℕ) → Event
  sees_transition : (generation cursor : ℕ) → Event
  sees_invalid : (generation : ℕ) → ApiFailure → Event
  stream_fails : (generation : ℕ) → Event
  timer_fires : Event
  disposes : Event

-- The handler of an event; 'resync_required' and an error of the source are handled alike.
unfoldable pub handle : Event → Web → Web
handle (Event.starts bootstrap cookie) w = start bootstrap cookie w
handle (Event.exchanges csrf_token) w = start_exchanged csrf_token w
handle (Event.gets_session session) w = start_session session w
handle (Event.start_fails e) w = start_failed e w
handle (Event.acknowledges provider sources) w = acknowledge_in_browser provider sources w
handle (Event.is_set_up session) w = setup_answered session w
handle (Event.setup_fails e) w = setup_failed e w
handle Event.checks w = check_connection w
handle (Event.gets_status s) w = status_answered s w
handle (Event.status_fails e) w = status_failed e w
handle (Event.sends label command notifies key) w = send_command label command notifies key w
handle Event.retries w = retry_command w
handle (Event.gets_receipt receipt p) w = command_answered receipt p w
handle (Event.command_fails e p) w = command_failed e p w
handle (Event.opens_artifact artifact) w = open_artifact artifact w
handle (Event.gets_artifact generation artifact text) w =
    artifact_answered generation artifact text w
handle (Event.artifact_fails generation artifact e) w = artifact_failed generation artifact e w
handle Event.closes_artifact w = close_artifact w
handle Event.clears_error w = clear_error w
handle (Event.stream_opens generation) w = source_opened generation w
handle (Event.sees_transition generation cursor) w = transition_seen generation cursor w
handle (Event.sees_invalid generation e) w = transition_invalid generation e w
handle (Event.stream_fails generation) w = schedule_resync generation w
handle Event.timer_fires w = timer_fired w
handle Event.disposes w = dispose w

unfoldable pub handle_all : List Event → Web → Web
unfolding handle
handle_all [] w = w
handle_all (e ∷ es) w = handle_all es (handle e w)
