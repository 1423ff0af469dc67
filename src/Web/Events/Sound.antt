-- ===== src/Web/Events/Sound.antt =====
-- Whatever happens to the workspace of packages/cli/web/src/workspace-store.ts, it stays sound.
use agentis.Web.Events.{
  Event, source_opened, transition_seen, handle, transition_invalid, handle_all, timer_fired,
}
use agentis.Web.Refresh.Sound.{
  status_failed-IsSound, status_answered-IsSound, start_failed-IsSound, check_again-IsSound,
  fail_or_show-IsSound, refresh-IsSound,
}
use agentis.Web.Sound.{
  dispose-IsSound, schedule_resync-IsSound, stop_timer-IsSound, sign_out-IsSound, call-IsSound,
  either_way, update-IsSound, same_core-IsSound, either_case, IsSound,
}
use agentis.Web.{
  PreviewStatus, new_web, Notice, Call, Waiter, message_of, update, sign_out, has_token,
  authentication_failed, RetryRequest, ApiFailure, Web,
}
use agentis.Schema.{Ident, SourceKind, Command, CommandReceipt, ProviderKind}
use agentis.Snapshot.Public.{PublicArtifact, OwnerSession}
use agentis.Prelude.{
  ltb, leb, ◌==◌, [], arith, insert_row, ◌∷◌, suc, ℕ, refl, some, ◌||◌, false, not, true, is_some,
  Bool, none, if◌then◌else◌, List, String, Option,
}
use agentis.Web.Actions.{
  cached, max_text_preview_bytes, is_previewable, preview, new_request, open_artifact, hold,
  retry_command, clear_error, artifact_failed, close_artifact, artifact_answered, begin_start,
  begin_request, begin_command, set_session, command_answered, start_exchanged, send_command,
  setup_answered, start, acknowledge_in_browser, check_connection, setup_failed, start_session,
  command_failed, dispatch_command,
}

start-IsSound :
    (bootstrap cookie : Option String) (w : Web) → IsSound w → IsSound (start bootstrap cookie w)
unfolding start
start-IsSound bootstrap cookie w s =
    let t = update-IsSound begin_start w s in
    either_case bootstrap (λ e. same_core-IsSound (update begin_start w) _ refl t)
      (λ code e. call-IsSound (Call.exchange_bootstrap_code code) (update begin_start w) t)

start_exchanged-IsSound : (token : String) (w : Web) → IsSound w → IsSound (start_exchanged token w)
unfolding start_exchanged
start_exchanged-IsSound token w s = same_core-IsSound w _ refl s

start_session-IsSound :
    (session : OwnerSession) (w : Web) → IsSound w → IsSound (start_session session w)
unfolding start_session
start_session-IsSound session w s =
    refresh-IsSound true false Waiter.from_start (update (set_session session) w)
      (update-IsSound (set_session session) w s)

acknowledge_in_browser-IsSound :
    (provider : ProviderKind) (sources : List SourceKind) (w : Web)
    → IsSound w
    → IsSound (acknowledge_in_browser provider sources w)
unfolding acknowledge_in_browser
acknowledge_in_browser-IsSound provider sources w s =
    either_way (not (has_token w.csrf_token)) (search update-IsSound)
      (call-IsSound _ (update begin_request w) (update-IsSound begin_request w s))

setup_answered-IsSound :
    (session : OwnerSession) (w : Web) → IsSound w → IsSound (setup_answered session w)
unfolding setup_answered
setup_answered-IsSound session w s =
    refresh-IsSound true false Waiter.from_setup (update (set_session session) w)
      (update-IsSound (set_session session) w s)

setup_failed-IsSound : (e : ApiFailure) (w : Web) → IsSound w → IsSound (setup_failed e w)
unfolding setup_failed
setup_failed-IsSound e w s = search (update-IsSound, fail_or_show-IsSound)

check_connection-IsSound : (w : Web) → IsSound w → IsSound (check_connection w)
unfolding check_connection
check_connection-IsSound w s =
    let t = update-IsSound begin_request w s in
    either_way w.state.busy s (
      either_way (is_some (update begin_request w).refresh_flight)
        (refresh-IsSound false true Waiter.from_check_first (update begin_request w) t)
        (check_again-IsSound (update begin_request w) t))

dispatch_command-IsSound : (w : Web) → IsSound w → IsSound (dispatch_command w)
unfolding dispatch_command
dispatch_command-IsSound w s =
    either_case w.retry_request (λ e. s)
      (λ p e.
        either_way (not (has_token w.csrf_token) || w.state.busy) s
          (call-IsSound _ (update begin_command w) (update-IsSound begin_command w s)))

send_command-IsSound :
    (label : String) (command : Command) (notifies : Bool) (key : Ident) (w : Web)
    → IsSound w
    → IsSound (send_command label command notifies key w)
unfolding send_command
send_command-IsSound label command notifies key w s =
    either_way (not (has_token w.csrf_token)) (search update-IsSound) (
      either_case w.retry_request
        (λ e.
          dispatch_command-IsSound (hold (new_request label command notifies key) w)
            (same_core-IsSound w _ refl s))
        (λ p e. search update-IsSound))

retry_command-IsSound : (w : Web) → IsSound w → IsSound (retry_command w)
unfolding retry_command
retry_command-IsSound w s = dispatch_command-IsSound w s

command_failed-IsSound :
    (e : ApiFailure) (p : RetryRequest) (w : Web) → IsSound w → IsSound (command_failed e p w)
unfolding command_failed
command_failed-IsSound e p w s = search (update-IsSound, inner)
  where
    inner : IsSound (
        if authentication_failed e
        then sign_out (message_of e) (record w { retry_request = none })
        else update
            (λ v. record v {
              error = some (Notice.said (message_of e));
              retry_label = some p.label;
            })
            w)
    inner =
        either_way (authentication_failed e)
          (sign_out-IsSound (message_of e) (record w { retry_request = none })
            (same_core-IsSound w _ refl s))
          (search update-IsSound)

command_answered-IsSound :
    (receipt : CommandReceipt) (p : RetryRequest) (w : Web)
    → IsSound w
    → IsSound (command_answered receipt p w)
unfolding command_answered
command_answered-IsSound receipt p w s =
    let held : IsSound (record w { retry_request = none }) = same_core-IsSound w _ refl s in
    either_way (not receipt.accepted) (search update-IsSound) (
      refresh-IsSound false false Waiter.from_command _
        (either_way p.notifies (call-IsSound (Call.on_accepted receipt) _ held) held))

open_artifact-IsSound :
    (artifact : PublicArtifact) (w : Web) → IsSound w → IsSound (open_artifact artifact w)
unfolding open_artifact
open_artifact-IsSound artifact w s =
    let opened : Web = record w { artifact_generation = suc w.artifact_generation } in
    let o : IsSound opened = same_core-IsSound w _ refl s in
    let t : IsSound (preview artifact PreviewStatus.loading opened) = search update-IsSound in
    either_way
      (not (is_previewable artifact.media_type) || ltb max_text_preview_bytes artifact.byte_size)
      (search update-IsSound)
      (either_case
        (cached artifact.id (preview artifact PreviewStatus.loading opened).artifact_bytes)
        (λ e. call-IsSound _ (preview artifact PreviewStatus.loading opened) t)
        (λ c e. search update-IsSound))

artifact_answered-IsSound :
    (generation : ℕ) (artifact : PublicArtifact) (text : String) (w : Web)
    → IsSound w
    → IsSound (artifact_answered generation artifact text w)
unfolding artifact_answered
artifact_answered-IsSound generation artifact text w s =
    let o : IsSound
        (record w { artifact_bytes = insert_row (artifact.id, text) w.artifact_bytes }) =
      same_core-IsSound w _ refl s in
    either_way (not (generation == w.artifact_generation)) s (search update-IsSound)

artifact_failed-IsSound :
    (generation : ℕ) (artifact : PublicArtifact) (e : ApiFailure) (w : Web)
    → IsSound w
    → IsSound (artifact_failed generation artifact e w)
unfolding artifact_failed
artifact_failed-IsSound generation artifact e w s =
    either_way (not (generation == w.artifact_generation)) s (search update-IsSound)

close_artifact-IsSound : (w : Web) → IsSound w → IsSound (close_artifact w)
unfolding close_artifact
close_artifact-IsSound w s =
    let o : IsSound (record w { artifact_generation = suc w.artifact_generation }) =
      same_core-IsSound w _ refl s in
    search update-IsSound

clear_error-IsSound : (w : Web) → IsSound w → IsSound (clear_error w)
unfolding clear_error
clear_error-IsSound w s = search update-IsSound

source_opened-IsSound :
    (generation : ℕ) (w : Web) → IsSound w → IsSound (source_opened generation w)
unfolding source_opened
source_opened-IsSound generation w s =
    let t : IsSound (record w { reconnect_delay_ms = 500 }) = record {
      streams = s.streams;
      timed = s.timed;
      least = omega arith;
      most = omega arith;
      flying = s.flying;
    } in
    either_way (generation == w.event_generation) (search update-IsSound) s

transition_seen-IsSound :
    (generation cursor : ℕ) (w : Web) → IsSound w → IsSound (transition_seen generation cursor w)
unfolding transition_seen
transition_seen-IsSound generation cursor w s =
    either_way (not (generation == w.event_generation)) s (
      either_way (leb cursor w.pending_cursor) s (
        refresh-IsSound false false Waiter.from_event (record w { pending_cursor = cursor })
          (same_core-IsSound w _ refl s)))

transition_invalid-IsSound :
    (generation : ℕ) (e : ApiFailure) (w : Web)
    → IsSound w
    → IsSound (transition_invalid generation e w)
unfolding transition_invalid
transition_invalid-IsSound generation e w s =
    either_way (not (generation == w.event_generation)) s (search update-IsSound)

timer_fired-IsSound : (w : Web) → IsSound w → IsSound (timer_fired w)
unfolding timer_fired
timer_fired-IsSound w s =
    either_way (is_some w.reconnect_timer)
      (refresh-IsSound true false Waiter.from_resync (record w { reconnect_timer = none })
        (stop_timer-IsSound w s))
      s

-- Every event keeps a sound workspace sound.
pub handle-IsSound : (e : Event) (w : Web) → IsSound w → IsSound (handle e w)
unfolding handle
handle-IsSound (Event.starts bootstrap cookie) w s = start-IsSound bootstrap cookie w s
handle-IsSound (Event.exchanges csrf_token) w s = start_exchanged-IsSound csrf_token w s
handle-IsSound (Event.gets_session session) w s = start_session-IsSound session w s
handle-IsSound (Event.start_fails e) w s = start_failed-IsSound e w s
handle-IsSound (Event.acknowledges provider sources) w s =
    acknowledge_in_browser-IsSound provider sources w s
handle-IsSound (Event.is_set_up session) w s = setup_answered-IsSound session w s
handle-IsSound (Event.setup_fails e) w s = setup_failed-IsSound e w s
handle-IsSound Event.checks w s = check_connection-IsSound w s
handle-IsSound (Event.gets_status snapshot) w s = status_answered-IsSound snapshot w s
handle-IsSound (Event.status_fails e) w s = status_failed-IsSound e w s
handle-IsSound (Event.sends label command notifies key) w s =
    send_command-IsSound label command notifies key w s
handle-IsSound Event.retries w s = retry_command-IsSound w s
handle-IsSound (Event.gets_receipt receipt p) w s = command_answered-IsSound receipt p w s
handle-IsSound (Event.command_fails e p) w s = command_failed-IsSound e p w s
handle-IsSound (Event.opens_artifact artifact) w s = open_artifact-IsSound artifact w s
handle-IsSound (Event.gets_artifact generation artifact text) w s =
    artifact_answered-IsSound generation artifact text w s
handle-IsSound (Event.artifact_fails generation artifact e) w s =
    artifact_failed-IsSound generation artifact e w s
handle-IsSound Event.closes_artifact w s = close_artifact-IsSound w s
handle-IsSound Event.clears_error w s = clear_error-IsSound w s
handle-IsSound (Event.stream_opens generation) w s = source_opened-IsSound generation w s
handle-IsSound (Event.sees_transition generation cursor) w s =
    transition_seen-IsSound generation cursor w s
handle-IsSound (Event.sees_invalid generation e) w s = transition_invalid-IsSound generation e w s
handle-IsSound (Event.stream_fails generation) w s = schedule_resync-IsSound generation w s
handle-IsSound Event.timer_fires w s = timer_fired-IsSound w s
handle-IsSound Event.disposes w s = dispose-IsSound w s

keeps_IsSound : (es : List Event) (w : Web) → IsSound w → IsSound (handle_all es w)
unfolding handle_all
keeps_IsSound [] w s = s
keeps_IsSound (e ∷ es) w s = keeps_IsSound es (handle e w) (handle-IsSound e w s)

-- Whatever the owner does and the API and the stream answer, in whatever order, a workspace has at most
-- one event source open, the current one, and none while a reconnect is due; a reconnect waits for half
-- a second to thirty seconds; and a refresh under way has seen the cursor go back at most twice.
pub handle_all-IsSound : (es : List Event) → IsSound (handle_all es new_web)
handle_all-IsSound es =
    keeps_IsSound es new_web
      (record { streams = refl; timed = tt; least = omega arith; most = omega arith; flying = tt })
