-- ===== src/Web/Events/Ends.antt =====
-- That a refresh of the workspace of packages/cli/web/src/workspace-store.ts ends, whatever happens meanwhile.
use agentis.Web.Events.Sound.{handle_all-IsSound, handle-IsSound}
use agentis.Web.Sound.{IsSound}
use agentis.Snapshot.Public.{OwnerSession}
use agentis.Schema.{CommandReceipt}
use agentis.Web.Refresh.Rounds.{
  flight-Within, none_left, schedule_resync-Steady, status_failed-Within, status_answered-Within,
  Steady-refl, Steady-Within, Within, Steady,
}
use agentis.Web.{
  new_web, schedule_resync, dispose, Ident, RetryRequest, ApiFailure, Command, SourceKind,
  close_events, ProviderKind, PublicArtifact, Web, sign_out,
}
use agentis.Prelude.{
  true, is_some, ◌<◌, ◌≤◌, ◌≡◌, none, [], some, ◌∷◌, arith, Bool, suc, Option, ℕ, String, List,
}
use agentis.Web.Refresh.{refresh}
use agentis.Web.Events.{
  handle_all, handle, update, Event, timer_fired, transition_seen, source_opened,
  transition_invalid,
}
use agentis.Web.Refresh.{check_again, fail_or_show, start_failed}
use agentis.Web.Actions.{
  retry_command, start_exchanged, setup_failed, command_answered, close_artifact, open_artifact,
  send_command, setup_answered, start, artifact_failed, artifact_answered, acknowledge_in_browser,
  start_session, clear_error, command_failed, dispatch_command, check_connection,
}

-- How many answers of `status` a sequence of events has.
abbrev counted : Event → ℕ → ℕ
counted (Event.gets_status s) k = suc k
counted e k = k

abbrev pub answers : List Event → ℕ
answers [] = 0
answers (e ∷ es) = counted e (answers es)

start-Steady : (bootstrap cookie : Option String) (w : Web) → Steady w (start bootstrap cookie w)
unfolding start update
start-Steady none cookie w = (ground arith, λ h. (ground arith, ground arith))
start-Steady (some code) cookie w = (ground arith, λ h. (ground arith, ground arith))

start_session-Steady : (session : OwnerSession) (w : Web) → Steady w (start_session session w)
unfolding start_session update refresh
start_session-Steady session w = (ground arith, λ h. (ground arith, ground arith))

start_failed-Steady : (e : ApiFailure) (w : Web) → Steady w (start_failed e w)
unfolding start_failed update close_events
start_failed-Steady e w = (ground arith, λ h. (ground arith, ground arith))

acknowledge_in_browser-Steady :
    (provider : ProviderKind) (sources : List SourceKind) (w : Web)
    → Steady w (acknowledge_in_browser provider sources w)
unfolding acknowledge_in_browser update
acknowledge_in_browser-Steady provider sources w = (ground arith, λ h. (ground arith, ground arith))

setup_answered-Steady : (session : OwnerSession) (w : Web) → Steady w (setup_answered session w)
unfolding setup_answered update refresh
setup_answered-Steady session w = (ground arith, λ h. (ground arith, ground arith))

setup_failed-Steady : (e : ApiFailure) (w : Web) → Steady w (setup_failed e w)
unfolding setup_failed fail_or_show sign_out close_events update
setup_failed-Steady e w = (ground arith, λ h. (ground arith, ground arith))

check_connection-Steady : (w : Web) → Steady w (check_connection w)
unfolding check_connection check_again refresh update
check_connection-Steady w = (ground arith, λ h. (ground arith, ground arith))

dispatch_command-Steady : (w : Web) → Steady w (dispatch_command w)
unfolding dispatch_command update
dispatch_command-Steady w = (ground arith, λ h. (ground arith, ground arith))

send_command-Steady :
    (label : String) (command : Command) (notifies : Bool) (key : Ident) (w : Web)
    → Steady w (send_command label command notifies key w)
unfolding send_command dispatch_command update
send_command-Steady label command notifies key w = (ground arith, λ h. (ground arith, ground arith))

command_failed-Steady :
    (e : ApiFailure) (p : RetryRequest) (w : Web) → Steady w (command_failed e p w)
unfolding command_failed sign_out close_events update
command_failed-Steady e p w = (ground arith, λ h. (ground arith, ground arith))

command_answered-Steady :
    (receipt : CommandReceipt) (p : RetryRequest) (w : Web)
    → Steady w (command_answered receipt p w)
unfolding command_answered refresh update
command_answered-Steady receipt p w = (ground arith, λ h. (ground arith, ground arith))

open_artifact-Steady : (artifact : PublicArtifact) (w : Web) → Steady w (open_artifact artifact w)
unfolding open_artifact update
open_artifact-Steady artifact w = (ground arith, λ h. (ground arith, ground arith))

artifact_answered-Steady :
    (generation : ℕ) (artifact : PublicArtifact) (text : String) (w : Web)
    → Steady w (artifact_answered generation artifact text w)
unfolding artifact_answered update
artifact_answered-Steady generation artifact text w =
    (ground arith, λ h. (ground arith, ground arith))

artifact_failed-Steady :
    (generation : ℕ) (artifact : PublicArtifact) (e : ApiFailure) (w : Web)
    → Steady w (artifact_failed generation artifact e w)
unfolding artifact_failed update
artifact_failed-Steady generation artifact e w = (ground arith, λ h. (ground arith, ground arith))

close_artifact-Steady : (w : Web) → Steady w (close_artifact w)
unfolding close_artifact update
close_artifact-Steady w = (ground arith, λ h. (ground arith, ground arith))

clear_error-Steady : (w : Web) → Steady w (clear_error w)
unfolding clear_error update
clear_error-Steady w = (ground arith, λ h. (ground arith, ground arith))

source_opened-Steady : (generation : ℕ) (w : Web) → Steady w (source_opened generation w)
unfolding source_opened update
source_opened-Steady generation w = (ground arith, λ h. (ground arith, ground arith))

transition_seen-Steady :
    (generation cursor : ℕ) (w : Web) → Steady w (transition_seen generation cursor w)
unfolding transition_seen refresh
transition_seen-Steady generation cursor w = (ground arith, λ h. (ground arith, ground arith))

transition_invalid-Steady :
    (generation : ℕ) (e : ApiFailure) (w : Web) → Steady w (transition_invalid generation e w)
unfolding transition_invalid update
transition_invalid-Steady generation e w = (ground arith, λ h. (ground arith, ground arith))

timer_fired-Steady : (w : Web) → Steady w (timer_fired w)
unfolding timer_fired refresh
timer_fired-Steady w = (ground arith, λ h. (ground arith, ground arith))

start_exchanged-Steady : (token : String) (w : Web) → Steady w (start_exchanged token w)
unfolding start_exchanged
start_exchanged-Steady token w = Steady-refl w

retry_command-Steady : (w : Web) → Steady w (retry_command w)
unfolding retry_command
retry_command-Steady w = dispatch_command-Steady w

dispose-Steady : (w : Web) → Steady w (dispose w)
unfolding dispose close_events
dispose-Steady w = Steady-refl w

handle-Within :
    (e : Event) (n k : ℕ) (w : Web) → IsSound w → Within n (counted e k) w → Within n k (handle e w)
unfolding handle
handle-Within (Event.starts bootstrap cookie) n k w sound h =
    Steady-Within n k w (start bootstrap cookie w) (start-Steady bootstrap cookie w) h
handle-Within (Event.exchanges csrf_token) n k w sound h =
    Steady-Within n k w (start_exchanged csrf_token w) (start_exchanged-Steady csrf_token w) h
handle-Within (Event.gets_session session) n k w sound h =
    Steady-Within n k w (start_session session w) (start_session-Steady session w) h
handle-Within (Event.start_fails e) n k w sound h =
    Steady-Within n k w (start_failed e w) (start_failed-Steady e w) h
handle-Within (Event.acknowledges provider sources) n k w sound h =
    Steady-Within n k w (acknowledge_in_browser provider sources w)
      (acknowledge_in_browser-Steady provider sources w) h
handle-Within (Event.is_set_up session) n k w sound h =
    Steady-Within n k w (setup_answered session w) (setup_answered-Steady session w) h
handle-Within (Event.setup_fails e) n k w sound h =
    Steady-Within n k w (setup_failed e w) (setup_failed-Steady e w) h
handle-Within Event.checks n k w sound h =
    Steady-Within n k w (check_connection w) (check_connection-Steady w) h
handle-Within (Event.gets_status s) n k w sound h = status_answered-Within s n k w sound h
handle-Within (Event.status_fails e) n k w sound h = status_failed-Within e n k w h
handle-Within (Event.sends label command notifies key) n k w sound h =
    Steady-Within n k w (send_command label command notifies key w)
      (send_command-Steady label command notifies key w) h
handle-Within Event.retries n k w sound h =
    Steady-Within n k w (retry_command w) (retry_command-Steady w) h
handle-Within (Event.gets_receipt receipt p) n k w sound h =
    Steady-Within n k w (command_answered receipt p w) (command_answered-Steady receipt p w) h
handle-Within (Event.command_fails e p) n k w sound h =
    Steady-Within n k w (command_failed e p w) (command_failed-Steady e p w) h
handle-Within (Event.opens_artifact artifact) n k w sound h =
    Steady-Within n k w (open_artifact artifact w) (open_artifact-Steady artifact w) h
handle-Within (Event.gets_artifact generation artifact text) n k w sound h =
    Steady-Within n k w (artifact_answered generation artifact text w)
      (artifact_answered-Steady generation artifact text w) h
handle-Within (Event.artifact_fails generation artifact e) n k w sound h =
    Steady-Within n k w (artifact_failed generation artifact e w)
      (artifact_failed-Steady generation artifact e w) h
handle-Within Event.closes_artifact n k w sound h =
    Steady-Within n k w (close_artifact w) (close_artifact-Steady w) h
handle-Within Event.clears_error n k w sound h =
    Steady-Within n k w (clear_error w) (clear_error-Steady w) h
handle-Within (Event.stream_opens generation) n k w sound h =
    Steady-Within n k w (source_opened generation w) (source_opened-Steady generation w) h
handle-Within (Event.sees_transition generation cursor) n k w sound h =
    Steady-Within n k w (transition_seen generation cursor w)
      (transition_seen-Steady generation cursor w) h
handle-Within (Event.sees_invalid generation e) n k w sound h =
    Steady-Within n k w (transition_invalid generation e w)
      (transition_invalid-Steady generation e w) h
handle-Within (Event.stream_fails generation) n k w sound h =
    Steady-Within n k w (schedule_resync generation w) (schedule_resync-Steady generation w) h
handle-Within Event.timer_fires n k w sound h =
    Steady-Within n k w (timer_fired w) (timer_fired-Steady w) h
handle-Within Event.disposes n k w sound h = Steady-Within n k w (dispose w) (dispose-Steady w) h

ends-Within :
    (es : List Event) (n : ℕ) (w : Web)
    → IsSound w
    → Within n (answers es) w
    → n < (handle_all es w).landed
unfolding handle_all
ends-Within [] n w s h = none_left n w s h
ends-Within (e ∷ es) n w s h =
    ends-Within es n (handle e w) (handle-IsSound e w s) (handle-Within e n (answers es) w s h)

-- A refresh ends after three answers of `status` at the latest, whatever cursors they hold, and whatever
-- else happens before, between and after them: events that raise the cursor, reconnects, commands.
pub refresh_ends :
    (before es : List Event)
    → is_some (handle_all before new_web).refresh_flight ≡ true
    → 3 ≤ answers es
    → (handle_all before new_web).landed < (handle_all es (handle_all before new_web)).landed
refresh_ends before es a h =
    ends-Within es (handle_all before new_web).landed (handle_all before new_web)
      (handle_all-IsSound before) (flight-Within (answers es) (handle_all before new_web) a h)
