-- ===== src/Web/Refresh.antt =====
-- `refresh` of packages/cli/web/src/workspace-store.ts: one flight at a time, which asks for the status until
-- it has seen every event that was announced, and then those who await it go on.
pub mod Sound
pub mod Rounds
pub mod Quiet
use agentis.Schema.{SourceAcknowledgement}
use agentis.Web.{
  StreamState, is_signed_out, Phase, Call, call, over, schedule_resync, Web, Flight, ApiFailure,
  Waiter, WorkspaceState, message_of, authentication_failed, update, close_events, Notice,
  connect_events, sign_out,
}
use agentis.Snapshot.Public.{WorkspaceSnapshot, OwnerSession}
use agentis.Prelude.{
  ◌||◌, ltb, if◌then◌else◌, [], insert_row, not, suc, false, true, none, is_some, some, ◌∷◌, ◌&&◌,
  Option, Bool, ℕ, List,
}

abbrev no_sources : List SourceAcknowledgement → Bool
no_sources [] = true
no_sources (x ∷ xs) = false

-- `sessionReady`.
unfoldable pub session_ready : OwnerSession → Bool
session_ready s =
    s.provider.eligible && is_some s.provider.acknowledged_at && not (no_sources s.sources)

-- A second caller awaits the flight that is there, whatever it asked for.
unfoldable pub refresh : (reconnect check_connection : Bool) → Waiter → Web → Web
refresh reconnect check_connection waiter w = elim w.refresh_flight [
  | some f ↦ record w { refresh_flight = some (record f { waiters = insert_row waiter f.waiters }) }
  | none ↦ record (call (Call.read_status check_connection) w) {
    refresh_flight =
        some (record { reconnect = reconnect; regressions = 0; waiters = waiter ∷ [] });
  }
]

abbrev pub set_busy : Bool → Web → Web
set_busy b = update (λ v. record v { busy = b })

abbrev pub show_error : Notice → Web → Web
show_error notice = update (λ v. record v { error = some notice })

-- A failure that ends the session, or is shown.
unfoldable pub fail_or_show : ApiFailure → Web → Web
unfolding sign_out update authentication_failed message_of
fail_or_show e w =
    if authentication_failed e
    then sign_out (message_of e) w
    else show_error (Notice.said (message_of e)) w

-- The `catch` of `start`.
unfoldable pub start_failed : ApiFailure → Web → Web
unfolding close_events update message_of
start_failed e w = update (over (message_of e)) (close_events w)

-- `checkConnection` behind the flight that it awaited.
unfoldable pub check_again : Web → Web
unfolding refresh update
check_again w =
    if is_signed_out w.state.phase then set_busy false w else refresh false true Waiter.from_check w

unfoldable pub resume : Option ApiFailure → Waiter → Web → Web
unfolding start_failed fail_or_show check_again update schedule_resync authentication_failed
resume none Waiter.from_start w = w
resume (some e) Waiter.from_start w = start_failed e w
resume none Waiter.from_setup w = set_busy false w
resume (some e) Waiter.from_setup w = set_busy false (fail_or_show e w)
resume outcome Waiter.from_check_first w = check_again w
resume outcome Waiter.from_check w = set_busy false w
resume outcome Waiter.from_command w = set_busy false w
resume none Waiter.from_resync w = w
resume (some e) Waiter.from_resync w =
    if authentication_failed e then w else schedule_resync w.event_generation w
resume outcome Waiter.from_event w = w

unfoldable pub resume_all : Option ApiFailure → List Waiter → Web → Web
unfolding resume
resume_all outcome [] w = w
resume_all outcome (x ∷ xs) w = resume_all outcome xs (resume outcome x w)

-- The end of a flight: `finally`, then those who await it.
unfoldable pub land : Option ApiFailure → Flight → Web → Web
unfolding resume_all
land outcome f w =
    resume_all outcome f.waiters (record w { refresh_flight = none; landed = suc w.landed })

-- A cursor that went back three times is believed.
abbrev pub next_pending : (reported pending regressions : ℕ) → ℕ
next_pending reported pending regressions =
    if ltb reported pending && ltb regressions 3 then pending else reported

abbrev pub next_regressions : (reported pending regressions : ℕ) → ℕ
next_regressions reported pending regressions =
    if ltb reported pending then suc regressions else regressions

abbrev pub show_snapshot_in : WorkspaceSnapshot → WorkspaceState → WorkspaceState
show_snapshot_in s v = record v {
  phase = if session_ready s.session then Phase.ready else Phase.setup;
  session = some s.session;
  snapshot = some s;
  error = none;
}

-- The state after the body of the loop.
unfoldable pub take_status : WorkspaceSnapshot → Flight → Web → Web
unfolding update
take_status s f w = update (show_snapshot_in s) (record w {
  pending_cursor =
      next_pending s.cursor w.pending_cursor
        (next_regressions s.cursor w.pending_cursor f.regressions);
})

-- `if (reconnect || this.#eventSource === null) this.#connectEvents(snapshot.cursor)`.
abbrev pub reconnect_for : Flight → (cursor : ℕ) → Web → Web
reconnect_for f cursor w =
    if f.reconnect || not (is_some w.event_source) then connect_events cursor w else w

-- An answer of `status` for a flight, up to the next request or the end of the flight.
unfoldable pub status_for : WorkspaceSnapshot → Flight → Web → Web
unfolding take_status connect_events land
status_for s f w =
    let regressions = next_regressions s.cursor w.pending_cursor f.regressions in
    let w' = take_status s f w in
    if ltb s.cursor w'.pending_cursor
    then record (call (Call.read_status false) w') {
      refresh_flight = some (record f { regressions = regressions });
    }
    else land none f (reconnect_for f s.cursor w')

unfoldable pub status_answered : WorkspaceSnapshot → Web → Web
unfolding status_for
status_answered s w = elim w.refresh_flight [ none ↦ w | some f ↦ status_for s f w ]

-- The `catch` of the flight.
abbrev pub refresh_failing : ApiFailure → Web → Web
refresh_failing e w =
    if authentication_failed e
    then sign_out (message_of e) w
    else update
        (λ v. record v {
          error = some (Notice.said (message_of e));
          stream = StreamState.reconnecting;
        })
        w

unfoldable pub status_failed : ApiFailure → Web → Web
unfolding land sign_out update authentication_failed message_of
status_failed e w = elim w.refresh_flight [
  | none ↦ w
  | some f ↦ land (some e) f (refresh_failing e w)
]
