-- ===== src/Web/Refresh/Sound.antt =====
-- That a refresh of packages/cli/web/src/workspace-store.ts keeps the workspace sound.
use agentis.Web.Refresh.{
  status_answered, status_failed, next_regressions, status_for, next_pending, show_snapshot_in,
  resume, land, check_again, resume_all, start_failed, fail_or_show, take_status, refresh,
}
use agentis.Prelude.{
  suc, ltb, ap, false, is_some, ◌||◌, true, not, Bool, refl, arith, none, [], ◌∷◌, ◌<◌, ◌≡◌, some,
  List, Option, ℕ,
}
use agentis.Web.Sound.{
  connect_events-IsSound, call-IsSound, flight-IsSound, schedule_resync-IsSound, sign_out-IsSound,
  same_core-IsSound, close_events-IsSound, either_way, update-IsSound, Flying, either_test,
  either_case, IsSound,
}
use agentis.Web.{
  message_of, authentication_failed, WorkspaceSnapshot, is_signed_out, ApiFailure, Waiter, over,
  call, Call, Flight, Web, update, close_events,
}

abbrev pub regressions_of : Option Flight → ℕ
regressions_of none = 0
regressions_of (some f) = f.regressions

pub Flying-of : (o : Option Flight) (f : Flight) → Flying o → o ≡ some f → f.regressions < 3
Flying-of none f h e = cc
Flying-of (some g) f h e = ground (arith, ap (λ o. regressions_of o) e)

pub refresh-IsSound :
    (reconnect check : Bool) (waiter : Waiter) (w : Web)
    → IsSound w
    → IsSound (refresh reconnect check waiter w)
unfolding refresh
refresh-IsSound reconnect check waiter w s =
    either_case w.refresh_flight
      (λ e.
        flight-IsSound _ (call (Call.read_status check) w) (omega arith)
          (call-IsSound (Call.read_status check) w s))
      (λ f e. flight-IsSound _ w (Flying-of w.refresh_flight f s.flying e) s)

pub fail_or_show-IsSound : (e : ApiFailure) (w : Web) → IsSound w → IsSound (fail_or_show e w)
unfolding fail_or_show
fail_or_show-IsSound e w s =
    either_way (authentication_failed e) (sign_out-IsSound (message_of e) w s)
      (search update-IsSound)

pub start_failed-IsSound : (e : ApiFailure) (w : Web) → IsSound w → IsSound (start_failed e w)
unfolding start_failed
start_failed-IsSound e w s =
    update-IsSound (over (message_of e)) (close_events w) (close_events-IsSound w s)

pub check_again-IsSound : (w : Web) → IsSound w → IsSound (check_again w)
unfolding check_again
check_again-IsSound w s =
    either_way (is_signed_out w.state.phase) (search update-IsSound)
      (refresh-IsSound false true Waiter.from_check w s)

pub resume-IsSound :
    (outcome : Option ApiFailure) (x : Waiter) (w : Web) → IsSound w → IsSound (resume outcome x w)
unfolding resume
resume-IsSound none Waiter.from_start w s = s
resume-IsSound (some e) Waiter.from_start w s = start_failed-IsSound e w s
resume-IsSound none Waiter.from_setup w s = search update-IsSound
resume-IsSound (some e) Waiter.from_setup w s = search (update-IsSound, fail_or_show-IsSound)
resume-IsSound none Waiter.from_check_first w s = check_again-IsSound w s
resume-IsSound (some e) Waiter.from_check_first w s = check_again-IsSound w s
resume-IsSound none Waiter.from_check w s = search update-IsSound
resume-IsSound (some e) Waiter.from_check w s = search update-IsSound
resume-IsSound none Waiter.from_command w s = search update-IsSound
resume-IsSound (some e) Waiter.from_command w s = search update-IsSound
resume-IsSound none Waiter.from_resync w s = s
resume-IsSound (some e) Waiter.from_resync w s =
    either_way (authentication_failed e) s (schedule_resync-IsSound w.event_generation w s)
resume-IsSound none Waiter.from_event w s = s
resume-IsSound (some e) Waiter.from_event w s = s

pub resume_all-IsSound :
    (outcome : Option ApiFailure) (xs : List Waiter) (w : Web)
    → IsSound w
    → IsSound (resume_all outcome xs w)
unfolding resume_all
resume_all-IsSound outcome [] w s = s
resume_all-IsSound outcome (x ∷ xs) w s =
    resume_all-IsSound outcome xs (resume outcome x w) (resume-IsSound outcome x w s)

pub land-IsSound :
    (outcome : Option ApiFailure) (f : Flight) (w : Web) → IsSound w → IsSound (land outcome f w)
unfolding land
land-IsSound outcome f w s =
    resume_all-IsSound outcome f.waiters _
      (record { streams = s.streams; timed = s.timed; least = s.least; most = s.most; flying = tt })

pub take_status-IsSound :
    (snapshot : WorkspaceSnapshot) (f : Flight) (w : Web)
    → IsSound w
    → IsSound (take_status snapshot f w)
unfolding take_status
take_status-IsSound snapshot f w s =
    update-IsSound (show_snapshot_in snapshot)
      (record w {
        pending_cursor =
            next_pending snapshot.cursor w.pending_cursor
              (next_regressions snapshot.cursor w.pending_cursor f.regressions);
      })
      (same_core-IsSound w _ refl s)

-- A flight goes on only after the cursor went back, and never for a third time.
pub goes_on :
    (reported pending regressions : ℕ)
    → regressions < 3
    → ltb reported (next_pending reported pending (next_regressions reported pending regressions))
      ≡ true
    → (next_regressions reported pending regressions ≡ suc regressions) × (suc regressions < 3)
goes_on reported pending regressions h e = ground arith

pub take_status-pending_cursor :
    (snapshot : WorkspaceSnapshot) (f : Flight) (w : Web)
    → (take_status snapshot f w).pending_cursor
      ≡ next_pending snapshot.cursor w.pending_cursor
          (next_regressions snapshot.cursor w.pending_cursor f.regressions)
unfolding take_status update
take_status-pending_cursor snapshot f w = ground arith

pub went_back :
    (snapshot : WorkspaceSnapshot) (f : Flight) (w : Web)
    → f.regressions < 3
    → ltb snapshot.cursor (take_status snapshot f w).pending_cursor ≡ true
    → next_regressions snapshot.cursor w.pending_cursor f.regressions < 3
went_back snapshot f w h back =
    let (e, l) =
      goes_on snapshot.cursor w.pending_cursor f.regressions h
        (rw (← take_status-pending_cursor snapshot f w) back) in
    rw e l

pub status_for-IsSound :
    (snapshot : WorkspaceSnapshot) (f : Flight) (w : Web)
    → f.regressions < 3
    → IsSound w
    → IsSound (status_for snapshot f w)
unfolding status_for
status_for-IsSound snapshot f w h s =
    let t = take_status-IsSound snapshot f w s in
    either_test (ltb snapshot.cursor (take_status snapshot f w).pending_cursor)
      (λ back.
        flight-IsSound _ (call (Call.read_status false) (take_status snapshot f w))
          (went_back snapshot f w h back) (call-IsSound (Call.read_status false) _ t))
      (land-IsSound none f _ (
        either_way (f.reconnect || not (is_some (take_status snapshot f w).event_source))
          (connect_events-IsSound snapshot.cursor (take_status snapshot f w) t) t))

pub status_answered-IsSound :
    (snapshot : WorkspaceSnapshot) (w : Web) → IsSound w → IsSound (status_answered snapshot w)
unfolding status_answered
status_answered-IsSound snapshot w s =
    either_case w.refresh_flight (λ e. s)
      (λ f e. status_for-IsSound snapshot f w (Flying-of w.refresh_flight f s.flying e) s)

pub status_failed-IsSound : (e : ApiFailure) (w : Web) → IsSound w → IsSound (status_failed e w)
unfolding status_failed
status_failed-IsSound e w s =
    either_case w.refresh_flight (λ h. s)
      (λ f h. land-IsSound (some e) f _ (
        either_way (authentication_failed e) (sign_out-IsSound (message_of e) w s)
          (search update-IsSound)))
