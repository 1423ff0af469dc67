-- ===== src/Web/Refresh/Rounds.antt =====
-- That a refresh of packages/cli/web/src/workspace-store.ts comes to its end.
use agentis.Web.Sound.{Flying, IsSound}
use agentis.Web.Refresh.Sound.{take_status-pending_cursor, goes_on, Flying-of, regressions_of}
use agentis.Prelude.{
  not, ◌||◌, on_test, ltb, ap, on_option, none, Bool-cases, [], false, ◌∷◌, ◌+◌, suc, some, ◌≤◌,
  List, ◌⊎◌, Option, inr, inl, ◌∙◌, refl, ◌<◌, true, is_some, ℕ, ◌≡◌, Bool, arith,
}
use agentis.Web.Refresh.{
  reconnect_for, refresh_failing, next_regressions, status_for, set_busy, start_failed,
  status_failed, resume_all, land, resume, status_answered, take_status, fail_or_show, refresh,
  check_again,
}
use agentis.Web.{
  authentication_failed, Flight, WorkspaceSnapshot, connect_events, Waiter, ApiFailure, sign_out,
  close_events, WorkspaceState, Web, schedule_resync, update,
}

-- The refresh under way, if there is one, is still under way, and has seen as many cursors go back.
abbrev pub Steady : Web → Web → Type 0
Steady w w' =
    (w'.landed ≡ w.landed)
    × (is_some w.refresh_flight ≡ true
        → (is_some w'.refresh_flight ≡ true)
          × (regressions_of w'.refresh_flight ≡ regressions_of w.refresh_flight))

pub update-Steady :
    (change : WorkspaceState → WorkspaceState) (w : Web) → Steady w (update change w)
unfolding update
update-Steady change w = (ground arith, λ h. (ground arith, ground arith))

set_busy-Steady : (b : Bool) (w : Web) → Steady w (set_busy b w)
set_busy-Steady b w = update-Steady (λ v. record v { busy = b }) w

pub refresh-Steady :
    (reconnect check : Bool) (waiter : Waiter) (w : Web)
    → Steady w (refresh reconnect check waiter w)
unfolding refresh
refresh-Steady reconnect check waiter w = (ground arith, λ h. (ground arith, ground arith))

pub check_again-Steady : (w : Web) → Steady w (check_again w)
unfolding check_again refresh update
check_again-Steady w = (ground arith, λ h. (ground arith, ground arith))

pub schedule_resync-Steady : (generation : ℕ) (w : Web) → Steady w (schedule_resync generation w)
unfolding schedule_resync update close_events
schedule_resync-Steady generation w = (ground arith, λ h. (ground arith, ground arith))

pub fail_or_show-Steady : (e : ApiFailure) (w : Web) → Steady w (fail_or_show e w)
unfolding fail_or_show update sign_out close_events
fail_or_show-Steady e w = (ground arith, λ h. (ground arith, ground arith))

pub Steady-refl : (w : Web) → Steady w w
Steady-refl w = (refl, λ h. (h, refl))

pub Steady-trans : (u v w : Web) → Steady u v → Steady v w → Steady u w
Steady-trans u v w (e, p) (f, q) = (f ∙ e, λ h. let (a, b) = p h in let (c, d) = q a in (c, d ∙ b))

resume-Steady : (outcome : Option ApiFailure) (x : Waiter) (w : Web) → Steady w (resume outcome x w)
unfolding resume start_failed update close_events
resume-Steady none Waiter.from_start w = Steady-refl w
resume-Steady (some e) Waiter.from_start w = (ground arith, λ h. (ground arith, ground arith))
resume-Steady none Waiter.from_setup w = set_busy-Steady false w
resume-Steady (some e) Waiter.from_setup w =
    Steady-trans w (fail_or_show e w) (set_busy false (fail_or_show e w)) (fail_or_show-Steady e w)
      (set_busy-Steady false (fail_or_show e w))
resume-Steady none Waiter.from_check_first w = check_again-Steady w
resume-Steady (some e) Waiter.from_check_first w = check_again-Steady w
resume-Steady none Waiter.from_check w = set_busy-Steady false w
resume-Steady (some e) Waiter.from_check w = set_busy-Steady false w
resume-Steady none Waiter.from_command w = set_busy-Steady false w
resume-Steady (some e) Waiter.from_command w = set_busy-Steady false w
resume-Steady none Waiter.from_resync w = Steady-refl w
resume-Steady (some e) Waiter.from_resync w = elim (Bool-cases (authentication_failed e)) [
  | inl h ↦ rw h (Steady-refl w)
  | inr h ↦ rw h (schedule_resync-Steady w.event_generation w)
]
resume-Steady none Waiter.from_event w = Steady-refl w
resume-Steady (some e) Waiter.from_event w = Steady-refl w

resume_all-Steady :
    (outcome : Option ApiFailure) (xs : List Waiter) (w : Web) → Steady w (resume_all outcome xs w)
unfolding resume_all
resume_all-Steady outcome [] w = Steady-refl w
resume_all-Steady outcome (x ∷ xs) w =
    Steady-trans w (resume outcome x w) (resume_all outcome xs (resume outcome x w))
      (resume-Steady outcome x w) (resume_all-Steady outcome xs (resume outcome x w))

-- A flight that lands is counted.
land_counts :
    (outcome : Option ApiFailure) (f : Flight) (w : Web) → (land outcome f w).landed ≡ suc w.landed
unfolding land
land_counts outcome f w = (resume_all-Steady outcome f.waiters _).0

connect_events-landed : (cursor : ℕ) (w : Web) → (connect_events cursor w).landed ≡ w.landed
unfolding connect_events close_events update
connect_events-landed cursor w = ground arith

take_status-landed :
    (snapshot : WorkspaceSnapshot) (f : Flight) (w : Web)
    → (take_status snapshot f w).landed ≡ w.landed
unfolding take_status update
take_status-landed snapshot f w = ground arith

-- The refresh that was under way at the count `n` has ended, or ends after `k` more answers at most.
pub Within : (n k : ℕ) → Web → Type 0
Within n k w =
    (n < w.landed)
    ⊎ ((is_some w.refresh_flight ≡ true)
        × (3 ≤ k + regressions_of w.refresh_flight)
        × (n ≤ w.landed))

pub Steady-Within : (n k : ℕ) (w w' : Web) → Steady w w' → Within n k w → Within n k w'
unfolding Within
Steady-Within n k w w' (e, p) (inl h) = inl (rw e h)
Steady-Within n k w w' (e, p) (inr (h, l, m)) = let (a, b) = p h in inr (a, rw b l, rw e m)

at_least : (n k : ℕ) (w : Web) → Within n k w → n ≤ w.landed
unfolding Within
at_least n k w (inl h) = omega arith
at_least n k w (inr (h, l, m)) = m

land-Within :
    (outcome : Option ApiFailure) (f : Flight) (n k : ℕ) (w : Web)
    → n ≤ w.landed
    → Within n k (land outcome f w)
unfolding Within
land-Within outcome f n k w h = inl (rw (land_counts outcome f w) (omega arith))

failing-landed : (e : ApiFailure) (w : Web) → (refresh_failing e w).landed ≡ w.landed
unfolding sign_out update close_events
failing-landed e w = ground arith

pub status_failed-Within :
    (e : ApiFailure) (n k : ℕ) (w : Web) → Within n k w → Within n k (status_failed e w)
unfolding status_failed
status_failed-Within e n k w h =
    on_option (Within n k) w.refresh_flight (λ g. h)
      (λ f g.
        land-Within (some e) f n k (refresh_failing e w)
          (rw (failing-landed e w) (at_least n k w h)))

reconnect_for-landed :
    (f : Flight) (cursor : ℕ) (w : Web) → (reconnect_for f cursor w).landed ≡ w.landed
reconnect_for-landed f cursor w =
    on_test (λ (x : Web). x.landed ≡ w.landed) (f.reconnect || not (is_some w.event_source))
      (λ _. connect_events-landed cursor w) (λ _. refl)

-- An answer for a flight with `r` regressions, of which `k` more may come.
status_for-Within :
    (snapshot : WorkspaceSnapshot) (f : Flight) (n k : ℕ) (w : Web)
    → f.regressions < 3
    → 3 ≤ suc k + f.regressions
    → n ≤ w.landed
    → Within n k (status_for snapshot f w)
unfolding status_for Within
status_for-Within snapshot f n k w h l m =
    on_test (Within n k) (ltb snapshot.cursor (take_status snapshot f w).pending_cursor)
      (λ back. inr (refl, again snapshot f k w h l back, rw (take_status-landed snapshot f w) m))
      (λ ahead.
        land-Within none f n k (reconnect_for f snapshot.cursor (take_status snapshot f w)) (
          rw
            (
              reconnect_for-landed f snapshot.cursor (take_status snapshot f w),
              take_status-landed snapshot f w,
            )
            m))
  where
    again :
        (snapshot : WorkspaceSnapshot) (f : Flight) (k : ℕ) (w : Web)
        → f.regressions < 3
        → 3 ≤ suc k + f.regressions
        → ltb snapshot.cursor (take_status snapshot f w).pending_cursor ≡ true
        → 3 ≤ k + next_regressions snapshot.cursor w.pending_cursor f.regressions
    again snapshot f k w h l back =
        let (e, b) =
          goes_on snapshot.cursor w.pending_cursor f.regressions h
            (rw (← take_status-pending_cursor snapshot f w) back) in
        rw e (omega arith)

status_for-landed :
    (snapshot : WorkspaceSnapshot) (f : Flight) (w : Web)
    → w.landed ≤ (status_for snapshot f w).landed
unfolding status_for
status_for-landed snapshot f w =
    on_test (λ (x : Web). w.landed ≤ x.landed)
      (ltb snapshot.cursor (take_status snapshot f w).pending_cursor)
      (λ _. omega (arith, take_status-landed snapshot f w))
      (λ _. omega (
        arith,
        land_counts none f (reconnect_for f snapshot.cursor (take_status snapshot f w)),
        reconnect_for-landed f snapshot.cursor (take_status snapshot f w),
        take_status-landed snapshot f w,
      ))

flying_some : (o : Option Flight) (f : Flight) → o ≡ some f → regressions_of o ≡ f.regressions
flying_some o f e = ap regressions_of e

absurd_none : {P : Type 0} (o : Option Flight) → o ≡ none → is_some o ≡ true → P
absurd_none none e a = cc
absurd_none (some f) e a = cc

pub status_answered-Within :
    (snapshot : WorkspaceSnapshot) (n k : ℕ) (w : Web)
    → IsSound w
    → Within n (suc k) w
    → Within n k (status_answered snapshot w)
unfolding Within status_answered
status_answered-Within snapshot n k w s (inl h) =
    on_option (Within n k) w.refresh_flight (λ e. inl h)
      (λ f e. inl (omega (arith, status_for-landed snapshot f w)))
status_answered-Within snapshot n k w s (inr (a, l, m)) =
    on_option (Within n k) w.refresh_flight (λ e. absurd_none w.refresh_flight e a)
      (λ f e.
        status_for-Within snapshot f n k w (Flying-of w.refresh_flight f s.flying e)
          (rw (← flying_some w.refresh_flight f e) l) m)

-- With no answer left the refresh has ended, since a flight never has three regressions.
pub none_left : (n : ℕ) (w : Web) → IsSound w → Within n 0 w → n < w.landed
unfolding Within
none_left n w s (inl h) = h
none_left n w s (inr (a, l, m)) = absurd (too_many w.refresh_flight s.flying a l)
  where
    too_many : (o : Option Flight) → Flying o → is_some o ≡ true → 3 ≤ 0 + regressions_of o → ⊥
    too_many none f a l = cc
    too_many (some g) f a l = omega arith

pub flight-Within :
    (k : ℕ) (w : Web) → is_some w.refresh_flight ≡ true → 3 ≤ k → Within w.landed k w
unfolding Within
flight-Within k w a h = inr (a, omega arith, omega arith)
