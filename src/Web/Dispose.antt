-- ===== src/Web/Dispose.antt =====
-- A refresh that is under way when `dispose` of packages/cli/web/src/workspace-store.ts is called.
use agentis.Web.Sound.{close-Streams, IsSound}
use agentis.Snapshot.Public.{WorkspaceSnapshot}
use agentis.Prelude.{
  on_option, some, ap, on_test, ltb, suc, ◌∙◌, refl, ◌≤◌, ◌∷◌, true, arith, [], ◌≡◌, none, ℕ, List,
}
use agentis.Web.{dispose, Waiter, Web, update, close_events, Flight, connect_events}
use agentis.Web.Refresh.{
  status_answered, reconnect_for, refresh, check_again, resume_all, take_status, land, status_for,
  resume,
}

resume_none-open_sources : (x : Waiter) (w : Web) → (resume none x w).open_sources ≡ w.open_sources
unfolding resume check_again refresh update
resume_none-open_sources Waiter.from_start w = refl
resume_none-open_sources Waiter.from_setup w = ground arith
resume_none-open_sources Waiter.from_check_first w = ground arith
resume_none-open_sources Waiter.from_check w = ground arith
resume_none-open_sources Waiter.from_command w = ground arith
resume_none-open_sources Waiter.from_resync w = refl
resume_none-open_sources Waiter.from_event w = refl

resume_all-open_sources :
    (xs : List Waiter) (w : Web) → (resume_all none xs w).open_sources ≡ w.open_sources
unfolding resume_all
resume_all-open_sources [] w = refl
resume_all-open_sources (x ∷ xs) w =
    resume_all-open_sources xs (resume none x w) ∙ resume_none-open_sources x w

land-open_sources : (f : Flight) (w : Web) → (land none f w).open_sources ≡ w.open_sources
unfolding land
land-open_sources f w = resume_all-open_sources f.waiters _

connect_closed :
    (f : Flight) (cursor : ℕ) (w : Web)
    → w.event_source ≡ none
    → w.open_sources ≡ []
    → (reconnect_for f cursor w).open_sources ≡ suc w.event_generation ∷ []
unfolding connect_events close_events update
connect_closed f cursor w e o = ground arith

taken :
    (s : WorkspaceSnapshot) (f : Flight) (w : Web)
    → w.disposed ≡ true
    → w.pending_cursor ≤ s.cursor
    → take_status s f w ≡ record w { pending_cursor = s.cursor }
unfolding take_status update
taken s f w d h = ground arith

disposed-answered :
    (s : WorkspaceSnapshot) (f : Flight) (w : Web)
    → w.disposed ≡ true
    → w.event_source ≡ none
    → w.open_sources ≡ []
    → w.pending_cursor ≤ s.cursor
    → (status_for s f w).open_sources ≡ suc w.event_generation ∷ []
unfolding status_for
disposed-answered s f w d e o h =
    let t = taken s f w d h in
    on_test (λ (x : Web). x.open_sources ≡ suc w.event_generation ∷ [])
      (ltb s.cursor (take_status s f w).pending_cursor)
      (λ back. absurd (not_back s.cursor _ back (ap (λ (x : Web). x.pending_cursor) t)))
      (λ _.
        land-open_sources f (reconnect_for f s.cursor (take_status s f w))
        ∙ connect_closed f s.cursor (take_status s f w) (ap (λ (x : Web). x.event_source) t ∙ e)
            (ap (λ (x : Web). x.open_sources) t ∙ o)
        ∙ ap (λ (x : Web). suc x.event_generation ∷ []) t)
  where
    not_back : (a b : ℕ) → ltb a b ≡ true → b ≡ a → ⊥
    not_back a b l m = ground arith

-- A workspace that is disposed of while a refresh is under way opens an event source when the refresh is
-- answered, although it is disposed of.
pub dispose_reopens :
    (s : WorkspaceSnapshot) (f : Flight) (w : Web)
    → IsSound w
    → w.refresh_flight ≡ some f
    → w.pending_cursor ≤ s.cursor
    → ((dispose w).open_sources ≡ [])
      × ((status_answered s (dispose w)).open_sources ≡ suc (suc w.event_generation) ∷ [])
unfolding dispose status_answered close_events
dispose_reopens s f w sound e h =
    let closed =
      close-Streams w.event_source w.event_generation w.open_sources w.reconnect_timer
        sound.streams in
    (
      closed,
      on_option (λ (x : Web). x.open_sources ≡ suc (suc w.event_generation) ∷ []) w.refresh_flight
          (λ n. cc) (λ g _. disposed-answered s g (dispose w) refl refl closed h),
    )
