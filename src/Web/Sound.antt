-- ===== src/Web/Sound.antt =====
-- What always holds of the workspace of packages/cli/web/src/workspace-store.ts: its event stream, its
-- reconnect timer and the refresh under way.
use agentis.Prelude.{
  sym, subst, ◌*◌, min, ap, false, is_some, ◌||◌, ◌==◌, true, if◌then◌else◌, not, String, Bool,
  refl, ==_refl, arith, none, [], ◌∷◌, ◌<◌, ◌≡◌, some, ◌≤◌, List, Option, ℕ,
}
use agentis.Web.{
  StreamState, set_stream, over, call, dispose, sign_out, schedule_resync, connect_events, Call,
  max_reconnect_delay_ms, WorkspaceState, Flight, without, Web, update, close_events,
}

-- No source is open, or the current one alone, and then no reconnect is due.
abbrev pub Streams : Option ℕ → (generation : ℕ) → List ℕ → Option ℕ → Type 0
Streams none generation sources timer = sources ≡ []
Streams (some g) generation sources timer = (g ≡ generation) × (sources ≡ g ∷ []) × (timer ≡ none)

abbrev pub Timed : Option ℕ → Type 0
Timed none = Unit
Timed (some t) = (500 ≤ t) × (t ≤ max_reconnect_delay_ms)

abbrev pub Flying : Option Flight → Type 0
Flying none = Unit
Flying (some f) = f.regressions < 3

pub record IsSound (w : Web) : Type 0 where
  pub streams : Streams w.event_source w.event_generation w.open_sources w.reconnect_timer
  pub timed : Timed w.reconnect_timer
  pub least : 500 ≤ w.reconnect_delay_ms
  pub most : w.reconnect_delay_ms ≤ max_reconnect_delay_ms
  pub flying : Flying w.refresh_flight

-- The fields that it is about.
abbrev pub core : Web → Option ℕ × ℕ × List ℕ × Option ℕ × ℕ × Option Flight
core w = (
  w.event_source, w.event_generation, w.open_sources, w.reconnect_timer, w.reconnect_delay_ms,
  w.refresh_flight,
)

pub same_core-IsSound : (w w' : Web) → core w' ≡ core w → IsSound w → IsSound w'
same_core-IsSound w w' e s = record {
  streams = subst (λ c. Streams c.0 c.1 c.2 c.3) (sym e) s.streams;
  timed = subst (λ c. Timed c.3) (sym e) s.timed;
  least = subst (λ c. 500 ≤ c.4) (sym e) s.least;
  most = subst (λ c. c.4 ≤ max_reconnect_delay_ms) (sym e) s.most;
  flying = subst (λ c. Flying c.5) (sym e) s.flying;
}

-- Of the two branches of a test, and of the two cases of an option.
pub either_way : (b : Bool) {x y : Web} → IsSound x → IsSound y → IsSound (if b then x else y)
either_way true s t = s
either_way false s t = t

pub either_test :
    (b : Bool) {x y : Web} → (b ≡ true → IsSound x) → IsSound y → IsSound (if b then x else y)
either_test true s t = s refl
either_test false s t = t

pub either_case {ℓ} :
    {A : Type ℓ} (o : Option A) {x : Web} {f : A → Web}
    → (o ≡ none → IsSound x)
    → ((a : A) → o ≡ some a → IsSound (f a))
    → IsSound (elim o [ none ↦ x | some a ↦ f a ])
either_case none s t = s refl
either_case (some a) s t = t a refl

pub update-IsSound :
    (change : WorkspaceState → WorkspaceState) (w : Web) → IsSound w → IsSound (update change w)
unfolding update
update-IsSound change w s = either_way w.disposed s (same_core-IsSound w _ refl s)

pub call-IsSound : (c : Call) (w : Web) → IsSound w → IsSound (call c w)
call-IsSound c w s = same_core-IsSound w _ refl s

pub without_self : (g : ℕ) → without (some g) (g ∷ []) ≡ []
without_self g = ground (arith, ==_refl g)

pub close-Streams :
    (source : Option ℕ) (generation : ℕ) (sources : List ℕ) (timer : Option ℕ)
    → Streams source generation sources timer
    → without source sources ≡ []
close-Streams none generation sources timer s = s
close-Streams (some g) generation sources timer (e, o, t) = rw o (without_self g)

pub close_events-IsSound : (w : Web) → IsSound w → IsSound (close_events w)
unfolding close_events
close_events-IsSound w s = record {
  streams =
      close-Streams w.event_source w.event_generation w.open_sources w.reconnect_timer s.streams;
  timed = s.timed;
  least = s.least;
  most = s.most;
  flying = s.flying;
}

pub stop_timer-IsSound : (w : Web) → IsSound w → IsSound (record w { reconnect_timer = none })
stop_timer-IsSound w s = record {
  streams = stopped w.event_source w.event_generation w.open_sources w.reconnect_timer s.streams;
  timed = tt;
  least = s.least;
  most = s.most;
  flying = s.flying;
}
  where
    stopped :
        (source : Option ℕ) (generation : ℕ) (sources : List ℕ) (timer : Option ℕ)
        → Streams source generation sources timer
        → Streams source generation sources none
    stopped none generation sources timer s = s
    stopped (some g) generation sources timer (e, o, t) = (e, o, refl)

pub flight-IsSound :
    (flight : Option Flight) (w : Web)
    → Flying flight
    → IsSound w
    → IsSound (record w { refresh_flight = flight })
flight-IsSound flight w f s = record {
  streams = s.streams;
  timed = s.timed;
  least = s.least;
  most = s.most;
  flying = f;
}

pub update-event_source :
    (change : WorkspaceState → WorkspaceState) (w : Web)
    → (update change w).event_source ≡ w.event_source
unfolding update
update-event_source change w = ground arith

pub update-reconnect_timer :
    (change : WorkspaceState → WorkspaceState) (w : Web)
    → (update change w).reconnect_timer ≡ w.reconnect_timer
unfolding update
update-reconnect_timer change w = ground arith

pub none_open :
    (source : Option ℕ) (generation : ℕ) (sources : List ℕ) (timer : Option ℕ)
    → Streams source generation sources timer
    → source ≡ none
    → sources ≡ []
none_open none generation sources timer s e = s
none_open (some g) generation sources timer s e = cc

pub opened-IsSound :
    (cursor : ℕ) (w : Web)
    → IsSound w
    → w.event_source ≡ none
    → w.reconnect_timer ≡ none
    → IsSound (record (call (Call.open_stream cursor) w) {
      event_source = some w.event_generation;
      open_sources = w.event_generation ∷ w.open_sources;
    })
opened-IsSound cursor w s e t = record {
  streams = (
    refl,
    ap (λ sources. w.event_generation ∷ sources)
        (none_open w.event_source w.event_generation w.open_sources w.reconnect_timer s.streams e),
    t,
  );
  timed = s.timed;
  least = s.least;
  most = s.most;
  flying = s.flying;
}

pub due-IsSound :
    (w : Web)
    → IsSound w
    → w.event_source ≡ none
    → IsSound (record w {
      reconnect_timer = some w.reconnect_delay_ms;
      reconnect_delay_ms = min (w.reconnect_delay_ms * 2) max_reconnect_delay_ms;
    })
due-IsSound w s e = record {
  streams =
      still_none w.event_source w.event_generation w.open_sources w.reconnect_timer s.streams e;
  timed = (s.least, s.most);
  least = ground (arith, s.least, s.most);
  most = ground arith;
  flying = s.flying;
}
  where
    still_none :
        (source : Option ℕ) (generation : ℕ) (sources : List ℕ) (timer : Option ℕ)
        → Streams source generation sources timer
        → source ≡ none
        → Streams source generation sources (some w.reconnect_delay_ms)
    still_none none generation sources timer s e = s
    still_none (some g) generation sources timer s e = cc

pub connect_events-IsSound : (cursor : ℕ) (w : Web) → IsSound w → IsSound (connect_events cursor w)
unfolding connect_events
connect_events-IsSound cursor w s =
    opened-IsSound cursor _
      (update-IsSound (set_stream StreamState.connecting) _
        (close_events-IsSound _ (stop_timer-IsSound w s)))
      (update-event_source (set_stream StreamState.connecting)
        (close_events (record w { reconnect_timer = none })))
      (update-reconnect_timer (set_stream StreamState.connecting)
        (close_events (record w { reconnect_timer = none })))

pub schedule_resync-IsSound :
    (generation : ℕ) (w : Web) → IsSound w → IsSound (schedule_resync generation w)
unfolding schedule_resync
schedule_resync-IsSound generation w s =
    either_way (not (generation == w.event_generation) || w.disposed || is_some w.reconnect_timer) s
      (due-IsSound _
        (update-IsSound (set_stream StreamState.reconnecting) _ (close_events-IsSound w s))
        (update-event_source (set_stream StreamState.reconnecting) (close_events w)))

pub sign_out-IsSound : (message : String) (w : Web) → IsSound w → IsSound (sign_out message w)
unfolding sign_out
sign_out-IsSound message w s =
    update-IsSound (over message) _ (close_events-IsSound _ (stop_timer-IsSound w s))

pub dispose-IsSound : (w : Web) → IsSound w → IsSound (dispose w)
unfolding dispose
dispose-IsSound w s =
    close_events-IsSound _
      (stop_timer-IsSound (record w { disposed = true }) (same_core-IsSound w _ refl s))
