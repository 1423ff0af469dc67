-- ===== src/Replay/Window.antt =====
-- What `transitionsAfter` of packages/cli/src/store.ts gives to a client.
use agentis.Prelude.{
  filter_by_drop, filter_by_keep, sym, leb→le, subst, Bool, ℕ, suc, ◌+◌, ◌≤◌, ◌≡◌, ◌&&◌, List, [],
  ◌∷◌, arith, ltb, leb, map, if◌then◌else◌, length, ok, Bool-cases, inl, inr,
}
use agentis.Schema.{EventRow}
use agentis.Versions.{event_replay_limit}
use agentis.StoreDb.{Env}
use agentis.Commands.Dispatch.{Store}
use agentis.Journal.Base.{Numbered}
use agentis.Journal.Steps.{reachable_journal}
use agentis.System.{Steps, empty_store}
use agentis.Replay.{Transition, to_transition, high_water, after_cursor, transitions_after}

Numbered-le : (a b : ℕ) (es : List EventRow) → Numbered a b es → a ≤ b
Numbered-le a b [] n = omega (arith, n)
Numbered-le a b (e ∷ es) n = omega (arith, Numbered-le (suc a) b es n.1)

high_water-Numbered :
    (a b : ℕ) (es : List EventRow) → Numbered a b es → high_water es ≡ (if leb b a then 0 else b)
unfolding high_water
high_water-Numbered a b [] n = ground arith
high_water-Numbered a b (e ∷ es) n =
    ground (arith, high_water-Numbered (suc a) b es n.1, Numbered-le (suc a) b es n.1)

-- The cursors of these transitions run from the one after `from` to `to`, one by one.
abbrev pub Follows : (from to : ℕ) → List Transition → Type 0
Follows from to [] = to ≡ from
Follows from to (t ∷ ts) = (t.cursor ≡ suc from) × Follows (suc from) to ts

Follows-length : (a b : ℕ) (ts : List Transition) → Follows a b ts → length ts + a ≡ b
Follows-length a b [] f = omega (arith, f)
Follows-length a b (t ∷ ts) f = omega (arith, Follows-length (suc a) b ts f.1)

-- Whether the query selects an event.
abbrev selects : ℕ → ℕ → EventRow → Bool
selects requested high e = ltb requested e.seq && leb e.seq high

after_cursor_all :
    (requested high a b : ℕ) (es : List EventRow)
    → Numbered a b es
    → b ≤ high
    → requested ≤ a
    → Follows a b (map to_transition (after_cursor requested high es))
after_cursor_all requested high a b [] n h r = n
after_cursor_all requested high a b (e ∷ es) n h r =
    subst (λ k. Follows a b (map to_transition k))
      (sym (
        filter_by_keep (selects requested high) e es
          (ground (arith, n.0, Numbered-le (suc a) b es n.1))))
      (n.0, after_cursor_all requested high (suc a) b es n.1 h (omega (arith, r)))

after_cursor_from :
    (requested high a b : ℕ) (es : List EventRow)
    → Numbered a b es
    → b ≤ high
    → a ≤ requested
    → requested ≤ b
    → Follows requested b (map to_transition (after_cursor requested high es))
after_cursor_from requested high a b [] n h l r = omega (arith, n, l, r)
after_cursor_from requested high a b (e ∷ es) n h l r = elim (Bool-cases (leb requested a)) [
  | inl t ↦
      subst (λ k. Follows k b (map to_transition (after_cursor requested high (e ∷ es))))
        (ground (arith, t, l))
        (after_cursor_all requested high a b (e ∷ es) n h (leb→le requested a t))
  | inr t ↦
      subst (λ k. Follows requested b (map to_transition k))
        (sym (filter_by_drop (selects requested high) e es (ground (arith, n.0, t))))
        (after_cursor_from requested high (suc a) b es n.1 h (ground (arith, t)) r)
]

-- In a reachable store, a client whose cursor is within the last 128 events, and not ahead of them,
-- gets exactly the events behind its cursor: their cursors run from the next one to the last one,
-- without a gap, and there are at most 128.
pub transitions_after_window :
    (env : Env) (s : Store) (requested : ℕ)
    → Steps env empty_store s
    → requested ≤ s.db.last_seq
    → s.db.last_seq ≤ requested + event_replay_limit
    → (ts : List Transition) × (transitions_after requested s.db ≡ ok ts)
      × Follows requested s.db.last_seq ts
      × (length ts ≤ event_replay_limit)
unfolding transitions_after
transitions_after_window env s requested steps low near =
    let n = (reachable_journal env s steps).0 in
    let top = high_water-Numbered 0 s.db.last_seq s.db.events n in
    let high = high_water s.db.events in
    let follows =
      after_cursor_from requested high 0 s.db.last_seq s.db.events n (ground (arith, top))
        (omega arith) low in
    (
      map to_transition (after_cursor requested high s.db.events),
      ground (arith, top),
      follows,
      omega (arith, Follows-length requested s.db.last_seq _ follows),
    )
