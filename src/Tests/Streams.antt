-- ===== src/Tests/Streams.antt =====
-- The theorems on the transition hub, at a new subscriber and two transitions.
use agentis.Prelude.{zero, suc, ℕ, ◌≡◌, ◌≤◌, ◌⊎◌, inl, refl, true, false, [], ◌∷◌, map, arith}
use agentis.Schema.{TransitionReason}
use agentis.Replay.{Transition}
use agentis.Stream.{Subscriber, Writes, enqueue_all, deliver_all}
use agentis.Stream.Delivery.{InOrder, enqueue_all_lem}
use agentis.Stream.Pump.{caught_up, deliver_all_lem}

abbrev started : Subscriber
started = record {
  sent = [];
  queue = [];
  accepted_cursor = 0;
  active = true;
  draining = false;
  closed = false;
  ended = false;
}

abbrev transition : ℕ → Transition
transition n = record { cursor = n; id = n; reason = TransitionReason.run_running; created_at = n }

-- The first write fills the connection's buffer.
abbrev slow : Writes
slow zero = false
slow (suc n) = true

started-InOrder : InOrder 0 started
started-InOrder = record {
  bounded = omega arith;
  dropped = [];
  follows = refl;
  drops_closed = inl refl;
}

enqueue_all_lem_example :
    InOrder 0 (enqueue_all slow started (transition 1 ∷ transition 2 ∷ []))
    × (((enqueue_all slow started (transition 1 ∷ transition 2 ∷ [])).closed ≡ true)
        ⊎ (2 ≤ (enqueue_all slow started (transition 1 ∷ transition 2 ∷ [])).accepted_cursor))
enqueue_all_lem_example =
    enqueue_all_lem slow 0 0 2 started (transition 1 ∷ transition 2 ∷ []) started-InOrder
      (refl, (refl, refl)) (omega arith)

deliver_all_lem_example :
    deliver_all slow (transition 1 ∷ transition 2 ∷ []) (started ∷ started ∷ [])
    ≡ map (caught_up slow (transition 1 ∷ transition 2 ∷ [])) (started ∷ started ∷ [])
deliver_all_lem_example =
    deliver_all_lem slow (transition 1 ∷ transition 2 ∷ []) (started ∷ started ∷ [])
