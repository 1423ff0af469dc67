-- ===== src/Stream.antt =====
-- `TransitionHub` of packages/cli/src/sse.ts: subscribers with bounded queues, and the pump that feeds
-- them from the journal.
pub mod Delivery
pub mod Pump
use Prim.Native.String.{String}
use agentis.Prelude.{
  ℕ, Bool, true, false, not, ◌&&◌, ◌||◌, List, [], ◌∷◌, ltb, leb, if◌then◌else◌, length, map,
  filter_by, insert_row, ok, err,
}
use agentis.Versions.{event_subscriber_queue_limit}
use agentis.StoreDb.{Db}
use agentis.Replay.{Transition, transitions_after}

-- What is written to a response, apart from its opening.
pub data Sent : Type 0 where
  frame : Transition → Sent
  resync_required : (text : String) → Sent

pub record Subscriber : Type 0 where
  pub sent : List Sent
  pub queue : List Transition
  pub accepted_cursor : ℕ
  pub active : Bool
  pub draining : Bool
  pub closed : Bool
  pub ended : Bool

-- `response.write` says whether more may be written before a 'drain' event; here by the number of
-- writes before it.
abbrev pub Writes : Type 0
Writes = ℕ → Bool

-- The `while` loop of `#flush`: what is sent, what is left, and whether it waits for a drain.
unfoldable pub flush_queue :
    Writes → List Sent → List Transition → List Sent × List Transition × Bool
flush_queue writes sent [] = (sent, [], false)
flush_queue writes sent (t ∷ queue) =
    let rest = flush_queue writes (insert_row (frame t) sent) queue in
    if writes (length sent) then rest else (insert_row (frame t) sent, queue, true)

unfoldable pub flush : Writes → Subscriber → Subscriber
flush writes s =
    if s.closed || s.draining
    then s
    else let flushed = flush_queue writes s.sent s.queue in
      record s { sent = flushed.0; queue = flushed.1; draining = flushed.2 }

-- The handler of 'drain'.
unfoldable pub drained : Writes → Subscriber → Subscriber
drained writes s = flush writes (record s { draining = false })

unfoldable pub overflow : String → Subscriber → Subscriber
overflow text s = if s.closed then s else record s {
  closed = true;
  queue = [];
  sent = insert_row (resync_required text) s.sent;
  ended = true;
}

unfoldable pub close_subscriber : Subscriber → Subscriber
close_subscriber s = if s.closed then s else record s { closed = true; queue = []; ended = true }

unfoldable pub enqueue : Writes → Subscriber → Transition → Subscriber
enqueue writes s t =
    if s.closed || leb t.cursor s.accepted_cursor
    then s
    else if leb event_subscriber_queue_limit (length s.queue)
    then overflow "subscriber could not keep up with retained transitions"
        (record s { accepted_cursor = t.cursor })
    else flush writes (record s { accepted_cursor = t.cursor; queue = insert_row t s.queue })

-- The loop of `subscribe` over the replayed events, for one subscriber.
unfoldable pub enqueue_all : Writes → Subscriber → List Transition → Subscriber
enqueue_all writes s [] = s
enqueue_all writes s (t ∷ ts) = enqueue_all writes (enqueue writes s t) ts

abbrev pub is_live : Subscriber → Bool
is_live s = s.active && not s.closed

-- `Math.min` of the cursors of these subscribers, of which there is at least one.
unfoldable pub minimum : ℕ → List Subscriber → ℕ
minimum least [] = least
minimum least (s ∷ ss) =
    minimum (if ltb s.accepted_cursor least then s.accepted_cursor else least) ss

-- The inner loop of `#pump`: one event, for every subscriber that is behind it.
abbrev pub deliver : Writes → Transition → Subscriber → Subscriber
deliver writes t s = if is_live s && ltb s.accepted_cursor t.cursor then enqueue writes s t else s

-- The outer loop.
unfoldable pub deliver_all : Writes → List Transition → List Subscriber → List Subscriber
deliver_all writes [] ss = ss
deliver_all writes (t ∷ ts) ss = deliver_all writes ts (map (deliver writes t) ss)

-- `#pump`, apart from what other callbacks do while it awaits the replay.
unfoldable pub pump : Writes → Db → List Subscriber → List Subscriber
pump writes db ss = elim (filter_by is_live ss) [
  | [] ↦ ss
  | first ∷ others ↦ elim (transitions_after (minimum first.accepted_cursor others) db) [
    | err e ↦ map (λ s. if is_live s then overflow e.message s else s) ss
    | ok events ↦ deliver_all writes events ss
  ]
]
