-- ===== src/Replay.antt =====
-- `transitionsAfter` of packages/cli/src/store.ts: the events that a client has not seen.
pub mod Window
use Prim.Native.String.{String}
use agentis.Prelude.{
  ℕ, zero, suc, ◌-◌, Bool, true, false, ◌&&◌, List, [], ◌∷◌, Option, some, none, ltb, leb,
  if◌then◌else◌, map, filter_by, StoreErrorCode, Result, ok, err, throw,
}
use agentis.Schema.{Ident, TransitionReason, EventRow}
use agentis.Versions.{event_replay_limit}
use agentis.StoreDb.{Db}

-- `Transition`: the cursor is the number of the event.
pub record Transition : Type 0 where
  pub cursor : ℕ
  pub id : Ident
  pub reason : TransitionReason
  pub created_at : ℕ

abbrev pub to_transition : EventRow → Transition
to_transition e = record { cursor = e.seq; id = e.id; reason = e.type; created_at = e.created_at }

-- COALESCE(MAX(seq), 0).
unfoldable pub high_water : List EventRow → ℕ
high_water [] = 0
high_water (e ∷ es) = let rest = high_water es in if leb e.seq rest then rest else e.seq

-- Math.max(0, highWater - EVENT_REPLAY_LIMIT), which subtraction on ℕ is.
abbrev pub replay_floor : ℕ → ℕ
replay_floor high = high - event_replay_limit

-- The table is in the order of `seq`, so ORDER BY changes nothing.
abbrev pub after_cursor : ℕ → ℕ → List EventRow → List EventRow
after_cursor requested high = filter_by (λ e. ltb requested e.seq && leb e.seq high)

unfoldable pub transitions_after : ℕ → Db → Result (List Transition)
transitions_after requested db =
    let high = high_water db.events in
    if ltb requested (replay_floor high)
    then throw StoreErrorCode.cursor_expired "cursor is older than replay floor"
    else if ltb high requested
    then throw StoreErrorCode.resync_required "cursor is newer than high-water"
    else ok (map to_transition (after_cursor requested high db.events))
