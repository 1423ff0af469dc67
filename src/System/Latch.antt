-- ===== src/System/Latch.antt =====
-- The latch of stop-all over the steps of the store.
use agentis.Prelude.{Bool, ◌≤◌, ◌≡◌, true, List, arith}
use agentis.Schema.{RunRow}
use agentis.StoreDb.{Env}
use agentis.Commands.Dispatch.{Store}
use agentis.Lifecycle.{active_total}
use agentis.Runs.Evolution.{AllEvolve-active_total}
use agentis.Runs.Starts.{unchanged, inserted, loaded}
use agentis.Runs.Caps.{WithinCaps}
use agentis.Journal.Steps.{Steps-Continues, Step-Continues}
use agentis.System.{Steps, done, next, empty_store}
use agentis.System.Moves.{Moves, evolved, started, Step-Moves}
use agentis.System.Safety.{empty-WithinCaps, Step-WithinCaps, Steps-WithinCaps}

-- A latched store starts nothing.
latched-active_total :
    (latched : Bool) (rs rs' : List RunRow)
    → latched ≡ true
    → Moves latched rs rs'
    → active_total rs' ≤ active_total rs
latched-active_total latched rs rs' h (evolved v) = AllEvolve-active_total rs rs' v
latched-active_total latched rs _ h (started unchanged) = omega arith
latched-active_total latched rs _ h (started (inserted r f l t b)) = absurd (ground (arith, h, l))
latched-active_total latched rs _ h (started (loaded id r e l t b)) = absurd (ground (arith, h, l))

latched-Steps :
    (env : Env) (s t : Store)
    → Steps env s t
    → WithinCaps s.db.runs
    → s.db.latched ≡ true
    → active_total t.db.runs ≤ active_total s.db.runs
latched-Steps env s _ done w h = omega arith
latched-Steps env s u (next {t} step rest) w h = omega (
  arith,
  latched-active_total s.db.latched s.db.runs t.db.runs h (Step-Moves env s t step w.distinct),
  latched-Steps env t u rest (Step-WithinCaps env s t step w)
      (ground (arith, (Step-Continues env s t step).keeps_latch)),
)

-- In a reachable store whose stop-all is latched, no sequence of transactions resets the latch or
-- raises the number of runs that are active or loading; after a stop-all that number is 0 for good.
pub latched_for_good :
    (env : Env) (s t : Store)
    → Steps env empty_store s
    → s.db.latched ≡ true
    → Steps env s t
    → (t.db.latched ≡ true) × (active_total t.db.runs ≤ active_total s.db.runs)
latched_for_good env s t before h after = (
  ground (arith, (Steps-Continues env s t after).keeps_latch),
  latched-Steps env s t after (Steps-WithinCaps env empty_store s before empty-WithinCaps) h,
)
