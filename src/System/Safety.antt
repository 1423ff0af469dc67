-- ===== src/System/Safety.antt =====
-- What holds of every store that the daemon can reach: the concurrency bounds and the fate of a run.
use agentis.Runs.Starts.{Starts-WithinCaps}
use agentis.System.Moves.{started, evolved, Step-Moves, Moves}
use agentis.Runs.Persists.{
  Starts-Persists, Persists-trans, AllEvolve-Persists, Persists-refl, Persists, Kept,
}
use agentis.Runs.Caps.{AllEvolve-WithinCaps, WithinCaps}
use agentis.Prelude.{Bool, List, ◌≤◌, ◌≡◌, some, arith}
use agentis.Schema.{Ident, Bot, RunRow}
use agentis.StoreDb.{Env}
use agentis.Commands.Dispatch.{Store}
use agentis.Lifecycle.{active_total, active_of, find_run}
use agentis.Versions.{max_active_runs, max_active_runs_per_bot}
use agentis.System.{Step, Steps, done, next, empty_store}

Moves-WithinCaps :
    (latched : Bool) (rs rs' : List RunRow) → Moves latched rs rs' → WithinCaps rs → WithinCaps rs'
Moves-WithinCaps latched rs rs' (evolved v) w = AllEvolve-WithinCaps rs rs' v w
Moves-WithinCaps latched rs rs' (started v) w = Starts-WithinCaps latched rs rs' v w

Moves-Persists : (latched : Bool) (rs rs' : List RunRow) → Moves latched rs rs' → Persists rs rs'
Moves-Persists latched rs rs' (evolved v) id r e = AllEvolve-Persists rs rs' v id r e
Moves-Persists latched rs rs' (started v) id r e = Starts-Persists latched rs rs' v id r e

-- In a store whose run identifiers are distinct, with at most two runs active or loading and at most
-- one of each bot, every transaction of the daemon leaves this so: no command, report, sweep or
-- restart exceeds the limits of versions.ts, and none repeats an identifier.
pub Step-WithinCaps :
    (env : Env) (s t : Store) → Step env s t → WithinCaps s.db.runs → WithinCaps t.db.runs
Step-WithinCaps env s t step w =
    Moves-WithinCaps s.db.latched s.db.runs t.db.runs (Step-Moves env s t step w.distinct) w

pub Steps-WithinCaps :
    (env : Env) (s t : Store) → Steps env s t → WithinCaps s.db.runs → WithinCaps t.db.runs
Steps-WithinCaps env s _ done w = w
Steps-WithinCaps env s u (next {t} step rest) w =
    Steps-WithinCaps env t u rest (Step-WithinCaps env s t step w)

pub empty-WithinCaps : WithinCaps empty_store.db.runs
empty-WithinCaps = record { distinct = tt; total = omega arith; per_bot = λ bot. omega arith }

-- From a new workspace, after any sequence of transactions, at most two runs are active or loading,
-- and at most one of each bot.
pub reachable_concurrency :
    (env : Env) (s : Store) (bot : Bot)
    → Steps env empty_store s
    → (active_total s.db.runs ≤ max_active_runs)
      × (active_of bot s.db.runs ≤ max_active_runs_per_bot)
reachable_concurrency env s bot steps =
    let w = Steps-WithinCaps env empty_store s steps empty-WithinCaps in (w.total, w.per_bot bot)

pub Steps-Persists :
    (env : Env) (s t : Store) → Steps env s t → WithinCaps s.db.runs → Persists s.db.runs t.db.runs
Steps-Persists env s _ done w = Persists-refl s.db.runs
Steps-Persists env s u (next {t} step rest) w =
    Persists-trans s.db.runs t.db.runs u.db.runs
      (Moves-Persists s.db.latched s.db.runs t.db.runs (Step-Moves env s t step w.distinct))
      (Steps-Persists env t u rest (Step-WithinCaps env s t step w))

-- A run of a reachable store is found for ever after under its identifier, with the same task, thread,
-- deadline and frozen configuration; once it is finished it stays finished, and once it is not active
-- it is never active again.
pub reachable_run-Kept :
    (env : Env) (s t : Store) (id : Ident) (r : RunRow)
    → Steps env empty_store s
    → Steps env s t
    → find_run id s.db ≡ some r
    → (r' : RunRow) × (find_run id t.db ≡ some r') × Kept r r'
reachable_run-Kept env s t id r before after e =
    Steps-Persists env s t after (Steps-WithinCaps env empty_store s before empty-WithinCaps) id r e
