-- ===== src/Journal/AppendOnly.antt =====
-- The journal over any number of transactions.
use agentis.Prelude.{◌≡◌, List, ◌++◌}
use agentis.Schema.{EventRow}
use agentis.StoreDb.{Env}
use agentis.Commands.Dispatch.{Store}
use agentis.Journal.Base.{Numbered}
use agentis.Journal.Steps.{Steps-Continues}
use agentis.System.{Steps}

-- Over any sequence of transactions the journal is only appended to: the events of the later store are
-- those of the earlier one, followed by events whose sequence numbers run on from its last one without
-- a gap.
pub journal_append_only :
    (env : Env) (s t : Store)
    → Steps env s t
    → (added : List EventRow) × (t.db.events ≡ s.db.events ++ added)
      × Numbered s.db.last_seq t.db.last_seq added
journal_append_only env s t steps =
    let c = Steps-Continues env s t steps in (c.added, c.appended, c.numbered)
