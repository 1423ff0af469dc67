-- ===== src/Runs/Sweeps.antt =====
-- The evolution of runs under the sweep of overdue rows and the interruption at a restart.
use agentis.Runs.Commands.{fail_loading-Evolved}
use agentis.Commands.Control.{fail_loading}
use agentis.Commands.Approval.{expire_tables, expiry, expire_approval_and_run}
use agentis.Lifecycle.{is_finished_run_status, is_active_run_status, is_active_or_loading}
use agentis.Sweep.{
  note_restart, active_runs, interrupt_active, expired_approvals, overdue, interrupted_row,
  overdue_ids, interrupt_one, SweepEffects, sweep_handoffs, sweep_run_timeouts, interrupt_runs,
  sweep_overdue, sweep_approvals,
}
use agentis.Schema.{RunStatus, RunStatus, is_proposed, Ident, RunRow, HandoffRow, ApprovalRow}
use agentis.Prelude.{
  ==_iff, subst, refl, inr, find_by-update_where, inl, find_by_any, Bool-cases, update_where,
  filter_by, any_by, leb, ◌&&◌, none, Ensures-map, Ensures-if, some, Ensures-bind, find_by, ℕ, List,
  [], ◌∷◌, ◌≡◌, true, false, arith, ◌==◌, Ensures, holds,
}
use agentis.StoreDb.{emit, message, Db, Env}
use agentis.Runs.Evolution.{
  AllEvolve-Distinct, AllEvolve-update_found, AllEvolve-trans, Distinct, AllEvolve-refl, Evolves,
  AllEvolve,
}
use agentis.Runs.Lifecycle.{Evolved, EvolvedWith, finish_run-Evolved, reject_handoff-Evolved}

sweep_handoffs-Evolved :
    (env : Env) (now : ℕ) (hs : List HandoffRow) (effects : SweepEffects) (db : Db)
    → Ensures (EvolvedWith db) (sweep_handoffs env now hs (effects, db))
unfolding sweep_handoffs
sweep_handoffs-Evolved env now [] effects db = holds (AllEvolve-refl db.runs)
sweep_handoffs-Evolved env now (h ∷ hs) effects db =
    Ensures-bind
      (Ensures-if {P = EvolvedWith db} (is_proposed h.state && leb h.expires_at now)
        (λ _.
          Ensures-bind (reject_handoff-Evolved env h.recipient_run_id _ _ _ now db)
            (λ r v. holds v))
        (λ _. holds (AllEvolve-refl db.runs)))
      λ s v.
        Ensures-map (λ t w. AllEvolve-trans db.runs s.1.runs t.1.runs v w)
          (sweep_handoffs-Evolved env now hs s.0 s.1)

sweep_overdue-Evolved :
    (env : Env) (now : ℕ) (ids : List Ident) (effects : SweepEffects) (db : Db)
    → Ensures (EvolvedWith db) (sweep_overdue env now ids (effects, db))
unfolding sweep_overdue
sweep_overdue-Evolved env now [] effects db = holds (AllEvolve-refl db.runs)
sweep_overdue-Evolved env now (id ∷ ids) effects db =
    Ensures-bind (finish_run-Evolved env (overdue id now) db) λ db' v.
      Ensures-map (λ t w. AllEvolve-trans db.runs db'.runs t.1.runs v w)
        (sweep_overdue-Evolved env now ids _ db')

sweep_approvals-Evolved :
    (env : Env) (now : ℕ) (as' : List ApprovalRow) (effects : SweepEffects) (db : Db)
    → Ensures (EvolvedWith db) (sweep_approvals env now as' (effects, db))
unfolding sweep_approvals expire_approval_and_run
sweep_approvals-Evolved env now [] effects db = holds (AllEvolve-refl db.runs)
sweep_approvals-Evolved env now (a ∷ as') effects db =
    Ensures-bind (finish_run-Evolved env (expiry a now none) (expire_tables a.id db)) λ db' v.
      Ensures-map (λ t w. AllEvolve-trans db.runs db'.runs t.1.runs v w)
        (sweep_approvals-Evolved env now as' _ db')

pub sweep_run_timeouts-Evolved :
    (env : Env) (now : ℕ) (db : Db) → Ensures (EvolvedWith db) (sweep_run_timeouts env now db)
unfolding sweep_run_timeouts
sweep_run_timeouts-Evolved env now db =
    Ensures-bind (sweep_handoffs-Evolved env now db.handoffs [] db) λ s v.
      Ensures-bind (sweep_overdue-Evolved env now (overdue_ids now s.1) s.0 s.1) λ t w.
        Ensures-map
          (λ u x.
            AllEvolve-trans db.runs s.1.runs u.1.runs v
              (AllEvolve-trans s.1.runs t.1.runs u.1.runs w x))
          (sweep_approvals-Evolved env now (expired_approvals now t.1) t.0 t.1)

interrupted_row-Evolves :
    (r : RunRow) → is_finished_run_status r.status ≡ false → Evolves r (interrupted_row r)
unfolding is_active_or_loading is_active_run_status is_finished_run_status
interrupted_row-Evolves r h = ground arith

-- That this identifier finds a run that is not finished.
abbrev pub FoundUnfinished : List RunRow → Ident → Type 0
FoundUnfinished table id =
    (x : RunRow) × (find_by (λ y. y.id == id) table ≡ some x)
    × (is_finished_run_status x.status ≡ false)

abbrev pub Unfinished : List RunRow → List RunRow → Type 0
Unfinished table [] = Unit {0}
Unfinished table (r ∷ rs) = FoundUnfinished table r.id × Unfinished table rs

-- An interruption finishes no run.
still-FoundUnfinished :
    (k id : Ident) (table : List RunRow)
    → FoundUnfinished table id
    → FoundUnfinished (update_where (λ y. y.id == k) interrupted_row table) id
unfolding is_finished_run_status
still-FoundUnfinished k id table (x, e, h) = elim (Bool-cases (x.id == k)) [
  | inl t ↦ (
    interrupted_row x,
    ground (
      arith,
      find_by-update_where (λ y. y.id == id) (λ y. y.id == k) interrupted_row table
          (λ y i. y.id == id),
    ),
    refl,
  )
  | inr t ↦ (
    x,
    ground (
      arith,
      find_by-update_where (λ y. y.id == id) (λ y. y.id == k) interrupted_row table
          (λ y i. y.id == id),
    ),
    h,
  )
]

still-Unfinished :
    (k : Ident) (table rs : List RunRow)
    → Unfinished table rs
    → Unfinished (update_where (λ y. y.id == k) interrupted_row table) rs
still-Unfinished k table [] u = tt
still-Unfinished k table (r ∷ rs) u =
    (still-FoundUnfinished k r.id table u.0, still-Unfinished k table rs u.1)

interrupt_runs-Evolved :
    (env : Env) (now : ℕ) (rs : List RunRow) (db : Db)
    → Distinct db.runs
    → Unfinished db.runs rs
    → Evolved db (interrupt_runs env now rs db)
unfolding interrupt_runs interrupt_one message
interrupt_runs-Evolved env now [] db d u = AllEvolve-refl db.runs
interrupt_runs-Evolved env now (r ∷ rs) db d ((x, e, h), u) =
    AllEvolve-trans db.runs next.runs _ first (
      interrupt_runs-Evolved env now rs next (AllEvolve-Distinct db.runs next.runs first d)
        (still-Unfinished r.id db.runs rs u))
  where
    next : Db
    next = interrupt_one env now r db

    first : AllEvolve db.runs next.runs
    first = AllEvolve-update_found r.id interrupted_row db.runs x d e (interrupted_row-Evolves x h)

-- A row before the table is none of those that the table finds.
weaken-Unfinished :
    (x : RunRow) (table rs : List RunRow)
    → any_by (λ y. y.id == x.id) table ≡ false
    → Unfinished table rs
    → Unfinished (x ∷ table) rs
weaken-Unfinished x table [] h u = tt
weaken-Unfinished x table (r ∷ rs) h ((y, e, f), u) = (
  (
    y,
    elim (Bool-cases (x.id == r.id)) [
      | inl t ↦ absurd (
          ground (
            arith,
            subst (λ k. any_by (λ z. z.id == k) table ≡ false) ((==_iff x.id r.id).0 t) h,
            find_by_any (λ z. z.id == r.id) table y e,
          ))
      | inr t ↦ rw t e
    ],
    f,
  ),
  weaken-Unfinished x table rs h u,
)

active-finished : (s : RunStatus) → is_active_run_status s ≡ true → is_finished_run_status s ≡ false
unfolding is_active_run_status is_finished_run_status
active-finished s h = ground arith

pub active-Unfinished :
    (rs : List RunRow)
    → Distinct rs
    → Unfinished rs (filter_by (λ r. is_active_run_status r.status) rs)
active-Unfinished [] d = tt
active-Unfinished (r ∷ rs) d =
    let rest = weaken-Unfinished r rs _ d.0 (active-Unfinished rs d.1) in
    elim (Bool-cases (is_active_run_status r.status)) [
      | inl t ↦ rw t ((r, ground arith, active-finished r.status t), rest)
      | inr t ↦ rw t rest
    ]

note_restart-Evolved :
    (env : Env) (now : ℕ) (rs : List RunRow) (db db' : Db)
    → Evolved db db'
    → Evolved db (note_restart env now rs db')
unfolding emit
note_restart-Evolved env now [] db db' v = v
note_restart-Evolved env now (r ∷ rs) db db' v = v

pub interrupt_active-Evolved :
    (env : Env) (now : ℕ) (db : Db)
    → Distinct db.runs
    → EvolvedWith db (interrupt_active env now db)
unfolding interrupt_active
interrupt_active-Evolved env now db d = note_restart-Evolved env now (active_runs db) db _ (
    AllEvolve-trans db.runs db'.runs (fail_loading db').runs
      (interrupt_runs-Evolved env now (active_runs db) db d (active-Unfinished db.runs d))
      (fail_loading-Evolved db'))
  where
    db' : Db
    db' = interrupt_runs env now (active_runs db) db
