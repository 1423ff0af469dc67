-- ===== src/Runs/StopAll.antt =====
-- `stopAll` of packages/cli/src/store.ts over the rows of `runs`, from its first update to its last.
use agentis.Sweep.{active_runs}
use agentis.Journal.Commands.{cancel_all-Logged}
use agentis.Runs.Sweeps.{active-Unfinished, Unfinished}
use agentis.Commands.Control.{latch, active_ids, stop_all}
use Prim.Native.String.{String}
use agentis.Runs.Commands.{stopped_loading, cancel_one-Evolved}
use agentis.Runs.Lifecycle.{reject_handoff-Evolved, Evolved}
use agentis.Runs.Evolution.{Distinct, AllEvolve-find_by, AllEvolve}
use agentis.Handoff.{set_handoff_state, rejection, handoff_for_run, reject_handoff}
use agentis.Lifecycle.{
  active_total, to_run_status, is_active_or_loading, finish_row, FinishedRunStatus, FinishRunInput,
  finish_found, finish_run, find_run, is_active_run_status,
}
use agentis.Commands.Control.{cancellation, cancel_one, cancel_all}
use agentis.Prelude.{
  filter_by_drop, filter_by_keep, Yields-value, subst, ==_refl, Option-cases, ap, ==_comm, ℕ, ◌≡◌,
  refl, sym, true, false, not, ◌||◌, List, [], ◌∷◌, some, arith, ◌==◌, any_by, find_by,
  update_where, count_by, Bool-cases, inl, inr, Yields, yields, Yields-bind, Yields-and, ok, map,
  filter_by,
}
use agentis.Schema.{
  CommandReceipt, ActionState, Ident, RunRow, HandoffState, DedupeKey, ApplyInput, ApprovalRow,
  is_pending, is_loading, is_proposed,
}
use agentis.StoreDb.{emit, message, Db, Env}

-- That this identifier finds a run.
abbrev Exists : Ident → Db → Type 0
Exists id db = (r : RunRow) × (find_run id db ≡ some r)

abbrev AllExist : List Ident → Db → Type 0
AllExist [] db = Unit {0}
AllExist (id ∷ ids) db = Exists id db × AllExist ids db

AllExist-Evolved :
    (ids : List Ident) (db db' : Db) → Evolved db db' → AllExist ids db → AllExist ids db'
AllExist-Evolved [] db db' v x = tt
AllExist-Evolved (id ∷ ids) db db' v ((r, e), x) =
    let (r', e', k) = AllEvolve-find_by db.runs db'.runs id r v e in
    ((r', e'), AllExist-Evolved ids db db' v x)

-- Every active run is one of these.
abbrev Covered : List Ident → List RunRow → Type 0
Covered ids [] = Unit {0}
Covered ids (r ∷ rs) =
    ((not (is_active_run_status r.status) || any_by (λ k. k == r.id) ids) ≡ true) × Covered ids rs

-- The runs of this identifier are not active.
abbrev Ended : Ident → List RunRow → Type 0
Ended id [] = Unit {0}
Ended id (r ∷ rs) = ((not (r.id == id) || not (is_active_run_status r.status)) ≡ true) × Ended id rs

Covered-AllEvolve :
    (ids : List Ident) (rs rs' : List RunRow) → AllEvolve rs rs' → Covered ids rs → Covered ids rs'
Covered-AllEvolve ids [] [] v c = tt
Covered-AllEvolve ids [] (r' ∷ rs') v c = absurd v
Covered-AllEvolve ids (r ∷ rs) [] v c = tt
Covered-AllEvolve ids (r ∷ rs) (r' ∷ rs') v c = (
  ground (arith, v.0.stays_inactive, c.0, ap (λ k. any_by (λ j. j == k) ids) v.0.same_id),
  Covered-AllEvolve ids rs rs' v.1 c.1,
)

-- An identifier whose runs have ended need not be covered.
Covered-Ended :
    (id : Ident) (ids : List Ident) (rs : List RunRow)
    → Covered (id ∷ ids) rs
    → Ended id rs
    → Covered ids rs
Covered-Ended id ids [] c e = tt
Covered-Ended id ids (r ∷ rs) c e =
    (ground (arith, c.0, e.0, ==_comm id r.id), Covered-Ended id ids rs c.1 e.1)

finished_inactive : (s : FinishedRunStatus) → is_active_run_status (to_run_status s) ≡ false
unfolding is_active_run_status
finished_inactive FinishedRunStatus.succeeded = refl
finished_inactive FinishedRunStatus.failed = refl
finished_inactive FinishedRunStatus.canceled = refl

Ended-finish :
    (input : FinishRunInput) (rs : List RunRow)
    → Ended input.run_id (update_where (λ r. r.id == input.run_id) (finish_row input) rs)
unfolding is_active_run_status
Ended-finish input [] = tt
Ended-finish input (r ∷ rs) =
    (ground (arith, finished_inactive input.status), Ended-finish input rs)

finish_run-Yields :
    (env : Env) (input : FinishRunInput) (db : Db)
    → Exists input.run_id db
    → Yields (λ db'. Ended input.run_id db'.runs) (finish_run env input db)
unfolding finish_run finish_found message emit
finish_run-Yields env input db (r, e) = rw (finish_run, e) (yields (Ended-finish input db.runs))

reject_handoff-Yields :
    (env : Env) (run_id : Ident) (state : HandoffState) (status : FinishedRunStatus)
    (reason : String) (now : ℕ) (db : Db)
    → Exists run_id db
    → Yields (λ s. Unit {0}) (reject_handoff env run_id state status reason now db)
unfolding reject_handoff
reject_handoff-Yields env run_id state status reason now db x =
    elim (Option-cases (handoff_for_run run_id db)) [
      | inl e ↦ rw (reject_handoff, e) (yields tt)
      | inr (h, e) ↦
          rw (reject_handoff, e)
            (elim (Bool-cases (is_proposed h.state)) [
              | inr p ↦ rw p (yields tt)
              | inl p ↦ rw p (
                  Yields-bind
                    (finish_run-Yields env (rejection h run_id state status reason now)
                      (set_handoff_state h.id state db) x)
                    (λ db' v. yields tt))
            ])
    ]

cancel_one-Yields :
    (env : Env) (run_id : Ident) (key : DedupeKey) (reason text : String) (command_id : Ident)
    (now : ℕ) (db : Db)
    → Exists run_id db
    → Yields
        (λ db'. Ended run_id db'.runs)
        (cancel_one env run_id key reason text command_id now db)
unfolding cancel_one
cancel_one-Yields env run_id key reason text command_id now db (r, e) =
    Yields-bind
      (Yields-and
        (reject_handoff-Evolved env run_id HandoffState.rejected FinishedRunStatus.canceled reason
          now db)
        (reject_handoff-Yields env run_id HandoffState.rejected FinishedRunStatus.canceled reason
          now db (r, e)))
      λ s v.
        let (r', e', k) = AllEvolve-find_by db.runs s.1.runs run_id r v.0 e in
        Yields-bind
          (finish_run-Yields env (cancellation run_id key text command_id now) s.1 (r', e'))
          (λ db' w. yields w)

cancel_all-Yields :
    (env : Env) (command_id : Ident) (now : ℕ) (ids : List Ident) (db : Db)
    → AllExist ids db
    → Covered ids db.runs
    → Yields (λ db'. Covered [] db'.runs) (cancel_all env command_id now ids db)
unfolding cancel_all
cancel_all-Yields env command_id now [] db x c = yields c
cancel_all-Yields env command_id now (id ∷ ids) db x c =
    Yields-bind
      (Yields-and
        (cancel_one-Evolved env id (DedupeKey.stop_all id) "stop-all before acceptance"
          "Stop all canceled this run." command_id now db)
        (cancel_one-Yields env id (DedupeKey.stop_all id) "stop-all before acceptance"
          "Stop all canceled this run." command_id now db x.0))
      λ db' v.
        cancel_all-Yields env command_id now ids db' (AllExist-Evolved ids db db' v.0 x.1)
          (Covered-Ended id ids db'.runs (Covered-AllEvolve (id ∷ ids) db.runs db'.runs v.0 c) v.1)

active_ids-AllExist :
    (table rs : List RunRow) (db : Db)
    → table ≡ db.runs
    → Unfinished table rs
    → AllExist (map (λ r. r.id) rs) db
active_ids-AllExist table [] db e u = tt
active_ids-AllExist table (r ∷ rs) db e ((x, f, g), u) = (
  (x, subst (λ t. find_by (λ y. y.id == r.id) t ≡ some x) e f),
  active_ids-AllExist table rs db e u,
)

Covered-more :
    (id : Ident) (ids : List Ident) (rs : List RunRow) → Covered ids rs → Covered (id ∷ ids) rs
Covered-more id ids [] c = tt
Covered-more id ids (r ∷ rs) c = (ground (arith, c.0), Covered-more id ids rs c.1)

active_ids-Covered :
    (rs : List RunRow)
    → Covered (map (λ r. r.id) (filter_by (λ r. is_active_run_status r.status) rs)) rs
active_ids-Covered [] = tt
active_ids-Covered (r ∷ rs) =
    let rest = active_ids-Covered rs in
    elim (Bool-cases (is_active_run_status r.status)) [
      | inl t ↦
          subst (λ ids. Covered (map (λ x. x.id) ids) (r ∷ rs))
            (sym (filter_by_keep (λ x. is_active_run_status x.status) r rs t))
            (
              ground (arith, ==_refl r.id),
              Covered-more r.id
                  (map (λ x. x.id) (filter_by (λ x. is_active_run_status x.status) rs)) rs rest,
            )
      | inr t ↦
          subst (λ ids. Covered (map (λ x. x.id) ids) (r ∷ rs))
            (sym (filter_by_drop (λ x. is_active_run_status x.status) r rs t))
            (ground (arith, t), rest)
    ]

-- No run is active, and then the update of the loads leaves none that loads.
nothing_runs :
    (rs : List RunRow)
    → Covered [] rs
    → active_total (update_where (λ r. is_loading r.provider_state.load_status) stopped_loading rs)
      ≡ 0
unfolding is_active_or_loading
nothing_runs [] c = refl
nothing_runs (r ∷ rs) c = ground (arith, c.0, nothing_runs rs c.1)

no_approval_pends :
    (as' : List ApprovalRow)
    → count_by
        (λ a. is_pending a.state)
        (update_where
          (λ a. is_pending a.state)
          (λ a. record a { state = ActionState.canceled })
          as')
      ≡ 0
no_approval_pends [] = refl
no_approval_pends (a ∷ as') = ground (arith, no_approval_pends as')

-- What a stop-all leaves.
pub record Stopped (db : Db) : Type 0 where
  pub latched : db.latched ≡ true
  pub nothing_active : active_total db.runs ≡ 0
  pub nothing_pending : count_by (λ a. is_pending a.state) db.approvals ≡ 0

stop_all-Yields :
    (env : Env) (command_id : Ident) (input : ApplyInput) (db : Db)
    → Distinct db.runs
    → Yields (λ s. (s.0.accepted ≡ true) × Stopped s.1) (stop_all env command_id input db)
unfolding stop_all emit
stop_all-Yields env command_id input db d =
    Yields-bind
      (Yields-and
        (cancel_all-Logged env command_id input.now_ms (active_ids db) (latch input.now_ms db))
        (cancel_all-Yields env command_id input.now_ms (active_ids db) (latch input.now_ms db)
          (active_ids-AllExist db.runs (active_runs db) (latch input.now_ms db) refl
            (active-Unfinished db.runs d))
          (active_ids-Covered db.runs)))
      λ db' v. yields (
        refl,
        record {
          latched = v.0.keeps_latch;
          nothing_active = nothing_runs db'.runs v.1;
          nothing_pending = no_approval_pends db'.approvals;
        },
      )

-- Where run identifiers are distinct, `stopAll` always succeeds and is accepted; it leaves the latch
-- set, no run active or loading, and no approval pending.
pub stop_all_lem :
    (env : Env) (command_id : Ident) (input : ApplyInput) (db : Db)
    → Distinct db.runs
    → (receipt : CommandReceipt) × (db' : Db) × (stop_all env command_id input db
        ≡ ok (receipt, db'))
      × (receipt.accepted ≡ true)
      × Stopped db'
stop_all_lem env command_id input db d =
    let ((receipt, db'), e, p) = Yields-value (stop_all-Yields env command_id input db d) in
    (receipt, db', e, p.0, p.1)
