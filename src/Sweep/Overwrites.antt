-- ===== src/Sweep/Overwrites.antt =====
-- What `sweepRunTimeouts` does to a run whose approval has expired.
use agentis.StoreDb.{message, emit}
use agentis.Commands.Approval.{expire_approval_and_run, expiry}
use agentis.StoreDb.{emit, Env, Db}
use agentis.Schema.{
  is_proposed, is_pending, RunStatus, ApprovalRow, RunRow, HandoffRow, HandoffState, Ident,
}
use agentis.Handoff.{set_handoff_state, rejection, handoff_for_run, reject_handoff}
use agentis.Sweep.{
  expired_approvals, overdue_ids, sweep_run_timeouts, sweep_approvals, overdue, SweepEffects,
  sweep_handoffs, sweep_overdue,
}
use agentis.Lifecycle.{
  finish_row, FinishRunInput, find_run, FinishedRunStatus, finish_found, finish_run,
}
use agentis.Prelude.{
  Ensures-any, sym, inr, ==_iff, subst, find_by-update_where, if◌then◌else◌, inl, find_by_sound,
  update_where, find_by, filter_by, Bool-cases, Ensures_eq, any_by, not, threw, Ensures-option,
  Ensures-if, leb, Ensures-bind, String, holds, Bool, Ensures, ℕ, ◌≡◌, refl, [], ◌∷◌, some, none,
  arith, ◌==◌, ok, true, ◌&&◌, List,
}

-- A pending approval of this run whose time is up.
abbrev is_expired_of : Ident → ℕ → ApprovalRow → Bool
is_expired_of run_id now a = a.run_id == run_id && (is_pending a.state && leb a.expires_at now)

-- The run is there, and failed at this time.
record FailedAt (run_id : Ident) (now : ℕ) (db : Db) : Type 0 where
  run : RunRow
  found : find_run run_id db ≡ some run
  status : run.status ≡ RunStatus.failed
  completed : run.completed_at ≡ some now

-- Ending a run writes no approval.
finish_run-approvals :
    (env : Env) (input : FinishRunInput) (db : Db)
    → Ensures (λ db'. db'.approvals ≡ db.approvals) (finish_run env input db)
unfolding finish_run finish_found message emit
finish_run-approvals env input db =
    Ensures-option (find_run input.run_id db) (λ _. threw) (λ r _. holds refl)

reject_handoff-approvals :
    (env : Env) (run_id : Ident) (state : HandoffState) (status : FinishedRunStatus)
    (reason : String) (now : ℕ) (db : Db)
    → Ensures
        (λ s. s.1.approvals ≡ db.approvals)
        (reject_handoff env run_id state status reason now db)
unfolding reject_handoff
reject_handoff-approvals env run_id state status reason now db =
    Ensures-option (handoff_for_run run_id db) (λ _. holds refl)
      λ h _.
        Ensures-if (not (is_proposed h.state)) (λ _. holds refl)
          λ _.
            Ensures-bind
              (finish_run-approvals env (rejection h run_id state status reason now)
                (set_handoff_state h.id state db))
              (λ db' e. holds e)

-- Of the first two loops.
abbrev SameApprovals : Db → SweepEffects × Db → Type 0
SameApprovals db s = s.1.approvals ≡ db.approvals

sweep_handoffs-SameApprovals :
    (env : Env) (now : ℕ) (hs : List HandoffRow) (effects : SweepEffects) (old db : Db)
    → db.approvals ≡ old.approvals
    → Ensures (SameApprovals old) (sweep_handoffs env now hs (effects, db))
unfolding sweep_handoffs
sweep_handoffs-SameApprovals env now [] effects old db e = holds e
sweep_handoffs-SameApprovals env now (h ∷ hs) effects old db e =
    Ensures-bind
      (Ensures-if {P = SameApprovals old} (is_proposed h.state && leb h.expires_at now)
        (λ _.
          Ensures-bind
            (reject_handoff-approvals env h.recipient_run_id HandoffState.expired
              FinishedRunStatus.failed "acceptance timed out" now db)
            (λ r a. holds (ground (arith, a, e))))
        (λ _. holds e))
      (λ s a. sweep_handoffs-SameApprovals env now hs s.0 old s.1 a)

sweep_overdue-SameApprovals :
    (env : Env) (now : ℕ) (ids : List Ident) (effects : SweepEffects) (old db : Db)
    → db.approvals ≡ old.approvals
    → Ensures (SameApprovals old) (sweep_overdue env now ids (effects, db))
unfolding sweep_overdue
sweep_overdue-SameApprovals env now [] effects old db e = holds e
sweep_overdue-SameApprovals env now (id ∷ ids) effects old db e =
    Ensures-bind (finish_run-approvals env (overdue id now) db)
      (λ db' a. sweep_overdue-SameApprovals env now ids _ old db' (ground (arith, a, e)))

-- An expiry of any run leaves a failed run failed at this time.
expire-keeps :
    (env : Env) (run_id : Ident) (now : ℕ) (a : ApprovalRow) (db : Db)
    → FailedAt run_id now db
    → Ensures (FailedAt run_id now) (expire_approval_and_run env a now none db)
unfolding expire_approval_and_run finish_run finish_found message emit
expire-keeps env run_id now a db f =
    Ensures-option (find_run a.run_id db) (λ _. threw)
      λ r _. holds (elim (Bool-cases (f.run.id == a.run_id)) [
        | inl same ↦ record {
          run = finish_row (expiry a now none) f.run;
          found = ground (arith, f.found, same, after);
          status = refl;
          completed = refl;
        }
        | inr other ↦ record {
          run = f.run;
          found = ground (arith, f.found, other, after);
          status = f.status;
          completed = f.completed;
        }
      ])
  where
    after :
        find_by
          (λ x. x.id == run_id)
          (update_where (λ x. x.id == a.run_id) (finish_row (expiry a now none)) db.runs)
        ≡ elim (find_by (λ x. x.id == run_id) db.runs) [
          | none ↦ none
          | some x ↦ some (if x.id == a.run_id then finish_row (expiry a now none) x else x)
        ]
    after =
        find_by-update_where (λ x. x.id == run_id) (λ x. x.id == a.run_id)
          (finish_row (expiry a now none)) db.runs (λ x. refl)

-- The expiry of an approval ends its run as failed, whatever the run's status.
expire-FailedAt :
    (env : Env) (now : ℕ) (a : ApprovalRow) (db : Db)
    → Ensures (FailedAt a.run_id now) (expire_approval_and_run env a now none db)
unfolding expire_approval_and_run finish_run finish_found message emit
expire-FailedAt env now a db =
    Ensures-option (find_run a.run_id db) (λ _. threw)
      λ r e. holds (record {
        run = finish_row (expiry a now none) r;
        found = ground (
          arith,
          find_by_sound (λ x. x.id == a.run_id) db.runs r e,
          find_by-update_where (λ x. x.id == a.run_id) (λ x. x.id == a.run_id)
              (finish_row (expiry a now none)) db.runs (λ x i. x.id == a.run_id),
        );
        status = refl;
        completed = refl;
      })

abbrev Failed : Ident → ℕ → SweepEffects × Db → Type 0
Failed run_id now s = FailedAt run_id now s.1

sweep_approvals-keeps :
    (env : Env) (run_id : Ident) (now : ℕ) (rows : List ApprovalRow) (effects : SweepEffects)
    (db : Db)
    → FailedAt run_id now db
    → Ensures (Failed run_id now) (sweep_approvals env now rows (effects, db))
unfolding sweep_approvals
sweep_approvals-keeps env run_id now [] effects db f = holds f
sweep_approvals-keeps env run_id now (a ∷ rows) effects db f =
    Ensures-bind (expire-keeps env run_id now a db f)
      (λ db' g. sweep_approvals-keeps env run_id now rows _ db' g)

sweep_approvals-Failed :
    (env : Env) (run_id : Ident) (now : ℕ) (rows : List ApprovalRow) (effects : SweepEffects)
    (db : Db)
    → any_by (λ a. a.run_id == run_id) rows ≡ true
    → Ensures (Failed run_id now) (sweep_approvals env now rows (effects, db))
unfolding sweep_approvals
sweep_approvals-Failed env run_id now [] effects db h = cc
sweep_approvals-Failed env run_id now (a ∷ rows) effects db h =
    elim (Bool-cases (a.run_id == run_id)) [
      | inl same ↦ Ensures-bind (expire-FailedAt env now a db) (λ db' g.
          sweep_approvals-keeps env run_id now rows _ db'
            (subst (λ id. FailedAt id now db') ((==_iff a.run_id run_id).0 same) g))
      | inr other ↦
          Ensures-bind (Ensures-any (expire_approval_and_run env a now none db))
            (λ db' _. sweep_approvals-Failed env run_id now rows _ db' (ground (arith, h, other)))
    ]

-- The SELECT of the third loop finds it.
expired_selected :
    (run_id : Ident) (now : ℕ) (rows : List ApprovalRow)
    → any_by (is_expired_of run_id now) rows ≡ true
    → any_by
        (λ a. a.run_id == run_id)
        (filter_by (λ a. is_pending a.state && leb a.expires_at now) rows)
      ≡ true
expired_selected run_id now [] h = cc
expired_selected run_id now (a ∷ rows) h = ground (arith, h, expired_selected run_id now rows)

sweep_run_timeouts-Failed :
    (env : Env) (run_id : Ident) (now : ℕ) (db : Db)
    → any_by (is_expired_of run_id now) db.approvals ≡ true
    → Ensures (Failed run_id now) (sweep_run_timeouts env now db)
unfolding sweep_run_timeouts
sweep_run_timeouts-Failed env run_id now db h =
    Ensures-bind (sweep_handoffs-SameApprovals env now db.handoffs [] db db refl) λ s a.
      Ensures-bind (sweep_overdue-SameApprovals env now (overdue_ids now s.1) s.0 db s.1 a) λ t b.
        sweep_approvals-Failed env run_id now (expired_approvals now t.1) t.0 t.1 (
          expired_selected run_id now t.1.approvals
            (subst (λ rows. any_by (is_expired_of run_id now) rows ≡ true) (sym b) h))

-- A sweep that commits ends every run that has a pending approval whose time is up as failed, with the time of the
-- sweep as its completion time, whatever the status of the run was: one that has already succeeded, was canceled
-- or was interrupted is overwritten.
pub sweep_run_timeouts_overwrites :
    (env : Env) (run_id : Ident) (now : ℕ) (effects : SweepEffects) (db db' : Db)
    → any_by (λ a. a.run_id == run_id && (is_pending a.state && leb a.expires_at now)) db.approvals
      ≡ true
    → sweep_run_timeouts env now db ≡ ok (effects, db')
    → (r : RunRow) × (find_run run_id db' ≡ some r)
      × (r.status ≡ RunStatus.failed)
      × (r.completed_at ≡ some now)
sweep_run_timeouts_overwrites env run_id now effects db db' h e =
    let f = Ensures_eq (sweep_run_timeouts-Failed env run_id now db h) e in
    (f.run, f.found, f.status, f.completed)
