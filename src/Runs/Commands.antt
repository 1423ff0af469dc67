-- ===== src/Runs/Commands.antt =====
-- The evolution of runs under the owner's commands that start nothing: resolve, answer, cancel, stop.
use agentis.Runs.Evolution.{
  AllEvolve-Distinct, AllEvolve-update_found, AllEvolve-trans, AllEvolve, AllEvolve-refl,
  AllEvolve-update_where, Evolves-refl, Distinct, Evolves,
}
use agentis.Runs.Lifecycle.{finish_run-Evolved, reject_handoff-Evolved, EvolvedWith, Evolved}
use agentis.StoreDb.{Env, emit, Db}
use agentis.Prelude.{
  sym, subst, find_by-update_where, find_by_sound, ==_iff, Ensures-map, threw, ◌∷◌, ◌&&◌, ◌||◌, [],
  count_by, ok, leb, update_where, not, Ensures-option, Ensures-if, arith, holds, some,
  Ensures-bind, true, ◌==◌, Ensures, find_by, ◌≡◌, ℕ, List,
}
use agentis.Commands.Control.{
  active_ids, answered_row, fail_loading, record_answer, is_waiting_input, answer_input, cancel_run,
  cancel_all, stop_all, cancel_one,
}
use agentis.Commands.Approval.{
  find_approval, update_run, resume_row, clear_prompt, expire_approval_and_run, record_decision,
  is_waiting_approval, after_decision, resolve_approval, resolve_open,
}
use Prim.Native.String.{String}
use agentis.Schema.{
  Ident, LoadStatus, is_loading, is_pending, HandoffState, CommandReceipt, ApprovalRow, Decision,
  ApplyInput, DedupeKey, RunRow,
}
use agentis.Lifecycle.{find_run, is_active_or_loading, is_active_run_status, is_finished_run_status}

clear_prompt-Evolves : (r : RunRow) → Evolves r (clear_prompt r)
unfolding is_active_or_loading
clear_prompt-Evolves r = ground (arith, Evolves-refl r)

-- A status that a run leaves only for 'running', with its slot kept.
resume_row-Evolves : (r : RunRow) → is_waiting_approval r.status ≡ true → Evolves r (resume_row r)
unfolding is_active_or_loading is_finished_run_status
resume_row-Evolves r h = ground arith

answered_row-Evolves : (r : RunRow) → is_waiting_input r.status ≡ true → Evolves r (answered_row r)
unfolding is_active_or_loading is_finished_run_status
answered_row-Evolves r h = ground arith

-- After its prompt is cleared, the run that waits for an approval runs on.
resume-AllEvolve :
    (id : Ident) (rs : List RunRow) (r : RunRow)
    → Distinct rs
    → find_by (λ x. x.id == id) rs ≡ some r
    → is_waiting_approval r.status ≡ true
    → AllEvolve rs
        (update_where (λ x. x.id == id) resume_row (update_where (λ x. x.id == id) clear_prompt rs))
resume-AllEvolve id rs r d e h = AllEvolve-trans rs cleared _ evolved (
    AllEvolve-update_found id resume_row cleared (clear_prompt r)
      (AllEvolve-Distinct rs cleared evolved d)
      (ground (
        arith,
        find_by-update_where (λ x. x.id == id) (λ x. x.id == id) clear_prompt rs
            (λ x i. x.id == id),
        find_by_sound (λ x. x.id == id) rs r,
      ))
      (resume_row-Evolves (clear_prompt r) h))
  where
    cleared : List RunRow
    cleared = update_where (λ x. x.id == id) clear_prompt rs

    evolved : AllEvolve rs cleared
    evolved = AllEvolve-update_where _ clear_prompt rs (λ x _. clear_prompt-Evolves x)

after_decision-Evolved :
    (env : Env) (command_id : Ident) (input : ApplyInput) (a : ApprovalRow) (r : RunRow)
    (decision : Decision) (db : Db)
    → Distinct db.runs
    → find_run a.run_id db ≡ some r
    → is_waiting_approval r.status ≡ true
    → Ensures (EvolvedWith db) (
        after_decision env command_id input a decision
          (update_run a.run_id clear_prompt (record_decision env command_id input a r decision db)))
unfolding after_decision record_decision
after_decision-Evolved env command_id input a r Decision.allowed db d e h =
    holds (resume-AllEvolve a.run_id db.runs r d e h)
after_decision-Evolved env command_id input a r Decision.denied db d e h =
    Ensures-bind (finish_run-Evolved env _ _) λ db' v. holds (
      AllEvolve-trans db.runs _ db'.runs
        (AllEvolve-update_where _ clear_prompt db.runs (λ x _. clear_prompt-Evolves x)) v)

resolve_open-Evolved :
    (env : Env) (command_id : Ident) (input : ApplyInput) (a : ApprovalRow) (r : RunRow)
    (decision : Decision) (db : Db)
    → Distinct db.runs
    → find_run a.run_id db ≡ some r
    → is_waiting_approval r.status ≡ true
    → Ensures (EvolvedWith db) (resolve_open env command_id input a r decision db)
unfolding resolve_open expire_approval_and_run
resolve_open-Evolved env command_id input a r decision db d e h =
    Ensures-if (leb a.expires_at input.now_ms)
      (λ _. Ensures-bind (finish_run-Evolved env _ _) (λ db' v. holds v))
      λ _.
        Ensures-if (not (count_by (λ x. x.id == a.id && is_pending x.state) db.approvals == 1))
          (λ _. threw) (λ _. after_decision-Evolved env command_id input a r decision db d e h)

pub resolve_approval-Evolved :
    (env : Env) (command_id : Ident) (input : ApplyInput) (approval_id : Ident)
    (decision : Decision) (db : Db)
    → Distinct db.runs
    → Ensures (EvolvedWith db) (resolve_approval env command_id input approval_id decision db)
unfolding resolve_approval
resolve_approval-Evolved env command_id input approval_id decision db d =
    Ensures-option (find_approval approval_id db) (λ _. same)
      λ a _.
        Ensures-if (not (is_pending a.state)) (λ _. same)
          λ _.
            Ensures-option (find_run a.run_id db) (λ _. same)
              λ r e.
                Ensures-if (not (is_waiting_approval r.status) || db.latched) (λ _. same)
                  λ g. resolve_open-Evolved env command_id input a r decision db d e (ground arith)
  where
    same : {receipt : CommandReceipt} → Ensures (EvolvedWith db) (ok (receipt, db))
    same = holds (AllEvolve-refl db.runs)

-- A run that is found by some identifier is found by its own.
found_self :
    (run_id : Ident) (r : RunRow) (db : Db)
    → find_run run_id db ≡ some r
    → find_run r.id db ≡ some r
found_self run_id r db e =
    subst (λ k. find_run k db ≡ some r)
      (sym ((==_iff r.id run_id).0 (find_by_sound (λ x. x.id == run_id) db.runs r e))) e

pub answer_input-Evolved :
    (env : Env) (command_id : Ident) (input : ApplyInput) (run_id : Ident)
    (answers : List (String × String)) (db : Db)
    → Distinct db.runs
    → Ensures (EvolvedWith db) (answer_input env command_id input run_id answers db)
unfolding answer_input record_answer
answer_input-Evolved env command_id input run_id answers db d =
    Ensures-option (find_run run_id db) (λ _. holds (AllEvolve-refl db.runs))
      λ r e.
        Ensures-if (not (is_waiting_input r.status)) (λ _. holds (AllEvolve-refl db.runs))
          λ g. holds (
            AllEvolve-update_found r.id answered_row db.runs r d (found_self run_id r db e)
              (answered_row-Evolves r (ground arith)))

pub cancel_one-Evolved :
    (env : Env) (run_id : Ident) (key : DedupeKey) (reason text : String) (command_id : Ident)
    (now : ℕ) (db : Db)
    → Ensures (Evolved db) (cancel_one env run_id key reason text command_id now db)
unfolding cancel_one
cancel_one-Evolved env run_id key reason text command_id now db =
    Ensures-bind (reject_handoff-Evolved env run_id HandoffState.rejected _ reason now db) λ s v.
      Ensures-bind (finish_run-Evolved env _ s.1)
        (λ db' w. holds (AllEvolve-trans db.runs s.1.runs db'.runs v w))

pub cancel_run-Evolved :
    (env : Env) (command_id : Ident) (input : ApplyInput) (run_id : Ident) (db : Db)
    → Ensures (EvolvedWith db) (cancel_run env command_id input run_id db)
unfolding cancel_run
cancel_run-Evolved env command_id input run_id db =
    Ensures-option (find_run run_id db) (λ _. holds (AllEvolve-refl db.runs))
      λ r e.
        Ensures-if (is_finished_run_status r.status) (λ _. holds (AllEvolve-refl db.runs))
          λ _.
            Ensures-bind (cancel_one-Evolved env run_id _ _ _ command_id input.now_ms db)
              (λ db' v. holds v)

cancel_all-Evolved :
    (env : Env) (command_id : Ident) (now : ℕ) (ids : List Ident) (db : Db)
    → Ensures (Evolved db) (cancel_all env command_id now ids db)
unfolding cancel_all
cancel_all-Evolved env command_id now [] db = holds (AllEvolve-refl db.runs)
cancel_all-Evolved env command_id now (id ∷ ids) db =
    Ensures-bind (cancel_one-Evolved env id _ _ _ command_id now db) λ db1 v.
      Ensures-map (λ db2 w. AllEvolve-trans db.runs db1.runs db2.runs v w)
        (cancel_all-Evolved env command_id now ids db1)

abbrev pub stopped_loading : RunRow → RunRow
stopped_loading r = record r {
  provider_state = record (r.provider_state) { load_status = LoadStatus.failed };
}

stopped_loading-Evolves : (r : RunRow) → Evolves r (stopped_loading r)
unfolding is_active_or_loading is_active_run_status is_finished_run_status
stopped_loading-Evolves r = ground arith

pub fail_loading-Evolved : (db : Db) → Evolved db (fail_loading db)
fail_loading-Evolved db =
    AllEvolve-update_where (λ r. is_loading r.provider_state.load_status) stopped_loading db.runs
      (λ r h. stopped_loading-Evolves r)

pub stop_all-Evolved :
    (env : Env) (command_id : Ident) (input : ApplyInput) (db : Db)
    → Ensures (EvolvedWith db) (stop_all env command_id input db)
unfolding stop_all emit
stop_all-Evolved env command_id input db =
    Ensures-bind (cancel_all-Evolved env command_id input.now_ms (active_ids db) _)
      λ db' v. holds (AllEvolve-trans db.runs db'.runs _ v (fail_loading-Evolved db'))
