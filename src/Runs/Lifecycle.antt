-- ===== src/Runs/Lifecycle.antt =====
-- The evolution of runs under `finishRun`, `rejectHandoff` and `decideHandoff`.
use Prim.Native.String.{String}
use agentis.Versions.{max_actions_per_task}
use agentis.Handoff.Decide.{deciding_task, apply_decision, decide_handoff, refuse}
use agentis.Prelude.{
  any_by, ◌==◌, leb, threw, holds, Ensures-option, Bool, not, Ensures, Ensures-if, Ensures-bind, ℕ,
  arith,
}
use agentis.Schema.{TaskRow, HandoffRow, Ident, RunRow, HandoffState, is_proposed}
use agentis.StoreDb.{fresh, Db, Env, message, emit}
use agentis.Lifecycle.{
  FinishRunInput, FinishedRunStatus, finish_row, finish_found, finish_run, find_run,
  is_finished_run_status, is_active_or_loading,
}
use agentis.Handoff.{note, handoff_for_run, reject_handoff}
use agentis.Runs.Evolution.{
  Evolves, AllEvolve, AllEvolve-refl, AllEvolve-trans, AllEvolve-update_where,
}

pub finish_row-Evolves : (input : FinishRunInput) (r : RunRow) → Evolves r (finish_row input r)
unfolding is_active_or_loading is_finished_run_status
finish_row-Evolves input r = ground arith

finish_found-AllEvolve :
    (env : Env) (input : FinishRunInput) (current : RunRow) (db : Db)
    → AllEvolve db.runs (finish_found env input current db).runs
unfolding finish_found message emit
finish_found-AllEvolve env input current db =
    AllEvolve-update_where _ (finish_row input) db.runs (λ r _. finish_row-Evolves input r)

-- That the runs of a database have evolved from those of another.
abbrev pub Evolved : Db → Db → Type 0
Evolved db db' = AllEvolve db.runs db'.runs

abbrev pub EvolvedWith {ℓ} : {A : Type ℓ} → Db → A × Db → Type 0
EvolvedWith db s = AllEvolve db.runs s.1.runs

pub Evolved-trans : (a b c : Db) → Evolved a b → Evolved b c → Evolved a c
Evolved-trans a b c = AllEvolve-trans a.runs b.runs c.runs

pub finish_run-Evolved :
    (env : Env) (input : FinishRunInput) (db : Db) → Ensures (Evolved db) (finish_run env input db)
unfolding finish_run
finish_run-Evolved env input db =
    Ensures-option (find_run input.run_id db) (λ _. threw)
      (λ r _. holds (finish_found-AllEvolve env input r db))

pub reject_handoff-Evolved :
    (env : Env) (run_id : Ident) (state : HandoffState) (status : FinishedRunStatus)
    (reason : String) (now : ℕ) (db : Db)
    → Ensures (EvolvedWith db) (reject_handoff env run_id state status reason now db)
unfolding reject_handoff
reject_handoff-Evolved env run_id state status reason now db =
    Ensures-option (handoff_for_run run_id db) (λ _. holds (AllEvolve-refl db.runs))
      λ h _.
        Ensures-if (not (is_proposed h.state)) (λ _. holds (AllEvolve-refl db.runs))
          λ _. Ensures-bind (finish_run-Evolved env _ _) (λ db' v. holds v)

-- A refusal rejects the handoff, if anything.
refuse-Evolved :
    (env : Env) (run_id : Ident) (state : HandoffState) (reason : String) (now : ℕ) (db : Db)
    → Ensures (EvolvedWith db) (refuse env run_id state reason now db)
refuse-Evolved env run_id state reason now db =
    Ensures-bind (reject_handoff-Evolved env run_id state FinishedRunStatus.failed reason now db)
      (λ s v. holds v)

apply_decision-Evolved :
    (env : Env) (h : HandoffRow) (run_id : Ident) (task : TaskRow) (d : Ident × Bool) (now : ℕ)
    (db : Db)
    → Ensures (EvolvedWith db) (apply_decision env h run_id task d now db)
unfolding apply_decision note
apply_decision-Evolved env h run_id task (handoff_id, accepts) now db =
    Ensures-if (not (handoff_id == h.id))
      (λ _. refuse-Evolved env run_id HandoffState.rejected _ now db)
      λ _.
        Ensures-if (not accepts) (λ _. refuse-Evolved env run_id HandoffState.rejected _ now db)
          λ _.
            Ensures-if (leb max_actions_per_task task.action_count)
              (λ _. refuse-Evolved env run_id HandoffState.rejected _ now db)
              λ _.
                Ensures-if (any_by (λ a. a.id == fresh env 0 db) db.pending_actions) (λ _. threw)
                  (λ _. holds (AllEvolve-refl db.runs))

pub decide_handoff-Evolved :
    (env : Env) (run_id session_id : Ident) (text : String) (now : ℕ) (db : Db)
    → Ensures (EvolvedWith db) (decide_handoff env run_id session_id text now db)
unfolding decide_handoff
decide_handoff-Evolved env run_id session_id text now db =
    Ensures-option (handoff_for_run run_id db) (λ _. holds (AllEvolve-refl db.runs))
      λ h _.
        Ensures-if (not (is_proposed h.state)) (λ _. holds (AllEvolve-refl db.runs))
          λ _.
            Ensures-if (leb h.expires_at now)
              (λ _. refuse-Evolved env run_id HandoffState.expired _ now db)
              λ _.
                Ensures-option (deciding_task run_id session_id db)
                  (λ _. holds (AllEvolve-refl db.runs))
                  λ task _.
                    Ensures-option (env.decode_decision text)
                      (λ _. refuse-Evolved env run_id HandoffState.rejected _ now db)
                      (λ d _. apply_decision-Evolved env h run_id task d now db)
