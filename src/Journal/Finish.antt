-- ===== src/Journal/Finish.antt =====
-- The extension of the journal by `finishRun`, `rejectHandoff` and `decideHandoff`.
use Prim.Native.String.{String}
use agentis.Versions.{max_actions_per_task}
use agentis.Lifecycle.{
  finish_tables, finish_message, find_run, FinishRunInput, finish_found, FinishedRunStatus,
  finish_run,
}
use agentis.Journal.Base.{log_of, said-Extends, Extends-refl, Logged, LoggedWith}
use agentis.Handoff.Decide.{deciding_task, accept_tables, refuse, decide_handoff, apply_decision}
use agentis.Handoff.{handoff_for_run, note, reject_handoff}
use agentis.Prelude.{
  Ensures-option, Ensures-bind, Ensures-if, ℕ, Bool, not, ◌==◌, leb, any_by, Ensures, holds, threw,
}
use agentis.Schema.{Ident, HandoffRow, HandoffState, TaskRow, is_proposed}
use agentis.StoreDb.{fresh, Db, Env}

pub finish_run-Logged :
    (env : Env) (input : FinishRunInput) (db : Db) → Ensures (Logged db) (finish_run env input db)
unfolding finish_run finish_found
finish_run-Logged env input db =
    Ensures-option (find_run input.run_id db) (λ _. threw)
      λ r _. holds (
        said-Extends env input.reason input.event_body input.now_ms (finish_message input r)
          (finish_tables input r db))

pub note-Logged :
    (env : Env) (h : HandoffRow) (state : HandoffState) (reason : String) (now : ℕ) (db : Db)
    → Logged db (note env h state reason now db)
unfolding note
note-Logged env h state reason now db = said-Extends env _ _ now _ db

pub reject_handoff-Logged :
    (env : Env) (run_id : Ident) (state : HandoffState) (status : FinishedRunStatus)
    (reason : String) (now : ℕ) (db : Db)
    → Ensures (LoggedWith db) (reject_handoff env run_id state status reason now db)
unfolding reject_handoff
reject_handoff-Logged env run_id state status reason now db =
    Ensures-option (handoff_for_run run_id db) (λ _. holds (Extends-refl (log_of db)))
      λ h _.
        Ensures-if (not (is_proposed h.state)) (λ _. holds (Extends-refl (log_of db)))
          λ _. Ensures-bind (finish_run-Logged env _ _) (λ db' v. holds v)

refuse-Logged :
    (env : Env) (run_id : Ident) (state : HandoffState) (reason : String) (now : ℕ) (db : Db)
    → Ensures (LoggedWith db) (refuse env run_id state reason now db)
refuse-Logged env run_id state reason now db =
    Ensures-bind (reject_handoff-Logged env run_id state FinishedRunStatus.failed reason now db)
      (λ s v. holds v)

apply_decision-Logged :
    (env : Env) (h : HandoffRow) (run_id : Ident) (task : TaskRow) (d : Ident × Bool) (now : ℕ)
    (db : Db)
    → Ensures (LoggedWith db) (apply_decision env h run_id task d now db)
unfolding apply_decision
apply_decision-Logged env h run_id task (handoff_id, accepts) now db =
    Ensures-if (not (handoff_id == h.id))
      (λ _. refuse-Logged env run_id HandoffState.rejected _ now db)
      λ _.
        Ensures-if (not accepts) (λ _. refuse-Logged env run_id HandoffState.rejected _ now db)
          λ _.
            Ensures-if (leb max_actions_per_task task.action_count)
              (λ _. refuse-Logged env run_id HandoffState.rejected _ now db)
              λ _.
                Ensures-if (any_by (λ a. a.id == fresh env 0 db) db.pending_actions) (λ _. threw)
                  (λ _. holds (
                    note-Logged env h HandoffState.accepted _ now
                      (accept_tables env h run_id now db)))

pub decide_handoff-Logged :
    (env : Env) (run_id session_id : Ident) (text : String) (now : ℕ) (db : Db)
    → Ensures (LoggedWith db) (decide_handoff env run_id session_id text now db)
unfolding decide_handoff
decide_handoff-Logged env run_id session_id text now db =
    let same = Extends-refl (log_of db) in
    Ensures-option (handoff_for_run run_id db) (λ _. holds same)
      λ h _.
        Ensures-if (not (is_proposed h.state)) (λ _. holds same)
          λ _.
            Ensures-if (leb h.expires_at now)
              (λ _. refuse-Logged env run_id HandoffState.expired _ now db)
              λ _.
                Ensures-option (deciding_task run_id session_id db) (λ _. holds same)
                  λ task _.
                    Ensures-option (env.decode_decision text)
                      (λ _. refuse-Logged env run_id HandoffState.rejected _ now db)
                      (λ d _. apply_decision-Logged env h run_id task d now db)
