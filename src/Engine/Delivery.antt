-- ===== src/Engine/Delivery.antt =====
-- What `complete` of `mutateForEngine` writes when it returns an artifact.
use agentis.Prelude.{
  find_by-update_where, find_by_sound, Ensures-itself, ◌≡◌, refl, true, false, not, some, none,
  arith, ok, ◌==◌, Option, insert_row, Ensures, holds, threw, Ensures-if, Ensures-option,
  Ensures-bind, Ensures-any, Ensures_eq,
}
use agentis.Schema.{Ident, RunRow, RunStatus, HandoffRow}
use agentis.StoreDb.{Db, Env, fresh, emit, message}
use agentis.Lifecycle.{finish_row, find_run, finish_run, finish_found}
use agentis.Handoff.{handoff_for_run}
use agentis.Engine.{is_active, run_message_context, MessageContext}
use agentis.Engine.Outcome.{
  CompleteInput, complete, success, insert_artifact, unaccepted, unused_artifact_id, note_artifact,
  made_artifact,
}

-- The run was active and owns its task's result; the artifact is the last one, and the run succeeded.
pub record Delivered (env : Env) (input : CompleteInput) (artifact_id : Ident) (db db' : Db)
    : Type 0 where
  pub was_active : is_active input.run_id db ≡ true
  pub may_deliver : unaccepted (handoff_for_run input.run_id db) ≡ false
  pub context : MessageContext
  pub author : run_message_context input.run_id db ≡ ok context
  pub names_it : (made_artifact env input context db).id ≡ artifact_id
  pub stored : db'.artifacts ≡ insert_row (made_artifact env input context db) db.artifacts
  pub run : RunRow
  pub succeeded : find_run input.run_id db' ≡ some run
  pub status : run.status ≡ RunStatus.succeeded
  pub finished_at : run.completed_at ≡ some input.now_ms

abbrev DeliveredBy : Env → CompleteInput → Db → Option Ident × Db → Type 0
DeliveredBy env input db (none, db') = Unit {0}
DeliveredBy env input db (some artifact_id, db') = Delivered env input artifact_id db db'

-- The tables after `finishRun`, and after the event of a handoff.
record Finished (env : Env) (input : CompleteInput) (c : MessageContext) (db db' : Db)
    : Type 0 where
  artifacts : db'.artifacts ≡ (insert_artifact env input c db).artifacts
  run : RunRow
  found : find_run input.run_id db' ≡ some run
  status : run.status ≡ RunStatus.succeeded
  finished_at : run.completed_at ≡ some input.now_ms

finish_run-Finished :
    (env : Env) (input : CompleteInput) (c : MessageContext) (db : Db)
    → Ensures
        (Finished env input c db)
        (finish_run env (success env input c (fresh env 0 db)) (insert_artifact env input c db))
unfolding finish_run finish_found emit message
finish_run-Finished env input c db =
    Ensures-option (find_run input.run_id db) (λ _. threw)
      λ r e. holds (record {
        artifacts = refl;
        run = finish_row (success env input c (fresh env 0 db)) r;
        found = ground (
          arith,
          find_by_sound (λ x. x.id == input.run_id) db.runs r e,
          find_by-update_where (λ x. x.id == input.run_id) (λ x. x.id == input.run_id)
              (finish_row (success env input c (fresh env 0 db))) db.runs
              (λ x i. x.id == input.run_id),
        );
        status = refl;
        finished_at = refl;
      })

note_artifact-Finished :
    (env : Env) (h : Option HandoffRow) (input : CompleteInput) (artifact_id : Ident)
    (c : MessageContext) (db db' : Db)
    → Finished env input c db db'
    → Finished env input c db (note_artifact env h input artifact_id db')
unfolding note_artifact emit
note_artifact-Finished env none input artifact_id c db db' f = f
note_artifact-Finished env (some h) input artifact_id c db db' f = record {
  artifacts = f.artifacts;
  run = f.run;
  found = f.found;
  status = f.status;
  finished_at = f.finished_at;
}

complete-DeliveredBy :
    (env : Env) (input : CompleteInput) (db : Db)
    → Ensures (DeliveredBy env input db) (complete env input db)
unfolding complete
complete-DeliveredBy env input db =
    Ensures-if (not (is_active input.run_id db)) (λ _. holds tt)
      λ a.
        Ensures-if (unaccepted (handoff_for_run input.run_id db)) (λ _. holds tt)
          λ u. Ensures-bind (Ensures-itself (run_message_context input.run_id db)) λ c m.
            Ensures-bind (Ensures-any (unused_artifact_id env db)) λ _ _.
              Ensures-bind (finish_run-Finished env input c db) λ db' f.
                let g =
                  note_artifact-Finished env (handoff_for_run input.run_id db) input
                    (fresh env 0 db) c db db' f in
                holds (record {
                  was_active = ground (arith, a);
                  may_deliver = u;
                  context = c;
                  author = m;
                  names_it = refl;
                  stored = g.artifacts;
                  run = g.run;
                  succeeded = g.found;
                  status = g.status;
                  finished_at = g.finished_at;
                })

-- When a result is delivered, its run was active and its handoff, if it has one, accepted; the run is
-- then found as succeeded at that time, and the one new artifact has the identifier that is returned,
-- the bot of the run as its author, and the citations of the task's first source.
pub complete_lem :
    (env : Env) (input : CompleteInput) (artifact_id : Ident) (db db' : Db)
    → complete env input db ≡ ok (some artifact_id, db')
    → Delivered env input artifact_id db db'
complete_lem env input artifact_id db db' h = Ensures_eq (complete-DeliveredBy env input db) h
