-- ===== src/Drive/Fake/Delivers.antt =====
-- The fake provider brings a run to its end, `driveFake` of packages/cli/src/engine.ts.
use agentis.Engine.Delivery.{complete_lem}
use agentis.Engine.Progress.{running_row, mark_running}
use agentis.Drive.Fake.{
  fake_fixture, drive_fake, drive_after_commit, written_artifact, artifact_body, write_artifact,
}
use agentis.Drive.{Flow, DriveInput, transaction, Platform}
use agentis.Handoff.{handoff_for_run}
use agentis.Schema.{is_fake, FixtureKind, ArtifactRow, RunStatus, Ident, RunRow}
use agentis.StoreDb.{emit, fresh, Db, Env}
use agentis.Lifecycle.{finish_found, FinishRunInput, is_active_run_status, find_run, finish_run}
use agentis.Engine.{author_role_of, author_of, MessageContext, run_message_context, is_active}
use agentis.Engine.Outcome.{
  note_artifact, success, insert_artifact, made_artifact, unaccepted, CompleteInput, complete,
}
use Prim.Native.String.{◌++◌}
use agentis.Prelude.{
  sym, subst, find_by, ◌∙◌, or_else, find_by-update_where, find_by_sound, arith, insert_row, ap, ℕ,
  any_by, ◌≡◌, refl, true, false, some, ok, ◌==◌,
}

is_active-of :
    (run_id : Ident) (r : RunRow) (db : Db)
    → find_run run_id db ≡ some r
    → is_active_run_status r.status ≡ true
    → db.latched ≡ false
    → is_active run_id db ≡ true
unfolding is_active
is_active-of run_id r db e s l = ground (arith, e, s, l)

-- The author of a message for this run.
abbrev context_of : RunRow → MessageContext
context_of r = record {
  thread_id = r.thread_id;
  task_id = r.task_id;
  author_name = author_of r.frozen.bot;
  author_role = author_role_of r.frozen.role;
}

run_message_context-of :
    (run_id : Ident) (r : RunRow) (db : Db)
    → find_run run_id db ≡ some r
    → run_message_context run_id db ≡ ok (context_of r)
unfolding run_message_context
run_message_context-of run_id r db e = rw (run_message_context, e) refl

finish_run-of :
    (env : Env) (input : FinishRunInput) (r : RunRow) (db : Db)
    → find_run input.run_id db ≡ some r
    → finish_run env input db ≡ ok (finish_found env input r db)
unfolding finish_run
finish_run-of env input r db e = rw (finish_run, e) refl

-- An active run without a handoff that stands in its way always delivers.
complete_total :
    (env : Env) (input : CompleteInput) (r : RunRow) (db : Db)
    → find_run input.run_id db ≡ some r
    → is_active_run_status r.status ≡ true
    → db.latched ≡ false
    → unaccepted (handoff_for_run input.run_id db) ≡ false
    → any_by (λ a. a.id == fresh env 0 db) db.artifacts ≡ false
    → (db' : Db) × (complete env input db ≡ ok (some (fresh env 0 db), db'))
unfolding complete
complete_total env input r db e s l u n =
    let done = insert_artifact env input (context_of r) db in
    let report = success env input (context_of r) (fresh env 0 db) in
    (
      note_artifact env (handoff_for_run input.run_id db) input (fresh env 0 db)
          (finish_found env report r done),
      rw
          (
            complete,
            is_active-of input.run_id r db e s l,
            u,
            run_message_context-of input.run_id r db e,
            n,
            finish_run-of env report r done e,
          )
          refl,
    )

-- The report of the start leaves the run active.
mark_running-found :
    (env : Env) (run_id session_id : Ident) (now : ℕ) (r : RunRow) (db : Db)
    → find_run run_id db ≡ some r
    → is_active_run_status r.status ≡ true
    → db.latched ≡ false
    → find_run run_id (mark_running env run_id session_id now db).1
      ≡ some (running_row session_id now r)
unfolding mark_running is_active emit
mark_running-found env run_id session_id now r db e s l = ground (
  arith,
  e,
  s,
  l,
  find_by_sound (λ x. x.id == run_id) db.runs r e,
  find_by-update_where (λ x. x.id == run_id) (λ x. x.id == run_id) (running_row session_id now)
      db.runs (λ x. refl),
)

-- What `markRunning` leaves alone.
record SameElse (env : Env) (db db' : Db) : Type 0 where
  same_latch : db'.latched ≡ db.latched
  same_handoffs : db'.handoffs ≡ db.handoffs
  same_artifacts : db'.artifacts ≡ db.artifacts
  next_id : fresh env 0 db' ≡ fresh env 1 db

mark_running-SameElse :
    (env : Env) (run_id session_id : Ident) (now : ℕ) (db : Db)
    → is_active run_id db ≡ true
    → SameElse env db (mark_running env run_id session_id now db).1
unfolding mark_running emit
mark_running-SameElse env run_id session_id now db a =
    rw (mark_running, a)
      (record {
        same_latch = refl;
        same_handoffs = refl;
        same_artifacts = refl;
        next_id = ap env.uuid (omega arith);
      })

-- The run has succeeded, and the one new artifact is the text that was written for it.
pub record Brought (p : Platform) (input : DriveInput) (db db' : Db) : Type 0 where
  pub run : RunRow
  pub found : find_run input.run_id db' ≡ some run
  pub status : run.status ≡ RunStatus.succeeded
  pub finished_at : run.completed_at ≡ some p.clock
  pub artifact : ArtifactRow
  pub stored : db'.artifacts ≡ insert_row artifact db.artifacts
  pub of_run : artifact.run_id ≡ input.run_id
  pub of_task : artifact.task_id ≡ input.task_id
  pub at_path : artifact.path ≡ p.artifact_path input.workspace
  pub same_text : artifact.sha256 ≡ p.env.text_digest ("# " ++ (input.brief ++ "\n"))

write_artifact-Brought :
    (p : Platform) (input : DriveInput) (r : RunRow) (db : Db)
    → find_run input.run_id db ≡ some r
    → is_active_run_status r.status ≡ true
    → db.latched ≡ false
    → unaccepted (handoff_for_run input.run_id db) ≡ false
    → any_by (λ a. a.id == fresh p.env 0 db) db.artifacts ≡ false
    → p.env.writes (p.artifact_path input.workspace) (artifact_body input) ≡ true
    → (db' : Db) × (write_artifact p input db ≡ (db', Flow.go)) × Brought p input db db'
unfolding write_artifact transaction
write_artifact-Brought p input r db e s l u n w =
    let (db', c) = complete_total p.env (written_artifact p input) r db e s l u n in
    let d = complete_lem p.env (written_artifact p input) (fresh p.env 0 db) db db' c in
    (
      db',
      rw (write_artifact, w, c) refl,
      record {
        run = d.run;
        found = d.succeeded;
        status = d.status;
        finished_at = d.finished_at;
        artifact = made_artifact p.env (written_artifact p input) d.context db;
        stored = d.stored;
        of_run = refl;
        of_task = refl;
        at_path = refl;
        same_text = refl;
      },
    )

-- An active run that the fake provider drives with the fixture 'smoke', or none, comes to its end: where its workspace
-- and its scratch file can be written, stop-all is not latched, no handoff of the run is unaccepted and the artifact's
-- identifier is new, the drive succeeds, the run has succeeded by the platform's clock, and the one new artifact is
-- the run's, with the digest of the brief as a heading.
pub drive_after_commit-Brought :
    (p : Platform) (input : DriveInput) (r : RunRow) (db : Db)
    → find_run input.run_id db ≡ some r
    → is_active_run_status r.status ≡ true
    → db.latched ≡ false
    → unaccepted (handoff_for_run input.run_id db) ≡ false
    → any_by (λ a. a.id == fresh p.env 1 db) db.artifacts ≡ false
    → p.makes_directory input.workspace ≡ true
    → p.env.writes (p.artifact_path input.workspace) (artifact_body input) ≡ true
    → or_else input.fixture FixtureKind.smoke ≡ FixtureKind.smoke
    → is_fake input.provider ≡ true
    → (db' : Db) × (drive_after_commit p input db ≡ (db', Flow.go)) × Brought p input db db'
unfolding drive_after_commit drive_fake fake_fixture is_active_run_status
drive_after_commit-Brought p input r db e s l u n m w f k =
    let session = p.fake_session input.run_id in
    let started = (mark_running p.env input.run_id session input.now_ms db).1 in
    let same =
      mark_running-SameElse p.env input.run_id session input.now_ms db
        (is_active-of input.run_id r db e s l) in
    let (db', c, b) =
      write_artifact-Brought p input (running_row session input.now_ms r) started
        (mark_running-found p.env input.run_id session input.now_ms r db e s l) refl
        (same.same_latch ∙ l)
        (ap (λ hs. unaccepted (find_by (λ h. h.recipient_run_id == input.run_id) hs))
            same.same_handoffs
          ∙ u)
        (subst (λ id. any_by (λ a. a.id == id) started.artifacts ≡ false) (sym same.next_id)
          (subst (λ rows. any_by (λ a. a.id == fresh p.env 1 db) rows ≡ false)
            (sym same.same_artifacts) n))
        w in
    (
      db',
      rw (drive_after_commit, k, drive_fake, m, f) c,
      record {
        run = b.run;
        found = b.found;
        status = b.status;
        finished_at = b.finished_at;
        artifact = b.artifact;
        stored = b.stored ∙ ap (insert_row b.artifact) same.same_artifacts;
        of_run = b.of_run;
        of_task = b.of_task;
        at_path = b.at_path;
        same_text = b.same_text;
      },
    )
