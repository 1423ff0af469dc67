-- ===== src/Drive/Fake.antt =====
-- The fake provider, `writeArtifact` and `driveAfterCommit` of packages/cli/src/engine.ts.
pub mod Delivers
use Prim.Native.String.{String, ◌++◌}
use agentis.Drive.{second_part, ProviderCall, Flow, Act, DriveInput, transaction, Platform}
use agentis.Engine.Outcome.{CompleteInput, complete, fail}
use agentis.Engine.Waiting.{wait_approval, wait_input, WaitApprovalInput}
use agentis.Engine.Progress.{mark_running, bump_action}
use agentis.Prelude.{or_else, not, if◌then◌else◌}
use agentis.Schema.{is_codex, is_fake, FixtureKind}

abbrev pub artifact_body : DriveInput → String
artifact_body input = "# " ++ (input.brief ++ "\n")

abbrev pub written_artifact : Platform → DriveInput → CompleteInput
written_artifact p input = record {
  run_id = input.run_id;
  task_id = input.task_id;
  source = if is_codex input.provider then "codex" else "fake";
  media_type = "text/markdown";
  sha256 = p.env.text_digest (artifact_body input);
  byte_size = p.env.byte_length (artifact_body input);
  path = p.artifact_path input.workspace;
  now_ms = p.clock;
}

-- `writeArtifact`, and so `finishAllowedFake`.
unfoldable pub write_artifact : Platform → DriveInput → Act
unfolding transaction
write_artifact p input db =
    if not (p.env.writes (p.artifact_path input.workspace) (artifact_body input))
    then (db, Flow.threw "the scratch file cannot be written")
    else transaction (second_part (complete p.env (written_artifact p input))) db

abbrev pub fake_wait : Platform → DriveInput → WaitApprovalInput
fake_wait p input = record {
  run_id = input.run_id;
  task_id = input.task_id;
  tool = "scratch-write";
  argument_digest = p.env.text_digest "hello.md";
  now_ms = input.now_ms;
}

-- The fixtures 'allow' and 'deny'.
unfoldable pub fake_approval : Platform → DriveInput → Act
unfolding transaction
fake_approval p input db =
    let budget = bump_action input.run_id input.task_id db in
    if budget.0
    then transaction (fail p.env input.run_id input.task_id "action budget exhausted" input.now_ms)
        budget.1
    else transaction (second_part (wait_approval p.env (fake_wait p input))) budget.1

unfoldable pub fake_fixture : Platform → DriveInput → FixtureKind → Act
unfolding fake_approval write_artifact transaction
fake_fixture p input FixtureKind.allow db = fake_approval p input db
fake_fixture p input FixtureKind.deny db = fake_approval p input db
fake_fixture p input FixtureKind.input db =
    transaction (wait_input p.env input.run_id "choose color" input.now_ms) db
fake_fixture p input FixtureKind.cancel db =
    transaction (wait_input p.env input.run_id "waiting for cancel" input.now_ms) db
fake_fixture p input FixtureKind.smoke db = write_artifact p input db

-- `driveFake`; the answer of `markRunning` is not read.
unfoldable pub drive_fake : Platform → DriveInput → Act
unfolding fake_fixture
drive_fake p input db =
    if not (p.makes_directory input.workspace)
    then (db, Flow.threw "the workspace cannot be created")
    else fake_fixture p input (or_else input.fixture FixtureKind.smoke)
        ((mark_running p.env input.run_id (p.fake_session input.run_id) input.now_ms db).1)

unfoldable pub drive_after_commit : Platform → DriveInput → Act
unfolding drive_fake
drive_after_commit p input =
    if is_fake input.provider then drive_fake p input else p.provider (ProviderCall.spawn input)
