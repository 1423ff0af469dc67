-- ===== src/Tests.antt =====
-- Concrete stores and commands, and the theorems at them.
pub mod Runs
pub mod Commands
pub mod Reads
pub mod Streams
pub mod Outcomes
pub mod Handoffs
pub mod Workspaces
pub mod Requests
use agentis.VerifiedFile.{FileSystem}
use agentis.Commands.Submit.{
  submit_message, submit_rows, submit_taken, insert_task, submit_refusal, submitted_bot,
  submit_task,
}
use Prim.Native.String.{String}
use agentis.Prelude.{
  ℕ, suc, ◌≤◌, ◌≡◌, refl, true, false, Bool, List, [], ◌∷◌, some, none, Option, arith, ok, err,
  length,
}
use agentis.Schema.{
  Ident, PrincipalKind, Channel, ExecutionBoundary, ProviderKind, Decision, Command, SubmitTask,
  ApplyInput, Principal,
}
use agentis.StoreDb.{emit, Db, Env, empty_db}
use agentis.Commands.Dispatch.{run_command, dispatch, Store, apply_command}
use agentis.System.{Steps, Step, done, next, applies, empty_store}

abbrev pub test_fs : FileSystem
test_fs = record {
  realpath = λ p. some p;
  dirname = λ p. "root";
  relative = λ a b. "";
  is_absolute = λ p. false;
  open_file = λ p. some (record { is_file = true; size = 1; read = λ o r. some (7 ∷ []) });
  sha256 = λ bytes. 5;
  utf8 = λ bytes. "draft";
}

abbrev pub digest_of : Command → Ident
digest_of (Command.submit_task c) = 1
digest_of Command.stop_all = 2
digest_of _ = 3

-- Identifiers are the numbers of the draws.
abbrev pub test_env : Env
test_env = record {
  uuid = λ k. k;
  command_digest = digest_of;
  text_digest = λ t. 0;
  byte_length = λ t. 0;
  run_workspace = λ w id. w;
  source_path = λ w id. "source";
  writes = λ p t. true;
  fs = test_fs;
  parse_json = λ t. none;
  decode_decision = λ t. none;
}

abbrev pub owner : Principal
owner = record {
  kind = PrincipalKind.owner;
  session_id = 500;
  channel = some Channel.cli;
  browser_session_hash = none;
}

abbrev pub task_command : SubmitTask
task_command = record {
  brief = "Write the brief";
  outcome = none;
  constraints = none;
  source = none;
  bot = none;
  attachments = none;
  mcp_servers = none;
  mode = none;
  fixture = none;
}

abbrev pub request : Ident → Command → ℕ → ApplyInput
request key command now = record {
  principal = owner;
  idempotency_key = key;
  command = command;
  now_ms = now;
  provider = ProviderKind.codex;
  execution_boundary = ExecutionBoundary.unverified_host_scratch;
  workspace_id = "root";
}

abbrev pub submission : ApplyInput
submission = request 900 (Command.submit_task task_command) 10

abbrev pub submitted : Store
submitted = (apply_command test_env submission empty_store).0

-- One submission to a new workspace.
pub submitting : Steps test_env empty_store submitted
submitting = next (applies submission) done
