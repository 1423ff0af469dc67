-- ===== src/Receipts.antt =====
-- The receipts of packages/cli/src/store.ts and packages/cli/src/handoff-store.ts: `receiptOf` with the
-- fields that a refusal or an acceptance sets.
use Prim.Native.String.{String}
use agentis.Prelude.{true, false, List, [], some, none}
use agentis.Schema.{Ident, CommandReceipt, ErrorCode, Effect}

-- A refusal: nothing is to be done after it.
abbrev pub denied : Ident → String → CommandReceipt
denied command_id error = record {
  command_id = command_id;
  replayed = false;
  accepted = false;
  error = some error;
  error_code = none;
  handoff_id = none;
  task_id = none;
  run_id = none;
  thread_id = none;
  approval_id = none;
  effects = [];
}

-- A refusal with an error code.
abbrev pub denied_as : Ident → ErrorCode → String → CommandReceipt
denied_as command_id code error = record (denied command_id error) { error_code = some code }

-- A command that was carried out, with the effects that follow its commit.
abbrev pub accepted : Ident → List Effect → CommandReceipt
accepted command_id effects = record {
  command_id = command_id;
  replayed = false;
  accepted = true;
  error = none;
  error_code = none;
  handoff_id = none;
  task_id = none;
  run_id = none;
  thread_id = none;
  approval_id = none;
  effects = effects;
}
