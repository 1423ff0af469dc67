-- ===== src/Commands/Dispatch.antt =====
-- `dispatch` and `applyCommand` of packages/cli/src/store.ts.
use Prim.Native.String.{String, ◌++◌}
use text.Mathlib.Text.{◌==◌ as str_eq}
use agentis.Prelude.{
  suc, true, not, List, [], ◌∷◌, Option, some, none, ◌==◌, if◌then◌else◌, find_by, any_by,
  filter_by, insert_row, StoreErrorCode, StoreError, Result, ok, err, throw,
}
use agentis.Schema.{Ident, Command, CommandRow, CommandReceipt, ApplyInput, is_owner}
use agentis.StoreDb.{Db, Env, fresh}
use agentis.Handoff.Propose.{propose_handoff}
use agentis.Commands.Approval.{resolve_approval}
use agentis.Commands.Control.{answer_input, cancel_run, stop_all}
use agentis.Commands.LoadSession.{load_session}
use agentis.Commands.Submit.{Staged, submit_task}

-- The store: its tables, and the source files that submissions have written.
pub record Store : Type 0 where
  pub db : Db
  pub files : List (String × String)

abbrev pub command_kind : Command → String
command_kind (Command.submit_task c) = "submit_task"
command_kind (Command.propose_handoff s c) = "propose_handoff"
command_kind (Command.resolve_approval a d) = "resolve_approval"
command_kind (Command.answer_input r a) = "answer_input"
command_kind (Command.cancel_run r) = "cancel_run"
command_kind Command.stop_all = "stop_all"
command_kind (Command.load_session r) = "load_session"

unfoldable pub run_command :
    Env → Ident → ApplyInput → Command → Db → Staged × Result (CommandReceipt × Db)
run_command env id input (Command.submit_task c) db = submit_task env id input c db
run_command env id input (Command.propose_handoff source context) db =
    ([], propose_handoff env id input source context db)
run_command env id input (Command.resolve_approval approval decision) db =
    ([], resolve_approval env id input approval decision db)
run_command env id input (Command.answer_input run answers) db =
    ([], answer_input env id input run answers db)
run_command env id input (Command.cancel_run run) db = ([], cancel_run env id input run db)
run_command env id input Command.stop_all db = ([], stop_all env id input db)
run_command env id input (Command.load_session run) db = ([], load_session id run db)

abbrev pub draw_command : Db → Db
draw_command db = record db { drawn = suc db.drawn }

-- `dispatch`: the command's identifier is drawn first.
unfoldable pub dispatch : Env → ApplyInput → Db → Staged × Result (CommandReceipt × Db)
dispatch env input db = run_command env (fresh env 0 db) input input.command (draw_command db)

abbrev pub remove_file : String → List (String × String) → List (String × String)
remove_file path = filter_by (λ f. not (str_eq f.0 path))

-- `writeScratchFile` removes what stands at the path and creates the file anew.
abbrev pub write_files : Staged → List (String × String) → List (String × String)
write_files [] files = files
write_files ((path, text) ∷ staged) files =
    write_files staged (insert_row (path, text) (remove_file path files))

-- `for (const path of stagedPaths) rmSync(path, { force: true })`.
abbrev pub remove_files : Staged → List (String × String) → List (String × String)
remove_files [] files = files
remove_files ((path, text) ∷ staged) files = remove_files staged (remove_file path files)

abbrev pub command_row : Env → ApplyInput → CommandReceipt → CommandRow
command_row env input result = record {
  id = result.command_id;
  idempotency_key = input.idempotency_key;
  principal_kind = input.principal.kind;
  payload_digest = env.command_digest input.command;
  result = result;
  created_at = input.now_ms;
}

-- ROLLBACK, and the staged files are removed.
abbrev pub rollback : Staged → StoreError → Store → Store × Result CommandReceipt
rollback staged e s = (record s { files = remove_files staged (write_files staged s.files) }, err e)

-- COMMIT with the row of the command, or roll back.
unfoldable pub settle :
    Env → ApplyInput → Store → Staged × Result (CommandReceipt × Db) → Store × Result CommandReceipt
settle env input s (staged, err e) = rollback staged e s
settle env input s (staged, ok (result, db)) =
    if any_by (λ c. c.id == result.command_id) db.commands
    then rollback staged
        (record {
          code = StoreErrorCode.internal;
          message = "UNIQUE constraint failed";
          subject = none;
        })
        s
    else (
      record {
        db = record db { commands = insert_row (command_row env input result) db.commands };
        files = write_files staged s.files;
      },
      ok result,
    )

abbrev pub prior_command : Ident → Db → Option CommandRow
prior_command key db = find_by (λ c. c.idempotency_key == key) db.commands

abbrev pub replay : CommandRow → CommandReceipt
replay prior = record (prior.result) { replayed = true; effects = [] }

-- The answer to a key that is there already.
abbrev pub repeated : Env → ApplyInput → CommandRow → Result CommandReceipt
repeated env input prior =
    if not (prior.payload_digest == env.command_digest input.command)
    then throw StoreErrorCode.conflict "idempotency key reused with a different payload"
    else ok (replay prior)

unfoldable pub apply_command : Env → ApplyInput → Store → Store × Result CommandReceipt
apply_command env input s =
    if not (is_owner input.principal.kind)
    then (s, throw StoreErrorCode.forbidden ("bot cannot " ++ command_kind input.command))
    else elim (prior_command input.idempotency_key s.db) [
      | some prior ↦ (s, repeated env input prior)
      | none ↦ settle env input s (dispatch env input s.db)
    ]
