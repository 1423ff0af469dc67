-- ===== src/Tests/Outcomes.antt =====
-- The theorems on how a run ends, at a run of Mara.
use agentis.Prelude.{◌≡◌, refl, some, ok, [], ◌∷◌}
use agentis.Schema.{Bot, RunRow, TaskRow, MessageAuthorRole, AuthorName}
use agentis.StoreDb.{Db, empty_db}
use agentis.Lifecycle.{is_active_run_status, finish_run, finish_found}
use agentis.Commands.Dispatch.{draw_command}
use agentis.Commands.Submit.{submitted_run, submitted_task}
use agentis.Engine.{MessageContext, run_message_context, is_active}
use agentis.Engine.Outcome.{CompleteInput, complete, success, insert_artifact, note_artifact}
use agentis.Engine.Delivery.{Delivered, complete_lem}
use agentis.Tests.{test_env, submission, task_command}
use agentis.System.{empty_store}

abbrev task : TaskRow
task = submitted_task test_env submission task_command Bot.mara (draw_command empty_store.db)

abbrev active_run : RunRow
active_run = submitted_run test_env submission task_command Bot.mara (draw_command empty_store.db)

abbrev working : Db
working = record empty_db { drawn = 50; runs = active_run ∷ []; tasks = task ∷ [] }

abbrev delivery : CompleteInput
delivery = record {
  run_id = 3;
  task_id = 1;
  source = "brief.md";
  media_type = "text/markdown";
  sha256 = 5;
  byte_size = 1;
  path = "root/brief.md";
  now_ms = 70;
}

abbrev mara_context : MessageContext
mara_context = record {
  thread_id = 2;
  task_id = 1;
  author_name = AuthorName.mara;
  author_role = MessageAuthorRole.coordinator;
}

abbrev delivered : Db
delivered =
    finish_found test_env (success test_env delivery mara_context 50) active_run
      (insert_artifact test_env delivery mara_context working)

delivered_ok : complete test_env delivery working ≡ ok (some 50, delivered)
unfolding complete is_active run_message_context finish_run note_artifact is_active_run_status
delivered_ok = refl

complete_lem_example : Delivered test_env delivery 50 working delivered
complete_lem_example = complete_lem test_env delivery 50 working delivered delivered_ok
