-- ===== src/Tests/Handoffs.antt =====
-- The theorems on handoffs, at a run of Ivo that answers a proposal.
use agentis.Prelude.{◌≡◌, refl, true, false, some, ok, [], ◌∷◌}
use agentis.Schema.{Bot, RunStatus, HandoffState, HandoffRow, RunRow, TaskRow}
use agentis.StoreDb.{Db, Env, empty_db}
use agentis.Commands.Dispatch.{draw_command}
use agentis.Commands.Submit.{submitted_run, submitted_task}
use agentis.Handoff.{note}
use agentis.Handoff.Decide.{decide_handoff, apply_decision, accept_tables}
use agentis.Handoff.Accept.{Accepted, decide_handoff_lem, decide_handoff_once}
use agentis.Tests.{test_env, submission, task_command}
use agentis.System.{empty_store}

abbrev proposal : HandoffRow
proposal = record {
  id = 80;
  task_id = 1;
  thread_id = 2;
  source_run_id = 30;
  recipient_run_id = 3;
  context = record {
    source_run_id = 30;
    brief = "brief";
    constraints = [];
    source_draft = "draft";
    request = "polish it";
  };
  state = HandoffState.proposed;
  expires_at = 1000;
}

abbrev answering_env : Env
answering_env = record test_env { decode_decision = λ t. some (80, true) }

abbrev recipient : RunRow
recipient =
    record (submitted_run test_env submission task_command Bot.ivo (draw_command empty_store.db)) {
      status = RunStatus.running;
      provider_session_id = some 600;
    }

abbrev task : TaskRow
task = submitted_task test_env submission task_command Bot.mara (draw_command empty_store.db)

abbrev asked : Db
asked = record empty_db {
  drawn = 100;
  runs = recipient ∷ [];
  tasks = task ∷ [];
  handoffs = proposal ∷ [];
}

abbrev after : Db
after =
    note answering_env proposal HandoffState.accepted "ownership transferred from Mara to Ivo" 50
      (accept_tables answering_env proposal 3 50 asked)

accepted_ok : decide_handoff answering_env 3 600 "yes" 50 asked ≡ ok (true, after)
unfolding decide_handoff apply_decision
accepted_ok = refl

decide_handoff_lem_example : Accepted answering_env 3 600 "yes" 50 asked after
decide_handoff_lem_example = decide_handoff_lem answering_env 3 600 "yes" 50 asked after accepted_ok

decide_handoff_once_example : decide_handoff answering_env 3 600 "no" 60 after ≡ ok (false, after)
decide_handoff_once_example =
    decide_handoff_once answering_env 3 600 600 "yes" "no" 50 60 asked after accepted_ok
