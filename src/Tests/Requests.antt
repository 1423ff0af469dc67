-- ===== src/Tests/Requests.antt =====
-- The theorems on requests over HTTP and on the effects of receipts, at concrete stores.
use text.Mathlib.Text.{◌==◌ as str_eq}
use agentis.VerifiedFile.{within, read_placed, read_opened, read_all}
use agentis.VerifiedFile.{read_verified_file}
use agentis.Drive.Effects.Launched.{apply_receipt_effects-Brought}
use agentis.Drive.Reactions.{launch_input, EffectsInput}
use agentis.Drive.Fake.Delivers.{Brought}
use agentis.Http.Guarded.{respond_guarded, Warranted, Declined}
use agentis.Http.Requests.{Request, respond, Draws}
use agentis.Tests.Workspaces.{test_runtime}
use agentis.Lifecycle.{is_active_run_status}
use agentis.Commands.Submit.{
  source_of, submitted_evidence, submit_rows, submit_taken, insert_task, submit_refusal,
  submitted_bot, submit_task,
}
use agentis.Engine.{is_active}
use agentis.Journal.Forever.{apply_command_forever}
use agentis.Tests.Commands.{first_run, one_run, submitted_ok, first_receipt}
use agentis.Http.Again.{handle_command_again, given_again}
use agentis.Schema.{EvidenceRow, RunRow, ExecutionBoundary, ProviderKind, Command}
use agentis.Tests.{submission, task_command, request, submitted, test_env}
use agentis.Engine.Progress.{mark_running}
use agentis.Snapshot.{order_by, read_snapshot}
use agentis.Http.Command.{answer_of, handle_command, CommandPayload}
use agentis.Drive.Effects.{apply_receipt_effects, launch_pending}
use agentis.Http.Protected.{handle_command_protected, Entitled, Refused}
use agentis.StoreDb.{empty_db, Db}
use agentis.Http.{
  trim_end, owner_principal, trim_start, trim, RequestAuthority, cut, Authorization, split,
  after_prefix, parse_authorization, add_cookie, add_cookies, Headers, Dependencies, cookies,
}
use agentis.Commands.Dispatch.{draw_command, run_command, dispatch, settle, apply_command, Store}
use agentis.Http.Authority.{authorize_read, authorize_mutation, Times}
use agentis.System.{empty_store, Steps, done, next, marks_running}
use agentis.Prelude.{String, [], ◌∷◌, ok, if◌then◌else◌, ◌⊎◌, refl, ◌≡◌, true, false, none, some}
use agentis.Drive.{constraint_block, source_brief, task_brief, provider_brief, Platform, Flow}
use Prim.Native.String.{◌++◌}

-- Adapters that do nothing.
abbrev platform : Platform
platform = record {
  env = test_env;
  makes_directory = λ w. true;
  fake_session = λ r. r;
  artifact_path = λ w. w ++ "/hello.md";
  clock = 600;
  provider = λ call db. (db, Flow.go);
}

abbrev daemon : Dependencies
daemon = record {
  platform = platform;
  origin = "http://127.0.0.1:4000";
  workspace = "root";
  provider = ProviderKind.fake;
  execution_boundary = ExecutionBoundary.unverified_host_scratch;
  owner_session = 500;
  owner_token = "secret";
  hash = λ s. if str_eq s "cookie" then 71 else 72;
  bot_session = λ s. 0;
  decode = λ s. some s;
  runtime = λ force. test_runtime;
}

abbrev times : Times
times = record { read_ms = 20; again_ms = 21; check_ms = 22; apply_ms = 23; effects_ms = 24 }

abbrev bearer : Headers
bearer = record { authorization = some "Bearer secret"; cookie = none; origin = none; csrf = none }

abbrev from_tab : Headers
from_tab = record {
  authorization = none;
  cookie = some "other=1; agentis_session=cookie; agentis_csrf=abc";
  origin = some "http://127.0.0.1:4000";
  csrf = some "abc";
}

abbrev submit : CommandPayload
submit = record { idempotency_key = 900; command = Command.submit_task task_command }

abbrev started_db : Db
started_db = (mark_running test_env 3 600 12 submitted.db).1

abbrev started_store : Store
started_store = record submitted { db = started_db }

started_after : Steps test_env submitted started_store
started_after = next (marks_running 3 600 12) done

cookies_read :
    cookies daemon from_tab.cookie
    ≡ ("agentis_csrf", "abc") ∷ ("agentis_session", "cookie") ∷ ("other", "1") ∷ []
unfolding cookies add_cookies add_cookie split cut trim trim_start trim_end
cookies_read = refl

bearer_granted :
    authorize_mutation daemon times bearer started_db
    ≡ Authorization.granted (RequestAuthority.by_cli (owner_principal daemon))
unfolding authorize_mutation authorize_read parse_authorization after_prefix
bearer_granted = refl

not_waiting : launch_pending (given_again first_receipt) (read_snapshot started_db) ≡ false
unfolding launch_pending read_snapshot mark_running order_by is_active apply_command settle dispatch
    run_command submit_task submitted_bot submit_refusal insert_task submit_taken submit_rows
    is_active_run_status
not_waiting = refl

handle_command_again_example :
    handle_command daemon times bearer submit started_store
    ≡ (started_store, answer_of (given_again first_receipt) Flow.go)
handle_command_again_example =
    handle_command_again daemon times bearer submit
      (RequestAuthority.by_cli (owner_principal daemon)) submission empty_store submitted
      started_store first_receipt submitted_ok started_after bearer_granted refl refl refl
      not_waiting

apply_command_forever_example :
    apply_command test_env (request 900 (Command.submit_task task_command) 99) started_store
    ≡ (started_store, ok (given_again first_receipt))
apply_command_forever_example =
    apply_command_forever test_env submission (request 900 (Command.submit_task task_command) 99)
      empty_store submitted started_store first_receipt submitted_ok started_after refl refl refl

handle_command_protected_example :
    Refused daemon times from_tab submit submitted ⊎ Entitled daemon times from_tab submitted.db
handle_command_protected_example = handle_command_protected daemon times from_tab submit submitted

-- A run of the fake provider as it is submitted, and its one source.
abbrev fake_run : RunRow
fake_run = record first_run { frozen = record (first_run.frozen) { provider = ProviderKind.fake } }

abbrev fake_source : EvidenceRow
fake_source =
    record (submitted_evidence test_env submission (source_of task_command)
      (draw_command empty_db)) { byte_size = 1; content_digest = 5 }

abbrev fake_db : Db
fake_db = record one_run { runs = fake_run ∷ []; task_sources = fake_source ∷ [] }

abbrev source_text : String
source_text = "Write the brief\n\nRead-only CLI brief:\ndraft"

abbrev fake_input : EffectsInput
fake_input = record {
  receipt = first_receipt;
  command = Command.submit_task task_command;
  provider = ProviderKind.fake;
  execution_boundary = ExecutionBoundary.unverified_host_scratch;
  now_ms = 12;
  workspace_root = "root";
}

apply_receipt_effects-Brought_example :
    (db' : Db) × (apply_receipt_effects platform fake_input fake_db ≡ (db', Flow.go))
    × Brought platform
        (launch_input fake_input ProviderKind.fake 1 fake_run source_text)
        fake_db
        db'
unfolding is_active_run_status read_snapshot order_by provider_brief task_brief source_brief
    constraint_block read_verified_file within read_placed read_opened read_all
apply_receipt_effects-Brought_example =
    apply_receipt_effects-Brought platform fake_input 3 1 fake_run source_text fake_db refl refl
      refl refl refl refl refl refl refl refl refl refl refl refl refl refl

abbrev draws : Draws
draws = record { first = "first"; second = "second" }

respond_guarded_example :
    Declined submitted
      (respond daemon times draws from_tab (Request.status_request false) submitted)
    ⊎ Warranted daemon times from_tab submitted.db (Request.status_request false)
respond_guarded_example =
    respond_guarded daemon times draws from_tab (Request.status_request false) submitted
