-- ===== src/Drive.antt =====
-- packages/cli/src/engine.ts: what the daemon does after a command has been committed. The two provider adapters are
-- parameters; the fake provider is modelled.
pub mod Fake
pub mod Reactions
pub mod Effects
use Prim.Native.String.{String, ◌++◌}
use text.Mathlib.Text.{◌==◌ as str_eq}
use agentis.Failure.{classify_failure}
use agentis.Engine.Outcome.{CompleteInput, complete, fail}
use agentis.Snapshot.{Snapshot}
use agentis.Engine.{provider_state, is_active}
use agentis.Engine.Waiting.{wait_approval, wait_input, WaitApprovalInput}
use agentis.Engine.Progress.{mark_running, bump_action}
use agentis.VerifiedFile.{read_verified_file, FileSystem}
use agentis.Prelude.{
  ◌>>=◌, ◌==◌, err, find_by, ℕ, ◌&&◌, or_else, [], some, ok, none, Option, not, Result, ◌∷◌, Bool,
  if◌then◌else◌, List,
}
use agentis.StoreDb.{Env, Db}
use agentis.Schema.{
  LoadStatus, is_codex, RunRow, ExecutionBoundary, Decision, is_loading, is_fake, EvidenceRow,
  ProviderState, TaskRow, ProviderKind, FixtureKind, Ident,
}

pub record DriveInput : Type 0 where
  pub run_id : Ident
  pub task_id : Ident
  pub fixture : Option FixtureKind
  pub provider : ProviderKind
  pub execution_boundary : ExecutionBoundary
  pub workspace : String
  pub workspace_root : String
  pub now_ms : ℕ
  pub brief : String
  pub load_session : Bool

-- The calls of the adapters.
pub data ProviderCall : Type 0 where
  spawn : DriveInput → ProviderCall
  resolve_approval_call : ProviderKind → (run_id : Ident) → Decision → ProviderCall
  answer_input_call :
      ProviderKind → (run_id : Ident) → (answers : List (String × String)) → ProviderCall
  interrupt : ProviderKind → (run_id : Ident) → Option ExecutionBoundary → ProviderCall
  interrupt_all : ProviderKind → ProviderCall

-- How an action ends: it goes on, it returns, or it throws an error with this text.
pub data Flow : Type 0 where
  go halt : Flow
  threw : String → Flow

abbrev pub Act : Type 0
Act = Db → Db × Flow

-- The platform and the adapters. `fake_session` is 'fake:<run id>', `artifact_path` is the path of 'hello.md' in a
-- workspace, and `clock` is what `Date.now()` gives while the action runs.
-- The errors of the file system have a text of the model's own.
pub record Platform : Type 0 where
  pub env : Env
  pub makes_directory : String → Bool
  pub fake_session : Ident → Ident
  pub artifact_path : String → String
  pub clock : ℕ
  pub provider : ProviderCall → Act

-- What follows an action that goes on.
abbrev pub and_then : Db × Flow → Act → Db × Flow
and_then (db, Flow.go) act = act db
and_then (db, Flow.halt) act = (db, Flow.halt)
and_then (db, Flow.threw e) act = (db, Flow.threw e)

abbrev pub returned : Db × Flow → Db × Flow
returned (db, Flow.go) = (db, Flow.halt)
returned (db, Flow.halt) = (db, Flow.halt)
returned (db, Flow.threw e) = (db, Flow.threw e)

abbrev pub caught : Db × Flow → (String → Act) → Db × Flow
caught (db, Flow.go) handler = (db, Flow.go)
caught (db, Flow.halt) handler = (db, Flow.halt)
caught (db, Flow.threw e) handler = handler e db

-- One action after another.
abbrev pub followed_by : Act → Act → Act
followed_by first second db = and_then (first db) second

abbrev pub then_return : Act → Act
then_return act db = returned (act db)

-- `try … catch`.
abbrev pub catching : Act → (String → Act) → Act
catching act handler db = caught (act db) handler

abbrev pub skip : Act
skip db = (db, Flow.go)

-- A transaction of the engine, which is rolled back if it throws.
abbrev pub committed : Db → Result Db → Db × Flow
committed db (ok db') = (db', Flow.go)
committed db (err e) = (db, Flow.threw e.message)

unfoldable pub transaction : (Db → Result Db) → Act
transaction f db = committed db (f db)

abbrev pub second_part {ℓ} : {A : Type ℓ} → (Db → Result (A × Db)) → Db → Result Db
second_part f db = do r ← f db; ok r.1

-- `constraintBlock`.
unfoldable pub constraint_lines : List String → String
constraint_lines [] = ""
constraint_lines (c ∷ []) = "- " ++ c
constraint_lines (c ∷ d ∷ rest) = "- " ++ (c ++ ("\n" ++ constraint_lines (d ∷ rest)))

unfoldable pub constraint_block : List String → String
unfolding constraint_lines
constraint_block [] = ""
constraint_block (c ∷ cs) = "\n\nOperator constraints:\n" ++ constraint_lines (c ∷ cs)

pub data ProviderBrief : Type 0 where
  briefed : String → ProviderBrief
  unverified : String → ProviderBrief

abbrev pub head : List Ident → Option Ident
head [] = none
head (x ∷ xs) = some x

abbrev pub run_in : Ident → Snapshot → Option RunRow
run_in run_id s = find_by (λ r. r.id == run_id) s.runs

-- The text for a provider from the source of a task, as it was materialised.
unfoldable pub source_brief : TaskRow → EvidenceRow → (text : String) → String
unfolding constraint_block
source_brief task evidence text =
    if str_eq evidence.label "CLI brief" && str_eq text task.brief
    then task.brief ++ constraint_block task.constraints
    else task.outcome
      ++ (constraint_block task.constraints
          ++ ("\n\nRead-only " ++ (evidence.label ++ (":\n" ++ text))))

unfoldable pub task_brief :
    FileSystem → (workspace_root : String) → TaskRow → EvidenceRow → ProviderBrief
unfolding source_brief
task_brief fs workspace_root task evidence =
    elim (read_verified_file fs (record {
      path = evidence.path;
      root = workspace_root;
      byte_size = evidence.byte_size;
      sha256 = evidence.content_digest;
    })) [
      | none ↦ ProviderBrief.unverified "materialized source is missing or changed"
      | some bytes ↦ ProviderBrief.briefed (source_brief task evidence (fs.utf8 bytes))
    ]

unfoldable pub provider_brief : FileSystem → Snapshot → (run_id : Ident) → String → ProviderBrief
unfolding task_brief
provider_brief fs s run_id workspace_root = elim (run_in run_id s) [
  | none ↦ ProviderBrief.briefed ""
  | some run ↦ elim (find_by (λ t. t.id == run.task_id) s.tasks) [
    | none ↦ ProviderBrief.briefed ""
    | some task ↦ elim (head task.evidence) [
      | none ↦ ProviderBrief.briefed task.brief
      | some evidence_id ↦ elim (find_by (λ e. e.id == evidence_id) s.evidence) [
        | none ↦ ProviderBrief.briefed task.brief
        | some evidence ↦ task_brief fs workspace_root task evidence
      ]
    ]
  ]
]

abbrev pub failed_load : String → ProviderState → ProviderState
failed_load error state =
    if is_loading state.load_status
    then record state {
      failure = some (classify_failure error);
      failure_detail = some error;
      pending_prompt = none;
      load_status = LoadStatus.failed;
    }
    else state

-- `failRun`.
unfoldable pub fail_run : Platform → (run_id task_id : Ident) → (error : String) → Act
unfolding transaction
fail_run p run_id task_id error db =
    if is_active run_id db
    then transaction (fail p.env run_id task_id error p.clock) db
    else (provider_state run_id (failed_load error) db, Flow.go)
