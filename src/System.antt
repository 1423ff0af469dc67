-- ===== src/System.antt =====
-- The store as a whole: every transaction that the daemon runs on it is a step.
pub mod Moves
pub mod Safety
pub mod Latch
pub mod Reports
use agentis.Prelude.{[], ℕ, Bool, Option, ok, List, ◌≡◌}
use Prim.Native.String.{String}
use agentis.Schema.{Ident, ProviderKind, SourceKind, ProviderState, ApplyInput}
use agentis.StoreDb.{Db, Env, empty_db}
use agentis.Commands.Dispatch.{Store, apply_command}
use agentis.Engine.{provider_state, engine_claim_draft}
use agentis.Engine.Progress.{mark_running, bump_action, peer_progress}
use agentis.Engine.Waiting.{WaitApprovalInput, wait_approval, wait_input}
use agentis.Engine.Outcome.{CompleteInput, complete, fail}
use agentis.Handoff.Decide.{decide_handoff}
use agentis.Sweep.{SweepEffects, sweep_run_timeouts, interrupt_active}
use agentis.Browser.{ExchangeInput, issue_bootstrap, exchange_bootstrap, acknowledge_setup}
use agentis.Runs.Engine.{StartsNoLoad}

-- A transaction that committed. One that throws changes nothing, so it is no step, but for
-- `applyCommand`, whose steps include its refusals and replays.
pub data Step (env : Env) (s : Store) : Store → Type 0 where
  applies : (input : ApplyInput) → Step env s (apply_command env input s).0
  marks_running :
      (run_id session_id : Ident) (now : ℕ)
      → Step env s (record s { db = (mark_running env run_id session_id now s.db).1 })
  decides :
      (run_id session_id : Ident) (text : String) (now : ℕ) (accepted : Bool) (db' : Db)
      → decide_handoff env run_id session_id text now s.db ≡ ok (accepted, db')
      → Step env s (record s { db = db' })
  claims : (run_id : Ident) → Step env s (record s { db = (engine_claim_draft run_id s.db).1 })
  reports_progress :
      (run_id : Ident) (body : String) (now : ℕ) (db' : Db)
      → peer_progress env run_id body now s.db ≡ ok db'
      → Step env s (record s { db = db' })
  reports_state :
      (run_id : Ident) (change : ProviderState → ProviderState)
      → StartsNoLoad run_id change s.db
      → Step env s (record s { db = provider_state run_id change s.db })
  bumps :
      (run_id task_id : Ident) → Step env s (record s { db = (bump_action run_id task_id s.db).1 })
  waits_approval :
      (input : WaitApprovalInput) (approval_id : Option Ident) (db' : Db)
      → wait_approval env input s.db ≡ ok (approval_id, db')
      → Step env s (record s { db = db' })
  waits_input :
      (run_id : Ident) (prompt : String) (now : ℕ) (db' : Db)
      → wait_input env run_id prompt now s.db ≡ ok db'
      → Step env s (record s { db = db' })
  completes :
      (input : CompleteInput) (artifact_id : Option Ident) (db' : Db)
      → complete env input s.db ≡ ok (artifact_id, db')
      → Step env s (record s { db = db' })
  fails :
      (run_id task_id : Ident) (error : String) (now : ℕ) (db' : Db)
      → fail env run_id task_id error now s.db ≡ ok db'
      → Step env s (record s { db = db' })
  sweeps :
      (now : ℕ) (effects : SweepEffects) (db' : Db)
      → sweep_run_timeouts env now s.db ≡ ok (effects, db')
      → Step env s (record s { db = db' })
  interrupts : (now : ℕ) → Step env s (record s { db = (interrupt_active env now s.db).1 })
  issues :
      (code_hash owner_session : Ident) (now expires_at : ℕ) (db' : Db)
      → issue_bootstrap code_hash owner_session now expires_at s.db ≡ ok (tt, db')
      → Step env s (record s { db = db' })
  exchanges :
      (input : ExchangeInput) (accepted : Bool) (db' : Db)
      → exchange_bootstrap input s.db ≡ ok (accepted, db')
      → Step env s (record s { db = db' })
  acknowledges :
      (token_hash : Ident) (provider : ProviderKind) (kinds : List SourceKind) (now : ℕ)
      → Step env s (record s { db = (acknowledge_setup env token_hash provider kinds now s.db).1 })

-- Any number of steps, one after another.
pub data Steps (env : Env) : Store → Store → Type 0 where
  done : {s : Store} → Steps env s s
  next : {s t u : Store} → Step env s t → Steps env t u → Steps env s u

-- The store of a new workspace.
abbrev pub empty_store : Store
empty_store = record { db = empty_db; files = [] }
