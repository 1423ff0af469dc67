-- ===== src/System/Reports.antt =====
-- What a provider can still report on a run that is not active.
use Prim.Native.String.{String}
use agentis.Handoff.Accept.{decide_handoff_lem}
use agentis.Handoff.Decide.{decide_handoff}
use agentis.Handoff.{handoff_for_run}
use agentis.Prelude.{
  ◌==◌, find_by-update_where, Bool-cases, ℕ, ◌≡◌, refl, true, false, some, none, arith, ok,
  Option-cases, inl, inr,
}
use agentis.Schema.{ProviderState, Ident, RunRow, is_accepted}
use agentis.StoreDb.{Db, Env}
use agentis.Commands.Dispatch.{Store}
use agentis.Lifecycle.{find_run, is_active_run_status}
use agentis.Engine.{provider_state, is_active, engine_claim_draft}
use agentis.Engine.Progress.{mark_running, bump_action, peer_progress}
use agentis.Engine.Waiting.{wait_approval, wait_input}
use agentis.Engine.Outcome.{complete, fail}
use agentis.Runs.Persists.{Kept}
use agentis.System.{Steps, empty_store}
use agentis.System.Safety.{reachable_run-Kept}

-- What the ten reports on a run can still do. Eight are answered as reports that came too late, and write nothing;
-- an answer to a proposal does not accept it, and a report of the provider's state leaves the run inactive.
pub record Ignored (env : Env) (run_id : Ident) (db : Db) : Type 0 where
  pub no_start :
      (session_id : Ident) (now : ℕ) → mark_running env run_id session_id now db ≡ (false, db)
  pub no_action : (task_id : Ident) → bump_action run_id task_id db ≡ (true, db)
  pub no_claim : engine_claim_draft run_id db ≡ (false, db)
  pub no_progress : (body : String) (now : ℕ) → peer_progress env run_id body now db ≡ ok db
  pub no_question : (prompt : String) (now : ℕ) → wait_input env run_id prompt now db ≡ ok db
  pub no_failure :
      (task_id : Ident) (error : String) (now : ℕ) → fail env run_id task_id error now db ≡ ok db
  pub no_approval :
      (task_id : Ident) (tool : String) (digest : Ident) (now : ℕ)
      → wait_approval env
          (record {
            run_id = run_id;
            task_id = task_id;
            tool = tool;
            argument_digest = digest;
            now_ms = now;
          })
          db
        ≡ ok (none, db)
  pub no_result :
      (task_id : Ident) (source media_type : String) (digest : Ident) (size : ℕ) (path : String)
      (now : ℕ)
      → complete env
          (record {
            run_id = run_id;
            task_id = task_id;
            source = source;
            media_type = media_type;
            sha256 = digest;
            byte_size = size;
            path = path;
            now_ms = now;
          })
          db
        ≡ ok (none, db)
  pub no_acceptance :
      (session_id : Ident) (text : String) (now : ℕ) (db' : Db)
      → ¬ (decide_handoff env run_id session_id text now db ≡ ok (true, db'))
  pub no_revival :
      (change : ProviderState → ProviderState)
      → is_active run_id (provider_state run_id change db) ≡ false

peer_progress-inactive :
    (env : Env) (run_id : Ident) (body : String) (now : ℕ) (db : Db)
    → is_active run_id db ≡ false
    → peer_progress env run_id body now db ≡ ok db
unfolding peer_progress
peer_progress-inactive env run_id body now db h = elim (Option-cases (handoff_for_run run_id db)) [
  | inl e ↦ rw (peer_progress, e) refl
  | inr (handoff, e) ↦ elim (Bool-cases (is_accepted handoff.state)) [
    | inl a ↦ rw (peer_progress, e, a, h) refl
    | inr a ↦ rw (peer_progress, e, a) refl
  ]
]

decide_handoff-inactive :
    (env : Env) (run_id session_id : Ident) (text : String) (now : ℕ) (db db' : Db)
    → is_active run_id db ≡ false
    → ¬ (decide_handoff env run_id session_id text now db ≡ ok (true, db'))
unfolding is_active is_active_run_status
decide_handoff-inactive env run_id session_id text now db db' h e =
    let a = decide_handoff_lem env run_id session_id text now db db' e in
    absurd (ground (arith, h, a.run_found, a.running, a.not_latched))

provider_state-inactive :
    (run_id : Ident) (change : ProviderState → ProviderState) (db : Db)
    → is_active run_id db ≡ false
    → is_active run_id (provider_state run_id change db) ≡ false
unfolding is_active provider_state
provider_state-inactive run_id change db h = ground (
  arith,
  h,
  find_by-update_where (λ r. r.id == run_id) (λ r. r.id == run_id)
      (λ r. record r { provider_state = change r.provider_state }) db.runs (λ r. refl),
)

inactive-Ignored :
    (env : Env) (run_id : Ident) (db : Db) → is_active run_id db ≡ false → Ignored env run_id db
unfolding mark_running bump_action engine_claim_draft wait_input wait_approval complete fail
inactive-Ignored env run_id db h = record {
  no_start = λ session_id now. rw (mark_running, h) refl;
  no_action = λ task_id. rw (bump_action, h) refl;
  no_claim = rw (engine_claim_draft, h) refl;
  no_progress = λ body now. peer_progress-inactive env run_id body now db h;
  no_question = λ prompt now. rw (wait_input, h) refl;
  no_failure = λ task_id error now. rw (fail, h) refl;
  no_approval = λ task_id tool digest now. rw (wait_approval, h) refl;
  no_result = λ task_id source media_type digest size path now. rw (complete, h) refl;
  no_acceptance =
      λ session_id text now db'. decide_handoff-inactive env run_id session_id text now db db' h;
  no_revival = λ change. provider_state-inactive run_id change db h;
}

stays-inactive :
    (id : Ident) (r r' : RunRow) (db : Db)
    → is_active_run_status r.status ≡ false
    → find_run id db ≡ some r'
    → Kept r r'
    → is_active id db ≡ false
unfolding is_active
stays-inactive id r r' db h e k = ground (arith, e, k.stays_inactive)

-- Once a run of a reachable store is not active (it has ended or was interrupted), then after any
-- transactions it cannot be started, take an action, claim its draft, say something, ask, fail, request
-- an approval or deliver a result: each of these eight reports is answered as one that came too late, and
-- leaves the database as it is. The two other reports may still write, but no answer accepts a handoff for
-- the run, and no report of the provider's state makes it active.
pub inactive_run-Ignored :
    (env : Env) (s t : Store) (id : Ident) (r : RunRow)
    → Steps env empty_store s
    → Steps env s t
    → find_run id s.db ≡ some r
    → is_active_run_status r.status ≡ false
    → Ignored env id t.db
inactive_run-Ignored env s t id r before after e h =
    let (r', e', k) = reachable_run-Kept env s t id r before after e in
    inactive-Ignored env id t.db (stays-inactive id r r' t.db h e' k)
