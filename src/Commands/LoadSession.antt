-- ===== src/Commands/LoadSession.antt =====
-- The case 'load_session' of `dispatch` in packages/cli/src/store.ts.
use agentis.Prelude.{
  Bool, not, ◌||◌, [], ◌∷◌, some, none, ◌==◌, leb, is_some, if◌then◌else◌, update_where, Result, ok,
}
use agentis.Schema.{
  Ident, LoadStatus, Effect, ErrorCode, RunRow, CommandReceipt, is_fake, is_loading,
}
use agentis.Versions.{max_active_runs, max_active_runs_per_bot}
use agentis.StoreDb.{Db}
use agentis.Receipts.{denied, denied_as, accepted}
use agentis.Lifecycle.{find_run, is_active_run_status, active_total, active_of}

abbrev pub loading_row : RunRow → RunRow
loading_row r = record r {
  provider_state = record (r.provider_state) { load_status = LoadStatus.loading };
}

abbrev no_session : Ident → CommandReceipt
no_session command_id =
    denied command_id "session loading requires an inactive run with a provider session"

-- Whether stop-all, this run's own load, or the runs that are active or loading stand in the way.
unfoldable pub load_blocked : RunRow → Db → Bool
load_blocked r db =
    db.latched
    || is_loading r.provider_state.load_status
    || leb max_active_runs (active_total db.runs)
    || leb max_active_runs_per_bot (active_of r.frozen.bot db.runs)

unfoldable pub load_session : Ident → (run_id : Ident) → Db → Result (CommandReceipt × Db)
load_session command_id run_id db = elim (find_run run_id db) [
  | none ↦ ok (no_session command_id, db)
  | some r ↦
      if not (is_some r.provider_session_id) || is_active_run_status r.status
      then ok (no_session command_id, db)
      else if is_fake r.frozen.provider
      then ok (
        denied_as command_id ErrorCode.unsupported_provider
            "unsupported-provider: fake has no sessions",
        db,
      )
      else if load_blocked r db
      then ok
          (denied command_id "session load blocked by stop-all or active provider operation", db)
      else ok (
        record (accepted command_id (Effect.load_session ∷ [])) {
          run_id = some run_id;
          task_id = some r.task_id;
        },
        record db { runs = update_where (λ x. x.id == run_id) loading_row db.runs },
      )
]
