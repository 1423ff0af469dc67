-- ===== src/Commands/Control.antt =====
-- `answerInput`, `cancelRun` and `stopAll` of packages/cli/src/store.ts.
use Prim.Native.String.{String, ◌++◌}
use agentis.Prelude.{
  ℕ, Bool, true, false, not, ◌&&◌, ◌||◌, List, [], ◌∷◌, some, none, ◌==◌, if◌then◌else◌, map,
  filter_by, update_where, Result, ok, ◌>>=◌,
}
use agentis.Schema.{
  Ident, RunStatus, WaitingReason, ActionState, HandoffState, LoadStatus, Effect, AuthorKind,
  AuthorName, MessageAuthorRole, MessageKind, MessageImportance, TransitionReason, DedupeKey,
  MessageBody, EventBody, RunRow, CommandReceipt, ApplyInput, is_pending, is_allowed, is_loading,
  run_status_text,
}
use agentis.StoreDb.{Db, Env, emit, message}
use agentis.Receipts.{denied, accepted}
use agentis.Lifecycle.{
  FinishedRunStatus, FinishRunInput, finish_run, find_run, is_active_run_status,
  is_finished_run_status,
}
use agentis.Handoff.{reject_handoff}

abbrev pub is_waiting_input : RunStatus → Bool
is_waiting_input RunStatus.waiting_input = true
is_waiting_input _ = false

abbrev pub answered_row : RunRow → RunRow
answered_row r = record r {
  status = RunStatus.running;
  waiting_reason = WaitingReason.none;
  provider_state = record (r.provider_state) { pending_prompt = none };
}

abbrev pub about_run : Ident → RunRow → List Effect → CommandReceipt
about_run command_id r effects = record (accepted command_id effects) {
  run_id = some r.id;
  task_id = some r.task_id;
}

-- An answer that a run waits for: the run goes on.
unfoldable pub record_answer : Env → Ident → ApplyInput → RunRow → List (String × String) → Db → Db
unfolding message emit
record_answer env command_id input r answers db =
    emit env TransitionReason.input_answered (EventBody.input_given r.id answers command_id)
      input.now_ms
      (message env
        (record {
          thread_id = r.thread_id;
          task_id = r.task_id;
          run_id = some r.id;
          author_kind = AuthorKind.human;
          author_name = AuthorName.owner;
          author_role = MessageAuthorRole.operator;
          kind = MessageKind.answer;
          importance = MessageImportance.decision;
          dedupe_key = DedupeKey.input_answer command_id;
          body = MessageBody.answers answers;
          now_ms = input.now_ms;
        })
        (record db { runs = update_where (λ x. x.id == r.id) answered_row db.runs })).0

unfoldable pub answer_input :
    Env
    → Ident
    → ApplyInput
    → (run_id : Ident) → List (String × String)
    → Db
    → Result (CommandReceipt × Db)
answer_input env command_id input run_id answers db =
    let refusal : CommandReceipt = record (denied command_id "run is not waiting for input") {
      run_id = some run_id;
    } in
    elim (find_run run_id db) [
      | none ↦ ok (refusal, db)
      | some r ↦
          if not (is_waiting_input r.status)
          then ok (refusal, db)
          else ok (
            about_run command_id r (Effect.resume_input ∷ []),
            record_answer env command_id input r answers db,
          )
    ]

-- What a cancellation gives to `finishRun`: by the owner, or by stop-all.
abbrev pub cancellation : Ident → DedupeKey → String → Ident → ℕ → FinishRunInput
cancellation run_id key text command_id now = record {
  run_id = run_id;
  status = FinishedRunStatus.canceled;
  now_ms = now;
  latest_artifact_id = none;
  message = record {
    author_kind = AuthorKind.system;
    author_name = AuthorName.agentis_name;
    author_role = MessageAuthorRole.system;
    kind = MessageKind.system;
    importance = MessageImportance.blocking;
    dedupe_key = key;
    body = MessageBody.text text;
  };
  reason = TransitionReason.run_canceled;
  event_body = EventBody.run_ended run_id command_id;
}

-- UPDATE pending_actions SET state='canceled' WHERE run_id=? AND state IN ('pending','allowed').
abbrev pub cancel_actions_of : Ident → Db → Db
cancel_actions_of run_id db = record db {
  pending_actions =
      update_where (λ a. a.run_id == run_id && (is_pending a.state || is_allowed a.state))
        (λ a. record a { state = ActionState.canceled }) db.pending_actions;
}

-- The three steps that `cancelRun` and `stopAll` share: reject the handoff, finish, cancel actions.
unfoldable pub cancel_one :
    Env → Ident → DedupeKey → (reason text : String) → Ident → ℕ → Db → Result Db
cancel_one env run_id key reason text command_id now db = do
  (_, db₁) ←
      reject_handoff env run_id HandoffState.rejected FinishedRunStatus.canceled reason now db
  db₂ ← finish_run env (cancellation run_id key text command_id now) db₁
  ok (cancel_actions_of run_id db₂)

-- UPDATE approvals SET state='canceled' WHERE run_id=? AND state='pending'.
abbrev pub cancel_approvals_of : Ident → Db → Db
cancel_approvals_of run_id db = record db {
  approvals =
      update_where (λ a. a.run_id == run_id && is_pending a.state)
        (λ a. record a { state = ActionState.canceled }) db.approvals;
}

unfoldable pub cancel_run :
    Env → Ident → ApplyInput → (run_id : Ident) → Db → Result (CommandReceipt × Db)
cancel_run env command_id input run_id db = elim (find_run run_id db) [
  | none ↦ ok (record (denied command_id "run not found") { run_id = some run_id }, db)
  | some r ↦
      if is_finished_run_status r.status
      then ok (
        record (denied command_id ("run already " ++ run_status_text r.status)) {
          run_id = some run_id;
        },
        db,
      )
      else do
        db' ←
            cancel_one env run_id (DedupeKey.run_canceled run_id) "owner canceled before acceptance"
              "The owner canceled this run." command_id input.now_ms db
        ok (about_run command_id r (Effect.interrupt_provider ∷ []), cancel_approvals_of run_id db')
]

-- The `for` loop of `stopAll`, over the runs that were active when it began.
unfoldable pub cancel_all : Env → Ident → ℕ → List Ident → Db → Result Db
cancel_all env command_id now [] db = ok db
cancel_all env command_id now (id ∷ ids) db =
    cancel_one env id (DedupeKey.stop_all id) "stop-all before acceptance"
      "Stop all canceled this run." command_id now db
    >>= cancel_all env command_id now ids

abbrev pub active_ids : Db → List Ident
active_ids db = map (λ r. r.id) (filter_by (λ r. is_active_run_status r.status) db.runs)

-- UPDATE runs SET loadStatus='failed' WHERE loadStatus='loading'.
abbrev pub fail_loading : Db → Db
fail_loading db = record db {
  runs =
      update_where (λ r. is_loading r.provider_state.load_status)
        (λ r. record r {
          provider_state = record (r.provider_state) { load_status = LoadStatus.failed };
        })
        db.runs;
}

abbrev pub latch : ℕ → Db → Db
latch now db = record db { latched = true; latch_updated_at = now }

abbrev pub cancel_approvals : Db → Db
cancel_approvals db = record db {
  approvals =
      update_where (λ a. is_pending a.state) (λ a. record a { state = ActionState.canceled })
        db.approvals;
}

unfoldable pub stop_all : Env → Ident → ApplyInput → Db → Result (CommandReceipt × Db)
stop_all env command_id input db = do
  db' ← cancel_all env command_id input.now_ms (active_ids db) (latch input.now_ms db)
  ok (
    accepted command_id (Effect.interrupt_provider ∷ []),
    emit env TransitionReason.stop_all (EventBody.runs_stopped (active_ids db) command_id)
        input.now_ms (fail_loading (cancel_approvals db')),
  )
