-- ===== src/Handoff/Decide.antt =====
-- `decideHandoff` and `claimDraft` of packages/cli/src/handoff-store.ts.
use Prim.Native.String.{String}
use agentis.Prelude.{
  StoreErrorCode, throw, any_by, ℕ, suc, Bool, true, false, not, ◌&&◌, ◌||◌, Option, some, none,
  ◌==◌, leb, if◌then◌else◌, update_where, count_by, insert_row, some_eq, Result, ok, ◌>>=◌,
}
use agentis.Schema.{
  Ident, RunStatus, ActionState, HandoffState, Bot, Role, TaskStatus, ActionKind, ActionPayload,
  TaskRow, HandoffRow, PendingActionRow, is_proposed, is_pending, is_mara, is_handoff_draft,
}
use agentis.Versions.{max_actions_per_task}
use agentis.StoreDb.{Db, Env, fresh}
use agentis.Lifecycle.{FinishedRunStatus, find_run, find_task}
use agentis.Handoff.{handoff_for_run, note, set_handoff_state, reject_handoff}

abbrev pub is_running : RunStatus → Bool
is_running RunStatus.running = true
is_running _ = false

-- The run and the task that the JOIN finds, if the run still waits for this decision.
abbrev pub deciding_task : Ident → Ident → Db → Option TaskRow
deciding_task run_id session_id db = elim (find_run run_id db) [
  | none ↦ none
  | some r ↦ elim (find_task r.task_id db) [
    | none ↦ none
    | some t ↦
        if not (is_running r.status)
          || not (some_eq r.provider_session_id session_id)
          || not (is_mara t.bot_name)
          || db.latched
        then none
        else some t
  ]
]

-- Reject, and answer that the handoff was not accepted.
abbrev pub refuse : Env → Ident → HandoffState → String → ℕ → Db → Result (Bool × Db)
refuse env run_id state reason now db = do
  (_, db') ← reject_handoff env run_id state FinishedRunStatus.failed reason now db
  ok (false, db')

-- The UPDATE of `tasks` by which Ivo becomes the owner.
abbrev pub transfer : Ident → ℕ → TaskRow → TaskRow
transfer run_id now t = record t {
  bot_name = Bot.ivo;
  bot_role = Role.specialist;
  status = TaskStatus.running;
  current_run_id = run_id;
  updated_at = now;
}

abbrev pub accept_tables : Env → HandoffRow → Ident → ℕ → Db → Db
accept_tables env h run_id now db = record db {
  drawn = suc db.drawn;
  handoffs = (set_handoff_state h.id HandoffState.accepted db).handoffs;
  tasks =
      update_where (λ t. t.id == h.task_id && is_mara t.bot_name) (transfer run_id now) db.tasks;
  pending_actions =
      insert_row
        (record {
          id = fresh env 0 db;
          run_id = run_id;
          kind = ActionKind.handoff_draft;
          state = ActionState.pending;
          payload = ActionPayload.for_handoff h.id;
          approval_id = none;
          created_at = now;
        })
        db.pending_actions;
}

-- The decision itself, once the answer is known to come from the run that was asked.
unfoldable pub apply_decision :
    Env → HandoffRow → Ident → TaskRow → Ident × Bool → ℕ → Db → Result (Bool × Db)
apply_decision env h run_id task (handoff_id, accepts) now db =
    if not (handoff_id == h.id)
    then refuse env run_id HandoffState.rejected "wrong handoff identity" now db
    else if not accepts
    then refuse env run_id HandoffState.rejected "recipient declined" now db
    else if leb max_actions_per_task task.action_count
    then refuse env run_id HandoffState.rejected "task action budget exhausted" now db
    else if any_by (λ a. a.id == fresh env 0 db) db.pending_actions
    then throw StoreErrorCode.internal "UNIQUE constraint failed"
    else ok (
      true,
      note env h HandoffState.accepted "ownership transferred from Mara to Ivo" now
          (accept_tables env h run_id now db),
    )

unfoldable pub decide_handoff :
    Env → Ident → (session_id : Ident) → (text : String) → ℕ → Db → Result (Bool × Db)
decide_handoff env run_id session_id text now db = elim (handoff_for_run run_id db) [
  | none ↦ ok (false, db)
  | some h ↦
      if not (is_proposed h.state)
      then ok (false, db)
      else if leb h.expires_at now
      then refuse env run_id HandoffState.expired "acceptance timed out" now db
      else elim (deciding_task run_id session_id db) [
        | none ↦ ok (false, db)
        | some task ↦ elim (env.decode_decision text) [
          | none ↦ refuse env run_id HandoffState.rejected "invalid acceptance response" now db
          | some decision ↦ apply_decision env h run_id task decision now db
        ]
      ]
]

abbrev is_draft_of : Ident → PendingActionRow → Bool
is_draft_of run_id a = a.run_id == run_id && is_handoff_draft a.kind && is_pending a.state

-- Whether exactly one draft action was claimed.
unfoldable pub claim_draft : Ident → Db → Bool × Db
claim_draft run_id db = (
  count_by (is_draft_of run_id) db.pending_actions == 1,
  record db {
    pending_actions =
        update_where (is_draft_of run_id) (λ a. record a { state = ActionState.claimed })
          db.pending_actions;
  },
)
