-- ===== src/Handoff.antt =====
-- packages/cli/src/handoff-store.ts: how Mara hands one task to Ivo, and how Ivo decides.
pub mod Propose
pub mod Decide
pub mod Accept
use Prim.Native.String.{String, ◌++◌}
use agentis.Prelude.{
  ℕ, Bool, true, false, not, ◌&&◌, Option, some, none, ◌==◌, if◌then◌else◌, find_by, update_where,
  Result, ok, err, ◌>>=◌,
}
use agentis.Schema.{
  Ident, ActionState, HandoffState, Bot, AuthorKind, AuthorName, MessageAuthorRole, MessageKind,
  MessageImportance, TransitionReason, DedupeKey, MessageBody, EventBody, HandoffRow,
  PendingActionRow, is_proposed, is_pending, handoff_state_text,
}
use agentis.StoreDb.{Db, Env, emit, message}
use agentis.Lifecycle.{FinishedRunStatus, FinishRunInput, finish_run}

-- `handoffForRun`.
abbrev pub handoff_for_run : Ident → Db → Option HandoffRow
handoff_for_run run_id db = find_by (λ h. h.recipient_run_id == run_id) db.handoffs

-- The author of a note: Mara proposes, Ivo answers.
abbrev pub note_author : HandoffState → AuthorName
note_author HandoffState.proposed = AuthorName.mara
note_author _ = AuthorName.ivo

abbrev pub note_role : HandoffState → MessageAuthorRole
note_role HandoffState.proposed = MessageAuthorRole.coordinator
note_role _ = MessageAuthorRole.specialist

abbrev pub note_bot : HandoffState → Bot
note_bot HandoffState.proposed = Bot.mara
note_bot _ = Bot.ivo

abbrev pub handoff_reason : HandoffState → TransitionReason
handoff_reason HandoffState.proposed = TransitionReason.handoff_proposed
handoff_reason HandoffState.accepted = TransitionReason.handoff_accepted
handoff_reason HandoffState.rejected = TransitionReason.handoff_rejected
handoff_reason HandoffState.expired = TransitionReason.handoff_expired

-- The body `Handoff ${state}: ${reason}`.
abbrev pub note_text : HandoffState → String → String
note_text state reason = "Handoff " ++ (handoff_state_text state ++ (": " ++ reason))

unfoldable pub note : Env → HandoffRow → HandoffState → String → ℕ → Db → Db
unfolding message emit
note env h state reason now db =
    emit env (handoff_reason state)
      (EventBody.handoff_noted h.id h.task_id h.thread_id h.recipient_run_id (note_bot state)
        reason)
      now
      (message env
        (record {
          thread_id = h.thread_id;
          task_id = h.task_id;
          run_id = some h.recipient_run_id;
          author_kind = AuthorKind.bot;
          author_name = note_author state;
          author_role = note_role state;
          kind = MessageKind.handoff;
          importance = MessageImportance.decision;
          dedupe_key = DedupeKey.handoff h.id state;
          body = MessageBody.text (note_text state reason);
          now_ms = now;
        })
        db).0

-- UPDATE handoffs SET state=? WHERE id=? AND state='proposed'.
abbrev pub set_handoff_state : Ident → HandoffState → Db → Db
set_handoff_state id state db = record db {
  handoffs =
      update_where (λ h. h.id == id && is_proposed h.state) (λ h. record h { state = state })
        db.handoffs;
}

-- UPDATE pending_actions SET state='canceled' WHERE run_id=? AND state='pending'.
abbrev pub cancel_pending_of : Ident → Db → Db
cancel_pending_of run_id db = record db {
  pending_actions =
      update_where (λ a. a.run_id == run_id && is_pending a.state)
        (λ a. record a { state = ActionState.canceled }) db.pending_actions;
}

-- What `rejectHandoff` gives to `finishRun`. The event is 'handoff_rejected' or 'handoff_expired'.
abbrev pub rejection :
    HandoffRow → Ident → HandoffState → FinishedRunStatus → String → ℕ → FinishRunInput
rejection h run_id state status reason now = record {
  run_id = run_id;
  status = status;
  now_ms = now;
  latest_artifact_id = none;
  message = record {
    author_kind = AuthorKind.bot;
    author_name = AuthorName.ivo;
    author_role = MessageAuthorRole.specialist;
    kind = MessageKind.handoff;
    importance = MessageImportance.decision;
    dedupe_key = DedupeKey.handoff h.id state;
    body = MessageBody.text (note_text state reason);
  };
  reason = handoff_reason state;
  event_body = EventBody.handoff_noted h.id h.task_id h.thread_id run_id Bot.ivo reason;
}

unfoldable pub reject_handoff :
    Env → Ident → HandoffState → FinishedRunStatus → String → ℕ → Db → Result (Bool × Db)
reject_handoff env run_id state status reason now db = elim (handoff_for_run run_id db) [
  | none ↦ ok (false, db)
  | some h ↦ if not (is_proposed h.state) then ok (false, db) else do
    db' ←
        finish_run env (rejection h run_id state status reason now)
          (set_handoff_state h.id state db)
    ok (true, cancel_pending_of run_id db')
]
