-- ===== src/Engine/Waiting.antt =====
-- `waitApproval` and `waitInput` of `mutateForEngine` in packages/cli/src/store.ts.
use Prim.Native.String.{String, ◌++◌}
use agentis.Prelude.{
  ℕ, ◌+◌, true, not, ◌||◌, List, [], ◌∷◌, Option, some, none, ◌==◌, if◌then◌else◌, update_where,
  insert_row, any_by, StoreErrorCode, Result, ok, throw, ◌>>=◌,
}
use agentis.Schema.{
  Ident, RunStatus, WaitingReason, ActionState, ActionKind, ActionPayload, AuthorKind, MessageKind,
  MessageImportance, TransitionReason, DedupeKey, MessageBody, EventBody, RunRow, ApprovalRow,
}
use agentis.Versions.{approval_ttl_ms}
use agentis.StoreDb.{Db, Env, fresh, emit, message}
use agentis.Prompt.{PendingQuestion, public_pending_prompt}
use agentis.Engine.{is_active, MessageContext, run_message_context}

pub record WaitApprovalInput : Type 0 where
  pub run_id : Ident
  pub task_id : Ident
  pub tool : String
  pub argument_digest : Ident
  pub now_ms : ℕ

abbrev pub approval_row : RunRow → RunRow
approval_row r = record r {
  status = RunStatus.waiting_approval;
  waiting_reason = WaitingReason.approval;
}

abbrev pub requested_approval : Env → WaitApprovalInput → Db → ApprovalRow
requested_approval env input db = record {
  id = fresh env 0 db;
  run_id = input.run_id;
  task_id = input.task_id;
  state = ActionState.pending;
  tool = input.tool;
  argument_digest = input.argument_digest;
  expires_at = input.now_ms + approval_ttl_ms;
  resolver = none;
  created_at = input.now_ms;
}

-- Draws 0 and 1 are the approval and its action.
abbrev pub wait_approval_tables : Env → WaitApprovalInput → Db → Db
wait_approval_tables env input db = record db {
  drawn = db.drawn + 2;
  approvals = insert_row (requested_approval env input db) db.approvals;
  pending_actions =
      insert_row
        (record {
          id = fresh env 1 db;
          run_id = input.run_id;
          kind = ActionKind.tool;
          state = ActionState.pending;
          payload = ActionPayload.tool_name input.tool;
          approval_id = some (fresh env 0 db);
          created_at = input.now_ms;
        })
        db.pending_actions;
  runs = update_where (λ r. r.id == input.run_id) approval_row db.runs;
}

unfoldable pub request_approval : Env → WaitApprovalInput → MessageContext → Db → Db
unfolding message emit
request_approval env input context db =
    emit env TransitionReason.waiting_approval
      (EventBody.approval_wanted input.run_id (fresh env 0 db) input.tool) input.now_ms
      (message env
        (record {
          thread_id = context.thread_id;
          task_id = input.task_id;
          run_id = some input.run_id;
          author_kind = AuthorKind.bot;
          author_name = context.author_name;
          author_role = context.author_role;
          kind = MessageKind.approval;
          importance = MessageImportance.blocking;
          dedupe_key = DedupeKey.approval (fresh env 0 db);
          body = MessageBody.text ("Approval required for " ++ input.tool);
          now_ms = input.now_ms;
        })
        (wait_approval_tables env input db)).0

-- The approval's identifier, unless the run is no longer active.
unfoldable pub wait_approval : Env → WaitApprovalInput → Db → Result (Option Ident × Db)
wait_approval env input db =
    if not (is_active input.run_id db)
    then ok (none, db)
    else if any_by (λ a. a.id == fresh env 0 db) db.approvals
        || any_by (λ a. a.id == fresh env 1 db) db.pending_actions
    then throw StoreErrorCode.internal "UNIQUE constraint failed"
    else do
      context ← run_message_context input.run_id db
      ok (some (fresh env 0 db), request_approval env input context db)

-- `questions.map((question) => question.prompt).join("\n")`.
abbrev pub join_prompts : List PendingQuestion → String
join_prompts [] = ""
join_prompts (q ∷ []) = q.prompt
join_prompts (q ∷ r ∷ rest) = q.prompt ++ ("\n" ++ join_prompts (r ∷ rest))

abbrev pub prompt_body : Env → String → String
prompt_body env prompt = elim (public_pending_prompt env.parse_json true (some prompt)) [
  | none ↦ prompt
  | some questions ↦ join_prompts questions
]

abbrev pub input_row : RunRow → RunRow
input_row r = record r { status = RunStatus.waiting_input; waiting_reason = WaitingReason.input }

unfoldable pub request_input : Env → Ident → String → ℕ → MessageContext → Db → Db
unfolding message emit
request_input env run_id prompt now context db =
    emit env TransitionReason.waiting_input (EventBody.input_wanted run_id prompt) now
      (message env
        (record {
          thread_id = context.thread_id;
          task_id = context.task_id;
          run_id = some run_id;
          author_kind = AuthorKind.bot;
          author_name = context.author_name;
          author_role = context.author_role;
          kind = MessageKind.question;
          importance = MessageImportance.blocking;
          dedupe_key = DedupeKey.question run_id (env.text_digest prompt);
          body = MessageBody.text (prompt_body env prompt);
          now_ms = now;
        })
        (record db { runs = update_where (λ r. r.id == run_id) input_row db.runs })).0

unfoldable pub wait_input : Env → Ident → (prompt : String) → ℕ → Db → Result Db
wait_input env run_id prompt now db = if not (is_active run_id db) then ok db else do
  context ← run_message_context run_id db
  ok (request_input env run_id prompt now context db)
