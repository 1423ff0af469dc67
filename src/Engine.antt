-- ===== src/Engine.antt =====
-- `mutateForEngine` of packages/cli/src/store.ts: the transactions by which a provider reports on its run.
pub mod Progress
pub mod Waiting
pub mod Outcome
pub mod Budget
pub mod Delivery
use Prim.Native.String.{String}
use agentis.Prelude.{
  ℕ, Bool, true, false, not, ◌&&◌, Option, some, none, ◌==◌, update_where, StoreErrorCode, Result,
  ok, err, if◌then◌else◌,
}
use agentis.Schema.{
  Ident, RunRow, Bot, Role, AuthorName, MessageAuthorRole, ProviderState, HandoffRow, is_loading,
  is_accepted,
}
use agentis.StoreDb.{Db}
use agentis.Lifecycle.{find_run, is_active_run_status}
use agentis.Handoff.{handoff_for_run}
use agentis.Handoff.Decide.{claim_draft}

-- `active`: the run exists, its status is active, and stop-all is not latched.
unfoldable pub is_active : Ident → Db → Bool
is_active run_id db = elim (find_run run_id db) [
  | none ↦ false
  | some r ↦ is_active_run_status r.status && not db.latched
]

unfoldable pub is_loading_run : Ident → Db → Bool
is_loading_run run_id db = elim (find_run run_id db) [
  | none ↦ false
  | some r ↦ is_loading r.provider_state.load_status && not db.latched
]

abbrev pub has_accepted_handoff : Ident → Db → Bool
has_accepted_handoff run_id db = elim (handoff_for_run run_id db) [
  | none ↦ false
  | some h ↦ is_accepted h.state
]

-- The draft action is claimed only by an active run whose handoff was accepted.
unfoldable pub engine_claim_draft : Ident → Db → Bool × Db
engine_claim_draft run_id db =
    if is_active run_id db && has_accepted_handoff run_id db
    then claim_draft run_id db
    else (false, db)

-- `runMessageContext`: the thread and the task of a run, and its bot as an author.
pub record MessageContext : Type 0 where
  pub thread_id : Ident
  pub task_id : Ident
  pub author_name : AuthorName
  pub author_role : MessageAuthorRole

abbrev pub author_of : Bot → AuthorName
author_of Bot.mara = AuthorName.mara
author_of Bot.ivo = AuthorName.ivo

abbrev pub author_role_of : Role → MessageAuthorRole
author_role_of Role.coordinator = MessageAuthorRole.coordinator
author_role_of Role.specialist = MessageAuthorRole.specialist

unfoldable pub run_message_context : Ident → Db → Result MessageContext
run_message_context run_id db = elim (find_run run_id db) [
  | none ↦ err (record {
    code = StoreErrorCode.internal;
    message = "run has no frozen config for a message";
    subject = some run_id;
  })
  | some r ↦ ok (record {
    thread_id = r.thread_id;
    task_id = r.task_id;
    author_name = author_of r.frozen.bot;
    author_role = author_role_of r.frozen.role;
  })
]

-- `providerState`: a run that is not there is left alone.
unfoldable pub provider_state : Ident → (ProviderState → ProviderState) → Db → Db
provider_state run_id change db = record db {
  runs =
      update_where (λ r. r.id == run_id)
        (λ r. record r { provider_state = change r.provider_state }) db.runs;
}
