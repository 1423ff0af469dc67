-- ===== src/Http/Command.antt =====
-- The handler `command` of packages/cli/src/http-api.ts.
use agentis.Drive.Reactions.{EffectsInput}
use agentis.Drive.{Flow}
use agentis.Http.Authority.{authorize_mutation, Times}
use agentis.Drive.Effects.{apply_receipt_effects}
use agentis.Http.{Headers, ApiError, Authorization, Dependencies, RequestAuthority}
use agentis.Commands.Dispatch.{apply_command, Store}
use agentis.Schema.{ApplyInput, Principal, Ident, CommandReceipt, Command}
use agentis.Prelude.{ok, or_else, err, not, true, false, Result, if◌then◌else◌, ◌&&◌, Bool}

pub record CommandPayload : Type 0 where
  pub idempotency_key : Ident
  pub command : Command

-- A receipt is sent as a success or as a failure, as it says.
pub data Answer : Type 0 where
  succeeded failed : CommandReceipt → Answer
  failed_with : ApiError → Answer

abbrev pub principal_of : RequestAuthority → Principal
principal_of (RequestAuthority.by_cli principal) = principal
principal_of (RequestAuthority.by_browser principal token_hash) = principal

abbrev pub is_browser : RequestAuthority → Bool
is_browser (RequestAuthority.by_cli principal) = false
is_browser (RequestAuthority.by_browser principal token_hash) = true

abbrev pub is_submit_task : Command → Bool
is_submit_task (Command.submit_task c) = true
is_submit_task _ = false

abbrev pub apply_input : Dependencies → Times → CommandPayload → RequestAuthority → ApplyInput
apply_input d t payload authority = record {
  principal = principal_of authority;
  idempotency_key = payload.idempotency_key;
  command = payload.command;
  now_ms = t.apply_ms;
  provider = d.provider;
  execution_boundary = d.execution_boundary;
  workspace_id = d.workspace;
}

abbrev pub effects_input : Dependencies → Times → CommandPayload → CommandReceipt → EffectsInput
effects_input d t payload receipt = record {
  receipt = receipt;
  command = payload.command;
  provider = d.provider;
  execution_boundary = d.execution_boundary;
  now_ms = t.effects_ms;
  workspace_root = d.workspace;
}

abbrev pub answer_of : CommandReceipt → Flow → Answer
answer_of receipt (Flow.threw e) = Answer.failed_with (ApiError.internal_error e)
answer_of receipt Flow.go =
    if receipt.accepted then Answer.succeeded receipt else Answer.failed receipt
answer_of receipt Flow.halt =
    if receipt.accepted then Answer.succeeded receipt else Answer.failed receipt

-- After the transaction: its effects, unless it failed.
unfoldable pub after_command :
    Dependencies → Times → CommandPayload → Store × Result CommandReceipt → Store × Answer
unfolding apply_receipt_effects
after_command d t payload (s, err e) = (s, Answer.failed_with (ApiError.store_failed e))
after_command d t payload (s, ok receipt) =
    let done = apply_receipt_effects d.platform (effects_input d t payload receipt) s.db in
    (record s { db = done.0 }, answer_of receipt done.1)

abbrev pub is_blocked : Dependencies → CommandPayload → RequestAuthority → Bool
is_blocked d payload authority =
    is_browser authority && is_submit_task payload.command && not (d.runtime true).eligible

unfoldable pub run_authorized :
    Dependencies → Times → CommandPayload → Store → RequestAuthority → Store × Answer
unfolding after_command
run_authorized d t payload s authority =
    if is_blocked d payload authority
    then (
      s,
      Answer.failed_with (
          ApiError.forbidden (
            or_else (d.runtime true).ineligible_reason
              "configured provider connection is not ready")),
    )
    else after_command d t payload
        (apply_command d.platform.env (apply_input d t payload authority) s)

abbrev pub if_authorized :
    Store → (RequestAuthority → Store × Answer) → Authorization → Store × Answer
if_authorized s f (Authorization.refused e) = (s, Answer.failed_with e)
if_authorized s f (Authorization.granted authority) = f authority

unfoldable pub handle_command :
    Dependencies → Times → Headers → CommandPayload → Store → Store × Answer
unfolding run_authorized
handle_command d t headers payload s =
    if_authorized s (run_authorized d t payload s) (authorize_mutation d t headers s.db)
