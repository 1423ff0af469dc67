-- ===== src/Http/Again.antt =====
-- A command that is sent again, over HTTP.
use agentis.Drive.Effects.Replayed.{replayed_effects}
use agentis.Journal.Forever.{apply_command_forever}
use agentis.Http.Protected.{Entitled, authorize_mutation-Justified, Justified}
use agentis.Drive.{Flow}
use agentis.Snapshot.{read_snapshot}
use agentis.Drive.Effects.{launch_pending}
use agentis.Http.Command.{effects_input, apply_input, is_blocked, answer_of}
use agentis.System.{Steps}
use agentis.Commands.Dispatch.{apply_command, Store}
use agentis.Http.Authority.{authorize_mutation, Times}
use agentis.Http.{Authorization, RequestAuthority, Headers, Dependencies}
use agentis.Http.Command.{CommandPayload, after_command, run_authorized, handle_command}
use agentis.Schema.{ApplyInput, CommandReceipt}
use agentis.Prelude.{subst, ok, ◌≡◌, refl, true, false, []}

-- The answer to a command that was answered before.
abbrev pub given_again : CommandReceipt → CommandReceipt
given_again receipt = record receipt { replayed = true; effects = [] }

-- Once a command has been answered, then after any number of later transactions a request with the same key and the
-- same payload digest that is authorized, that is no submission from a browser while the provider is not ready, and
-- whose run is not waiting for its launch, is answered with the first receipt, marked as replayed and without
-- effects, and neither its transaction nor its effects change the store.
pub handle_command_again :
    (d : Dependencies) (t : Times) (headers : Headers) (payload : CommandPayload)
    (authority : RequestAuthority) (input : ApplyInput) (s s' now : Store)
    (receipt : CommandReceipt)
    → apply_command d.platform.env input s ≡ (s', ok receipt)
    → Steps d.platform.env s' now
    → authorize_mutation d t headers now.db ≡ Authorization.granted authority
    → is_blocked d payload authority ≡ false
    → payload.idempotency_key ≡ input.idempotency_key
    → d.platform.env.command_digest payload.command ≡ d.platform.env.command_digest input.command
    → launch_pending (given_again receipt) (read_snapshot now.db) ≡ false
    → handle_command d t headers payload now ≡ (now, answer_of (given_again receipt) Flow.go)
unfolding handle_command run_authorized after_command
handle_command_again d t headers payload authority input s s' now receipt h steps a b k g l =
    let owner =
      (subst (Justified (Entitled d t headers now.db)) a
        (authorize_mutation-Justified d t headers now.db)).1 in
    rw
      (
        a,
        b,
        apply_command_forever d.platform.env input (apply_input d t payload authority) s s' now
            receipt h steps k owner g,
        replayed_effects d.platform (effects_input d t payload (given_again receipt)) now.db refl
            refl l,
      )
      refl
