-- ===== src/Drive/Effects.antt =====
-- `applyReceiptEffects` of packages/cli/src/engine.ts: the effects of a receipt, in the order of the code.
pub mod Replayed
pub mod Launched
use agentis.Drive.Reactions.{
  load_selected, reject_tool, dispatch_tool, resume_input, launch, interrupt_provider, EffectsInput,
}
use agentis.Snapshot.{read_snapshot, Snapshot}
use agentis.Prelude.{
  none, ◌||◌, if◌then◌else◌, some, String, not, ℕ, ◌==◌, false, any_by, List, ◌&&◌, true, Option,
  Bool,
}
use agentis.Drive.{
  ProviderBrief, Flow, then_return, DriveInput, followed_by, run_in, skip, provider_brief, catching,
  ProviderCall, Act, Platform, fail_run,
}
use agentis.Drive.Fake.{drive_after_commit, write_artifact}
use agentis.Schema.{
  is_fake, is_claude, is_pending, Decision, ExecutionBoundary, FixtureKind, PendingActionRow,
  ProviderKind, RunRow, Effect, CommandReceipt, ActionKind, Command, Ident,
}

abbrev pub is_launch : Effect → Bool
is_launch Effect.launch = true
is_launch _ = false

abbrev pub is_load_session : Effect → Bool
is_load_session Effect.load_session = true
is_load_session _ = false

abbrev pub is_dispatch_tool : Effect → Bool
is_dispatch_tool Effect.dispatch_tool = true
is_dispatch_tool _ = false

abbrev pub is_reject_tool : Effect → Bool
is_reject_tool Effect.reject_tool = true
is_reject_tool _ = false

abbrev pub is_resume_input : Effect → Bool
is_resume_input Effect.resume_input = true
is_resume_input _ = false

abbrev pub is_interrupt_provider : Effect → Bool
is_interrupt_provider Effect.interrupt_provider = true
is_interrupt_provider _ = false

abbrev pub includes : (Effect → Bool) → CommandReceipt → Bool
includes test receipt = any_by test receipt.effects

abbrev pub is_launch_kind : ActionKind → Bool
is_launch_kind ActionKind.launch = true
is_launch_kind _ = false

abbrev pub is_launch_of : Ident → PendingActionRow → Bool
is_launch_of run_id a = a.run_id == run_id && is_launch_kind a.kind && is_pending a.state

-- `launchPending`: a command is answered again while its run still waits to be launched.
unfoldable pub launch_pending : CommandReceipt → Snapshot → Bool
launch_pending receipt s = elim receipt.run_id [
  | none ↦ false
  | some run_id ↦ receipt.replayed && any_by (is_launch_of run_id) s.pending
]

abbrev pub when : Bool → Act → Act
when b act = if b then act else skip

-- With the run and the task of the receipt.
abbrev pub with_ident : Option Ident → (Ident → Act) → Act
with_ident none act = skip
with_ident (some id) act = act id

abbrev pub with_run : CommandReceipt → (Ident → Ident → Act) → Act
with_run receipt act = with_ident receipt.run_id (λ run_id. with_ident receipt.task_id (act run_id))

abbrev pub launches : CommandReceipt → (pending : Bool) → Bool
launches receipt pending =
    receipt.accepted && (includes is_launch receipt && not receipt.replayed || pending)

abbrev pub accepts : (Effect → Bool) → CommandReceipt → Bool
accepts test receipt = receipt.accepted && includes test receipt

-- The effects behind the loading of a session, in the order of the code.
unfoldable pub launch_effect : Platform → EffectsInput → ProviderKind → (pending : Bool) → Act
unfolding launch
launch_effect p input provider pending =
    when (launches input.receipt pending) (with_run input.receipt (launch p input provider))

unfoldable pub dispatch_effect : Platform → EffectsInput → ProviderKind → Act
unfolding dispatch_tool
dispatch_effect p input provider =
    when (accepts is_dispatch_tool input.receipt)
      (with_run input.receipt (dispatch_tool p input provider))

unfoldable pub reject_effect : Platform → EffectsInput → ProviderKind → Act
unfolding reject_tool
reject_effect p input provider =
    when (accepts is_reject_tool input.receipt)
      (with_ident input.receipt.run_id (reject_tool p provider))

unfoldable pub resume_effect : Platform → EffectsInput → ProviderKind → Act
unfolding resume_input
resume_effect p input provider =
    when (accepts is_resume_input input.receipt)
      (with_run input.receipt (resume_input p input provider))

unfoldable pub interrupt_effect : Platform → EffectsInput → Act
unfolding interrupt_provider
interrupt_effect p input =
    when (includes is_interrupt_provider input.receipt)
      (interrupt_provider p input.execution_boundary input.receipt.run_id)

unfoldable pub rest_of_effects : Platform → EffectsInput → ProviderKind → (pending : Bool) → Act
unfolding launch_effect dispatch_effect reject_effect resume_effect interrupt_effect
rest_of_effects p input provider pending = followed_by (launch_effect p input provider pending) (
    followed_by (dispatch_effect p input provider) (
      followed_by (reject_effect p input provider)
        (followed_by (resume_effect p input provider) (interrupt_effect p input))))

-- The run of the receipt, as the first snapshot shows it.
abbrev pub selected_run : CommandReceipt → Snapshot → Option RunRow
selected_run receipt s = elim receipt.run_id [ none ↦ none | some run_id ↦ run_in run_id s ]

abbrev pub provider_for : Option RunRow → ProviderKind → ProviderKind
provider_for none provider = provider
provider_for (some run) provider = run.frozen.provider

abbrev pub loads_session : CommandReceipt → Bool
loads_session receipt = receipt.accepted && not receipt.replayed && includes is_load_session receipt

unfoldable pub apply_receipt_effects : Platform → EffectsInput → Act
unfolding rest_of_effects load_selected launch_pending
apply_receipt_effects p input db =
    let initial = read_snapshot db in
    let receipt = input.receipt in
    let selected = selected_run receipt initial in
    let rest =
      rest_of_effects p input (provider_for selected input.provider)
        (launch_pending receipt initial) in
    elim selected [
      | none ↦ rest db
      | some run ↦ if loads_session receipt then load_selected p input run db else rest db
    ]
