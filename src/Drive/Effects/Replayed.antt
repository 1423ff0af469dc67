-- ===== src/Drive/Effects/Replayed.antt =====
-- The effects of a command that is answered again.
use agentis.Schema.{ProviderKind}
use agentis.Snapshot.{read_snapshot}
use agentis.StoreDb.{Db}
use agentis.Drive.Reactions.{EffectsInput}
use agentis.Drive.{Flow, Platform}
use agentis.Drive.Effects.{
  loads_session, selected_run, launch_pending, interrupt_effect, resume_effect, reject_effect,
  dispatch_effect, launch_effect, rest_of_effects, apply_receipt_effects,
}
use agentis.Prelude.{arith, on_test, on_option, Bool, ◌≡◌, refl, true, false, [], ◌&&◌}

and_false : (b : Bool) → (b && false) ≡ false
and_false true = refl
and_false false = refl

-- A receipt that is marked as replayed and has no effects does nothing, whichever its command, unless
-- its run still waits for its launch.
pub replayed_effects :
    (p : Platform) (input : EffectsInput) (db : Db)
    → input.receipt.replayed ≡ true
    → input.receipt.effects ≡ []
    → launch_pending input.receipt (read_snapshot db) ≡ false
    → apply_receipt_effects p input db ≡ (db, Flow.go)
unfolding apply_receipt_effects rest_of_effects launch_effect dispatch_effect reject_effect
    resume_effect interrupt_effect
replayed_effects p input db r e l =
    on_option (λ d. d ≡ (db, Flow.go)) (selected_run input.receipt (read_snapshot db))
      (λ _. quiet _)
      (λ run _.
        on_test (λ d. d ≡ (db, Flow.go)) (loads_session input.receipt)
          (λ t. absurd (ground (arith, r, t))) (λ _. quiet _))
  where
    quiet :
        (provider : ProviderKind)
        → rest_of_effects p input provider (launch_pending input.receipt (read_snapshot db)) db
          ≡ (db, Flow.go)
    quiet provider = rw (l, e, and_false input.receipt.accepted) refl
