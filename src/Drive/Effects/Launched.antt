-- ===== src/Drive/Effects/Launched.antt =====
-- The effects of a submission, `applyReceiptEffects` of packages/cli/src/engine.ts.
use agentis.Drive.Fake.Delivers.{drive_after_commit-Brought, Brought}
use agentis.Handoff.{handoff_for_run}
use agentis.Engine.Outcome.{unaccepted}
use agentis.Lifecycle.{is_active_run_status, find_run}
use agentis.Drive.Fake.{drive_after_commit}
use agentis.Snapshot.{Snapshot, read_snapshot}
use agentis.StoreDb.{fresh, Db}
use agentis.Drive.Reactions.{
  interrupt_provider, resume_input, launch_input, reject_tool, dispatch_tool, launch_run, launch,
  EffectsInput,
}
use agentis.Drive.{
  fail_run, then_return, caught, ProviderBrief, provider_brief, run_in, followed_by, Flow, and_then,
  Platform, skip, Act,
}
use agentis.Schema.{FixtureKind, is_fake, RunRow, ProviderKind, Ident, CommandReceipt, Effect}
use agentis.Drive.Effects.{
  provider_for, selected_run, loads_session, is_interrupt_provider, includes, is_resume_input,
  with_ident, launch_pending, is_reject_tool, is_dispatch_tool, apply_receipt_effects, launches,
  interrupt_effect, resume_effect, reject_effect, when, with_run, dispatch_effect, launch_effect,
  accepts, rest_of_effects,
}
use Prim.Native.String.{◌++◌}
use agentis.Prelude.{
  sym, subst, find_by_sound, ==_iff, or_else, any_by, String, ◌∙◌, ap, Bool, ◌≡◌, refl, true, false,
  some, [], ◌∷◌, ◌==◌, arith,
}

with_run-of :
    (receipt : CommandReceipt) (act : Ident → Ident → Act) (run_id task_id : Ident)
    → receipt.run_id ≡ some run_id
    → receipt.task_id ≡ some task_id
    → with_run receipt act ≡ act run_id task_id
with_run-of receipt act run_id task_id r t = rw (r, t) refl

when-true : (b : Bool) (act : Act) → b ≡ true → when b act ≡ act
when-true b act h = ap (λ c. when c act) h

when-false : (b : Bool) (act : Act) → b ≡ false → when b act ≡ skip
when-false b act h = ap (λ c. when c act) h

-- A receipt that has the one effect 'launch'.
record LaunchesOnly (receipt : CommandReceipt) (run_id task_id : Ident) : Type 0 where
  accepted : receipt.accepted ≡ true
  fresh : receipt.replayed ≡ false
  only : receipt.effects ≡ Effect.launch ∷ []
  of_run : receipt.run_id ≡ some run_id
  of_task : receipt.task_id ≡ some task_id

accepts-other :
    (test : Effect → Bool) (receipt : CommandReceipt)
    → receipt.effects ≡ Effect.launch ∷ []
    → test Effect.launch ≡ false
    → accepts test receipt ≡ false
accepts-other test receipt e t = ground (arith, e, t)

-- The other effects of it.
others_skip :
    (p : Platform) (input : EffectsInput) (provider : ProviderKind) (db : Db)
    → input.receipt.effects ≡ Effect.launch ∷ []
    → followed_by
        (dispatch_effect p input provider)
        (followed_by
          (reject_effect p input provider)
          (followed_by (resume_effect p input provider) (interrupt_effect p input)))
        db
      ≡ (db, Flow.go)
unfolding dispatch_effect reject_effect resume_effect interrupt_effect
others_skip p input provider db e =
    rw
      (
        when-false (accepts is_dispatch_tool input.receipt)
            (with_run input.receipt (dispatch_tool p input provider))
            (accepts-other is_dispatch_tool input.receipt e refl),
        when-false (accepts is_reject_tool input.receipt)
            (with_ident input.receipt.run_id (reject_tool p provider))
            (accepts-other is_reject_tool input.receipt e refl),
        when-false (accepts is_resume_input input.receipt)
            (with_run input.receipt (resume_input p input provider))
            (accepts-other is_resume_input input.receipt e refl),
        when-false (includes is_interrupt_provider input.receipt)
            (interrupt_provider p input.execution_boundary input.receipt.run_id)
            (ap (any_by is_interrupt_provider) e),
      )
      refl

launch_effect-launch :
    (p : Platform) (input : EffectsInput) (provider : ProviderKind) (run_id task_id : Ident)
    (pending : Bool)
    → LaunchesOnly input.receipt run_id task_id
    → launch_effect p input provider pending ≡ launch p input provider run_id task_id
unfolding launch_effect
launch_effect-launch p input provider run_id task_id pending o =
    when-true (launches input.receipt pending) (with_run input.receipt (launch p input provider))
      (ground (arith, o.accepted, o.fresh, o.only))
    ∙ with_run-of input.receipt (launch p input provider) run_id task_id o.of_run o.of_task

rest_of_effects-launch :
    (p : Platform) (input : EffectsInput) (provider : ProviderKind) (run_id task_id : Ident)
    (pending : Bool) (db db' : Db)
    → LaunchesOnly input.receipt run_id task_id
    → launch p input provider run_id task_id db ≡ (db', Flow.go)
    → rest_of_effects p input provider pending db ≡ (db', Flow.go)
unfolding rest_of_effects
rest_of_effects-launch p input provider run_id task_id pending db db' o h =
    ap (λ d. and_then d others)
      (ap (λ act. act db) (launch_effect-launch p input provider run_id task_id pending o) ∙ h)
    ∙ others_skip p input provider db' o.only
  where
    others : Act
    others = followed_by (dispatch_effect p input provider) (
        followed_by (reject_effect p input provider)
          (followed_by (resume_effect p input provider) (interrupt_effect p input)))

launch-drive :
    (p : Platform) (input : EffectsInput) (provider : ProviderKind) (run_id task_id : Ident)
    (r : RunRow) (text : String) (db db' : Db)
    → run_in run_id (read_snapshot db) ≡ some r
    → provider_brief p.env.fs (read_snapshot db) r.id input.workspace_root
      ≡ ProviderBrief.briefed text
    → drive_after_commit p (launch_input input provider task_id r text) db ≡ (db', Flow.go)
    → launch p input provider run_id task_id db ≡ (db', Flow.go)
unfolding launch launch_run
launch-drive p input provider run_id task_id r text db db' e b d =
    rw (launch, launch_run, e, b)
      (ap (λ x. caught x (λ error. then_return (fail_run p run_id task_id error))) d)

selected_run-of :
    (receipt : CommandReceipt) (run_id : Ident) (r : RunRow) (s : Snapshot)
    → receipt.run_id ≡ some run_id
    → run_in run_id s ≡ some r
    → selected_run receipt s ≡ some r
selected_run-of receipt run_id r s h e = rw h e

apply_receipt_effects-rest :
    (p : Platform) (input : EffectsInput) (run_id task_id : Ident) (r : RunRow) (db : Db)
    → LaunchesOnly input.receipt run_id task_id
    → run_in run_id (read_snapshot db) ≡ some r
    → apply_receipt_effects p input db
      ≡ rest_of_effects p input r.frozen.provider
          (launch_pending input.receipt (read_snapshot db))
          db
unfolding apply_receipt_effects
apply_receipt_effects-rest p input run_id task_id r db o e =
    rw
      (
        apply_receipt_effects,
        selected_run-of input.receipt run_id r (read_snapshot db) o.of_run e,
        loads_nothing,
      )
      (ap
        (λ selected.
          rest_of_effects p input (provider_for selected input.provider)
            (launch_pending input.receipt (read_snapshot db)) db)
        (selected_run-of input.receipt run_id r (read_snapshot db) o.of_run e))
  where
    loads_nothing : loads_session input.receipt ≡ false
    loads_nothing = ground (arith, o.only)

-- The effects of an accepted submission, the first time, drive its run to its end: where the run is the fake provider's
-- with the fixture 'smoke' or none, is active and found alike in the table and the snapshot, the source of its task is
-- still what was recorded, its workspace and its scratch file can be written, stop-all is not latched, no handoff of
-- the run is unaccepted and the artifact's identifier is new. The run then has succeeded by the platform's clock, and
-- the one new artifact is the run's and its task's, with the digest of the brief, as the source gives it, in a heading.
pub apply_receipt_effects-Brought :
    (p : Platform) (input : EffectsInput) (run_id task_id : Ident) (r : RunRow) (text : String)
    (db : Db)
    → input.receipt.accepted ≡ true
    → input.receipt.replayed ≡ false
    → input.receipt.effects ≡ Effect.launch ∷ []
    → input.receipt.run_id ≡ some run_id
    → input.receipt.task_id ≡ some task_id
    → run_in run_id (read_snapshot db) ≡ some r
    → find_run run_id db ≡ some r
    → provider_brief p.env.fs (read_snapshot db) r.id input.workspace_root
      ≡ ProviderBrief.briefed text
    → is_fake r.frozen.provider ≡ true
    → or_else r.fixture FixtureKind.smoke ≡ FixtureKind.smoke
    → is_active_run_status r.status ≡ true
    → db.latched ≡ false
    → unaccepted (handoff_for_run run_id db) ≡ false
    → any_by (λ a. a.id == fresh p.env 1 db) db.artifacts ≡ false
    → p.makes_directory r.frozen.workspace_id ≡ true
    → p.env.writes (p.artifact_path r.frozen.workspace_id) ("# " ++ (text ++ "\n")) ≡ true
    → (db' : Db) × (apply_receipt_effects p input db ≡ (db', Flow.go))
      × Brought p (launch_input input r.frozen.provider task_id r text) db db'
apply_receipt_effects-Brought p input run_id task_id r text db a n e i t s f b k x c l u g m w =
    let same = (==_iff r.id run_id).0 (find_by_sound (λ y. y.id == run_id) db.runs r f) in
    let only : LaunchesOnly input.receipt run_id task_id = record {
      accepted = a;
      fresh = n;
      only = e;
      of_run = i;
      of_task = t;
    } in
    let drive = launch_input input r.frozen.provider task_id r text in
    let (db', h, d) =
      drive_after_commit-Brought p drive r db (subst (λ id. find_run id db ≡ some r) (sym same) f) c
        l (subst (λ id. unaccepted (handoff_for_run id db) ≡ false) (sym same) u) g m w x k in
    (
      db',
      apply_receipt_effects-rest p input run_id task_id r db only s
          ∙ rest_of_effects-launch p input r.frozen.provider run_id task_id
              (launch_pending input.receipt (read_snapshot db)) db db' only
              (launch-drive p input r.frozen.provider run_id task_id r text db db' s b h),
      d,
    )
