-- ===== src/Handoff/Accept.antt =====
-- What has to hold for `decideHandoff` of packages/cli/src/handoff-store.ts to accept, and what it writes.
use Prim.Native.String.{String}
use agentis.Lifecycle.{find_run, find_task}
use agentis.StoreDb.{fresh, emit, message}
use agentis.Prelude.{
  find_by_sound, inr, ◌||◌, inl, none, some_eq, if◌then◌else◌, Option-cases, Option, refl, ◌&&◌,
  threw, any_by, ◌==◌,
}
use agentis.Prelude.{
  leb, Ensures-any, Ensures-if, Ensures-bind, holds, Ensures_eq, Ensures-option, Ensures, arith, ℕ,
  ◌<◌, ◌≡◌, true, false, some, Bool,
}
use agentis.Schema.{
  TaskStatus, Role, is_mara, RunRow, RunStatus, Bot, Ident, TaskRow, HandoffRow, is_proposed,
}
use agentis.Versions.{max_actions_per_task}
use agentis.StoreDb.{Db, Env}
use agentis.Prelude.{==_iff, ==_refl, find_by-update_where}
use agentis.Handoff.{
  FinishedRunStatus, reject_handoff, not, ok, note, set_handoff_state, HandoffState,
  handoff_for_run,
}
use agentis.Handoff.Decide.{
  transfer, is_running, refuse, decide_handoff, apply_decision, deciding_task, accept_tables,
}

-- The conditions of an acceptance, and what it leaves.
pub record Accepted (env : Env) (run_id session_id : Ident) (text : String) (now : ℕ) (db db' : Db)
    : Type 0 where
  pub handoff : HandoffRow
  pub run : RunRow
  pub task : TaskRow
  pub asked : handoff_for_run run_id db ≡ some handoff
  pub was_proposed : is_proposed handoff.state ≡ true
  pub in_time : now < handoff.expires_at
  pub run_found : find_run run_id db ≡ some run
  pub running : run.status ≡ RunStatus.running
  pub own_session : run.provider_session_id ≡ some session_id
  pub task_found : find_task run.task_id db ≡ some task
  pub of_mara : task.bot_name ≡ Bot.mara
  pub not_latched : db.latched ≡ false
  pub said_yes : env.decode_decision text ≡ some (handoff.id, true)
  pub within_budget : task.action_count < max_actions_per_task
  pub transferred :
      find_task run.task_id db'
      ≡ some (
          if run.task_id == handoff.task_id
          then record task {
            bot_name = Bot.ivo;
            bot_role = Role.specialist;
            status = TaskStatus.running;
            current_run_id = run_id;
            updated_at = now;
          }
          else task)
  pub accepted :
      handoff_for_run run_id db' ≡ some (record handoff { state = HandoffState.accepted })

abbrev AcceptedBy : Env → Ident → Ident → String → ℕ → Db → Bool × Db → Type 0
AcceptedBy env run_id session_id text now db (true, db') =
    Accepted env run_id session_id text now db db'
AcceptedBy env run_id session_id text now db (false, db') = Unit {0}

-- What the JOIN found.
record Deciding (run_id session_id : Ident) (db : Db) (task : TaskRow) : Type 0 where
  run : RunRow
  run_found : find_run run_id db ≡ some run
  running : run.status ≡ RunStatus.running
  own_session : run.provider_session_id ≡ some session_id
  task_found : find_task run.task_id db ≡ some task
  of_mara : task.bot_name ≡ Bot.mara
  not_latched : db.latched ≡ false

is_running-running : (s : RunStatus) → is_running s ≡ true → s ≡ RunStatus.running
is_running-running s h = ground arith

is_mara-mara : (b : Bot) → is_mara b ≡ true → b ≡ Bot.mara
is_mara-mara b h = ground arith

some_eq-some : (o : Option ℕ) (x : ℕ) → some_eq o x ≡ true → o ≡ some x
some_eq-some none x h = cc
some_eq-some (some y) x h = ground (arith, ==_iff y x)

Deciding-of :
    (run_id session_id : Ident) (db : Db) (r : RunRow) (t task : TaskRow)
    → find_run run_id db ≡ some r
    → find_task r.task_id db ≡ some t
    → (if not (is_running r.status)
          || not (some_eq r.provider_session_id session_id)
          || not (is_mara t.bot_name)
          || db.latched
        then none
        else some t)
      ≡ some task
    → Deciding run_id session_id db task
Deciding-of run_id session_id db r t task e f h = record {
  run = r;
  run_found = e;
  running = is_running-running r.status (ground (arith, h));
  own_session = some_eq-some r.provider_session_id session_id (ground (arith, h));
  task_found = ground (arith, f, h);
  of_mara = is_mara-mara task.bot_name (ground (arith, h));
  not_latched = ground (arith, h);
}

deciding_task-Deciding :
    (run_id session_id : Ident) (db : Db) (task : TaskRow)
    → deciding_task run_id session_id db ≡ some task
    → Deciding run_id session_id db task
deciding_task-Deciding run_id session_id db task h = elim (Option-cases (find_run run_id db)) [
  | inl e ↦ absurd (ground (arith, e, h))
  | inr (r, e) ↦ elim (Option-cases (find_task r.task_id db)) [
    | inl f ↦ absurd (ground (arith, e, f, h))
    | inr (t, f) ↦ Deciding-of run_id session_id db r t task e f (ground (arith, e, f, h))
  ]
]

transferred-found :
    (env : Env) (h : HandoffRow) (run_id id now : ℕ) (task : TaskRow) (db : Db)
    → find_task id db ≡ some task
    → task.bot_name ≡ Bot.mara
    → find_task id (accept_tables env h run_id now db)
      ≡ some (if id == h.task_id then transfer run_id now task else task)
transferred-found env h run_id id now task db e m = ground (
  arith,
  m,
  find_by_sound (λ x. x.id == id) db.tasks task e,
  ==_iff task.id id,
  find_by-update_where (λ x. x.id == id) (λ x. x.id == h.task_id && is_mara x.bot_name)
      (transfer run_id now) db.tasks (λ x. refl),
)

accepted-found :
    (h : HandoffRow) (run_id : Ident) (db : Db)
    → handoff_for_run run_id db ≡ some h
    → is_proposed h.state ≡ true
    → handoff_for_run run_id (set_handoff_state h.id HandoffState.accepted db)
      ≡ some (record h { state = HandoffState.accepted })
accepted-found h run_id db e p = ground (
  arith,
  ==_refl h.id,
  find_by-update_where (λ x. x.recipient_run_id == run_id)
      (λ x. x.id == h.id && is_proposed x.state) (λ x. record x { state = HandoffState.accepted })
      db.handoffs (λ x i. x.recipient_run_id == run_id),
)

refuse-AcceptedBy :
    (env : Env) (run_id session_id : Ident) (text : String) (state : HandoffState) (reason : String)
    (now : ℕ) (db old : Db)
    → Ensures
        (AcceptedBy env run_id session_id text now old)
        (refuse env run_id state reason now db)
refuse-AcceptedBy env run_id session_id text state reason now db old =
    Ensures-bind
      (Ensures-any (reject_handoff env run_id state FinishedRunStatus.failed reason now db))
      (λ s _. holds tt)

apply_decision-AcceptedBy :
    (env : Env) (h : HandoffRow) (run_id session_id : Ident) (text : String) (task : TaskRow)
    (d : Ident × Bool) (now : ℕ) (db : Db)
    → handoff_for_run run_id db ≡ some h
    → is_proposed h.state ≡ true
    → leb h.expires_at now ≡ false
    → deciding_task run_id session_id db ≡ some task
    → env.decode_decision text ≡ some d
    → Ensures
        (AcceptedBy env run_id session_id text now db)
        (apply_decision env h run_id task d now db)
unfolding apply_decision note message emit
apply_decision-AcceptedBy env h run_id session_id text task (handoff_id, accepts) now db e p t w y =
    Ensures-if (not (handoff_id == h.id)) (λ _. refused _)
      λ i.
        Ensures-if (not accepts) (λ _. refused _)
          λ a.
            Ensures-if (leb max_actions_per_task task.action_count) (λ _. refused _)
              λ b.
                Ensures-if (any_by (λ x. x.id == fresh env 0 db) db.pending_actions) (λ _. threw)
                  λ _. holds (record {
                    handoff = h;
                    run = found.run;
                    task = task;
                    asked = e;
                    was_proposed = p;
                    in_time = ground (arith, t);
                    run_found = found.run_found;
                    running = found.running;
                    own_session = found.own_session;
                    task_found = found.task_found;
                    of_mara = found.of_mara;
                    not_latched = found.not_latched;
                    said_yes = ground (arith, y, i, a, ==_iff handoff_id h.id);
                    within_budget = ground (arith, b);
                    transferred =
                        transferred-found env h run_id found.run.task_id now task db
                          found.task_found found.of_mara;
                    accepted = accepted-found h run_id db e p;
                  })
  where
    found : Deciding run_id session_id db task
    found = deciding_task-Deciding run_id session_id db task w

    refused :
        (reason : String)
        → Ensures
            (AcceptedBy env run_id session_id text now db)
            (refuse env run_id HandoffState.rejected reason now db)
    refused reason =
        refuse-AcceptedBy env run_id session_id text HandoffState.rejected reason now db db

decide_handoff-AcceptedBy :
    (env : Env) (run_id session_id : Ident) (text : String) (now : ℕ) (db : Db)
    → Ensures
        (AcceptedBy env run_id session_id text now db)
        (decide_handoff env run_id session_id text now db)
unfolding decide_handoff
decide_handoff-AcceptedBy env run_id session_id text now db =
    Ensures-option (handoff_for_run run_id db) (λ _. holds tt)
      λ h e.
        Ensures-if (not (is_proposed h.state)) (λ _. holds tt)
          λ p.
            Ensures-if (leb h.expires_at now)
              (λ _. refuse-AcceptedBy env run_id session_id text HandoffState.expired _ now db db)
              λ t.
                Ensures-option (deciding_task run_id session_id db) (λ _. holds tt)
                  λ task w.
                    Ensures-option (env.decode_decision text)
                      (λ _.
                        refuse-AcceptedBy env run_id session_id text HandoffState.rejected _ now db
                          db)
                      λ d y.
                        apply_decision-AcceptedBy env h run_id session_id text task d now db e
                          (ground (arith, p)) t w y

-- A handoff is accepted only while it is proposed and before it expires, by an answer that names it and
-- says yes, from the session of the run that was asked, which is running on a task that Mara still owns
-- and whose action budget is not used up, while stop-all is not latched. The handoff then is accepted, and if
-- it is of the task of that run, the task is running under Ivo as the specialist, with that run as its current
-- one; the rest of the task is as it was.
pub decide_handoff_lem :
    (env : Env) (run_id session_id : Ident) (text : String) (now : ℕ) (db db' : Db)
    → decide_handoff env run_id session_id text now db ≡ ok (true, db')
    → Accepted env run_id session_id text now db db'
decide_handoff_lem env run_id session_id text now db db' h =
    Ensures_eq (decide_handoff-AcceptedBy env run_id session_id text now db) h

-- An accepted handoff is not decided again: every later answer, from whatever session and at whatever
-- time, is refused and changes nothing.
pub decide_handoff_once :
    (env : Env) (run_id session_id other : Ident) (text again : String) (now later : ℕ)
    (db db' : Db)
    → decide_handoff env run_id session_id text now db ≡ ok (true, db')
    → decide_handoff env run_id other again later db' ≡ ok (false, db')
unfolding decide_handoff
decide_handoff_once env run_id session_id other text again now later db db' h =
    rw (decide_handoff, (decide_handoff_lem env run_id session_id text now db db' h).accepted) refl
