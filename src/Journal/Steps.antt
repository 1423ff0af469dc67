-- ===== src/Journal/Steps.antt =====
-- The journal, the conversation and the command log over every step of the store.
use agentis.Journal.Sweeps.{
  acknowledge_setup-Logged, exchange_bootstrap-Logged, issue_bootstrap-Logged,
  interrupt_active-Logged, sweep_run_timeouts-Logged,
}
use agentis.Journal.Finish.{decide_handoff-Logged}
use agentis.Journal.Commands.{run_command-Logged}
use agentis.Journal.Engine.{
  fail-Logged, complete-Logged, wait_input-Logged, wait_approval-Logged, bump_action-Logged,
  provider_state-Logged, peer_progress-Logged, engine_claim_draft-Logged, mark_running-Logged,
}
use agentis.Prelude.{
  insert_row, Ensures_of_ok, ◌==◌, Option-cases, any_by, inr, inl, ok, err, ◌||◌, Ensures_eq, not,
  Result, Bool-cases, subst, ◌≡◌, refl, sym, true, List, [], ◌++◌, Ensures,
}
use agentis.Schema.{CommandRow, is_owner, ApplyInput, CommandReceipt, EventRow}
use agentis.StoreDb.{fresh, Db, Env}
use agentis.Commands.Dispatch.{
  command_row, prior_command, draw_command, Store, apply_command, dispatch, settle,
}
use agentis.Commands.Submit.{Staged}
use agentis.Journal.Base.{
  Log, Extends, Extends-refl, Extends-trans, Logged, LoggedWith, log_of, Numbered, UniqueKeys,
}
use agentis.System.{
  Step, applies, marks_running, decides, claims, reports_progress, reports_state, bumps,
  waits_approval, waits_input, completes, fails, sweeps, interrupts, issues, exchanges,
  acknowledges, Steps, done, next, empty_store,
}

-- The journal part of an extension; the command log may have grown, too.
pub record Continues (a b : Log) : Type 0 where
  pub keeps_latch : (not a.latched || b.latched) ≡ true
  pub added : List EventRow
  pub appended : b.events ≡ a.events ++ added
  pub numbered : Numbered a.last_seq b.last_seq added
  pub unique : UniqueKeys a.messages → UniqueKeys b.messages

continues :
    (a b : Log) (cs ds : List CommandRow)
    → Extends a b
    → Continues (record a { commands = cs }) (record b { commands = ds })
continues a b cs ds e = record {
  keeps_latch = e.keeps_latch;
  added = e.added;
  appended = e.appended;
  numbered = e.numbered;
  unique = e.unique;
}

extends :
    (a b : Log) → Continues a b → Extends (record a { commands = [] }) (record b { commands = [] })
extends a b c = record {
  same_commands = refl;
  keeps_latch = c.keeps_latch;
  added = c.added;
  appended = c.appended;
  numbered = c.numbered;
  unique = c.unique;
}

Continues-refl : (a : Log) → Continues a a
Continues-refl a = continues a a a.commands a.commands (Extends-refl a)

Continues-trans : (a b c : Log) → Continues a b → Continues b c → Continues a c
Continues-trans a b c e f =
    continues (record a { commands = [] }) (record c { commands = [] }) a.commands c.commands
      (Extends-trans (record a { commands = [] }) (record b { commands = [] })
        (record c { commands = [] }) (extends a b e) (extends b c f))

-- The extension of a transaction that does not touch the command log.
logged : (db db' : Db) → Logged db db' → Continues (log_of db) (log_of db')
logged db db' v = continues (log_of db) (log_of db') db.commands db'.commands v

pub dispatch-Logged :
    (env : Env) (input : ApplyInput) (db : Db) → Ensures (LoggedWith db) (dispatch env input db).1
unfolding dispatch
dispatch-Logged env input db =
    run_command-Logged env (fresh env 0 db) input input.command (draw_command db)

settle-Continues :
    (env : Env) (input : ApplyInput) (s : Store) (result : Staged × Result (CommandReceipt × Db))
    → Ensures (LoggedWith s.db) result.1
    → Continues (log_of s.db) (log_of (settle env input s result).0.db)
unfolding settle
settle-Continues env input s (staged, err e) v = Continues-refl (log_of s.db)
settle-Continues env input s (staged, ok (receipt, db)) v =
    elim (Bool-cases (any_by (λ c. c.id == receipt.command_id) db.commands)) [
      | inl t ↦ rw t (Continues-refl (log_of s.db))
      | inr t ↦ rw t (
          continues (log_of s.db) (log_of db) s.db.commands
            (insert_row (command_row env input receipt) db.commands) (Ensures_of_ok v))
    ]

apply_command-Continues :
    (env : Env) (input : ApplyInput) (s : Store)
    → Continues (log_of s.db) (log_of (apply_command env input s).0.db)
unfolding apply_command
apply_command-Continues env input s = elim (Bool-cases (not (is_owner input.principal.kind))) [
  | inl t ↦ rw t same
  | inr t ↦ rw t (elim (Option-cases (prior_command input.idempotency_key s.db)) [
    | inl e ↦
        rw e
          (settle-Continues env input s (dispatch env input s.db) (dispatch-Logged env input s.db))
    | inr (prior, e) ↦ rw e same
  ])
]
  where
    same : Continues (log_of s.db) (log_of s.db)
    same = Continues-refl (log_of s.db)

-- A step is a command, or it leaves the command log alone.
pub data Change (env : Env) (s : Store) : Store → Type 0 where
  by_command : (input : ApplyInput) → Change env s (apply_command env input s).0
  by_report : {t : Store} → Logged s.db t.db → Change env s t

pub Step-Change : (env : Env) (s t : Store) → Step env s t → Change env s t
Step-Change env s _ (applies input) = by_command input
Step-Change env s t (marks_running run_id session_id now) =
    by_report (mark_running-Logged env run_id session_id now s.db)
Step-Change env s t (decides run_id session_id text now accepted db' h) =
    by_report (Ensures_eq (decide_handoff-Logged env run_id session_id text now s.db) h)
Step-Change env s t (claims run_id) = by_report (engine_claim_draft-Logged run_id s.db)
Step-Change env s t (reports_progress run_id body now db' h) =
    by_report (Ensures_eq (peer_progress-Logged env run_id body now s.db) h)
Step-Change env s t (reports_state run_id change h) =
    by_report (provider_state-Logged run_id change s.db)
Step-Change env s t (bumps run_id task_id) = by_report (bump_action-Logged run_id task_id s.db)
Step-Change env s t (waits_approval input approval_id db' h) =
    by_report (Ensures_eq (wait_approval-Logged env input s.db) h)
Step-Change env s t (waits_input run_id prompt now db' h) =
    by_report (Ensures_eq (wait_input-Logged env run_id prompt now s.db) h)
Step-Change env s t (completes input artifact_id db' h) =
    by_report (Ensures_eq (complete-Logged env input s.db) h)
Step-Change env s t (fails run_id task_id error now db' h) =
    by_report (Ensures_eq (fail-Logged env run_id task_id error now s.db) h)
Step-Change env s t (sweeps now effects db' h) =
    by_report (Ensures_eq (sweep_run_timeouts-Logged env now s.db) h)
Step-Change env s t (interrupts now) = by_report (interrupt_active-Logged env now s.db)
Step-Change env s t (issues code_hash owner_session now expires_at db' h) =
    by_report (Ensures_eq (issue_bootstrap-Logged code_hash owner_session now expires_at s.db) h)
Step-Change env s t (exchanges input accepted db' h) =
    by_report (Ensures_eq (exchange_bootstrap-Logged input s.db) h)
Step-Change env s t (acknowledges token_hash provider kinds now) =
    by_report (acknowledge_setup-Logged env token_hash provider kinds now s.db)

Change-Continues :
    (env : Env) (s t : Store) → Change env s t → Continues (log_of s.db) (log_of t.db)
Change-Continues env s _ (by_command input) = apply_command-Continues env input s
Change-Continues env s t (by_report v) = logged s.db t.db v

pub Step-Continues :
    (env : Env) (s t : Store) → Step env s t → Continues (log_of s.db) (log_of t.db)
Step-Continues env s t step = Change-Continues env s t (Step-Change env s t step)

pub Steps-Continues :
    (env : Env) (s t : Store) → Steps env s t → Continues (log_of s.db) (log_of t.db)
Steps-Continues env s _ done = Continues-refl (log_of s.db)
Steps-Continues env s u (next {t} step rest) =
    Continues-trans (log_of s.db) (log_of t.db) (log_of u.db) (Step-Continues env s t step)
      (Steps-Continues env t u rest)

-- In a store that is reached from a new workspace the events are numbered from 1 to the last sequence
-- number, in order, and no two messages have one dedupe key.
pub reachable_journal :
    (env : Env) (s : Store)
    → Steps env empty_store s
    → Numbered 0 s.db.last_seq s.db.events × UniqueKeys s.db.messages
reachable_journal env s steps =
    let c = Steps-Continues env empty_store s steps in
    (subst (Numbered 0 s.db.last_seq) (sym c.appended) c.numbered, c.unique tt)
