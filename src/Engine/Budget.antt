-- ===== src/Engine/Budget.antt =====
-- The action budgets of a run and of a task under `bumpAction`.
use agentis.Prelude.{
  subst, find_by_sound, suc, ◌≤◌, ◌≡◌, refl, true, false, ◌||◌, some, arith, ◌==◌,
  find_by-update_where, Bool-cases, Option-cases, inl, inr,
}
use agentis.Schema.{Ident, RunRow, TaskRow}
use agentis.Versions.{max_actions_per_task}
use agentis.StoreDb.{Db}
use agentis.Lifecycle.{find_run, find_task}
use agentis.Engine.{Bool, is_active}
use agentis.Engine.Progress.{bump_action, bump_tables, run_exhausted, task_exhausted}

-- One more action on what is found, and it is found by the same identifier.
bump_tables-run :
    (run_id task_id : Ident) (db : Db) (r : RunRow)
    → find_run run_id db ≡ some r
    → find_run run_id (bump_tables run_id task_id db)
      ≡ some (record r { action_count = suc r.action_count })
bump_tables-run run_id task_id db r e = ground (
  arith,
  find_by-update_where (λ x. x.id == run_id) (λ x. x.id == run_id)
      (λ x. record x { action_count = suc x.action_count }) db.runs (λ x i. x.id == run_id),
  find_by_sound (λ x. x.id == run_id) db.runs r e,
)

bump_tables-task :
    (run_id task_id : Ident) (db : Db) (t : TaskRow)
    → find_task task_id db ≡ some t
    → find_task task_id (bump_tables run_id task_id db)
      ≡ some (record t { action_count = suc t.action_count })
bump_tables-task run_id task_id db t e = ground (
  arith,
  find_by-update_where (λ x. x.id == task_id) (λ x. x.id == task_id)
      (λ x. record x { action_count = suc x.action_count }) db.tasks (λ x i. x.id == task_id),
  find_by_sound (λ x. x.id == task_id) db.tasks t e,
)

-- What an action that is not exhausted has been tested for, and what it wrote.
record Bumped (run_id task_id : Ident) (db db' : Db) : Type 0 where
  was_active : is_active run_id db ≡ true
  not_exhausted :
      (run_exhausted (find_run run_id db) || task_exhausted (find_task task_id db)) ≡ false
  written : db' ≡ bump_tables run_id task_id db

abbrev BumpedBy : Ident → Ident → Db → Bool × Db → Type 0
BumpedBy run_id task_id db (true, db') = Unit {0}
BumpedBy run_id task_id db (false, db') = Bumped run_id task_id db db'

bump_action-Bumped :
    (run_id task_id : Ident) (db : Db) → BumpedBy run_id task_id db (bump_action run_id task_id db)
unfolding bump_action
bump_action-Bumped run_id task_id db = elim (Bool-cases (is_active run_id db)) [
  | inr a ↦ rw a tt
  | inl a ↦
      elim (Bool-cases
        (run_exhausted (find_run run_id db) || task_exhausted (find_task task_id db))) [
          | inl b ↦ rw (a, b) tt
          | inr b ↦
              rw (bump_action, a, b) (record { was_active = a; not_exhausted = b; written = refl })
        ]
]

active-found :
    (run_id : Ident) (db : Db)
    → is_active run_id db ≡ true
    → (r : RunRow) × (find_run run_id db ≡ some r)
unfolding is_active
active-found run_id db h = elim (Option-cases (find_run run_id db)) [
  | inl e ↦ absurd (ground (arith, e))
  | inr (r, e) ↦ (r, e)
]

-- An action that is not exhausted is one of a run that exists and is active; it adds one to the counts
-- of the run and of the task, and brings neither above its budget: the run's own, and 40 for the task.
pub bump_action_bounded :
    (run_id task_id : Ident) (db db' : Db) (t : TaskRow)
    → bump_action run_id task_id db ≡ (false, db')
    → find_task task_id db ≡ some t
    → (is_active run_id db ≡ true)
      × ((r : RunRow) × (find_run run_id db ≡ some r)
          × (find_run run_id db' ≡ some (record r { action_count = suc r.action_count }))
          × (suc r.action_count ≤ r.frozen.action_budget))
      × (find_task task_id db' ≡ some (record t { action_count = suc t.action_count }))
      × (suc t.action_count ≤ max_actions_per_task)
bump_action_bounded run_id task_id db db' t h e =
    let b = subst (BumpedBy run_id task_id db) h (bump_action-Bumped run_id task_id db) in
    let (r, f) = active-found run_id db b.was_active in
    (
      b.was_active,
      (
        r,
        f,
        rw (b.written) (bump_tables-run run_id task_id db r f),
        ground (arith, f, b.not_exhausted),
      ),
      rw (b.written) (bump_tables-task run_id task_id db t e),
      ground (arith, e, b.not_exhausted),
    )
