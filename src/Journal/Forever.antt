-- ===== src/Journal/Forever.antt =====
-- The command log over every step of the store: an answer stays, and is given again.
use agentis.Journal.Base.{LoggedWith}
use agentis.Journal.Idempotence.{given_as_replay, answered}
use agentis.Commands.Submit.{Staged}
use agentis.System.{next, Steps}
use agentis.Journal.Steps.{dispatch-Logged, by_report, Step-Change, by_command, Change}
use agentis.Schema.{is_owner, CommandReceipt, ApplyInput, CommandRow, Ident}
use agentis.StoreDb.{Db, Env}
use agentis.Commands.Dispatch.{command_row, dispatch, prior_command, Store, settle, apply_command}
use agentis.System.{done, next, Steps}
use agentis.Prelude.{
  Ensures_of_ok, any_by, Ensures, Option-cases, Result, insert_row, not, Bool-cases, find_by, ◌≡◌,
  true, inl, inr, ok, err, some, [], ◌∷◌, List, ◌==◌, arith,
}

-- Whatever the command log says of a key, it goes on saying.
abbrev KeepsAnswers : Db → Db → Type 0
KeepsAnswers db db' =
    (key : Ident) (row : CommandRow)
    → prior_command key db ≡ some row
    → prior_command key db' ≡ some row

find_by-insert_row :
    (key : Ident) (new row : CommandRow) (rows : List CommandRow)
    → find_by (λ c. c.idempotency_key == key) rows ≡ some row
    → find_by (λ c. c.idempotency_key == key) (insert_row new rows) ≡ some row
find_by-insert_row key new row [] e = cc
find_by-insert_row key new row (x ∷ rows) e = ground (arith, find_by-insert_row key new row rows)

settle-KeepsAnswers :
    (env : Env) (input : ApplyInput) (s : Store) (result : Staged × Result (CommandReceipt × Db))
    → Ensures (LoggedWith s.db) result.1
    → KeepsAnswers s.db (settle env input s result).0.db
unfolding settle
settle-KeepsAnswers env input s (staged, err e) v key row h = h
settle-KeepsAnswers env input s (staged, ok (receipt, db)) v key row h =
    elim (Bool-cases (any_by (λ c. c.id == receipt.command_id) db.commands)) [
      | inl t ↦ rw t h
      | inr t ↦ rw t (
          find_by-insert_row key (command_row env input receipt) row db.commands
            (rw ((Ensures_of_ok v).same_commands) h))
    ]

apply_command-KeepsAnswers :
    (env : Env) (input : ApplyInput) (s : Store)
    → KeepsAnswers s.db (apply_command env input s).0.db
unfolding apply_command
apply_command-KeepsAnswers env input s = elim (Bool-cases (not (is_owner input.principal.kind))) [
  | inl t ↦ rw t (λ key row h. h)
  | inr t ↦ rw t (elim (Option-cases (prior_command input.idempotency_key s.db)) [
    | inl e ↦
        rw e (
          settle-KeepsAnswers env input s (dispatch env input s.db)
            (dispatch-Logged env input s.db))
    | inr (prior, e) ↦ rw e (λ key row h. h)
  ])
]

Change-KeepsAnswers : (env : Env) (s t : Store) → Change env s t → KeepsAnswers s.db t.db
Change-KeepsAnswers env s _ (by_command input) key row h =
    apply_command-KeepsAnswers env input s key row h
Change-KeepsAnswers env s t (by_report v) key row h = rw (v.same_commands) h

Steps-KeepsAnswers : (env : Env) (s t : Store) → Steps env s t → KeepsAnswers s.db t.db
Steps-KeepsAnswers env s _ done key row h = h
Steps-KeepsAnswers env s u (next {t} step rest) key row h =
    Steps-KeepsAnswers env t u rest key row
      (Change-KeepsAnswers env s t (Step-Change env s t step) key row h)

-- Once an owner's command has been answered, then after any number of later transactions of the daemon
-- every command of an owner with the same key and the same payload digest is answered with the same
-- receipt, marked as replayed and without effects, and leaves the store as it is.
pub apply_command_forever :
    (env : Env) (input again : ApplyInput) (s s' t : Store) (receipt : CommandReceipt)
    → apply_command env input s ≡ (s', ok receipt)
    → Steps env s' t
    → again.idempotency_key ≡ input.idempotency_key
    → is_owner again.principal.kind ≡ true
    → env.command_digest again.command ≡ env.command_digest input.command
    → apply_command env again t ≡ (t, ok (record receipt { replayed = true; effects = [] }))
apply_command_forever env input again s s' t receipt h steps k o d =
    let a = answered env input s s' receipt h in
    given_as_replay env input again t receipt
      (record {
        row = a.row;
        found = Steps-KeepsAnswers env s' t steps input.idempotency_key a.row a.found;
        same_digest = a.same_digest;
        same_receipt = a.same_receipt;
      })
      k o d
