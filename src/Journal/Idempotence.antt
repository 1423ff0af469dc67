-- ===== src/Journal/Idempotence.antt =====
-- `applyCommand` under one idempotency key: the first answer, the repetitions, and the failures.
use agentis.Prelude.{
  Ensures_of_ok, subst, ==_refl, ◌∷◌, ==_iff, List, any_by, ◌≡◌, refl, sym, true, false, ◌==◌, [],
  some, none, arith, Bool-cases, Option-cases, inl, inr, find_by, insert_row, Ensures, Result, ok,
  err, StoreErrorCode, throw,
}
use agentis.Schema.{Ident, ApplyInput, CommandReceipt, CommandRow, is_owner}
use agentis.StoreDb.{Db, Env}
use agentis.Commands.Submit.{Staged}
use agentis.Commands.Dispatch.{
  command_row, Store, apply_command, dispatch, settle, replay, prior_command,
}
use agentis.Journal.Base.{LoggedWith}
use agentis.Journal.Steps.{dispatch-Logged}

-- What the command log says of a key after a command has been answered.
pub record Answered (env : Env) (input : ApplyInput) (receipt : CommandReceipt) (db : Db)
    : Type 0 where
  pub row : CommandRow
  pub found : prior_command input.idempotency_key db ≡ some row
  pub same_digest : row.payload_digest ≡ env.command_digest input.command
  pub same_receipt : replay row ≡ record receipt { replayed = true; effects = [] }

find_by-insert_new :
    (key : Ident) (row : CommandRow) (rows : List CommandRow)
    → row.idempotency_key ≡ key
    → find_by (λ c. c.idempotency_key == key) rows ≡ none
    → find_by (λ c. c.idempotency_key == key) (insert_row row rows) ≡ some row
find_by-insert_new key row [] h e = ground (arith, ==_iff row.idempotency_key key)
find_by-insert_new key row (x ∷ rows) h e = ground (arith, find_by-insert_new key row rows h)

-- Of a call that returned its receipt; one that threw has answered nothing.
abbrev AnsweredBy : Env → ApplyInput → Store × Result CommandReceipt → Type 0
AnsweredBy env input (s, ok receipt) = Answered env input receipt s.db
AnsweredBy env input (s, err e) = Unit {0}

settle-AnsweredBy :
    (env : Env) (input : ApplyInput) (s : Store) (result : Staged × Result (CommandReceipt × Db))
    → Ensures (LoggedWith s.db) result.1
    → prior_command input.idempotency_key s.db ≡ none
    → AnsweredBy env input (settle env input s result)
unfolding settle
settle-AnsweredBy env input s (staged, err e) v n = tt
settle-AnsweredBy env input s (staged, ok (given, db)) v n =
    elim (Bool-cases (any_by (λ c. c.id == given.command_id) db.commands)) [
      | inl t ↦ rw t tt
      | inr t ↦ rw t (record {
        row = command_row env input given;
        found =
            find_by-insert_new input.idempotency_key (command_row env input given) db.commands refl
              (rw ((Ensures_of_ok v).same_commands) n);
        same_digest = refl;
        same_receipt = refl;
      })
    ]

apply_command-AnsweredBy :
    (env : Env) (input : ApplyInput) (s : Store) → AnsweredBy env input (apply_command env input s)
unfolding apply_command
apply_command-AnsweredBy env input s = elim (Bool-cases (is_owner input.principal.kind)) [
  | inr t ↦ rw t tt
  | inl t ↦ rw t (elim (Option-cases (prior_command input.idempotency_key s.db)) [
    | inl e ↦
        rw e (
          settle-AnsweredBy env input s (dispatch env input s.db) (dispatch-Logged env input s.db)
            e)
    | inr (prior, e) ↦
        rw e (elim (Bool-cases (prior.payload_digest == env.command_digest input.command)) [
          | inr d ↦ rw d tt
          | inl d ↦ rw d (record {
            row = prior;
            found = e;
            same_digest = (==_iff prior.payload_digest (env.command_digest input.command)).0 d;
            same_receipt = refl;
          })
        ])
  ])
]

pub answered :
    (env : Env) (input : ApplyInput) (s s' : Store) (receipt : CommandReceipt)
    → apply_command env input s ≡ (s', ok receipt)
    → Answered env input receipt s'.db
answered env input s s' receipt h =
    subst (AnsweredBy env input) h (apply_command-AnsweredBy env input s)

found_again :
    (input again : ApplyInput) (db : Db) (row : CommandRow)
    → again.idempotency_key ≡ input.idempotency_key
    → prior_command input.idempotency_key db ≡ some row
    → prior_command again.idempotency_key db ≡ some row
found_again input again db row k e = subst (λ key. prior_command key db ≡ some row) (sym k) e

-- The answer to a key that the command log has.
pub given_as_replay :
    (env : Env) (input again : ApplyInput) (s : Store) (receipt : CommandReceipt)
    → Answered env input receipt s.db
    → again.idempotency_key ≡ input.idempotency_key
    → is_owner again.principal.kind ≡ true
    → env.command_digest again.command ≡ env.command_digest input.command
    → apply_command env again s ≡ (s, ok (record receipt { replayed = true; effects = [] }))
unfolding apply_command
given_as_replay env input again s receipt a k o d =
    rw
      (
        apply_command,
        o,
        found_again input again s.db a.row k a.found,
        a.same_digest,
        d,
        ==_refl (env.command_digest input.command),
        a.same_receipt,
      )
      refl

-- Once an owner's command has been answered, a command of an owner with the same key and another
-- payload digest is a conflict, and leaves the store as it is.
pub apply_command_reused :
    (env : Env) (input again : ApplyInput) (s s' : Store) (receipt : CommandReceipt)
    → apply_command env input s ≡ (s', ok receipt)
    → again.idempotency_key ≡ input.idempotency_key
    → is_owner again.principal.kind ≡ true
    → (env.command_digest input.command == env.command_digest again.command) ≡ false
    → apply_command env again s'
      ≡ (s', throw StoreErrorCode.conflict "idempotency key reused with a different payload")
unfolding apply_command
apply_command_reused env input again s s' receipt h k o d =
    let a = answered env input s s' receipt h in
    rw (apply_command, o, found_again input again s'.db a.row k a.found, a.same_digest, d) refl
