-- ===== src/Journal/Base.antt =====
-- How `emit` and `message` extend the journal and the conversation, and what follows for `finishRun`.
use agentis.Prelude.{
  inr, inl, Bool-cases, any_by-insert_row, subst, ℕ, suc, ◌≡◌, refl, ap, Bool, true, false, not,
  ◌||◌, List, [], ◌∷◌, ◌++◌, arith, any_by, insert_row,
}
use agentis.Schema.{EventBody, TransitionReason, Ident, CommandRow, EventRow, MessageRow, DedupeKey}
use agentis.StoreDb.{MessageInput, is_duplicate, Db, Env, emit, message, same_key}

-- The part of the database that these tables make up.
pub record Log : Type 0 where
  pub commands : List CommandRow
  pub latched : Bool
  pub last_seq : ℕ
  pub events : List EventRow
  pub messages : List MessageRow

abbrev pub log_of : Db → Log
log_of db = record {
  commands = db.commands;
  latched = db.latched;
  last_seq = db.last_seq;
  events = db.events;
  messages = db.messages;
}

-- The numbers of these events run from the one after `from` to `to`, one by one.
abbrev pub Numbered : (from to : ℕ) → List EventRow → Type 0
Numbered from to [] = to ≡ from
Numbered from to (e ∷ es) = (e.seq ≡ suc from) × Numbered (suc from) to es

-- UNIQUE (dedupe_key): no two messages have one key.
abbrev pub UniqueKeys : List MessageRow → Type 0
UniqueKeys [] = Unit {0}
UniqueKeys (m ∷ ms) = (any_by (λ x. same_key x.dedupe_key m.dedupe_key) ms ≡ false) × UniqueKeys ms

-- What an operation adds: events at the end, messages with new keys, the latch at most.
pub record Extends (a b : Log) : Type 0 where
  pub same_commands : b.commands ≡ a.commands
  pub keeps_latch : (not a.latched || b.latched) ≡ true
  pub added : List EventRow
  pub appended : b.events ≡ a.events ++ added
  pub numbered : Numbered a.last_seq b.last_seq added
  pub unique : UniqueKeys a.messages → UniqueKeys b.messages

pub append_nil : {A : Type 0} (xs : List A) → xs ≡ xs ++ []
append_nil [] = refl
append_nil (x ∷ xs) = ap (λ ys. x ∷ ys) (append_nil xs)

append_assoc : {A : Type 0} (xs ys zs : List A) → (xs ++ ys) ++ zs ≡ xs ++ (ys ++ zs)
append_assoc [] ys zs = refl
append_assoc (x ∷ xs) ys zs = ap (λ l. x ∷ l) (append_assoc xs ys zs)

keep : (b : Bool) → (not b || b) ≡ true
keep true = refl
keep false = refl

pub Extends-refl : (a : Log) → Extends a a
Extends-refl a = record {
  same_commands = refl;
  keeps_latch = keep a.latched;
  added = [];
  appended = append_nil a.events;
  numbered = refl;
  unique = λ u. u;
}

Numbered-append :
    (a b c : ℕ) (xs ys : List EventRow)
    → Numbered a b xs
    → Numbered b c ys
    → Numbered a c (xs ++ ys)
Numbered-append a b c [] ys p q = subst (λ k. Numbered k c ys) p q
Numbered-append a b c (x ∷ xs) ys p q = (p.0, Numbered-append (suc a) b c xs ys p.1 q)

pub Extends-trans : (a b c : Log) → Extends a b → Extends b c → Extends a c
Extends-trans a b c e f = record {
  same_commands = ground (arith, e.same_commands, f.same_commands);
  keeps_latch = ground (arith, e.keeps_latch, f.keeps_latch);
  added = e.added ++ f.added;
  appended = rw (f.appended, e.appended) (append_assoc a.events e.added f.added);
  numbered = Numbered-append a.last_seq b.last_seq c.last_seq e.added f.added e.numbered f.numbered;
  unique = λ u. f.unique (e.unique u);
}

-- One event more.
pub emit-Extends :
    (env : Env) (type : TransitionReason) (body : EventBody) (now : ℕ) (db : Db)
    → Extends (log_of db) (log_of (emit env type body now db))
unfolding emit
emit-Extends env type body now db = record {
  same_commands = refl;
  keeps_latch = keep db.latched;
  added =
      record {
        seq = suc db.last_seq;
        id = env.uuid db.drawn;
        type = type;
        body = body;
        created_at = now;
      }
      ∷ [];
  appended = refl;
  numbered = (refl, refl);
  unique = λ u. u;
}

same_key_sym : (a b : DedupeKey) → same_key a b ≡ same_key b a
unfolding same_key
same_key_sym a b = ground arith

UniqueKeys-insert_row :
    (m : MessageRow) (ms : List MessageRow)
    → any_by (λ x. same_key x.dedupe_key m.dedupe_key) ms ≡ false
    → UniqueKeys ms
    → UniqueKeys (insert_row m ms)
UniqueKeys-insert_row m [] h u = (refl, tt)
UniqueKeys-insert_row m (x ∷ ms) h u = (
  ground (
    arith,
    any_by-insert_row (λ y. same_key y.dedupe_key x.dedupe_key) m ms,
    same_key_sym m.dedupe_key x.dedupe_key,
  ),
  UniqueKeys-insert_row m ms (ground arith) u.1,
)

not_duplicate :
    (id : Ident) (key : DedupeKey) (ms : List MessageRow)
    → is_duplicate id key ms ≡ false
    → any_by (λ x. same_key x.dedupe_key key) ms ≡ false
unfolding is_duplicate
not_duplicate id key [] h = refl
not_duplicate id key (m ∷ ms) h = ground (arith, not_duplicate id key ms)

-- One message more, or none.
pub message-Extends :
    (env : Env) (m : MessageInput) (db : Db) → Extends (log_of db) (log_of (message env m db).0)
unfolding message
message-Extends env m db = record {
  same_commands = refl;
  keeps_latch = keep db.latched;
  added = [];
  appended = append_nil db.events;
  numbered = refl;
  unique = λ u. elim (Bool-cases (is_duplicate (env.uuid db.drawn) m.dedupe_key db.messages)) [
    | inl h ↦ rw h u
    | inr h ↦ rw h (
        UniqueKeys-insert_row _ db.messages
          (not_duplicate (env.uuid db.drawn) m.dedupe_key db.messages h) u)
  ];
}

-- A message, and the event that follows it.
pub said-Extends :
    (env : Env) (type : TransitionReason) (body : EventBody) (now : ℕ) (m : MessageInput) (db : Db)
    → Extends (log_of db) (log_of (emit env type body now (message env m db).0))
said-Extends env type body now m db =
    Extends-trans (log_of db) (log_of (message env m db).0) _ (message-Extends env m db)
      (emit-Extends env type body now (message env m db).0)

-- The extension of what a computation has returned.
abbrev pub Logged : Db → Db → Type 0
Logged db db' = Extends (log_of db) (log_of db')

abbrev pub LoggedWith {ℓ} : {A : Type ℓ} → Db → A × Db → Type 0
LoggedWith db s = Extends (log_of db) (log_of s.1)

pub Logged-trans : (a b c : Db) → Logged a b → Logged b c → Logged a c
Logged-trans a b c = Extends-trans (log_of a) (log_of b) (log_of c)
