-- ===== src/Commands/Authority.antt =====
-- Who may submit a task from a browser: the guard of `submitTask` of packages/cli/src/store.ts.
use agentis.Prelude.{
  ℕ, ◌<◌, Bool, true, false, not, ◌&&◌, ◌||◌, Option, some, none, ◌≡◌, if◌then◌else◌, refl, sym,
  ◌==◌, ==_iff, leb, arith, find_by, find_by_sound, is_some, subst, Bool-cases, Option-cases, inl,
  inr, ok, Ensures, holds, threw, Ensures-if, Ensures_eq, ◌⊎◌,
}
use agentis.Schema.{
  Ident, Bot, SubmitTask, SourcePacket, BrowserSessionRow, ApplyInput, CommandReceipt, is_mara,
  same_provider, source_kind,
}
use agentis.StoreDb.{Db, Env}
use agentis.Commands.Submit.{
  acknowledges, browser_may_submit, submitted_bot, submit_refusal, insert_task, submit_task,
  from_browser, source_of, submit_taken, submitted_source_path,
}

-- What lets the session of a browser submit a command.
pub record Authorized (input : ApplyInput) (command : SubmitTask) (db : Db) : Type 0 where
  pub session : BrowserSessionRow
  pub source : SourcePacket
  pub token : input.principal.browser_session_hash ≡ some session.token_hash
  pub stored : find_by (λ s. s.token_hash == session.token_hash) db.sessions ≡ some session
  pub sent : command.source ≡ some source
  pub unexpired : input.now_ms < session.expires_at
  pub provider : same_provider session.provider input.provider ≡ true
  pub acknowledged : is_some session.provider_acknowledged_at ≡ true
  pub source_acknowledged : acknowledges (source_kind source.origin) session.sources ≡ true
  pub to_mara : submitted_bot command ≡ some Bot.mara
  pub plain : (is_some command.attachments || is_some command.mcp_servers) ≡ false

conjuncts :
    (a b c d e : Bool)
    → (a && b && c && d && e) ≡ true
    → (a ≡ true) × (b ≡ true) × (c ≡ true) × (d ≡ true) × (e ≡ true)
conjuncts true true true true true h = (refl, refl, refl, refl, refl)
conjuncts false b c d e h = cc
conjuncts true false c d e h = cc
conjuncts true true false d e h = cc
conjuncts true true true false e h = cc
conjuncts true true true true false h = cc

leb_false : (a b : ℕ) → not (leb a b) ≡ true → b < a
leb_false a b h = ground arith

mara_bot : (bot : Bot) → is_mara bot ≡ true → bot ≡ Bot.mara
mara_bot Bot.mara h = refl
mara_bot Bot.ivo h = cc

Option-holds :
    {A : Type 0} (o : Option A) (f : A → Bool)
    → elim o [ none ↦ false | some v ↦ f v ] ≡ true
    → (v : A) × (o ≡ some v) × (f v ≡ true)
Option-holds none f h = cc
Option-holds (some v) f h = (v, refl, h)

may_submit-Authorized :
    (input : ApplyInput) (command : SubmitTask) (bot : Bot) (db : Db) (hash : Ident)
    (s : BrowserSessionRow) (source : SourcePacket)
    → input.principal.browser_session_hash ≡ some hash
    → find_by (λ s. s.token_hash == hash) db.sessions ≡ some s
    → command.source ≡ some source
    → (not (leb s.expires_at input.now_ms)
        && same_provider s.provider input.provider
        && is_some s.provider_acknowledged_at
        && acknowledges (source_kind source.origin) s.sources
        && is_mara bot)
      ≡ true
    → (is_some command.attachments || is_some command.mcp_servers) ≡ false
    → submitted_bot command ≡ some bot
    → Authorized input command db
may_submit-Authorized input command bot db hash s source t f e h p b =
    let (h1, h2, h3, h4, h5) =
      conjuncts (not (leb s.expires_at input.now_ms)) (same_provider s.provider input.provider)
        (is_some s.provider_acknowledged_at) (acknowledges (source_kind source.origin) s.sources)
        (is_mara bot) h in
    let same : s.token_hash ≡ hash =
      (==_iff s.token_hash hash).0 (find_by_sound (λ x. x.token_hash == hash) db.sessions s f) in
    record {
      session = s;
      source = source;
      token = rw same t;
      stored = subst (λ k. find_by (λ x. x.token_hash == k) db.sessions ≡ some s) (sym same) f;
      sent = e;
      unexpired = leb_false s.expires_at input.now_ms h1;
      provider = h2;
      acknowledged = h3;
      source_acknowledged = h4;
      to_mara = rw (sym (mara_bot bot h5)) b;
      plain = p;
    }

browser_may_submit-Authorized :
    (input : ApplyInput) (command : SubmitTask) (bot : Bot) (db : Db)
    → (is_some command.attachments || is_some command.mcp_servers) ≡ false
    → submitted_bot command ≡ some bot
    → browser_may_submit input command bot db ≡ true
    → Authorized input command db
unfolding browser_may_submit
browser_may_submit-Authorized input command bot db p b h =
    let (hash, t, h1) = Option-holds input.principal.browser_session_hash _ h in
    let (s, f, h2) = Option-holds (find_by (λ x. x.token_hash == hash) db.sessions) _ h1 in
    let (source, e, h3) = Option-holds command.source _ h2 in
    may_submit-Authorized input command bot db hash s source t f e h3 p b

-- What a submission answered: a refusal that changed nothing, or a task that its sender may submit.
abbrev Answered : ApplyInput → SubmitTask → Db → CommandReceipt × Db → Type 0
Answered input command db (r, db') =
    ((r.accepted ≡ false) × (db' ≡ db))
    ⊎ ((from_browser input ≡ false) ⊎ Authorized input command db)

first_guard :
    {A : Type 0} (f m : Bool) (r : A) (o : Option A)
    → (if f && not m then some r else o) ≡ none
    → (f ≡ false) ⊎ (m ≡ true)
first_guard false m r o h = inl refl
first_guard true true r o h = inr refl
first_guard true false r o h = cc

submit_refusal-browser :
    (command_id : Ident) (input : ApplyInput) (command : SubmitTask) (bot : Bot) (db : Db)
    → submit_refusal command_id input command bot db ≡ none
    → (from_browser input ≡ false) ⊎ (browser_may_submit input command bot db ≡ true)
unfolding submit_refusal
submit_refusal-browser command_id input command bot db h =
    first_guard (from_browser input) (browser_may_submit input command bot db) _ _ h

insert_task-Answered :
    (env : Env) (command_id : Ident) (input : ApplyInput) (command : SubmitTask) (bot : Bot)
    (db : Db)
    → (from_browser input ≡ false) ⊎ Authorized input command db
    → Ensures (Answered input command db) (insert_task env command_id input command bot db).1
unfolding insert_task
insert_task-Answered env command_id input command bot db a =
    elim (Bool-cases (env.writes (submitted_source_path env input db) (source_of command).text)) [
      | inl h ↦ rw h (Ensures-if (submit_taken env db) (λ _. threw) (λ _. holds (inr a)))
      | inr h ↦ rw h threw
    ]

submit_refusal-denies :
    (command_id : Ident) (input : ApplyInput) (command : SubmitTask) (bot : Bot) (db : Db)
    (refusal : CommandReceipt)
    → submit_refusal command_id input command bot db ≡ some refusal
    → refusal.accepted ≡ false
unfolding submit_refusal
submit_refusal-denies command_id input command bot db refusal h = ground arith

submit_task-Answered :
    (env : Env) (command_id : Ident) (input : ApplyInput) (command : SubmitTask) (db : Db)
    → Ensures (Answered input command db) (submit_task env command_id input command db).1
unfolding submit_task
submit_task-Answered env command_id input command db =
    elim (Bool-cases (is_some command.attachments || is_some command.mcp_servers)) [
      | inl h ↦ rw h (holds (inl (refl, refl)))
      | inr p ↦ rw p (elim (Option-cases (submitted_bot command)) [
        | inl e ↦ rw e (holds (inl (refl, refl)))
        | inr (bot, b) ↦
            rw b (elim (Option-cases (submit_refusal command_id input command bot db)) [
              | inl f ↦ rw f (
                  insert_task-Answered env command_id input command bot db
                    (authorized bot p b (submit_refusal-browser command_id input command bot db f)))
              | inr (refusal, f) ↦ rw f (
                  holds
                    (inl (submit_refusal-denies command_id input command bot db refusal f, refl)))
            ])
      ])
    ]
  where
    authorized :
        (bot : Bot)
        → (is_some command.attachments || is_some command.mcp_servers) ≡ false
        → submitted_bot command ≡ some bot
        → (from_browser input ≡ false) ⊎ (browser_may_submit input command bot db ≡ true)
        → (from_browser input ≡ false) ⊎ Authorized input command db
    authorized bot p b (inl f) = inl f
    authorized bot p b (inr m) = inr (browser_may_submit-Authorized input command bot db p b m)

-- A submission from a browser that is answered either is refused, and then changes nothing, or comes
-- from a stored session under the token it presents, which has not expired, is for the provider in use,
-- has acknowledged that provider and the kind of the source, and submits a source to Mara without
-- attachments and MCP servers.
pub submit_task-Authorized :
    (env : Env) (command_id : Ident) (input : ApplyInput) (command : SubmitTask) (db db' : Db)
    (r : CommandReceipt)
    → (submit_task env command_id input command db).1 ≡ ok (r, db')
    → from_browser input ≡ true
    → ((r.accepted ≡ false) × (db' ≡ db)) ⊎ Authorized input command db
submit_task-Authorized env command_id input command db db' r h b =
    elim (Ensures_eq (submit_task-Answered env command_id input command db) h) [
      | inl refused ↦ inl refused
      | inr (inl f) ↦ cc
      | inr (inr a) ↦ inr a
    ]
