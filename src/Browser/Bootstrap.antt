-- ===== src/Browser/Bootstrap.antt =====
-- Bootstrap codes of browsers and the sessions that they open, `exchangeBrowserBootstrap` of packages/cli/src/store.ts.
use agentis.Prelude.{
  if◌then◌else◌, subst, ℕ, ◌≤◌, ◌<◌, ◌≡◌, refl, sym, true, false, not, ◌&&◌, List, [], ◌∷◌, some,
  none, arith, ltb, ◌==◌, ==_refl, find_by, any_by, insert_row, ok, Ensures, holds, threw,
  Ensures-option, Ensures-if, Ensures_eq,
}
use agentis.Schema.{Ident, BootstrapRow, BrowserSessionRow}
use agentis.StoreDb.{Db}
use agentis.Browser.{
  count_by, Bool, ExchangeInput, exchange_bootstrap, is_usable, consume, new_session,
  browser_session,
}

-- No code with this hash is usable any more, now or later.
consumed :
    (hash : Ident) (now later : ℕ) (rows : List BootstrapRow)
    → now ≤ later
    → find_by (is_usable hash later) (consume hash now rows) ≡ none
consumed hash now later [] h = refl
consumed hash now later (b ∷ rows) h = ground (arith, consumed hash now later rows h)

-- What an exchange that opened a session leaves.
record Exchanged (input : ExchangeInput) (db' : Db) : Type 0 where
  spent :
      (later : ℕ)
      → input.now_ms ≤ later
      → find_by (is_usable input.code_hash later) db'.bootstraps ≡ none
  opened :
      (old : List BrowserSessionRow) × (owner : Ident) × (db'.sessions
        ≡ insert_row (new_session input owner) old)
      × (any_by (λ s. s.token_hash == input.token_hash) old ≡ false)

abbrev ExchangedBy : ExchangeInput → Bool × Db → Type 0
ExchangedBy input (true, db') = Exchanged input db'
ExchangedBy input (false, db') = Unit {0}

exchange_bootstrap-Exchanged :
    (input : ExchangeInput) (db : Db) → Ensures (ExchangedBy input) (exchange_bootstrap input db)
unfolding exchange_bootstrap
exchange_bootstrap-Exchanged input db =
    Ensures-option (find_by (is_usable input.code_hash input.now_ms) db.bootstraps) (λ _. holds tt)
      λ b _.
        Ensures-if (not (count_by (is_usable input.code_hash input.now_ms) db.bootstraps == 1))
          (λ _. holds tt)
          λ _.
            Ensures-if (any_by (λ s. s.token_hash == input.token_hash) db.sessions) (λ _. threw)
              λ t. holds (record {
                spent = λ later h. consumed input.code_hash input.now_ms later db.bootstraps h;
                opened = (db.sessions, b.owner_session, refl, t);
              })

-- A code that has opened a session opens no other: every later exchange of it, for whatever session,
-- is refused and changes nothing.
pub exchange_bootstrap_once :
    (input again : ExchangeInput) (db db' : Db)
    → exchange_bootstrap input db ≡ ok (true, db')
    → again.code_hash ≡ input.code_hash
    → input.now_ms ≤ again.now_ms
    → exchange_bootstrap again db' ≡ ok (false, db')
unfolding exchange_bootstrap
exchange_bootstrap_once input again db db' h same_code later =
    let spent = (Ensures_eq (exchange_bootstrap-Exchanged input db) h).spent again.now_ms later in
    rw
      (
        exchange_bootstrap,
        subst (λ k. find_by (is_usable k again.now_ms) db'.bootstraps ≡ none) (sym same_code) spent,
      )
      refl

find_by-new_session :
    (input : ExchangeInput) (owner now : ℕ) (old : List BrowserSessionRow)
    → any_by (λ s. s.token_hash == input.token_hash) old ≡ false
    → now < input.expires_at
    → find_by
        (λ s. s.token_hash == input.token_hash && ltb now s.expires_at)
        (insert_row (new_session input owner) old)
      ≡ some (new_session input owner)
find_by-new_session input owner now [] h t = ground (arith, ==_refl input.token_hash)
find_by-new_session input owner now (s ∷ old) h t =
    ground (arith, find_by-new_session input owner now old)

-- The session that an exchange opened is found by its token and its CSRF token until it expires, for
-- the provider that was asked for and with nothing acknowledged; another CSRF token finds nothing.
pub exchange_bootstrap-browser_session :
    (input : ExchangeInput) (csrf : Ident) (now : ℕ) (db db' : Db)
    → exchange_bootstrap input db ≡ ok (true, db')
    → now < input.expires_at
    → (owner : Ident) × (browser_session input.token_hash (some csrf) now db'
        ≡ (if input.csrf_hash == csrf then some (new_session input owner) else none))
unfolding browser_session
exchange_bootstrap-browser_session input csrf now db db' h t =
    let (old, owner, e, fresh) = (Ensures_eq (exchange_bootstrap-Exchanged input db) h).opened in
    let found =
      subst
        (λ ss.
          find_by (λ s. s.token_hash == input.token_hash && ltb now s.expires_at) ss
          ≡ some (new_session input owner))
        (sym e) (find_by-new_session input owner now old fresh t) in
    (owner, rw (browser_session, found) refl)
