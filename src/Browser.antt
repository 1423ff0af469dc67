-- ===== src/Browser.antt =====
-- Browser sessions of packages/cli/src/store.ts: `issueBrowserBootstrap`, `exchangeBrowserBootstrap`,
-- `browserSession`, `authenticateBrowser` and `acknowledgeBrowserSetup`.
pub mod Bootstrap
pub mod Setup
use agentis.Prelude.{
  ℕ, Bool, true, false, not, ◌&&◌, ◌||◌, List, [], ◌∷◌, Option, some, none, ◌==◌, ltb, leb,
  coalesce, is_some, if◌then◌else◌, map, find_by, any_by, filter_by, count_by, update_where,
  insert_row, StoreErrorCode, Result, ok, throw,
}
use agentis.Schema.{
  Ident, ProviderKind, SourceKind, TransitionReason, EventBody, BootstrapRow, BrowserSessionRow,
  SourceAcknowledgement, same_provider, same_source,
}
use agentis.StoreDb.{Db, Env, emit}

-- DELETE FROM browser_bootstraps WHERE expires_at <= ? OR consumed_at IS NOT NULL.
abbrev pub is_spent : ℕ → BootstrapRow → Bool
is_spent now b = leb b.expires_at now || is_some b.consumed_at

-- The spent codes are deleted and the new one is inserted, unless its hash is there already.
unfoldable pub issue_bootstrap :
    (code_hash owner_session : Ident) → (now expires_at : ℕ) → Db → Result (Unit {0} × Db)
issue_bootstrap code_hash owner_session now expires_at db =
    let kept = filter_by (λ b. not (is_spent now b)) db.bootstraps in
    if any_by (λ b. b.code_hash == code_hash) kept
    then throw StoreErrorCode.internal "UNIQUE constraint failed"
    else ok (
      tt,
      record db {
        bootstraps =
            insert_row
              (record {
                code_hash = code_hash;
                owner_session = owner_session;
                expires_at = expires_at;
                consumed_at = none;
              })
              kept;
      },
    )

pub record ExchangeInput : Type 0 where
  pub code_hash : Ident
  pub token_hash : Ident
  pub csrf_hash : Ident
  pub provider : ProviderKind
  pub now_ms : ℕ
  pub expires_at : ℕ

-- code_hash = ? AND consumed_at IS NULL AND expires_at > ?.
abbrev pub is_usable : Ident → ℕ → BootstrapRow → Bool
is_usable code_hash now b =
    b.code_hash == code_hash && not (is_some b.consumed_at) && ltb now b.expires_at

abbrev pub consume : Ident → ℕ → List BootstrapRow → List BootstrapRow
consume code_hash now =
    update_where (is_usable code_hash now) (λ b. record b { consumed_at = some now })

abbrev pub new_session : ExchangeInput → Ident → BrowserSessionRow
new_session input owner_session = record {
  token_hash = input.token_hash;
  csrf_hash = input.csrf_hash;
  owner_session = owner_session;
  provider = input.provider;
  provider_acknowledged_at = none;
  sources = [];
  expires_at = input.expires_at;
  created_at = input.now_ms;
}

-- The code is consumed and the session is opened, if the update changes one row. A `false` commits too.
unfoldable pub exchange_bootstrap : ExchangeInput → Db → Result (Bool × Db)
exchange_bootstrap input db =
    elim (find_by (is_usable input.code_hash input.now_ms) db.bootstraps) [
      | none ↦ ok (false, db)
      | some b ↦
          let consumed : Db = record db {
            bootstraps = consume input.code_hash input.now_ms db.bootstraps;
          } in
          if not (count_by (is_usable input.code_hash input.now_ms) db.bootstraps == 1)
          then ok (false, consumed)
          else if any_by (λ s. s.token_hash == input.token_hash) db.sessions
          then throw StoreErrorCode.internal "UNIQUE constraint failed"
          else ok (
            true,
            record consumed {
              sessions = insert_row (new_session input b.owner_session) db.sessions;
            },
          )
    ]

-- `browserSession`, and with it `authenticateBrowser`.
unfoldable pub browser_session :
    (token_hash : Ident) → (csrf_hash : Option Ident) → ℕ → Db → Option BrowserSessionRow
browser_session token_hash csrf_hash now db =
    elim (find_by (λ s. s.token_hash == token_hash && ltb now s.expires_at) db.sessions) [
      | none ↦ none
      | some s ↦ elim csrf_hash [
        | none ↦ some s
        | some csrf ↦ if s.csrf_hash == csrf then some s else none
      ]
    ]

abbrev pub has_source : List SourceAcknowledgement → SourceKind → Bool
has_source acknowledged kind = any_by (λ a. same_source a.source kind) acknowledged

-- A `Map` keeps its entries in the order of insertion; a source that is there already stays as it is.
abbrev pub add_sources :
    ℕ → List SourceKind → List SourceAcknowledgement → List SourceAcknowledgement
add_sources now [] acknowledged = acknowledged
add_sources now (kind ∷ kinds) acknowledged = add_sources now kinds (
    if has_source acknowledged kind
    then acknowledged
    else insert_row (record { source = kind; acknowledged_at = now }) acknowledged)

abbrev pub acknowledged_row : ℕ → List SourceAcknowledgement → BrowserSessionRow → BrowserSessionRow
acknowledged_row now acknowledged s = record s {
  provider_acknowledged_at = coalesce s.provider_acknowledged_at (some now);
  sources = acknowledged;
}

abbrev pub is_changed : BrowserSessionRow → List SourceKind → Bool
is_changed s kinds =
    not (is_some s.provider_acknowledged_at) || any_by (λ k. not (has_source s.sources k)) kinds

abbrev pub is_nil : List SourceKind → Bool
is_nil [] = true
is_nil (x ∷ xs) = false

-- The update and the event of an acknowledgement that says something new.
unfoldable pub acknowledge :
    Env → (token_hash : Ident) → ProviderKind → List SourceAcknowledgement → ℕ → Db → Db
unfolding emit
acknowledge env token_hash provider acknowledged now db =
    emit env TransitionReason.setup_acknowledged
      (EventBody.setup_done provider (map (λ a. a.source) acknowledged)) now
      (record db {
        sessions =
            update_where (λ s. s.token_hash == token_hash && ltb now s.expires_at)
              (acknowledged_row now acknowledged) db.sessions;
      })

unfoldable pub acknowledge_setup :
    Env → (token_hash : Ident) → ProviderKind → List SourceKind → ℕ → Db → Bool × Db
acknowledge_setup env token_hash provider kinds now db =
    elim (browser_session token_hash none now db) [
      | none ↦ (false, db)
      | some s ↦
          if not (same_provider s.provider provider) || is_nil kinds
          then (false, db)
          else if not (is_changed s kinds)
          then (true, db)
          else (true, acknowledge env token_hash provider (add_sources now kinds s.sources) now db)
    ]
