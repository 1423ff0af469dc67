-- ===== src/Http/Credentials.antt =====
-- What `authorizeRead` of packages/cli/src/http-api.ts asks of a request.
use text.Mathlib.Text.{◌==◌ as str_eq}
use agentis.StoreDb.{Db}
use agentis.Http.Authority.{
  csrf_token, session_cookie, by_principal, exact_origin, Times, by_session, authorize_read,
}
use agentis.Schema.{is_owner, BrowserSessionRow}
use agentis.Http.{
  is_token, after_prefix, RequestAuthority, Authorization, Headers, Dependencies,
  parse_authorization,
}
use agentis.Browser.{browser_session}
use agentis.Prelude.{
  find_by_sound, [], Option-cases, ◌==◌, ◌∷◌, arith, on_test, any_by, find_by, on_option, List, ℕ,
  String, Option, Bool, refl, true, ◌≡◌, some, none, inl, inr, ◌&&◌, ltb,
}

-- The owner's token, as a bearer.
pub record OfOwner (d : Dependencies) (headers : Headers) : Type 0 where
  pub header : String
  pub bearer : String
  pub sent : headers.authorization ≡ some header
  pub carried : after_prefix "Bearer " header ≡ some bearer
  pub same_token : str_eq bearer d.owner_token ≡ true

-- A browser of the daemon's own origin with a CSRF token, sent as a cookie and as a header, and with a
-- session that is stored under the hash of its cookie, with the hash of that token, and not expired.
pub record OfBrowser (d : Dependencies) (t : Times) (headers : Headers) (db : Db) : Type 0 where
  pub token : String
  pub csrf : String
  pub same_origin : exact_origin d headers ≡ true
  pub cookie : session_cookie d headers ≡ some token
  pub agreed : csrf_token d headers ≡ some csrf
  pub stored :
      any_by
        (λ s.
          s.token_hash == d.hash token
          && (s.csrf_hash == d.hash csrf && ltb t.check_ms s.expires_at))
        db.sessions
      ≡ true

-- A session that is stored under the hash of the request's cookie and has not expired.
pub record OfSession (d : Dependencies) (now : ℕ) (headers : Headers) (db : Db) : Type 0 where
  pub token : String
  pub cookie : session_cookie d headers ≡ some token
  pub stored : any_by (λ s. s.token_hash == d.hash token && ltb now s.expires_at) db.sessions ≡ true

-- Who is granted what.
abbrev pub Grants : Dependencies → ℕ → Headers → Db → RequestAuthority → Type 0
Grants d now headers db (RequestAuthority.by_cli principal) =
    OfOwner d headers × (is_owner principal.kind ≡ true)
Grants d now headers db (RequestAuthority.by_browser principal token_hash) =
    OfSession d now headers db
    × (token : String) × (session_cookie d headers ≡ some token)
    × (token_hash ≡ d.hash token)
    × (is_owner principal.kind ≡ true)

abbrev pub GrantedBy : Dependencies → ℕ → Headers → Db → Authorization → Type 0
GrantedBy d now headers db (Authorization.refused e) = Unit {0}
GrantedBy d now headers db (Authorization.granted authority) = Grants d now headers db authority

is_token-bearer :
    (d : Dependencies) (o : Option String)
    → is_token d o ≡ true
    → (bearer : String) × (o ≡ some bearer) × (str_eq bearer d.owner_token ≡ true)
is_token-bearer d none h = cc
is_token-bearer d (some bearer) h = (bearer, refl, ground arith)

by_principal-Grants :
    (d : Dependencies) (now : ℕ) (headers : Headers) (db : Db) (header : String)
    → headers.authorization ≡ some header
    → GrantedBy d now headers db (by_principal (parse_authorization d header))
unfolding parse_authorization
by_principal-Grants d now headers db header e =
    on_test (λ o. GrantedBy d now headers db (by_principal o))
      (is_token d (after_prefix "Bearer " header))
      (λ h.
        let (bearer, c, s) = is_token-bearer d (after_prefix "Bearer " header) h in
        (record { header = header; bearer = bearer; sent = e; carried = c; same_token = s }, refl))
      (λ _.
        on_option (λ o. GrantedBy d now headers db (by_principal o)) (after_prefix "Bot " header)
          (λ _. tt) (λ session _. tt))

pub find_by-any_by :
    (p q : BrowserSessionRow → Bool) (rows : List BrowserSessionRow) (x : BrowserSessionRow)
    → find_by p rows ≡ some x
    → q x ≡ true
    → any_by q rows ≡ true
find_by-any_by p q [] x h e = cc
find_by-any_by p q (y ∷ rows) x h e = ground (arith, find_by-any_by p q rows x)

session-OfSession :
    (d : Dependencies) (now : ℕ) (headers : Headers) (db : Db) (token : String)
    (session : BrowserSessionRow)
    → session_cookie d headers ≡ some token
    → browser_session (d.hash token) none now db ≡ some session
    → OfSession d now headers db
unfolding browser_session
session-OfSession d now headers db token session c h =
    elim (Option-cases
      (find_by (λ s. s.token_hash == d.hash token && ltb now s.expires_at) db.sessions)) [
        | inl e ↦ absurd (ground (arith, e, h))
        | inr (s, e) ↦ record {
          token = token;
          cookie = c;
          stored =
              find_by-any_by (λ s. s.token_hash == d.hash token && ltb now s.expires_at)
                (λ s. s.token_hash == d.hash token && ltb now s.expires_at) db.sessions s e
                (find_by_sound (λ s. s.token_hash == d.hash token && ltb now s.expires_at)
                  db.sessions s e);
        }
      ]

pub authorize_read-Grants :
    (d : Dependencies) (now : ℕ) (headers : Headers) (db : Db)
    → GrantedBy d now headers db (authorize_read d now headers db)
unfolding authorize_read by_session
authorize_read-Grants d now headers db =
    on_option (GrantedBy d now headers db) headers.authorization
      (λ _.
        on_option (GrantedBy d now headers db) (session_cookie d headers) (λ _. tt)
          λ token c.
            on_option (GrantedBy d now headers db) (browser_session (d.hash token) none now db)
              (λ _. tt)
              λ session e.
                (session-OfSession d now headers db token session c e, token, c, refl, refl))
      (λ header e. by_principal-Grants d now headers db header e)
