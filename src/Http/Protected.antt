-- ===== src/Http/Protected.antt =====
-- Who changes the store by a command, `authorizeMutation` of packages/cli/src/http-api.ts.
use agentis.Http.Credentials.{
  OfBrowser, GrantedBy, Grants, authorize_read-Grants, OfOwner, find_by-any_by,
}
use agentis.Commands.Dispatch.{Store}
use agentis.StoreDb.{Db}
use agentis.Http.Authority.{
  csrf_token, if_granted, unless_cli, exact_origin, Times, authorize_browser_mutation,
  authorize_mutation, authorize_read, check_browser,
}
use agentis.Schema.{is_owner, Ident, BrowserSessionRow}
use agentis.Http.{ApiError, RequestAuthority, Authorization, Headers, Dependencies}
use agentis.Http.Command.{
  run_authorized, Answer, if_authorized, principal_of, CommandPayload, handle_command,
}
use agentis.Browser.{browser_session}
use agentis.Prelude.{
  subst, find_by_sound, Option-cases, not, ◌==◌, arith, on_test, any_by, find_by, on_option, ℕ,
  refl, true, ◌≡◌, some, ◌⊎◌, inl, inr, ◌&&◌, ltb,
}

browser_session-stored :
    (token_hash csrf_hash : Ident) (now : ℕ) (db : Db) (session : BrowserSessionRow)
    → browser_session token_hash (some csrf_hash) now db ≡ some session
    → any_by
        (λ s. s.token_hash == token_hash && (s.csrf_hash == csrf_hash && ltb now s.expires_at))
        db.sessions
      ≡ true
unfolding browser_session
browser_session-stored token_hash csrf_hash now db session h =
    elim (Option-cases
      (find_by (λ s. s.token_hash == token_hash && ltb now s.expires_at) db.sessions)) [
        | inl e ↦ absurd (ground (arith, e, h))
        | inr (s, e) ↦
            find_by-any_by (λ s. s.token_hash == token_hash && ltb now s.expires_at)
              (λ s.
                s.token_hash == token_hash && (s.csrf_hash == csrf_hash && ltb now s.expires_at))
              db.sessions s e
              (ground (
                arith,
                h,
                e,
                find_by_sound (λ s. s.token_hash == token_hash && ltb now s.expires_at) db.sessions
                    s e,
              ))
      ]

abbrev pub Entitled : Dependencies → Times → Headers → Db → Type 0
Entitled d t headers db = OfOwner d headers ⊎ OfBrowser d t headers db

-- That whoever is granted something is the owner, and has this to show.
abbrev pub Justified : Type 0 → Authorization → Type 0
Justified W (Authorization.refused e) = Unit {0}
Justified W (Authorization.granted authority) = W × (is_owner (principal_of authority).kind ≡ true)

check_browser-Justified :
    (d : Dependencies) (t : Times) (now : ℕ) (headers : Headers) (db : Db)
    (authority : RequestAuthority)
    → Grants d now headers db authority
    → Justified (OfBrowser d t headers db) (check_browser d t headers db authority)
unfolding check_browser
check_browser-Justified d t now headers db (RequestAuthority.by_cli principal) g = tt
check_browser-Justified d t now headers db (RequestAuthority.by_browser principal token_hash)
      (held, token, c, same, o) =
    on_test (Justified (OfBrowser d t headers db)) (not (exact_origin d headers)) (λ _. tt)
      λ exact.
        on_option (Justified (OfBrowser d t headers db)) (csrf_token d headers) (λ _. tt)
          λ csrf agreed.
            on_option (Justified (OfBrowser d t headers db))
              (browser_session token_hash (some (d.hash csrf)) t.check_ms db) (λ _. tt)
              λ session e. (
                record {
                  token = token;
                  csrf = csrf;
                  same_origin = ground arith;
                  cookie = c;
                  agreed = agreed;
                  stored =
                      browser_session-stored (d.hash token) (d.hash csrf) t.check_ms db session (
                        subst
                          (λ h. browser_session h (some (d.hash csrf)) t.check_ms db ≡ some session)
                          same e);
                },
                o,
              )

if_granted-Justified :
    (W : Type 0) (d : Dependencies) (now : ℕ) (headers : Headers) (db : Db) (first : Authorization)
    (f : RequestAuthority → Authorization)
    → GrantedBy d now headers db first
    → ((authority : RequestAuthority)
        → Grants d now headers db authority
        → Justified W (f authority))
    → Justified W (if_granted first f)
if_granted-Justified W d now headers db (Authorization.refused e) f g h = tt
if_granted-Justified W d now headers db (Authorization.granted authority) f g h = h authority g

also-Justified : (V W : Type 0) (a : Authorization) → Justified W a → Justified (V ⊎ W) a
also-Justified V W (Authorization.refused e) j = tt
also-Justified V W (Authorization.granted authority) (w, o) = (inr w, o)

unless_cli-Justified :
    (W : Type 0) (d : Dependencies) (now : ℕ) (headers : Headers) (db : Db) (others : Authorization)
    → Justified W others
    → (authority : RequestAuthority) → Grants d now headers db authority
    → Justified (OfOwner d headers ⊎ W) (unless_cli others authority)
unless_cli-Justified W d now headers db others j (RequestAuthority.by_cli principal) (g, o) =
    (inl g, o)
unless_cli-Justified W d now headers db others j (RequestAuthority.by_browser principal token_hash)
      g =
    also-Justified (OfOwner d headers) W others j

pub authorize_browser_mutation-Justified :
    (d : Dependencies) (t : Times) (headers : Headers) (db : Db)
    → Justified (OfBrowser d t headers db) (authorize_browser_mutation d t headers db)
unfolding authorize_browser_mutation
authorize_browser_mutation-Justified d t headers db =
    if_granted-Justified _ d t.again_ms headers db (authorize_read d t.again_ms headers db)
      (check_browser d t headers db) (authorize_read-Grants d t.again_ms headers db)
      (check_browser-Justified d t t.again_ms headers db)

pub authorize_mutation-Justified :
    (d : Dependencies) (t : Times) (headers : Headers) (db : Db)
    → Justified (Entitled d t headers db) (authorize_mutation d t headers db)
unfolding authorize_mutation
authorize_mutation-Justified d t headers db =
    if_granted-Justified _ d t.read_ms headers db (authorize_read d t.read_ms headers db) _
      (authorize_read-Grants d t.read_ms headers db)
      (unless_cli-Justified (OfBrowser d t headers db) d t.read_ms headers db
        (authorize_browser_mutation d t headers db)
        (authorize_browser_mutation-Justified d t headers db))

abbrev pub Refused : Dependencies → Times → Headers → CommandPayload → Store → Type 0
Refused d t headers payload s =
    (e : ApiError) × (handle_command d t headers payload s ≡ (s, Answer.failed_with e))

-- A command that is sent over HTTP is refused and changes nothing, whatever else it holds, unless it carries
-- the owner's token as a bearer, or it comes from the daemon's own origin with one CSRF token in its cookie and
-- its header, and the session of its cookie is stored with that token and has not expired.
pub handle_command_protected :
    (d : Dependencies) (t : Times) (headers : Headers) (payload : CommandPayload) (s : Store)
    → Refused d t headers payload s ⊎ Entitled d t headers s.db
unfolding handle_command
handle_command_protected d t headers payload s =
    by_grant (authorize_mutation d t headers s.db) (authorize_mutation-Justified d t headers s.db)
  where
    by_grant :
        (a : Authorization)
        → Justified (Entitled d t headers s.db) a
        → ((e : ApiError) × (if_authorized s (run_authorized d t payload s) a
              ≡ (s, Answer.failed_with e)))
          ⊎ Entitled d t headers s.db
    by_grant (Authorization.refused e) j = inl (e, refl)
    by_grant (Authorization.granted authority) (j, o) = inr j
