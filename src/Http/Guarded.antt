-- ===== src/Http/Guarded.antt =====
-- Who is answered by which handler of packages/cli/src/http-api.ts.
use agentis.Http.Protected.{
  handle_command_protected, authorize_browser_mutation-Justified, Justified,
}
use agentis.Http.Credentials.{
  OfBrowser, GrantedBy, OfSession, authorize_read-Grants, Grants, OfOwner,
}
use agentis.StoreDb.{Db}
use agentis.Http.Command.{handle_command, Answer}
use agentis.Http.Authority.{exact_origin, Times}
use agentis.Http.{Authorization, RequestAuthority, Headers, ApiError, Dependencies}
use agentis.Http.Requests.{
  show_artifact, take_setup, with_authority, reply_of, Request, Draws, Reply, respond, issue_code,
  exchange_code, read_session,
}
use agentis.Commands.Dispatch.{Store}
use agentis.Prelude.{Bool-cases, String, ℕ, refl, true, ◌≡◌, inl, inr, ◌⊎◌}

-- What each request has to show.
abbrev pub Warranted : Dependencies → Times → Headers → Db → Request → Type 0
Warranted d t headers db Request.health = Unit {0}
Warranted d t headers db Request.open_api = Unit {0}
Warranted d t headers db Request.issue_request = OfOwner d headers
Warranted d t headers db (Request.exchange_request code) = exact_origin d headers ≡ true
Warranted d t headers db Request.session_request = OfSession d t.read_ms headers db
Warranted d t headers db (Request.setup_request provider kinds) = OfBrowser d t headers db
Warranted d t headers db (Request.status_request force) =
    OfOwner d headers ⊎ OfSession d t.read_ms headers db
Warranted d t headers db (Request.command_request payload) =
    OfOwner d headers ⊎ OfBrowser d t headers db
Warranted d t headers db (Request.artifact_request id) =
    OfOwner d headers ⊎ OfSession d t.read_ms headers db

abbrev pub Declined : Store → Store × Reply → Type 0
Declined s out = (e : ApiError) × (out ≡ (s, Reply.declined e))

with_authority-Declined :
    (W : Type 0) (d : Dependencies) (now : ℕ) (headers : Headers) (s : Store)
    (f : RequestAuthority → Store × Reply) (a : Authorization)
    → GrantedBy d now headers s.db a
    → ((authority : RequestAuthority)
        → Grants d now headers s.db authority
        → Declined s (f authority) ⊎ W)
    → Declined s (with_authority s f a) ⊎ W
with_authority-Declined W d now headers s f (Authorization.refused e) g h = inl (e, refl)
with_authority-Declined W d now headers s f (Authorization.granted authority) g h = h authority g

-- Of a request that only has to be known.
known :
    (d : Dependencies) (now : ℕ) (headers : Headers) (db : Db) (authority : RequestAuthority)
    → Grants d now headers db authority
    → OfOwner d headers ⊎ OfSession d now headers db
known d now headers db (RequestAuthority.by_cli principal) (o, p) = inl o
known d now headers db (RequestAuthority.by_browser principal token_hash) (h, token, c, same, o) =
    inr h

issue_code-Declined :
    (d : Dependencies) (t : Times) (draws : Draws) (headers : Headers) (s : Store)
    (authority : RequestAuthority)
    → Grants d t.read_ms headers s.db authority
    → Declined s (issue_code d t draws s authority) ⊎ OfOwner d headers
unfolding issue_code
issue_code-Declined d t draws headers s (RequestAuthority.by_cli principal) (o, p) = inr o
issue_code-Declined d t draws headers s (RequestAuthority.by_browser principal token_hash) g =
    inl (_, refl)

read_session-Declined :
    (d : Dependencies) (t : Times) (headers : Headers) (s : Store) (authority : RequestAuthority)
    → Grants d t.read_ms headers s.db authority
    → Declined s (read_session d t s authority) ⊎ OfSession d t.read_ms headers s.db
unfolding read_session
read_session-Declined d t headers s (RequestAuthority.by_cli principal) g = inl (_, refl)
read_session-Declined d t headers s (RequestAuthority.by_browser principal token_hash)
      (h, token, c, same, o) =
    inr h

take_setup-Declined :
    (d : Dependencies) (t : Times) (headers : Headers) (s : Store)
    (f : RequestAuthority → Store × Reply) (a : Authorization)
    → Justified (OfBrowser d t headers s.db) a
    → Declined s (with_authority s f a) ⊎ OfBrowser d t headers s.db
take_setup-Declined d t headers s f (Authorization.refused e) b = inl (e, refl)
take_setup-Declined d t headers s f (Authorization.granted authority) (b, o) = inr b

command-Declined :
    (W : Type 0) (s : Store) (done : Store × Answer)
    → ((e : ApiError) × (done ≡ (s, Answer.failed_with e))) ⊎ W
    → Declined s (done.0, reply_of done.1) ⊎ W
command-Declined W s done (inl (e, h)) = inl (e, rw h refl)
command-Declined W s done (inr w) = inr w

exchange_code-Declined :
    (d : Dependencies) (t : Times) (draws : Draws) (headers : Headers) (code : String) (s : Store)
    → Declined s (exchange_code d t draws headers code s) ⊎ (exact_origin d headers ≡ true)
unfolding exchange_code
exchange_code-Declined d t draws headers code s = elim (Bool-cases (exact_origin d headers)) [
  | inl h ↦ inr h
  | inr h ↦ inl (ApiError.forbidden "exact browser Origin required", rw h refl)
]

-- A request is declined and changes nothing unless it shows what its handler asks for: to issue a bootstrap code,
-- the owner's token; to exchange one, the daemon's own origin; to read the session, a cookie with a session that
-- is stored and has not expired; to read the status or an artifact, either the owner's token or such a session;
-- to acknowledge the setup, moreover the origin and a CSRF token in cookie and header that is the session's;
-- and to send a command, either the owner's token or all of that. Nothing is asked for the health of the daemon
-- and the description of its interface.
pub respond_guarded :
    (d : Dependencies) (t : Times) (draws : Draws) (headers : Headers) (r : Request) (s : Store)
    → Declined s (respond d t draws headers r s) ⊎ Warranted d t headers s.db r
unfolding respond
respond_guarded d t draws headers Request.health s = inr tt
respond_guarded d t draws headers Request.open_api s = inr tt
respond_guarded d t draws headers Request.issue_request s =
    with_authority-Declined (OfOwner d headers) d t.read_ms headers s (issue_code d t draws s) _
      (authorize_read-Grants d t.read_ms headers s.db) (issue_code-Declined d t draws headers s)
respond_guarded d t draws headers (Request.exchange_request code) s =
    exchange_code-Declined d t draws headers code s
respond_guarded d t draws headers Request.session_request s =
    with_authority-Declined (OfSession d t.read_ms headers s.db) d t.read_ms headers s
      (read_session d t s) _ (authorize_read-Grants d t.read_ms headers s.db)
      (read_session-Declined d t headers s)
respond_guarded d t draws headers (Request.setup_request provider kinds) s =
    take_setup-Declined d t headers s (take_setup d t provider kinds s) _
      (authorize_browser_mutation-Justified d t headers s.db)
respond_guarded d t draws headers (Request.status_request force) s =
    with_authority-Declined _ d t.read_ms headers s _ _
      (authorize_read-Grants d t.read_ms headers s.db)
      (λ authority g. inr (known d t.read_ms headers s.db authority g))
respond_guarded d t draws headers (Request.command_request payload) s =
    command-Declined _ s (handle_command d t headers payload s)
      (handle_command_protected d t headers payload s)
respond_guarded d t draws headers (Request.artifact_request id) s =
    with_authority-Declined _ d t.read_ms headers s (show_artifact id s) _
      (authorize_read-Grants d t.read_ms headers s.db)
      (λ authority g. inr (known d t.read_ms headers s.db authority g))
