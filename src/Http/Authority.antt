-- ===== src/Http/Authority.antt =====
-- `authorizeRead`, `authorizeBrowserMutation` and `authorizeMutation` of packages/cli/src/http-api.ts.
use text.Mathlib.Text.{◌==◌ as str_eq}
use agentis.Browser.{browser_session}
use agentis.StoreDb.{Db}
use agentis.Http.{
  parse_authorization, cookies, is_empty, ApiError, get_cookie, RequestAuthority, Headers,
  Dependencies, Authorization,
}
use agentis.Schema.{is_owner, Channel, PrincipalKind, Principal, Ident}
use agentis.Prelude.{not, Bool, if◌then◌else◌, String, ℕ, Option, false, some, none}

abbrev pub browser_principal : Ident → Ident → Principal
browser_principal owner_session token_hash = record {
  kind = PrincipalKind.owner;
  session_id = owner_session;
  channel = some Channel.browser;
  browser_session_hash = some token_hash;
}

abbrev pub by_principal : Option Principal → Authorization
by_principal none = Authorization.refused (ApiError.unauthorized "authentication required")
by_principal (some principal) =
    if is_owner principal.kind
    then Authorization.granted (RequestAuthority.by_cli principal)
    else Authorization.refused (ApiError.forbidden "owner session required")

-- A cookie that is there and not empty.
abbrev pub filled : Option String → Option String
filled none = none
filled (some s) = if is_empty s then none else some s

-- The session of this token, at this time.
unfoldable pub by_session : Dependencies → (now : ℕ) → (token : String) → Db → Authorization
by_session d now token db = elim (browser_session (d.hash token) none now db) [
  | none ↦ Authorization.refused (ApiError.unauthorized "browser session expired")
  | some session ↦ Authorization.granted (
      RequestAuthority.by_browser (browser_principal session.owner_session (d.hash token))
        (d.hash token))
]

abbrev pub session_cookie : Dependencies → Headers → Option String
session_cookie d headers = filled (get_cookie "agentis_session" (cookies d headers.cookie))

unfoldable pub authorize_read : Dependencies → (now : ℕ) → Headers → Db → Authorization
unfolding by_session
authorize_read d now headers db = elim headers.authorization [
  | some header ↦ by_principal (parse_authorization d header)
  | none ↦ elim (session_cookie d headers) [
    | none ↦ Authorization.refused (ApiError.unauthorized "authentication required")
    | some token ↦ by_session d now token db
  ]
]

-- The times that the clock gives to one request, in order.
pub record Times : Type 0 where
  pub read_ms : ℕ
  pub again_ms : ℕ
  pub check_ms : ℕ
  pub apply_ms : ℕ
  pub effects_ms : ℕ

abbrev pub exact_origin : Dependencies → Headers → Bool
exact_origin d headers = elim headers.origin [ none ↦ false | some origin ↦ str_eq origin d.origin ]

-- The CSRF token, where the cookie and the header agree.
abbrev pub csrf_token : Dependencies → Headers → Option String
csrf_token d headers = elim (filled (get_cookie "agentis_csrf" (cookies d headers.cookie))) [
  | none ↦ none
  | some cookie ↦ elim (filled headers.csrf) [
    | none ↦ none
    | some header ↦ if str_eq cookie header then some header else none
  ]
]

-- The guards of a browser that would change something, in the order of the code.
unfoldable pub check_browser :
    Dependencies → Times → Headers → Db → RequestAuthority → Authorization
check_browser d t headers db (RequestAuthority.by_cli principal) =
    Authorization.refused (ApiError.forbidden "browser session required")
check_browser d t headers db (RequestAuthority.by_browser principal token_hash) =
    if not (exact_origin d headers)
    then Authorization.refused (ApiError.forbidden "exact browser Origin required")
    else elim (csrf_token d headers) [
      | none ↦ Authorization.refused (ApiError.forbidden "CSRF token mismatch")
      | some csrf ↦ elim (browser_session token_hash (some (d.hash csrf)) t.check_ms db) [
        | none ↦ Authorization.refused (ApiError.forbidden "CSRF token mismatch")
        | some session ↦ Authorization.granted (RequestAuthority.by_browser principal token_hash)
      ]
    ]

abbrev pub if_granted : Authorization → (RequestAuthority → Authorization) → Authorization
if_granted (Authorization.refused e) f = Authorization.refused e
if_granted (Authorization.granted authority) f = f authority

unfoldable pub authorize_browser_mutation : Dependencies → Times → Headers → Db → Authorization
unfolding authorize_read check_browser
authorize_browser_mutation d t headers db =
    if_granted (authorize_read d t.again_ms headers db) (check_browser d t headers db)

abbrev pub unless_cli : Authorization → RequestAuthority → Authorization
unless_cli others (RequestAuthority.by_cli principal) =
    Authorization.granted (RequestAuthority.by_cli principal)
unless_cli others (RequestAuthority.by_browser principal token_hash) = others

unfoldable pub authorize_mutation : Dependencies → Times → Headers → Db → Authorization
unfolding authorize_read authorize_browser_mutation
authorize_mutation d t headers db =
    if_granted (authorize_read d t.read_ms headers db)
      (unless_cli (authorize_browser_mutation d t headers db))
