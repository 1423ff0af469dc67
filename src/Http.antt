-- ===== src/Http.antt =====
-- packages/cli/src/http-api.ts, and `parseAuthorization` of auth.ts: who may send a request, and the handler of a
-- command.
pub mod Authority
pub mod Command
pub mod Requests
pub mod Credentials
pub mod Protected
pub mod Again
pub mod Guarded
use Prim.Native.Char.{code}
use Prim.Native.String.{String, ◌++◌}
use text.Mathlib.Text.{◌==◌ as str_eq}
use agentis.Snapshot.{BrowserRuntime}
use agentis.Drive.{Platform}
use agentis.Schema.{ExecutionBoundary, ProviderKind, PrincipalKind, Ident, Principal}
use agentis.Prelude.{
  not, ◌==◌, ◌||◌, [], ◌∷◌, leb, some, ◌&&◌, true, none, false, if◌then◌else◌, StoreError, Option,
  Bool, List, ℕ,
}

-- What the handlers take from the platform: `hash` is SHA-256, `bot_session` reads a session identifier, `decode` is
-- `decodeURIComponent`, which may throw, and `runtime` is the resolver of the provider's readiness.
pub record Dependencies : Type 0 where
  pub platform : Platform
  pub origin : String
  pub workspace : String
  pub provider : ProviderKind
  pub execution_boundary : ExecutionBoundary
  pub owner_session : Ident
  pub owner_token : String
  pub hash : String → Ident
  pub bot_session : String → Ident
  pub decode : String → Option String
  pub runtime : (force : Bool) → BrowserRuntime

pub record Headers : Type 0 where
  pub authorization : Option String
  pub cookie : Option String
  pub origin : Option String
  pub csrf : Option String

pub data RequestAuthority : Type 0 where
  by_cli : Principal → RequestAuthority
  by_browser : Principal → (token_hash : Ident) → RequestAuthority

-- The errors of the interface; the store's are passed on.
pub data ApiError : Type 0 where
  unauthorized forbidden conflict not_found : String → ApiError
  store_failed : StoreError → ApiError
  internal_error : String → ApiError

pub data Authorization : Type 0 where
  granted : RequestAuthority → Authorization
  refused : ApiError → Authorization

abbrev pub is_empty : String → Bool
is_empty String.[] = true
is_empty (String.◌∷◌ c s) = false

-- `header.startsWith(prefix)`, with what follows the prefix.
unfoldable pub after_prefix : (prefix text : String) → Option String
after_prefix String.[] text = some text
after_prefix (String.◌∷◌ p ps) String.[] = none
after_prefix (String.◌∷◌ p ps) (String.◌∷◌ c cs) =
    let rest = after_prefix ps cs in if code p == code c then rest else none

abbrev pub is_token : Dependencies → Option String → Bool
is_token d none = false
is_token d (some bearer) = not (is_empty bearer) && str_eq bearer d.owner_token

abbrev pub owner_principal : Dependencies → Principal
owner_principal d = record {
  kind = PrincipalKind.owner;
  session_id = d.owner_session;
  channel = none;
  browser_session_hash = none;
}

abbrev pub bot_principal : Dependencies → String → Principal
bot_principal d session = record {
  kind = PrincipalKind.bot;
  session_id = d.bot_session session;
  channel = none;
  browser_session_hash = none;
}

-- An empty header has neither prefix.
unfoldable pub parse_authorization : Dependencies → (header : String) → Option Principal
unfolding after_prefix
parse_authorization d header =
    if is_token d (after_prefix "Bearer " header)
    then some (owner_principal d)
    else elim (after_prefix "Bot " header) [
      | none ↦ none
      | some session ↦ some (bot_principal d session)
    ]

-- `String.prototype.trim`.
abbrev pub is_space : ℕ → Bool
is_space c =
    (leb 9 c && leb c 13)
    || c == 32
    || c == 160
    || c == 5760
    || (leb 8192 c && leb c 8202)
    || c == 8232
    || c == 8233
    || c == 8239
    || c == 8287
    || c == 12288
    || c == 65279

unfoldable pub trim_start : String → String
trim_start String.[] = ""
trim_start (String.◌∷◌ c s) =
    let rest = trim_start s in if is_space (code c) then rest else String.◌∷◌ c s

unfoldable pub trim_end : String → String
trim_end String.[] = ""
trim_end (String.◌∷◌ c s) =
    let rest = trim_end s in if is_space (code c) && is_empty rest then "" else String.◌∷◌ c rest

unfoldable pub trim : String → String
unfolding trim_start trim_end
trim s = trim_end (trim_start s)

-- `text.split(separator)`, by one code point: the first part and the others.
unfoldable pub split : (separator : ℕ) → String → String × List String
split separator String.[] = ("", [])
split separator (String.◌∷◌ c s) =
    let rest = split separator s in
    if code c == separator then ("", rest.0 ∷ rest.1) else (String.◌∷◌ c rest.0, rest.1)

-- What is before the first '=', and what is behind it.
unfoldable pub cut : String → Option (String × String)
cut String.[] = none
cut (String.◌∷◌ c s) =
    let rest = cut s in
    if code c == 61
    then some ("", s)
    else elim rest [ none ↦ none | some (name, value) ↦ some (String.◌∷◌ c name, value) ]

-- One part of the header, as the `for` adds it to the cookies so far, the newest in front.
unfoldable pub add_cookie : Dependencies → String → List (String × String) → List (String × String)
unfolding cut trim
add_cookie d part found = elim (cut part) [
  | none ↦ found
  | some (name, value) ↦ if is_empty name then found else elim (d.decode (trim value)) [
    | none ↦ found
    | some decoded ↦ (trim name, decoded) ∷ found
  ]
]

unfoldable pub add_cookies :
    Dependencies → List String → List (String × String) → List (String × String)
unfolding add_cookie
add_cookies d [] found = found
add_cookies d (part ∷ parts) found = add_cookies d parts (add_cookie d part found)

unfoldable pub cookies : Dependencies → Option String → List (String × String)
unfolding add_cookies split
cookies d none = []
cookies d (some header) = let parts = split 59 header in add_cookies d (parts.0 ∷ parts.1) []

-- `Map.get`.
unfoldable pub get_cookie : String → List (String × String) → Option String
get_cookie name [] = none
get_cookie name ((key, value) ∷ found) =
    let rest = get_cookie name found in if str_eq key name then some value else rest
