-- ===== src/Http/Requests.antt =====
-- The handlers of packages/cli/src/http-api.ts.
use agentis.Versions.{browser_session_ttl_ms, browser_bootstrap_ttl_ms}
use agentis.StoreDb.{Db}
use agentis.Browser.{exchange_bootstrap, issue_bootstrap, acknowledge_setup, ExchangeInput}
use agentis.Snapshot.{workspace_snapshot, Reader, read_artifact}
use agentis.Http.Authority.{exact_origin, authorize_browser_mutation, Times, authorize_read}
use agentis.Snapshot.Public.{PublicArtifact, public_artifact, OwnerSession, WorkspaceSnapshot}
use agentis.Schema.{CommandReceipt, same_provider, SourceKind, ProviderKind, Ident}
use agentis.Http.Command.{CommandPayload, handle_command, Answer}
use agentis.Http.{Headers, ApiError, Authorization, Dependencies, RequestAuthority}
use agentis.Commands.Dispatch.{Store}
use agentis.Prelude.{
  or_else, ◌+◌, if◌then◌else◌, ◌||◌, List, Bool, Result, Option, ℕ, String, true, false, some, none,
  ok, err, not,
}

pub data Request : Type 0 where
  health open_api issue_request session_request : Request
  exchange_request : (code : String) → Request
  setup_request : ProviderKind → List SourceKind → Request
  status_request : (check_connection : Bool) → Request
  command_request : CommandPayload → Request
  artifact_request : (id : Ident) → Request

-- An exchange sets both tokens as cookies; the health of the daemon and the description of its interface are
-- constants.
pub data Reply : Type 0 where
  constant : Reply
  issued : (code : String) → (expires_at : ℕ) → Reply
  opened : (session_token csrf_token : String) → (expires_at : ℕ) → Reply
  session_shown : OwnerSession → Reply
  status_shown : WorkspaceSnapshot → Reply
  artifact_shown : PublicArtifact → Reply
  receipt_sent : CommandReceipt → Reply
  receipt_failed : CommandReceipt → Reply
  declined : ApiError → Reply

-- What a handler draws at random.
pub record Draws : Type 0 where
  pub first : String
  pub second : String

abbrev pub with_authority :
    Store → (RequestAuthority → Store × Reply) → Authorization → Store × Reply
with_authority s f (Authorization.refused e) = (s, Reply.declined e)
with_authority s f (Authorization.granted authority) = f authority

abbrev pub reader_of : RequestAuthority → Reader
reader_of (RequestAuthority.by_cli principal) = Reader.as_owner principal.session_id
reader_of (RequestAuthority.by_browser principal token_hash) = Reader.with_token token_hash

-- `statusFor`.
unfoldable pub status_of :
    Dependencies → Times → (force : Bool) → RequestAuthority → Db → Result WorkspaceSnapshot
status_of d t force authority db =
    workspace_snapshot d.platform.env (reader_of authority) t.effects_ms (d.runtime force) db

abbrev pub shown : (WorkspaceSnapshot → Reply) → Result WorkspaceSnapshot → Reply
shown f (err e) = Reply.declined (ApiError.store_failed e)
shown f (ok snapshot) = f snapshot

abbrev pub show_session : WorkspaceSnapshot → Reply
show_session snapshot = Reply.session_shown snapshot.session

unfoldable pub issue_code : Dependencies → Times → Draws → Store → RequestAuthority → Store × Reply
issue_code d t draws s (RequestAuthority.by_browser principal token_hash) =
    (s, Reply.declined (ApiError.forbidden "owner bearer session required"))
issue_code d t draws s (RequestAuthority.by_cli principal) =
    let expires_at = t.apply_ms + browser_bootstrap_ttl_ms in
    elim (issue_bootstrap (d.hash draws.first) principal.session_id t.apply_ms expires_at s.db) [
      | err e ↦ (s, Reply.declined (ApiError.store_failed e))
      | ok done ↦ (record s { db = done.1 }, Reply.issued draws.first expires_at)
    ]

abbrev pub exchange_input : Dependencies → Times → Draws → (code : String) → ExchangeInput
exchange_input d t draws code = record {
  code_hash = d.hash code;
  token_hash = d.hash draws.first;
  csrf_hash = d.hash draws.second;
  provider = d.provider;
  now_ms = t.apply_ms;
  expires_at = t.apply_ms + browser_session_ttl_ms;
}

-- What the transaction of an exchange answers with is committed, a refusal included.
unfoldable pub exchange_code :
    Dependencies → Times → Draws → Headers → (code : String) → Store → Store × Reply
exchange_code d t draws headers code s =
    if not (exact_origin d headers)
    then (s, Reply.declined (ApiError.forbidden "exact browser Origin required"))
    else elim (exchange_bootstrap (exchange_input d t draws code) s.db) [
      | err e ↦ (s, Reply.declined (ApiError.store_failed e))
      | ok done ↦ (
        record s { db = done.1 },
        if done.0
            then Reply.opened draws.first draws.second (t.apply_ms + browser_session_ttl_ms)
            else Reply.declined
                (ApiError.conflict "bootstrap code is invalid, expired, or consumed"),
      )
    ]

unfoldable pub read_session : Dependencies → Times → Store → RequestAuthority → Store × Reply
unfolding status_of
read_session d t s (RequestAuthority.by_cli principal) =
    (s, Reply.declined (ApiError.forbidden "browser session required"))
read_session d t s (RequestAuthority.by_browser principal token_hash) = (
  s,
  shown show_session (status_of d t false (RequestAuthority.by_browser principal token_hash) s.db),
)

abbrev pub setup_blocked : Dependencies → ProviderKind → Bool
setup_blocked d provider =
    not (d.runtime true).eligible || not (same_provider provider (d.runtime true).provider)

abbrev pub token_of : RequestAuthority → Option Ident
token_of (RequestAuthority.by_cli principal) = none
token_of (RequestAuthority.by_browser principal token_hash) = some token_hash

-- Only a browser comes here.
unfoldable pub take_setup :
    Dependencies → Times → ProviderKind → List SourceKind → Store → RequestAuthority → Store × Reply
unfolding status_of
take_setup d t provider kinds s authority =
    if setup_blocked d provider
    then (
      s,
      Reply.declined (
          ApiError.forbidden (
            or_else (d.runtime true).ineligible_reason
              "configured provider is not eligible for Mara coordination")),
    )
    else elim (token_of authority) [
      | none ↦ (s, Reply.declined (ApiError.forbidden "browser session required"))
      | some token_hash ↦
          let done = acknowledge_setup d.platform.env token_hash provider kinds t.apply_ms s.db in
          (
            record s { db = done.1 },
            if done.0
                then shown show_session (status_of d t false authority done.1)
                else Reply.declined (ApiError.conflict "setup acknowledgement failed"),
          )
    ]

unfoldable pub show_artifact : (id : Ident) → Store → RequestAuthority → Store × Reply
show_artifact id s authority = elim (read_artifact id s.db) [
  | none ↦ (s, Reply.declined (ApiError.not_found "artifact not found"))
  | some a ↦ (s, Reply.artifact_shown (public_artifact a))
]

abbrev pub reply_of : Answer → Reply
reply_of (Answer.succeeded receipt) = Reply.receipt_sent receipt
reply_of (Answer.failed receipt) = Reply.receipt_failed receipt
reply_of (Answer.failed_with e) = Reply.declined e

unfoldable pub respond : Dependencies → Times → Draws → Headers → Request → Store → Store × Reply
unfolding issue_code exchange_code read_session take_setup show_artifact status_of handle_command
    authorize_read authorize_browser_mutation
respond d t draws headers Request.health s = (s, Reply.constant)
respond d t draws headers Request.open_api s = (s, Reply.constant)
respond d t draws headers Request.issue_request s =
    with_authority s (issue_code d t draws s) (authorize_read d t.read_ms headers s.db)
respond d t draws headers (Request.exchange_request code) s = exchange_code d t draws headers code s
respond d t draws headers Request.session_request s =
    with_authority s (read_session d t s) (authorize_read d t.read_ms headers s.db)
respond d t draws headers (Request.setup_request provider kinds) s =
    with_authority s (take_setup d t provider kinds s) (authorize_browser_mutation d t headers s.db)
respond d t draws headers (Request.status_request force) s =
    with_authority s
      (λ authority. (s, shown Reply.status_shown (status_of d t force authority s.db)))
      (authorize_read d t.read_ms headers s.db)
respond d t draws headers (Request.command_request payload) s =
    let done = handle_command d t headers payload s in (done.0, reply_of done.1)
respond d t draws headers (Request.artifact_request id) s =
    with_authority s (show_artifact id s) (authorize_read d t.read_ms headers s.db)
