-- ===== src/Web/Actions.antt =====
-- What the owner does in the workspace: `start`, `acknowledgeSetup`, `checkConnection`, `sendCommand`,
-- `retryCommand` and the artifact preview of packages/cli/web/src/workspace-store.ts.
use text.Mathlib.Text.{◌==◌ as str_eq}
use agentis.Prelude.{
  insert_row, is_some, ◌==◌, ltb, false, or_else, true, find_by, ◌||◌, not, some, none, ◌*◌, Option,
  if◌then◌else◌, suc, List, Bool, ℕ, String,
}
use agentis.Web.Refresh.{show_error, set_busy, check_again, refresh, fail_or_show}
use agentis.Web.{
  WorkspaceState, Waiter, Phase, Call, ApiFailure, has_token, call, message_of,
  authentication_failed, Notice, PreviewStatus, Web, RetryRequest, update, sign_out,
}
use agentis.Schema.{SourceKind, ProviderKind, Command, CommandReceipt, Ident}
use agentis.Snapshot.Public.{OwnerSession, PublicArtifact}

abbrev pub begin_start : WorkspaceState → WorkspaceState
begin_start v = record v { phase = Phase.starting; error = none }

abbrev pub begin_request : WorkspaceState → WorkspaceState
begin_request v = record v { busy = true; error = none }

abbrev pub begin_command : WorkspaceState → WorkspaceState
begin_command v = record v { busy = true; error = none; retry_label = none }

abbrev pub set_session : OwnerSession → WorkspaceState → WorkspaceState
set_session session v = record v { session = some session }

-- `start`: the code of the URL's fragment, or else the CSRF cookie, and then the session.
unfoldable pub start : (bootstrap cookie : Option String) → Web → Web
unfolding update
start bootstrap cookie w =
    let w' = update begin_start w in
    elim bootstrap [
      | some code ↦ call (Call.exchange_bootstrap_code code) w'
      | none ↦ call Call.read_session (record w' { csrf_token = cookie })
    ]

unfoldable pub start_exchanged : (csrf_token : String) → Web → Web
start_exchanged csrf_token w = call Call.read_session (record w { csrf_token = some csrf_token })

unfoldable pub start_session : OwnerSession → Web → Web
unfolding update refresh
start_session session w = refresh true false Waiter.from_start (update (set_session session) w)

unfoldable pub acknowledge_in_browser : ProviderKind → List SourceKind → Web → Web
unfolding update has_token
acknowledge_in_browser provider sources w =
    if not (has_token w.csrf_token)
    then show_error Notice.missing_csrf w
    else call (Call.send_setup (or_else w.csrf_token "") provider sources) (update begin_request w)

unfoldable pub setup_answered : OwnerSession → Web → Web
unfolding update refresh
setup_answered session w = refresh true false Waiter.from_setup (update (set_session session) w)

unfoldable pub setup_failed : ApiFailure → Web → Web
unfolding fail_or_show update
setup_failed e w = set_busy false (fail_or_show e w)

unfoldable pub check_connection : Web → Web
unfolding update refresh check_again
check_connection w =
    if w.state.busy
    then w
    else let w' = update begin_request w in
      if is_some w'.refresh_flight
      then refresh false true Waiter.from_check_first w'
      else check_again w'

-- `#dispatchCommand` up to the call of the API.
unfoldable pub dispatch_command : Web → Web
unfolding update has_token
dispatch_command w = elim w.retry_request [
  | none ↦ w
  | some p ↦
      if not (has_token w.csrf_token) || w.state.busy
      then w
      else call (Call.post_command (or_else w.csrf_token "") p.request) (update begin_command w)
]

abbrev pub hold : RetryRequest → Web → Web
hold p w = record w { retry_request = some p }

abbrev pub new_request : String → Command → (notifies : Bool) → (key : Ident) → RetryRequest
new_request label command notifies key = record {
  label = label;
  request = record { idempotency_key = key; command = command };
  notifies = notifies;
}

-- `sendCommand`, with the identifier that `randomUuid` draws.
unfoldable pub send_command : String → Command → (notifies : Bool) → (key : Ident) → Web → Web
unfolding update has_token dispatch_command
send_command label command notifies key w =
    if not (has_token w.csrf_token)
    then update (λ v. record v { error = some Notice.missing_csrf; retry_label = none }) w
    else elim w.retry_request [
      | some p ↦
          update
            (λ v. record v {
              error = some (Notice.retry_first p.label);
              retry_label = some p.label;
            })
            w
      | none ↦ dispatch_command (hold (new_request label command notifies key) w)
    ]

-- `retryCommand`.
unfoldable pub retry_command : Web → Web
unfolding dispatch_command
retry_command w = dispatch_command w

-- An API error of the command `p` that was sent: the session is over, or the command may be retried.
unfoldable pub command_failed : ApiFailure → RetryRequest → Web → Web
unfolding sign_out update authentication_failed message_of
command_failed e p w = set_busy false (
    if authentication_failed e
    then sign_out (message_of e) (record w { retry_request = none })
    else update
        (λ v. record v { error = some (Notice.said (message_of e)); retry_label = some p.label }) w)

abbrev pub refusal_text : CommandReceipt → RetryRequest → Notice
refusal_text receipt p = elim receipt.error [
  | some text ↦ Notice.said text
  | none ↦ Notice.not_accepted p.label
]

abbrev pub notify : RetryRequest → CommandReceipt → Web → Web
notify p receipt w = if p.notifies then call (Call.on_accepted receipt) w else w

-- The answer to the command `p`.
unfoldable pub command_answered : CommandReceipt → RetryRequest → Web → Web
unfolding update refresh
command_answered receipt p w =
    let held = record w { retry_request = none } in
    if not receipt.accepted
    then set_busy false (show_error (refusal_text receipt p) held)
    else refresh false false Waiter.from_command (notify p receipt held)

abbrev pub max_text_preview_bytes : ℕ
max_text_preview_bytes = 512 * 1024

abbrev pub is_previewable : String → Bool
is_previewable media_type =
    str_eq media_type "text/plain"
    || str_eq media_type "text/markdown"
    || str_eq media_type "application/json"

abbrev pub preview : PublicArtifact → PreviewStatus → Web → Web
preview artifact status =
    update
      (λ v. record v { artifact_preview = some (record { artifact = artifact; status = status }) })

-- The bytes stand for the text that `TextDecoder` makes of them.
abbrev pub cached : Ident → List (Ident × String) → Option (Ident × String)
cached id = find_by (λ e. e.0 == id)

-- `openArtifact` up to its fetch; a preview that is cached is shown at once.
unfoldable pub open_artifact : PublicArtifact → Web → Web
unfolding update
open_artifact artifact w =
    let w' = record w { artifact_generation = suc w.artifact_generation } in
    if not (is_previewable artifact.media_type) || ltb max_text_preview_bytes artifact.byte_size
    then preview artifact PreviewStatus.download_only w'
    else let shown = preview artifact PreviewStatus.loading w' in
      elim (cached artifact.id shown.artifact_bytes) [
        | some (id, text) ↦ preview artifact (PreviewStatus.ready text) shown
        | none ↦ call (Call.fetch_artifact artifact.id) shown
      ]

-- The bytes of an artifact that was opened under `generation`.
unfoldable pub artifact_answered : (generation : ℕ) → PublicArtifact → String → Web → Web
unfolding update
artifact_answered generation artifact text w =
    if not (generation == w.artifact_generation)
    then w
    else preview artifact (PreviewStatus.ready text)
        (record w { artifact_bytes = insert_row (artifact.id, text) w.artifact_bytes })

unfoldable pub artifact_failed : (generation : ℕ) → PublicArtifact → ApiFailure → Web → Web
unfolding update message_of
artifact_failed generation artifact e w =
    if not (generation == w.artifact_generation)
    then w
    else preview artifact (PreviewStatus.failed (message_of e)) w

unfoldable pub close_artifact : Web → Web
unfolding update
close_artifact w =
    update (λ v. record v { artifact_preview = none })
      (record w { artifact_generation = suc w.artifact_generation })

unfoldable pub clear_error : Web → Web
unfolding update
clear_error = update (λ v. record v { error = none; retry_label = none })
