-- ===== src/Web/Events/Retry.antt =====
-- What the workspace of packages/cli/web/src/workspace-store.ts sends while a command is held for a retry.
use agentis.Schema.{Ident, SourceKind, ProviderKind, Command}
use agentis.Snapshot.Public.{OwnerSession, PublicArtifact}
use agentis.Web.Refresh.Quiet.{
  call-Quiet, check_again-Quiet, refresh-Quiet, update-Quiet, Quiet-trans, sent,
}
use agentis.Web.Refresh.Quiet.{
  schedule_resync-Quiet, status_failed-Quiet, status_answered-Quiet, Quiet-refl, Quiet,
}
use agentis.Web.Refresh.{
  status_failed, status_answered, refresh, check_again, fail_or_show, start_failed,
}
use agentis.Web.Events.{
  handle_all, Event, handle, source_opened, transition_invalid, timer_fired, transition_seen,
}
use agentis.Web.{
  Call, call, Notice, Waiter, has_token, PreviewStatus, schedule_resync, sign_out, ApiFailure, Web,
  update, close_events, authentication_failed, dispose, RetryRequest,
}
use agentis.Web.Refresh.Quiet.{sent-insert_row, sent-append}
use agentis.Prelude.{
  append_assoc, ap, append-nil, All, insert_row, sym, ◌++◌, or_else, refl, inr, ltb, leb, ◌||◌,
  ◌==◌, true, not, is_some, on_option, on_test, zero, ◌++◌, inl, ◌⊎◌, ◌∙◌, none, ◌∷◌, some, arith,
  suc, false, Bool, Option, [], ◌≡◌, String, List, ℕ,
}
use agentis.Web.Actions.{
  begin_command, cached, max_text_preview_bytes, is_previewable, begin_request, preview,
  set_session, begin_start, retry_command, artifact_failed, artifact_answered, close_artifact,
  start_session, command_failed, clear_error, acknowledge_in_browser, check_connection,
  setup_failed, setup_answered, start, send_command, start_exchanged, open_artifact,
  dispatch_command,
}

start-Quiet : (bootstrap cookie : Option String) (w : Web) → Quiet w (start bootstrap cookie w)
unfolding start sent
start-Quiet none cookie w =
    Quiet-trans w (update begin_start w) (start none cookie w) (update-Quiet begin_start w)
      (refl, sent-insert_row Call.read_session (update begin_start w).calls refl)
start-Quiet (some code) cookie w =
    Quiet-trans w (update begin_start w) (start (some code) cookie w) (update-Quiet begin_start w)
      (call-Quiet (Call.exchange_bootstrap_code code) (update begin_start w) refl)

start_session-Quiet : (session : OwnerSession) (w : Web) → Quiet w (start_session session w)
unfolding start_session sent
start_session-Quiet session w =
    Quiet-trans w (update (set_session session) w) (start_session session w)
      (update-Quiet (set_session session) w)
      (refresh-Quiet true false Waiter.from_start (update (set_session session) w))

start_failed-Quiet : (e : ApiFailure) (w : Web) → Quiet w (start_failed e w)
unfolding start_failed update close_events
start_failed-Quiet e w = (ground arith, ground arith)

acknowledge_in_browser-Quiet :
    (provider : ProviderKind) (sources : List SourceKind) (w : Web)
    → Quiet w (acknowledge_in_browser provider sources w)
unfolding acknowledge_in_browser sent
acknowledge_in_browser-Quiet provider sources w =
    on_test (Quiet w) (not (has_token w.csrf_token))
      (λ _. update-Quiet (λ v. record v { error = some Notice.missing_csrf }) w)
      (λ _.
        Quiet-trans w (update begin_request w)
          (call (Call.send_setup (or_else w.csrf_token "") provider sources)
            (update begin_request w))
          (update-Quiet begin_request w)
          (call-Quiet (Call.send_setup (or_else w.csrf_token "") provider sources)
            (update begin_request w) refl))

setup_answered-Quiet : (session : OwnerSession) (w : Web) → Quiet w (setup_answered session w)
unfolding setup_answered sent
setup_answered-Quiet session w =
    Quiet-trans w (update (set_session session) w) (setup_answered session w)
      (update-Quiet (set_session session) w)
      (refresh-Quiet true false Waiter.from_setup (update (set_session session) w))

setup_failed-Quiet : (e : ApiFailure) (w : Web) → Quiet w (setup_failed e w)
unfolding setup_failed fail_or_show sign_out close_events update
setup_failed-Quiet e w = (ground arith, ground arith)

check_connection-Quiet : (w : Web) → Quiet w (check_connection w)
unfolding check_connection sent
check_connection-Quiet w =
    let b = update-Quiet begin_request w in
    on_test (Quiet w) w.state.busy (λ _. Quiet-refl w)
      (λ _.
        on_test (Quiet w) (is_some (update begin_request w).refresh_flight)
          (λ _.
            Quiet-trans w (update begin_request w)
              (refresh false true Waiter.from_check_first (update begin_request w)) b
              (refresh-Quiet false true Waiter.from_check_first (update begin_request w)))
          (λ _.
            Quiet-trans w (update begin_request w) (check_again (update begin_request w)) b
              (check_again-Quiet (update begin_request w))))

open_artifact-Quiet : (artifact : PublicArtifact) (w : Web) → Quiet w (open_artifact artifact w)
unfolding open_artifact sent
open_artifact-Quiet artifact w =
    on_test (Quiet w)
      (not (is_previewable artifact.media_type) || ltb max_text_preview_bytes artifact.byte_size)
      (λ _. previewed PreviewStatus.download_only w)
      (λ _.
        on_option (Quiet w)
          (cached artifact.id (preview artifact PreviewStatus.loading (opened w)).artifact_bytes)
          (λ _.
            Quiet-trans w (preview artifact PreviewStatus.loading (opened w))
              (call (Call.fetch_artifact artifact.id)
                (preview artifact PreviewStatus.loading (opened w)))
              (previewed PreviewStatus.loading w)
              (call-Quiet (Call.fetch_artifact artifact.id)
                (preview artifact PreviewStatus.loading (opened w)) refl))
          (λ c _.
            Quiet-trans w (preview artifact PreviewStatus.loading (opened w))
              (preview artifact (PreviewStatus.ready c.1)
                (preview artifact PreviewStatus.loading (opened w)))
              (previewed PreviewStatus.loading w)
              (update-Quiet
                (λ v. record v {
                  artifact_preview =
                      some (record { artifact = artifact; status = PreviewStatus.ready c.1 });
                })
                (preview artifact PreviewStatus.loading (opened w)))))
  where
    opened : Web → Web
    opened w = record w { artifact_generation = suc w.artifact_generation }

    previewed : (status : PreviewStatus) (w : Web) → Quiet w (preview artifact status (opened w))
    previewed status w =
        update-Quiet
          (λ v. record v {
            artifact_preview = some (record { artifact = artifact; status = status });
          })
          (opened w)

artifact_answered-Quiet :
    (generation : ℕ) (artifact : PublicArtifact) (text : String) (w : Web)
    → Quiet w (artifact_answered generation artifact text w)
unfolding artifact_answered update
artifact_answered-Quiet generation artifact text w = (ground arith, ground arith)

artifact_failed-Quiet :
    (generation : ℕ) (artifact : PublicArtifact) (e : ApiFailure) (w : Web)
    → Quiet w (artifact_failed generation artifact e w)
unfolding artifact_failed update
artifact_failed-Quiet generation artifact e w = (ground arith, ground arith)

close_artifact-Quiet : (w : Web) → Quiet w (close_artifact w)
unfolding close_artifact update
close_artifact-Quiet w = (ground arith, ground arith)

clear_error-Quiet : (w : Web) → Quiet w (clear_error w)
unfolding clear_error update
clear_error-Quiet w = (ground arith, ground arith)

source_opened-Quiet : (generation : ℕ) (w : Web) → Quiet w (source_opened generation w)
unfolding source_opened update
source_opened-Quiet generation w = (ground arith, ground arith)

transition_seen-Quiet :
    (generation cursor : ℕ) (w : Web) → Quiet w (transition_seen generation cursor w)
unfolding transition_seen sent
transition_seen-Quiet generation cursor w =
    on_test (Quiet w) (not (generation == w.event_generation)) (λ _. Quiet-refl w)
      (λ _.
        on_test (Quiet w) (leb cursor w.pending_cursor) (λ _. Quiet-refl w)
          (λ _. refresh-Quiet false false Waiter.from_event (record w { pending_cursor = cursor })))

transition_invalid-Quiet :
    (generation : ℕ) (e : ApiFailure) (w : Web) → Quiet w (transition_invalid generation e w)
unfolding transition_invalid update
transition_invalid-Quiet generation e w = (ground arith, ground arith)

timer_fired-Quiet : (w : Web) → Quiet w (timer_fired w)
unfolding timer_fired sent
timer_fired-Quiet w =
    on_test (Quiet w) (is_some w.reconnect_timer)
      (λ _. refresh-Quiet true false Waiter.from_resync (record w { reconnect_timer = none }))
      (λ _. Quiet-refl w)

start_exchanged-Quiet : (token : String) (w : Web) → Quiet w (start_exchanged token w)
unfolding start_exchanged sent
start_exchanged-Quiet token w = (refl, sent-insert_row Call.read_session w.calls refl)

dispose-Quiet : (w : Web) → Quiet w (dispose w)
unfolding dispose close_events
dispose-Quiet w = Quiet-refl w

-- The held command is not resolved: no answer came for it, and no failure that ends the session.
abbrev pub Unresolved : Event → Type 0
Unresolved (Event.gets_receipt receipt q) = ⊥
Unresolved (Event.command_fails e q) = authentication_failed e ≡ false
Unresolved e = Unit

abbrev pub replicate {ℓ} : {A : Type ℓ} → ℕ → A → List A
replicate zero x = []
replicate (suc n) x = x ∷ replicate n x

-- The command is held still, and was sent once more or not at all.
abbrev Held : RetryRequest → Web → Web → Type 0
Held p w w' =
    (w'.retry_request ≡ some p)
    × ((sent w'.calls ≡ sent w.calls) ⊎ (sent w'.calls ≡ sent w.calls ++ p.request ∷ []))

still : (p : RetryRequest) (w w' : Web) → w.retry_request ≡ some p → Quiet w w' → Held p w w'
still p w w' held (e, q) = (e ∙ held, inl q)

some_eq : (q p : RetryRequest) → some q ≡ some p → q ≡ p
some_eq q p e = cc

dispatch_command-Held :
    (p : RetryRequest) (w : Web) → w.retry_request ≡ some p → Held p w (dispatch_command w)
unfolding dispatch_command update sent
dispatch_command-Held p w held =
    on_option (Held p w) w.retry_request (λ e. cc)
      (λ q e.
        on_test (Held p w) (not (has_token w.csrf_token) || w.state.busy) (λ _. (held, inl refl))
          (λ _. ((update-Quiet begin_command w).0 ∙ held, inr (posted q (same q e)))))
  where
    same : (q : RetryRequest) → w.retry_request ≡ some q → q ≡ p
    same q e = some_eq q p (sym e ∙ held)

    posted :
        (q : RetryRequest)
        → q ≡ p
        → sent (
            insert_row
              (Call.post_command (or_else w.csrf_token "") q.request)
              (update begin_command w).calls)
          ≡ sent w.calls ++ p.request ∷ []
    posted q e =
        sent-append (update begin_command w).calls
          (Call.post_command (or_else w.csrf_token "") q.request ∷ [])
        ∙ ap (λ rs. rs ++ q.request ∷ []) (update-Quiet begin_command w).1
        ∙ ap (λ (r : RetryRequest). sent w.calls ++ r.request ∷ []) e

retry_command-Held :
    (p : RetryRequest) (w : Web) → w.retry_request ≡ some p → Held p w (retry_command w)
unfolding retry_command
retry_command-Held p w held = dispatch_command-Held p w held

send_command-Held :
    (label : String) (command : Command) (notifies : Bool) (key : Ident) (p : RetryRequest)
    (w : Web)
    → w.retry_request ≡ some p
    → Held p w (send_command label command notifies key w)
unfolding send_command update
send_command-Held label command notifies key p w held = (ground arith, inl (ground arith))

command_failed-Quiet :
    (e : ApiFailure) (q : RetryRequest) (w : Web)
    → authentication_failed e ≡ false
    → Quiet w (command_failed e q w)
unfolding command_failed update
command_failed-Quiet e q w u = (ground arith, ground arith)

handle-Held :
    (e : Event) (p : RetryRequest) (w : Web)
    → w.retry_request ≡ some p
    → Unresolved e
    → Held p w (handle e w)
unfolding handle
handle-Held (Event.starts bootstrap cookie) p w held u =
    still p w (start bootstrap cookie w) held (start-Quiet bootstrap cookie w)
handle-Held (Event.exchanges csrf_token) p w held u =
    still p w (start_exchanged csrf_token w) held (start_exchanged-Quiet csrf_token w)
handle-Held (Event.gets_session session) p w held u =
    still p w (start_session session w) held (start_session-Quiet session w)
handle-Held (Event.start_fails e) p w held u =
    still p w (start_failed e w) held (start_failed-Quiet e w)
handle-Held (Event.acknowledges provider sources) p w held u =
    still p w (acknowledge_in_browser provider sources w) held
      (acknowledge_in_browser-Quiet provider sources w)
handle-Held (Event.is_set_up session) p w held u =
    still p w (setup_answered session w) held (setup_answered-Quiet session w)
handle-Held (Event.setup_fails e) p w held u =
    still p w (setup_failed e w) held (setup_failed-Quiet e w)
handle-Held Event.checks p w held u = still p w (check_connection w) held (check_connection-Quiet w)
handle-Held (Event.gets_status s) p w held u =
    still p w (status_answered s w) held (status_answered-Quiet s w)
handle-Held (Event.status_fails e) p w held u =
    still p w (status_failed e w) held (status_failed-Quiet e w)
handle-Held (Event.sends label command notifies key) p w held u =
    send_command-Held label command notifies key p w held
handle-Held Event.retries p w held u = retry_command-Held p w held
handle-Held (Event.gets_receipt receipt q) p w held u = absurd u
handle-Held (Event.command_fails e q) p w held u =
    still p w (command_failed e q w) held (command_failed-Quiet e q w u)
handle-Held (Event.opens_artifact artifact) p w held u =
    still p w (open_artifact artifact w) held (open_artifact-Quiet artifact w)
handle-Held (Event.gets_artifact generation artifact text) p w held u =
    still p w (artifact_answered generation artifact text w) held
      (artifact_answered-Quiet generation artifact text w)
handle-Held (Event.artifact_fails generation artifact e) p w held u =
    still p w (artifact_failed generation artifact e w) held
      (artifact_failed-Quiet generation artifact e w)
handle-Held Event.closes_artifact p w held u =
    still p w (close_artifact w) held (close_artifact-Quiet w)
handle-Held Event.clears_error p w held u = still p w (clear_error w) held (clear_error-Quiet w)
handle-Held (Event.stream_opens generation) p w held u =
    still p w (source_opened generation w) held (source_opened-Quiet generation w)
handle-Held (Event.sees_transition generation cursor) p w held u =
    still p w (transition_seen generation cursor w) held (transition_seen-Quiet generation cursor w)
handle-Held (Event.sees_invalid generation e) p w held u =
    still p w (transition_invalid generation e w) held (transition_invalid-Quiet generation e w)
handle-Held (Event.stream_fails generation) p w held u =
    still p w (schedule_resync generation w) held (schedule_resync-Quiet generation w)
handle-Held Event.timer_fires p w held u = still p w (timer_fired w) held (timer_fired-Quiet w)
handle-Held Event.disposes p w held u = still p w (dispose w) held (dispose-Quiet w)

-- While a command is held and not resolved, it stays the held one, and every command that the workspace
-- sends is this request, with its idempotency key, again: whatever the owner does and whatever else
-- happens, no other command is sent.
pub handle_all-sent :
    (es : List Event) (p : RetryRequest) (w : Web)
    → w.retry_request ≡ some p
    → All Unresolved es
    → ((handle_all es w).retry_request ≡ some p)
      × ((n : ℕ) × (sent (handle_all es w).calls ≡ sent w.calls ++ replicate n p.request))
unfolding handle_all
handle_all-sent [] p w held u = (held, (0, sym (append-nil (sent w.calls))))
handle_all-sent (e ∷ es) p w held u =
    let (held', first) = handle-Held e p w held u.0 in
    let (held'', (n, rest)) = handle_all-sent es p (handle e w) held' u.1 in
    elim first [
      | inl q ↦ (held'', (n, rest ∙ ap (λ rs. rs ++ replicate n p.request) q))
      | inr q ↦ (
        held'',
        (
          suc n,
          rest
              ∙ ap (λ rs. rs ++ replicate n p.request) q
              ∙ append_assoc (sent w.calls) (p.request ∷ []) (replicate n p.request),
        ),
      )
    ]
