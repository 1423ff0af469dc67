-- ===== src/Web/Refresh/Quiet.antt =====
-- That a refresh of packages/cli/web/src/workspace-store.ts sends no command and leaves the held one alone.
use agentis.Snapshot.Public.{WorkspaceSnapshot}
use agentis.Prelude.{
  append-nil, is_some, not, ◌||◌, suc, ltb, insert_row, false, none, on_test, ap, [], true, some,
  refl, on_option, String, arith, Option, ◌∙◌, ◌++◌, ℕ, ◌≡◌, ◌∷◌, Bool, List,
}
use agentis.Web.Refresh.{
  reconnect_for, refresh_failing, set_busy, start_failed, refresh, resume, land, fail_or_show,
  status_for, resume_all, status_answered, check_again, status_failed, take_status,
}
use agentis.Web.{
  StreamState, Notice, message_of, authentication_failed, call, Flight, Waiter, ApiFailure,
  WorkspaceState, CommandRequest, sign_out, close_events, Web, schedule_resync, update, Call,
  connect_events,
}

-- The commands among the calls, in order.
unfoldable pub sent : List Call → List CommandRequest
sent [] = []
sent (Call.post_command csrf r ∷ cs) = r ∷ sent cs
sent (Call.exchange_bootstrap_code code ∷ cs) = sent cs
sent (Call.read_session ∷ cs) = sent cs
sent (Call.send_setup csrf provider sources ∷ cs) = sent cs
sent (Call.read_status check ∷ cs) = sent cs
sent (Call.open_stream cursor ∷ cs) = sent cs
sent (Call.fetch_artifact id ∷ cs) = sent cs
sent (Call.on_accepted receipt ∷ cs) = sent cs

pub sent-append : (xs ys : List Call) → sent (xs ++ ys) ≡ sent xs ++ sent ys
unfolding sent
sent-append [] ys = refl
sent-append (Call.post_command csrf r ∷ xs) ys = ap (λ rs. r ∷ rs) (sent-append xs ys)
sent-append (Call.exchange_bootstrap_code code ∷ xs) ys = sent-append xs ys
sent-append (Call.read_session ∷ xs) ys = sent-append xs ys
sent-append (Call.send_setup csrf provider sources ∷ xs) ys = sent-append xs ys
sent-append (Call.read_status check ∷ xs) ys = sent-append xs ys
sent-append (Call.open_stream cursor ∷ xs) ys = sent-append xs ys
sent-append (Call.fetch_artifact id ∷ xs) ys = sent-append xs ys
sent-append (Call.on_accepted receipt ∷ xs) ys = sent-append xs ys

-- One more call that is no command.
pub sent-insert_row :
    (c : Call) (cs : List Call) → sent (c ∷ []) ≡ [] → sent (insert_row c cs) ≡ sent cs
sent-insert_row c cs h = sent-append cs (c ∷ []) ∙ ap (λ rs. sent cs ++ rs) h ∙ append-nil (sent cs)

-- Nothing was sent, and the held command is the same.
abbrev pub Quiet : Web → Web → Type 0
Quiet w w' = (w'.retry_request ≡ w.retry_request) × (sent w'.calls ≡ sent w.calls)

pub Quiet-refl : (w : Web) → Quiet w w
Quiet-refl w = (refl, refl)

pub Quiet-trans : (u v w : Web) → Quiet u v → Quiet v w → Quiet u w
Quiet-trans u v w (e, p) (f, q) = (f ∙ e, q ∙ p)

pub update-Quiet : (change : WorkspaceState → WorkspaceState) (w : Web) → Quiet w (update change w)
unfolding update
update-Quiet change w = (ground arith, ground arith)

pub call-Quiet : (c : Call) (w : Web) → sent (c ∷ []) ≡ [] → Quiet w (call c w)
call-Quiet c w h = (refl, sent-insert_row c w.calls h)

pub close_events-Quiet : (w : Web) → Quiet w (close_events w)
unfolding close_events
close_events-Quiet w = (refl, refl)

pub connect_events-Quiet : (cursor : ℕ) (w : Web) → Quiet w (connect_events cursor w)
unfolding connect_events close_events update sent
connect_events-Quiet cursor w =
    (ground arith, ground (arith, sent-insert_row (Call.open_stream cursor) w.calls refl))

pub schedule_resync-Quiet : (generation : ℕ) (w : Web) → Quiet w (schedule_resync generation w)
unfolding schedule_resync close_events update
schedule_resync-Quiet generation w = (ground arith, ground arith)

pub sign_out-Quiet : (message : String) (w : Web) → Quiet w (sign_out message w)
unfolding sign_out close_events update
sign_out-Quiet message w = (ground arith, ground arith)

pub refresh-Quiet :
    (reconnect check : Bool) (waiter : Waiter) (w : Web)
    → Quiet w (refresh reconnect check waiter w)
unfolding refresh sent
refresh-Quiet reconnect check waiter w =
    (ground arith, ground (arith, sent-insert_row (Call.read_status check) w.calls refl))

pub fail_or_show-Quiet : (e : ApiFailure) (w : Web) → Quiet w (fail_or_show e w)
unfolding fail_or_show sign_out close_events update
fail_or_show-Quiet e w = (ground arith, ground arith)

pub start_failed-Quiet : (e : ApiFailure) (w : Web) → Quiet w (start_failed e w)
unfolding start_failed close_events update
start_failed-Quiet e w = (ground arith, ground arith)

pub check_again-Quiet : (w : Web) → Quiet w (check_again w)
unfolding check_again refresh update sent
check_again-Quiet w =
    (ground arith, ground (arith, sent-insert_row (Call.read_status true) w.calls refl))

set_busy-Quiet : (b : Bool) (w : Web) → Quiet w (set_busy b w)
set_busy-Quiet b w = update-Quiet (λ v. record v { busy = b }) w

resume-Quiet : (outcome : Option ApiFailure) (x : Waiter) (w : Web) → Quiet w (resume outcome x w)
unfolding resume
resume-Quiet none Waiter.from_start w = Quiet-refl w
resume-Quiet (some e) Waiter.from_start w = start_failed-Quiet e w
resume-Quiet none Waiter.from_setup w = set_busy-Quiet false w
resume-Quiet (some e) Waiter.from_setup w =
    Quiet-trans w (fail_or_show e w) (set_busy false (fail_or_show e w)) (fail_or_show-Quiet e w)
      (set_busy-Quiet false (fail_or_show e w))
resume-Quiet none Waiter.from_check_first w = check_again-Quiet w
resume-Quiet (some e) Waiter.from_check_first w = check_again-Quiet w
resume-Quiet none Waiter.from_check w = set_busy-Quiet false w
resume-Quiet (some e) Waiter.from_check w = set_busy-Quiet false w
resume-Quiet none Waiter.from_command w = set_busy-Quiet false w
resume-Quiet (some e) Waiter.from_command w = set_busy-Quiet false w
resume-Quiet none Waiter.from_resync w = Quiet-refl w
resume-Quiet (some e) Waiter.from_resync w =
    on_test (Quiet w) (authentication_failed e) (λ _. Quiet-refl w)
      (λ _. schedule_resync-Quiet w.event_generation w)
resume-Quiet none Waiter.from_event w = Quiet-refl w
resume-Quiet (some e) Waiter.from_event w = Quiet-refl w

resume_all-Quiet :
    (outcome : Option ApiFailure) (xs : List Waiter) (w : Web) → Quiet w (resume_all outcome xs w)
unfolding resume_all
resume_all-Quiet outcome [] w = Quiet-refl w
resume_all-Quiet outcome (x ∷ xs) w =
    Quiet-trans w (resume outcome x w) (resume_all outcome xs (resume outcome x w))
      (resume-Quiet outcome x w) (resume_all-Quiet outcome xs (resume outcome x w))

land-Quiet : (outcome : Option ApiFailure) (f : Flight) (w : Web) → Quiet w (land outcome f w)
unfolding land
land-Quiet outcome f w =
    resume_all-Quiet outcome f.waiters (record w { refresh_flight = none; landed = suc w.landed })

take_status-Quiet : (s : WorkspaceSnapshot) (f : Flight) (w : Web) → Quiet w (take_status s f w)
unfolding take_status update
take_status-Quiet s f w = (ground arith, ground arith)

status_for-Quiet : (s : WorkspaceSnapshot) (f : Flight) (w : Web) → Quiet w (status_for s f w)
unfolding status_for sent
status_for-Quiet s f w =
    let t = take_status-Quiet s f w in
    on_test (Quiet w) (ltb s.cursor (take_status s f w).pending_cursor)
      (λ _.
        Quiet-trans w (take_status s f w) (call (Call.read_status false) (take_status s f w)) t
          (call-Quiet (Call.read_status false) (take_status s f w) refl))
      (λ _.
        Quiet-trans w (reconnect_for f s.cursor (take_status s f w))
          (land none f (reconnect_for f s.cursor (take_status s f w)))
          (on_test (Quiet w) (f.reconnect || not (is_some (take_status s f w).event_source))
            (λ _.
              Quiet-trans w (take_status s f w) (connect_events s.cursor (take_status s f w)) t
                (connect_events-Quiet s.cursor (take_status s f w)))
            (λ _. t))
          (land-Quiet none f (reconnect_for f s.cursor (take_status s f w))))

pub status_answered-Quiet : (s : WorkspaceSnapshot) (w : Web) → Quiet w (status_answered s w)
unfolding status_answered
status_answered-Quiet s w =
    on_option (Quiet w) w.refresh_flight (λ _. Quiet-refl w) (λ f _. status_for-Quiet s f w)

pub status_failed-Quiet : (e : ApiFailure) (w : Web) → Quiet w (status_failed e w)
unfolding status_failed
status_failed-Quiet e w =
    on_option (Quiet w) w.refresh_flight (λ _. Quiet-refl w)
      (λ f _.
        Quiet-trans w (refresh_failing e w) (land (some e) f (refresh_failing e w))
          (on_test (Quiet w) (authentication_failed e) (λ _. sign_out-Quiet (message_of e) w)
            (λ _.
              update-Quiet
                (λ v. record v {
                  error = some (Notice.said (message_of e));
                  stream = StreamState.reconnecting;
                })
                w))
          (land-Quiet (some e) f (refresh_failing e w)))
