-- ===== src/Stream/Delivery.antt =====
-- What a subscriber of the transition hub has been sent, and what it still gets.
use Prim.Native.String.{String}
use agentis.Prelude.{
  leb→le, Bool, sym, leb, ◌||◌, length-insert_row, subst, false, suc, ◌∙◌, ℕ, ◌≤◌, ◌≡◌, refl, ap,
  ◌⊎◌, inl, inr, true, List, [], ◌∷◌, ◌++◌, arith, length, insert_row, Bool-cases,
}
use agentis.Versions.{event_subscriber_queue_limit}
use agentis.Replay.{Transition}
use agentis.Replay.Window.{Follows}
use agentis.Stream.{
  enqueue_all, overflow, flush, enqueue, Sent, frame, resync_required, Subscriber, Writes,
  flush_queue,
}

-- The transitions among what was written.
abbrev pub frames : List Sent → List Transition
frames [] = []
frames (frame t ∷ rest) = t ∷ frames rest
frames (resync_required text ∷ rest) = frames rest

-- The queue is bounded, and what was sent, what is queued and what was dropped by an overflow are,
-- in this order, the transitions from the start of the subscription to the accepted cursor.
pub record InOrder (start : ℕ) (s : Subscriber) : Type 0 where
  pub bounded : length s.queue ≤ event_subscriber_queue_limit
  pub dropped : List Transition
  pub follows : Follows start s.accepted_cursor ((frames s.sent ++ s.queue) ++ dropped)
  pub drops_closed : (dropped ≡ []) ⊎ (s.closed ≡ true)

frames-frame :
    (t : Transition) (xs : List Sent) → frames (insert_row (frame t) xs) ≡ insert_row t (frames xs)
frames-frame t [] = refl
frames-frame t (frame u ∷ xs) = ap (λ l. u ∷ l) (frames-frame t xs)
frames-frame t (resync_required text ∷ xs) = frames-frame t xs

frames-resync :
    (text : String) (xs : List Sent) → frames (insert_row (resync_required text) xs) ≡ frames xs
frames-resync text [] = refl
frames-resync text (frame u ∷ xs) = ap (λ l. u ∷ l) (frames-resync text xs)
frames-resync text (resync_required u ∷ xs) = frames-resync text xs

append-insert_row :
    (t : Transition) (xs ys : List Transition) → insert_row t xs ++ ys ≡ xs ++ (t ∷ ys)
append-insert_row t [] ys = refl
append-insert_row t (x ∷ xs) ys = ap (λ l. x ∷ l) (append-insert_row t xs ys)

-- Flushing moves transitions from the queue to the response, and neither loses nor reorders any.
flush_queue-frames :
    (writes : Writes) (sent : List Sent) (queue : List Transition)
    → (frames (flush_queue writes sent queue).0 ++ (flush_queue writes sent queue).1
        ≡ frames sent ++ queue)
      × (length (flush_queue writes sent queue).1 ≤ length queue)
unfolding flush_queue
flush_queue-frames writes sent [] = (refl, omega arith)
flush_queue-frames writes sent (t ∷ queue) =
    let moved =
      ap (λ l. l ++ queue) (frames-frame t sent) ∙ append-insert_row t (frames sent) queue in
    let (same, short) = flush_queue-frames writes (insert_row (frame t) sent) queue in
    elim (Bool-cases (writes (length sent))) [
      | inl w ↦ rw w (same ∙ moved, omega (arith, short))
      | inr w ↦ rw w (moved, omega arith)
    ]

flush-InOrder :
    (writes : Writes) (start : ℕ) (s : Subscriber)
    → InOrder start s
    → InOrder start (flush writes s)
unfolding flush
flush-InOrder writes start s o =
    let (same, short) = flush_queue-frames writes s.sent s.queue in
    elim (Bool-cases (s.closed || s.draining)) [
      | inl c ↦ rw c o
      | inr c ↦ rw c (record {
        bounded = omega (arith, short, o.bounded);
        dropped = o.dropped;
        follows =
            subst (λ l. Follows start s.accepted_cursor (l ++ o.dropped)) (sym same) o.follows;
        drops_closed = o.drops_closed;
      })
    ]

Follows-insert_row :
    (from to : ℕ) (t : Transition) (ts : List Transition)
    → Follows from to ts
    → t.cursor ≡ suc to
    → Follows from (suc to) (insert_row t ts)
Follows-insert_row from to t [] f e = (omega (arith, f, e), omega (arith, f))
Follows-insert_row from to t (u ∷ ts) f e = (f.0, Follows-insert_row (suc from) to t ts f.1 e)

append-dropped :
    (t : Transition) (xs ys zs : List Transition)
    → (xs ++ []) ++ insert_row t (ys ++ zs) ≡ insert_row t ((xs ++ ys) ++ zs)
append-dropped t [] ys zs = refl
append-dropped t (x ∷ xs) ys zs = ap (λ l. x ∷ l) (append-dropped t xs ys zs)

append-queued :
    (t : Transition) (xs ys : List Transition)
    → (xs ++ insert_row t ys) ++ [] ≡ insert_row t ((xs ++ ys) ++ [])
append-queued t [] [] = refl
append-queued t [] (y ∷ ys) = ap (λ l. y ∷ l) (append-queued t [] ys)
append-queued t (x ∷ xs) ys = ap (λ l. x ∷ l) (append-queued t xs ys)

overflow-InOrder :
    (start : ℕ) (text : String) (s : Subscriber) (t : Transition)
    → InOrder start s
    → s.closed ≡ false
    → t.cursor ≡ suc s.accepted_cursor
    → InOrder start (overflow text (record s { accepted_cursor = t.cursor }))
unfolding overflow
overflow-InOrder start text s t o c e = rw c (record {
  bounded = omega arith;
  dropped = insert_row t (s.queue ++ o.dropped);
  follows =
      subst (Follows start t.cursor)
        (sym (
          ap (λ l. (l ++ []) ++ insert_row t (s.queue ++ o.dropped)) (frames-resync text s.sent)
          ∙ append-dropped t (frames s.sent) s.queue o.dropped))
        (subst (λ k. Follows start k (insert_row t ((frames s.sent ++ s.queue) ++ o.dropped)))
          (sym e) (Follows-insert_row start s.accepted_cursor t _ o.follows e));
  drops_closed = inr refl;
})

-- A subscriber that is open has lost nothing.
nothing-dropped :
    (start : ℕ) (s : Subscriber) (o : InOrder start s) → s.closed ≡ false → o.dropped ≡ []
nothing-dropped start s o c = elim (o.drops_closed) [
  | inl d ↦ d
  | inr t ↦ absurd (ground (arith, c, t))
]

queue-InOrder :
    (start : ℕ) (s : Subscriber) (t : Transition)
    → InOrder start s
    → s.closed ≡ false
    → leb event_subscriber_queue_limit (length s.queue) ≡ false
    → t.cursor ≡ suc s.accepted_cursor
    → InOrder start (record s { accepted_cursor = t.cursor; queue = insert_row t s.queue })
queue-InOrder start s t o c f e = record {
  bounded = ground (arith, length-insert_row t s.queue, f);
  dropped = [];
  follows = subst (Follows start t.cursor) (sym (append-queued t (frames s.sent) s.queue)) (
      subst (λ k. Follows start k (insert_row t ((frames s.sent ++ s.queue) ++ []))) (sym e)
        (Follows-insert_row start s.accepted_cursor t _
          (subst (λ d. Follows start s.accepted_cursor ((frames s.sent ++ s.queue) ++ d))
            (nothing-dropped start s o c) o.follows)
          e));
  drops_closed = inl refl;
}

enqueue-InOrder :
    (writes : Writes) (start : ℕ) (s : Subscriber) (t : Transition)
    → InOrder start s
    → t.cursor ≤ suc s.accepted_cursor
    → InOrder start (enqueue writes s t)
unfolding enqueue
enqueue-InOrder writes start s t o h =
    elim (Bool-cases (s.closed || leb t.cursor s.accepted_cursor)) [
      | inl c ↦ rw c o
      | inr c ↦ elim (Bool-cases (leb event_subscriber_queue_limit (length s.queue))) [
        | inl f ↦
            rw (c, f) (overflow-InOrder start _ s t o (ground (arith, c)) (ground (arith, c, h)))
        | inr f ↦
            rw (c, f)
              (flush-InOrder writes start _
                (queue-InOrder start s t o (ground (arith, c)) f (ground (arith, c, h))))
      ]
    ]

-- What an enqueue leaves: a closed subscriber, or one that has accepted the event.
enqueue-accepts :
    (writes : Writes) (s : Subscriber) (t : Transition)
    → t.cursor ≡ suc s.accepted_cursor
    → ((enqueue writes s t).closed ≡ true) ⊎ ((enqueue writes s t).accepted_cursor ≡ t.cursor)
unfolding enqueue overflow flush
enqueue-accepts writes s t e = elim (Bool-cases (s.closed)) [
  | inl c ↦ inl (rw c refl)
  | inr c ↦ elim (Bool-cases (leb event_subscriber_queue_limit (length s.queue))) [
    | inl f ↦ inl (ground (arith, c, f, e))
    | inr f ↦ inr (ground (arith, c, f, e))
  ]
]

enqueue-skips :
    (writes : Writes) (s : Subscriber) (t : Transition)
    → t.cursor ≤ s.accepted_cursor
    → enqueue writes s t ≡ s
unfolding enqueue
enqueue-skips writes s t h = rw (skipped s.closed t.cursor s.accepted_cursor h) refl
  where
    skipped : (c : Bool) (a b : ℕ) → a ≤ b → (c || leb a b) ≡ true
    skipped c a b h = ground (arith, h)

enqueue-closed :
    (writes : Writes) (s : Subscriber) (t : Transition) → s.closed ≡ true → enqueue writes s t ≡ s
unfolding enqueue
enqueue-closed writes s t c = rw (either s.closed (leb t.cursor s.accepted_cursor) c) refl
  where
    either : (a b : Bool) → a ≡ true → (a || b) ≡ true
    either a b h = ground (arith, h)

closed-enqueue_all :
    (writes : Writes) (s : Subscriber) (ts : List Transition)
    → s.closed ≡ true
    → enqueue_all writes s ts ≡ s
unfolding enqueue_all
closed-enqueue_all writes s [] c = refl
closed-enqueue_all writes s (t ∷ ts) c =
    ap (λ x. enqueue_all writes x ts) (enqueue-closed writes s t c)
    ∙ closed-enqueue_all writes s ts c

-- A subscriber to which consecutive events are given in order, from one at or before its accepted
-- cursor on, has at most 32 of them queued, and has been sent, has queued, or has dropped by an overflow
-- exactly the events from the start of its subscription on, in order and each one once; unless it is
-- closed, it has dropped none and has accepted all that it was given.
pub enqueue_all_lem :
    (writes : Writes) (start from to : ℕ) (s : Subscriber) (ts : List Transition)
    → InOrder start s
    → Follows from to ts
    → from ≤ s.accepted_cursor
    → InOrder start (enqueue_all writes s ts)
      × (((enqueue_all writes s ts).closed ≡ true)
          ⊎ (to ≤ (enqueue_all writes s ts).accepted_cursor))
unfolding enqueue_all
enqueue_all_lem writes start from to s [] o f h = (o, inr (omega (arith, f, h)))
enqueue_all_lem writes start from to s (t ∷ ts) o f h =
    let next = enqueue writes s t in
    let kept = enqueue-InOrder writes start s t o (omega (arith, f.0, h)) in
    elim (Bool-cases (leb t.cursor s.accepted_cursor)) [
      | inl b ↦
          let same = enqueue-skips writes s t (leb→le t.cursor s.accepted_cursor b) in
          enqueue_all_lem writes start (suc from) to next ts kept f.1
            (rw same (ground (arith, f.0, b)))
      | inr b ↦ elim (enqueue-accepts writes s t (ground (arith, f.0, h, b))) [
        | inl c ↦
            let same = closed-enqueue_all writes next ts c in
            (subst (InOrder start) (sym same) kept, inl (rw same c))
        | inr a ↦
            enqueue_all_lem writes start (suc from) to next ts kept f.1 (omega (arith, a, f.0))
      ]
    ]
