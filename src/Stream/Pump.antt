-- ===== src/Stream/Pump.antt =====
-- The loops of `#pump`, for all subscribers and for one.
use agentis.Prelude.{
  sym, Bool, ◌∙◌, if◌then◌else◌, ◌≡◌, refl, ap, true, false, List, [], ◌∷◌, arith, map, Bool-cases,
  inl, inr,
}
use agentis.Replay.{Transition}
use agentis.Stream.{Subscriber, Writes, enqueue, enqueue_all, deliver, deliver_all, overflow, flush}

enqueue-active :
    (writes : Writes) (s : Subscriber) (t : Transition) → (enqueue writes s t).active ≡ s.active
unfolding enqueue overflow flush
enqueue-active writes s t = ground arith

deliver-enqueue :
    (writes : Writes) (t : Transition) (s : Subscriber)
    → deliver writes t s ≡ (if s.active then enqueue writes s t else s)
unfolding enqueue
deliver-enqueue writes t s = ground arith

-- The loop of `#pump` for one subscriber.
abbrev pub caught_up : Writes → List Transition → Subscriber → Subscriber
caught_up writes ts s = if s.active then enqueue_all writes s ts else s

if_true : (b : Bool) (x y : Subscriber) → b ≡ true → (if b then x else y) ≡ x
if_true b x y h = rw h refl

if_false : (b : Bool) (x y : Subscriber) → b ≡ false → (if b then x else y) ≡ y
if_false b x y h = rw h refl

caught_up-deliver :
    (writes : Writes) (t : Transition) (ts : List Transition) (s : Subscriber)
    → caught_up writes ts (deliver writes t s) ≡ caught_up writes (t ∷ ts) s
unfolding enqueue_all
caught_up-deliver writes t ts s =
    let next = enqueue writes s t in
    let step = deliver-enqueue writes t s in
    elim (Bool-cases (s.active)) [
      | inl a ↦
          ap (caught_up writes ts) (step ∙ if_true s.active next s a)
          ∙ if_true next.active (enqueue_all writes next ts) next (enqueue-active writes s t ∙ a)
          ∙ sym (if_true s.active (enqueue_all writes next ts) s a)
      | inr a ↦
          ap (caught_up writes ts) (step ∙ if_false s.active next s a)
          ∙ if_false s.active (enqueue_all writes s ts) s a
          ∙ sym (if_false s.active (enqueue_all writes next ts) s a)
    ]

map-map :
    (writes : Writes) (t : Transition) (ts : List Transition) (ss : List Subscriber)
    → map (caught_up writes ts) (map (deliver writes t) ss) ≡ map (caught_up writes (t ∷ ts)) ss
map-map writes t ts [] = refl
map-map writes t ts (s ∷ ss) =
    ap (λ x. x ∷ map (caught_up writes ts) (map (deliver writes t) ss))
      (caught_up-deliver writes t ts s)
    ∙ ap (λ xs. caught_up writes (t ∷ ts) s ∷ xs) (map-map writes t ts ss)

map-none : (writes : Writes) (ss : List Subscriber) → ss ≡ map (caught_up writes []) ss
unfolding enqueue_all
map-none writes [] = refl
map-none writes (s ∷ ss) =
    ap (λ x. x ∷ ss) (idle s) ∙ ap (λ xs. caught_up writes [] s ∷ xs) (map-none writes ss)
  where
    idle : (x : Subscriber) → x ≡ caught_up writes [] x
    idle x = elim (Bool-cases (x.active)) [
      | inl a ↦ sym (if_true x.active x x a)
      | inr a ↦ sym (if_false x.active x x a)
    ]

-- The nested loops of `#pump`, event by event over all subscribers, do to each active subscriber what
-- giving it all the events one after another does, and leave the others alone: no subscriber's queue or
-- connection affects what another one is sent.
pub deliver_all_lem :
    (writes : Writes) (ts : List Transition) (ss : List Subscriber)
    → deliver_all writes ts ss ≡ map (caught_up writes ts) ss
unfolding deliver_all
deliver_all_lem writes [] ss = map-none writes ss
deliver_all_lem writes (t ∷ ts) ss =
    deliver_all_lem writes ts (map (deliver writes t) ss) ∙ map-map writes t ts ss
