-- ===== src/Runs/Evolution.antt =====
-- How a row of `runs` may change: one row, a table, and what follows for look-ups and counts.
use agentis.Prelude.{
  ◌≤◌, ◌≡◌, refl, sym, ap, subst, ◌⊎◌, inl, inr, Bool, true, false, not, ◌||◌, List, [], ◌∷◌, some,
  arith, ◌==◌, ==_iff, Bool-cases, if◌then◌else◌, any_by, find_by, update_where,
  update_where_absent, insert_row, any_by-insert_row, ==_comm,
}
use agentis.Schema.{Ident, Bot, RunRow, same_bot}
use agentis.Lifecycle.{
  is_active_run_status, is_finished_run_status, is_active_or_loading, active_total, active_of,
}

-- What no operation on an existing run changes, and the directions in which its status may go.
pub record Evolves (r r' : RunRow) : Type 0 where
  pub same_id : r'.id ≡ r.id
  pub same_task : r'.task_id ≡ r.task_id
  pub same_thread : r'.thread_id ≡ r.thread_id
  pub same_config : r'.frozen ≡ r.frozen
  pub same_deadline : r'.deadline_at ≡ r.deadline_at
  pub stays_finished :
      (not (is_finished_run_status r.status) || is_finished_run_status r'.status) ≡ true
  pub stays_inactive :
      (is_active_run_status r.status || not (is_active_run_status r'.status)) ≡ true
  pub takes_no_slot : (is_active_or_loading r || not (is_active_or_loading r')) ≡ true

-- The rows of two tables, pairwise.
abbrev pub AllEvolve : List RunRow → List RunRow → Type 0
AllEvolve [] [] = Unit {0}
AllEvolve [] (r' ∷ rs') = ⊥
AllEvolve (r ∷ rs) [] = ⊥
AllEvolve (r ∷ rs) (r' ∷ rs') = Evolves r r' × AllEvolve rs rs'

or_not : (b : Bool) → (b || not b) ≡ true
or_not true = refl
or_not false = refl

not_or : (b : Bool) → (not b || b) ≡ true
not_or true = refl
not_or false = refl

pub Evolves-refl : (r : RunRow) → Evolves r r
Evolves-refl r = record {
  same_id = refl;
  same_task = refl;
  same_thread = refl;
  same_config = refl;
  same_deadline = refl;
  stays_finished = not_or (is_finished_run_status r.status);
  stays_inactive = or_not (is_active_run_status r.status);
  takes_no_slot = or_not (is_active_or_loading r);
}

pub Evolves-trans : (r s t : RunRow) → Evolves r s → Evolves s t → Evolves r t
Evolves-trans r s t e f = ground arith

pub AllEvolve-refl : (rs : List RunRow) → AllEvolve rs rs
AllEvolve-refl [] = tt
AllEvolve-refl (r ∷ rs) = (Evolves-refl r, AllEvolve-refl rs)

pub AllEvolve-trans : (rs ss ts : List RunRow) → AllEvolve rs ss → AllEvolve ss ts → AllEvolve rs ts
AllEvolve-trans [] [] [] e f = tt
AllEvolve-trans [] [] (t ∷ ts) e f = f
AllEvolve-trans [] (s ∷ ss) ts e f = absurd e
AllEvolve-trans (r ∷ rs) [] ts e f = absurd e
AllEvolve-trans (r ∷ rs) (s ∷ ss) [] e f = f
AllEvolve-trans (r ∷ rs) (s ∷ ss) (t ∷ ts) e f =
    (Evolves-trans r s t e.0 f.0, AllEvolve-trans rs ss ts e.1 f.1)

pub AllEvolve-update_where :
    (q : RunRow → Bool) (f : RunRow → RunRow) (rs : List RunRow)
    → ((r : RunRow) → q r ≡ true → Evolves r (f r))
    → AllEvolve rs (update_where q f rs)
AllEvolve-update_where q f [] h = tt
AllEvolve-update_where q f (r ∷ rs) h = (step (q r) refl, AllEvolve-update_where q f rs h)
  where
    step : (b : Bool) → q r ≡ b → Evolves r (if b then f r else r)
    step true e = h r e
    step false e = Evolves-refl r

-- PRIMARY KEY (id): no two rows have one identifier.
abbrev pub Distinct : List RunRow → Type 0
Distinct [] = Unit {0}
Distinct (r ∷ rs) = (any_by (λ x. x.id == r.id) rs ≡ false) × Distinct rs

-- An update by identifier changes the row that a look-up finds, and no other.
pub AllEvolve-update_found :
    (id : Ident) (f : RunRow → RunRow) (rs : List RunRow) (r : RunRow)
    → Distinct rs
    → find_by (λ x. x.id == id) rs ≡ some r
    → Evolves r (f r)
    → AllEvolve rs (update_where (λ x. x.id == id) f rs)
AllEvolve-update_found id f [] r d e h = cc
AllEvolve-update_found id f (x ∷ rs) r d e h =
    step (Bool-cases (x.id == id)) (λ m. AllEvolve-update_found id f rs r d.1 m h)
  where
    hit : (x.id == id) ≡ true → x ≡ r
    hit t = ground arith

    step :
        ((x.id == id) ≡ true) ⊎ ((x.id == id) ≡ false)
        → (find_by (λ y. y.id == id) rs ≡ some r
            → AllEvolve rs (update_where (λ y. y.id == id) f rs))
        → AllEvolve (x ∷ rs) (update_where (λ y. y.id == id) f (x ∷ rs))
    step (inl t) rest = rw t (
      subst (λ y. Evolves y (f y)) (sym (hit t)) h,
      rw
          (update_where_absent (λ y. y.id == id) f rs
            (subst (λ k. any_by (λ y. y.id == k) rs ≡ false) ((==_iff x.id id).0 t) d.0))
          (AllEvolve-refl rs),
    )
    step (inr t) rest = rw t (Evolves-refl x, rest (ground arith))

AllEvolve-any_by :
    (rs rs' : List RunRow) (id : Ident)
    → AllEvolve rs rs'
    → any_by (λ x. x.id == id) rs' ≡ any_by (λ x. x.id == id) rs
AllEvolve-any_by [] [] id e = refl
AllEvolve-any_by [] (r' ∷ rs') id e = absurd e
AllEvolve-any_by (r ∷ rs) [] id e = absurd e
AllEvolve-any_by (r ∷ rs) (r' ∷ rs') id e = ground (arith, e.0, AllEvolve-any_by rs rs' id e.1)

pub AllEvolve-Distinct : (rs rs' : List RunRow) → AllEvolve rs rs' → Distinct rs → Distinct rs'
AllEvolve-Distinct [] [] e d = tt
AllEvolve-Distinct [] (r' ∷ rs') e d = absurd e
AllEvolve-Distinct (r ∷ rs) [] e d = absurd e
AllEvolve-Distinct (r ∷ rs) (r' ∷ rs') e d =
    (rw (e.0.same_id, AllEvolve-any_by rs rs' r.id e.1) d.0, AllEvolve-Distinct rs rs' e.1 d.1)

pub Distinct-insert_row :
    (r : RunRow) (rs : List RunRow)
    → any_by (λ x. x.id == r.id) rs ≡ false
    → Distinct rs
    → Distinct (insert_row r rs)
Distinct-insert_row r [] h d = (refl, tt)
Distinct-insert_row r (x ∷ rs) h d = (
  ground (arith, any_by-insert_row (λ y. y.id == x.id) r rs, ==_comm r.id x.id),
  Distinct-insert_row r rs (ground arith) d.1,
)

-- A run that is found is still found afterwards, as it has evolved.
pub AllEvolve-find_by :
    (rs rs' : List RunRow) (id : Ident) (r : RunRow)
    → AllEvolve rs rs'
    → find_by (λ x. x.id == id) rs ≡ some r
    → (r' : RunRow) × (find_by (λ x. x.id == id) rs' ≡ some r') × Evolves r r'
AllEvolve-find_by [] rs' id r e h = cc
AllEvolve-find_by (x ∷ rs) [] id r e h = absurd e
AllEvolve-find_by (x ∷ rs) (x' ∷ rs') id r e h = elim (Bool-cases (x.id == id)) [
  | inl t ↦ (x', ground (arith, e.0), subst (λ y. Evolves y x') (ground arith) e.0)
  | inr t ↦
      let (r', found, evolved) = AllEvolve-find_by rs rs' id r e.1 (ground arith) in
      (r', ground (arith, e.0), evolved)
]

-- No slot is taken: neither among all runs, nor among those of one bot.
pub AllEvolve-active_total :
    (rs rs' : List RunRow) → AllEvolve rs rs' → active_total rs' ≤ active_total rs
AllEvolve-active_total [] [] e = omega arith
AllEvolve-active_total [] (r' ∷ rs') e = absurd e
AllEvolve-active_total (r ∷ rs) [] e = absurd e
AllEvolve-active_total (r ∷ rs) (r' ∷ rs') e =
    ground (arith, e.0, AllEvolve-active_total rs rs' e.1)

pub AllEvolve-active_of :
    (bot : Bot) (rs rs' : List RunRow) → AllEvolve rs rs' → active_of bot rs' ≤ active_of bot rs
AllEvolve-active_of bot [] [] e = omega arith
AllEvolve-active_of bot [] (r' ∷ rs') e = absurd e
AllEvolve-active_of bot (r ∷ rs) [] e = absurd e
AllEvolve-active_of bot (r ∷ rs) (r' ∷ rs') e =
    ground
      (arith, e.0, ap (λ c. same_bot c.bot bot) e.0.same_config, AllEvolve-active_of bot rs rs' e.1)
