-- ===== src/Runs/Caps.antt =====
-- The concurrency bounds of packages/cli/src/versions.ts on the table `runs`, and what keeps them; and
-- what a run that is in the table keeps for good.
use agentis.Versions.{max_active_runs_per_bot, max_active_runs}
use agentis.Prelude.{
  ap, leb, ◌≤◌, ◌+◌, ◌≡◌, refl, subst, inl, inr, Bool, true, false, ◌&&◌, List, [], ◌∷◌, some,
  arith, ◌==◌, ==_iff, Bool-cases, if◌then◌else◌, any_by, find_by, count_by, update_where,
  update_where_absent, insert_row, count_by-insert_row,
}
use agentis.Schema.{Ident, Bot, RunRow, same_bot}
use agentis.Lifecycle.{is_active_or_loading, active_total, active_of}
use agentis.Runs.Evolution.{
  Distinct-insert_row, AllEvolve-active_of, AllEvolve-active_total, AllEvolve-Distinct, AllEvolve,
  Distinct,
}

-- Distinct identifiers, at most two active or loading runs, and at most one of each bot.
pub record WithinCaps (rs : List RunRow) : Type 0 where
  pub distinct : Distinct rs
  pub total : active_total rs ≤ max_active_runs
  pub per_bot : (bot : Bot) → active_of bot rs ≤ max_active_runs_per_bot

pub AllEvolve-WithinCaps :
    (rs rs' : List RunRow) → AllEvolve rs rs' → WithinCaps rs → WithinCaps rs'
AllEvolve-WithinCaps rs rs' e w = record {
  distinct = AllEvolve-Distinct rs rs' e w.distinct;
  total = omega (arith, w.total, AllEvolve-active_total rs rs' e);
  per_bot = λ bot. omega (arith, w.per_bot bot, AllEvolve-active_of bot rs rs' e);
}

same_bot_sym : (b c : Bot) → same_bot b c ≡ true → b ≡ c
same_bot_sym b c h = ground arith

-- A new run of a bot that has none, while fewer than two runs are active or loading.
pub insert_row-WithinCaps :
    (r : RunRow) (rs : List RunRow)
    → any_by (λ x. x.id == r.id) rs ≡ false
    → leb max_active_runs (active_total rs) ≡ false
    → leb max_active_runs_per_bot (active_of r.frozen.bot rs) ≡ false
    → WithinCaps rs
    → WithinCaps (insert_row r rs)
insert_row-WithinCaps r rs f t b w = record {
  distinct = Distinct-insert_row r rs f w.distinct;
  total = ground (arith, count_by-insert_row is_active_or_loading r rs);
  per_bot = λ bot. elim (Bool-cases (same_bot r.frozen.bot bot)) [
    | inl s ↦ ground (
      arith,
      s,
      subst (λ c. leb max_active_runs_per_bot (active_of c rs) ≡ false)
          (same_bot_sym r.frozen.bot bot s) b,
      count_by-insert_row (λ x. is_active_or_loading x && same_bot x.frozen.bot bot) r rs,
    )
    | inr s ↦ ground (
      arith,
      s,
      w.per_bot bot,
      count_by-insert_row (λ x. is_active_or_loading x && same_bot x.frozen.bot bot) r rs,
    )
  ];
}

-- An update by identifier adds at most the row that it writes to a count.
count_by-update_found :
    (p : RunRow → Bool) (id : Ident) (f : RunRow → RunRow) (rs : List RunRow) (r : RunRow)
    → Distinct rs
    → find_by (λ x. x.id == id) rs ≡ some r
    → count_by p (update_where (λ x. x.id == id) f rs) ≤ count_by p rs + (if p (f r) then 1 else 0)
count_by-update_found p id f [] r d e = cc
count_by-update_found p id f (x ∷ rs) r d e =
    let rest = count_by-update_found p id f rs r d.1 in
    elim (Bool-cases (x.id == id)) [
      | inl t ↦ ground (
        arith,
        t,
        e,
        update_where_absent (λ y. y.id == id) f rs
            (subst (λ k. any_by (λ y. y.id == k) rs ≡ false) ((==_iff x.id id).0 t) d.0),
      )
      | inr t ↦ ground (arith, t, e, rest)
    ]

any_by-update_where :
    (k id : Ident) (f : RunRow → RunRow) (rs : List RunRow)
    → ((x : RunRow) → (f x).id ≡ x.id)
    → any_by (λ x. x.id == k) (update_where (λ x. x.id == id) f rs) ≡ any_by (λ x. x.id == k) rs
any_by-update_where k id f [] h = refl
any_by-update_where k id f (x ∷ rs) h = ground (arith, h x, any_by-update_where k id f rs h)

Distinct-update_where :
    (id : Ident) (f : RunRow → RunRow) (rs : List RunRow)
    → ((x : RunRow) → (f x).id ≡ x.id)
    → Distinct rs
    → Distinct (update_where (λ x. x.id == id) f rs)
Distinct-update_where id f [] h d = tt
Distinct-update_where id f (x ∷ rs) h d = (
  elim (Bool-cases (x.id == id)) [
    | inl t ↦ rw (t, h x, any_by-update_where x.id id f rs h) d.0
    | inr t ↦ rw (t, any_by-update_where x.id id f rs h) d.0
  ],
  Distinct-update_where id f rs h d.1,
)

-- A found run takes a slot, under the same guards as a new one.
pub update_found-WithinCaps :
    (id : Ident) (f : RunRow → RunRow) (rs : List RunRow) (r : RunRow)
    → find_by (λ x. x.id == id) rs ≡ some r
    → ((x : RunRow) → (f x).id ≡ x.id)
    → (f r).frozen ≡ r.frozen
    → leb max_active_runs (active_total rs) ≡ false
    → leb max_active_runs_per_bot (active_of r.frozen.bot rs) ≡ false
    → WithinCaps rs
    → WithinCaps (update_where (λ x. x.id == id) f rs)
update_found-WithinCaps id f rs r e k c t b w = record {
  distinct = Distinct-update_where id f rs k w.distinct;
  total = ground (arith, count_by-update_found is_active_or_loading id f rs r w.distinct e);
  per_bot = λ bot. elim (Bool-cases (same_bot r.frozen.bot bot)) [
    | inl s ↦ ground (
      arith,
      subst (λ c'. leb max_active_runs_per_bot (active_of c' rs) ≡ false)
          (same_bot_sym r.frozen.bot bot s) b,
      count_by-update_found (λ x. is_active_or_loading x && same_bot x.frozen.bot bot) id f rs r
          w.distinct e,
    )
    | inr s ↦ ground (
      arith,
      ap (λ z. same_bot z.bot bot) c,
      s,
      w.per_bot bot,
      count_by-update_found (λ x. is_active_or_loading x && same_bot x.frozen.bot bot) id f rs r
          w.distinct e,
    )
  ];
}
