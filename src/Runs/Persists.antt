-- ===== src/Runs/Persists.antt =====
-- What a run keeps for as long as it is in the table, over any number of operations.
use agentis.Prelude.{
  Bool, ◌≡◌, inl, inr, true, not, ◌||◌, List, some, arith, ◌==◌, Bool-cases, find_by,
  find_by-update_where, find_by-insert_row-some,
}
use agentis.Schema.{Ident, RunRow}
use agentis.Lifecycle.{is_active_run_status, is_finished_run_status}
use agentis.Runs.Evolution.{Evolves-refl, Evolves, AllEvolve, AllEvolve-find_by}
use agentis.Runs.Starts.{Starts, unchanged, inserted, loaded}
use agentis.Commands.LoadSession.{loading_row}

-- A run keeps its identity, its frozen configuration and its deadline; finished it stays finished, and
-- inactive it stays inactive.
pub record Kept (r r' : RunRow) : Type 0 where
  pub same_id : r'.id ≡ r.id
  pub same_task : r'.task_id ≡ r.task_id
  pub same_thread : r'.thread_id ≡ r.thread_id
  pub same_config : r'.frozen ≡ r.frozen
  pub same_deadline : r'.deadline_at ≡ r.deadline_at
  pub stays_finished :
      (not (is_finished_run_status r.status) || is_finished_run_status r'.status) ≡ true
  pub stays_inactive :
      (is_active_run_status r.status || not (is_active_run_status r'.status)) ≡ true

Evolves-Kept : (r r' : RunRow) → Evolves r r' → Kept r r'
Evolves-Kept r r' e = record {
  same_id = e.same_id;
  same_task = e.same_task;
  same_thread = e.same_thread;
  same_config = e.same_config;
  same_deadline = e.same_deadline;
  stays_finished = e.stays_finished;
  stays_inactive = e.stays_inactive;
}

Kept-refl : (r : RunRow) → Kept r r
Kept-refl r = Evolves-Kept r r (Evolves-refl r)

Kept-trans : (r s t : RunRow) → Kept r s → Kept s t → Kept r t
Kept-trans r s t e f = ground arith

-- Every run of the first table is still found in the second.
abbrev pub Persists : List RunRow → List RunRow → Type 0
Persists rs rs' =
    (id : Ident) (r : RunRow)
    → find_by (λ x. x.id == id) rs ≡ some r
    → (r' : RunRow) × (find_by (λ x. x.id == id) rs' ≡ some r') × Kept r r'

pub Persists-refl : (rs : List RunRow) → Persists rs rs
Persists-refl rs id r e = (r, e, Kept-refl r)

pub Persists-trans : (rs ss ts : List RunRow) → Persists rs ss → Persists ss ts → Persists rs ts
Persists-trans rs ss ts p q id r e =
    let (s, f, k) = p id r e in let (t, g, l) = q id s f in (t, g, Kept-trans r s t k l)

pub AllEvolve-Persists : (rs rs' : List RunRow) → AllEvolve rs rs' → Persists rs rs'
AllEvolve-Persists rs rs' v id r e =
    let (r', f, k) = AllEvolve-find_by rs rs' id r v e in (r', f, Evolves-Kept r r' k)

loading_row-Kept : (r : RunRow) → Kept r (loading_row r)
loading_row-Kept r = ground (arith, Kept-refl r)

pub Starts-Persists :
    (latched : Bool) (rs rs' : List RunRow) → Starts latched rs rs' → Persists rs rs'
Starts-Persists latched rs _ unchanged id r e = (r, e, Kept-refl r)
Starts-Persists latched rs _ (inserted new f l t b) id r e =
    (r, find_by-insert_row-some (λ x. x.id == id) new rs r e, Kept-refl r)
Starts-Persists latched rs _ (loaded k found f l t b) id r e = elim (Bool-cases (r.id == k)) [
  | inl h ↦ (
    loading_row r,
    ground (
      arith,
      find_by-update_where (λ y. y.id == id) (λ y. y.id == k) loading_row rs (λ y i. y.id == id),
    ),
    loading_row-Kept r,
  )
  | inr h ↦ (
    r,
    ground (
      arith,
      find_by-update_where (λ y. y.id == id) (λ y. y.id == k) loading_row rs (λ y i. y.id == id),
    ),
    Kept-refl r,
  )
]
