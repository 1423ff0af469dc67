-- ===== src/Prelude/Rows.antt =====
-- A table is the list of its rows in the order of insertion: SELECT, COUNT, UPDATE and INSERT.
use Prim.Native.Nat.{ℕ, suc, ◌+◌, ◌≤◌}
use mathlib.Core.Path.{◌≡◌, refl, ap}
use mathlib.Core.Bool.{Bool, true, false, ◌||◌}
use mathlib.Core.Option.{Option, none, some}
use mathlib.Core.List.{List, [], ◌∷◌, ◌++◌}
use native.Mathlib.Omega.{arith}
use agentis.Prelude.Tests.{if◌then◌else◌}

module _ {ℓ} {A : Type ℓ} where
  abbrev pub length : List A → ℕ
  length [] = 0
  length (x ∷ xs) = suc (length xs)

  abbrev pub count_by : (A → Bool) → List A → ℕ
  count_by p [] = 0
  count_by p (x ∷ xs) = let rest = count_by p xs in if p x then suc rest else rest

  abbrev pub any_by : (A → Bool) → List A → Bool
  any_by p [] = false
  any_by p (x ∷ xs) = p x || any_by p xs

  abbrev pub filter_by : (A → Bool) → List A → List A
  filter_by p [] = []
  filter_by p (x ∷ xs) = let rest = filter_by p xs in if p x then x ∷ rest else rest

  -- The first row that the condition selects, as `row` returns it.
  abbrev pub find_by : (A → Bool) → List A → Option A
  find_by p [] = none
  find_by p (x ∷ xs) = let rest = find_by p xs in if p x then some x else rest

  abbrev pub update_where : (A → Bool) → (A → A) → List A → List A
  update_where p f [] = []
  update_where p f (x ∷ xs) = (if p x then f x else x) ∷ update_where p f xs

  abbrev pub insert_row : A → List A → List A
  insert_row x xs = xs ++ x ∷ []

  abbrev pub All {κ} : (A → Type κ) → List A → Type κ
  All P [] = Unit
  All P (x ∷ xs) = P x × All P xs

  pub count_by-insert_row :
      (p : A → Bool) (x : A) (xs : List A)
      → count_by p (insert_row x xs) ≡ count_by p xs + (if p x then 1 else 0)
  count_by-insert_row p x [] = ground arith
  count_by-insert_row p x (y ∷ ys) = ground (arith, count_by-insert_row p x ys)

  pub length-append : (xs ys : List A) → length (xs ++ ys) ≡ length xs + length ys
  length-append [] ys = omega arith
  length-append (x ∷ xs) ys = omega (arith, length-append xs ys)

  pub length-insert_row : (x : A) (xs : List A) → length (insert_row x xs) ≡ suc (length xs)
  length-insert_row x [] = refl
  length-insert_row x (y ∷ ys) = ap suc (length-insert_row x ys)

  -- An update under which no row begins to satisfy `p` does not raise the count.
  pub count_by-update_where_le :
      (p q : A → Bool) (f : A → A) (xs : List A)
      → ((x : A) → q x ≡ true → p (f x) ≡ true → p x ≡ true)
      → count_by p (update_where q f xs) ≤ count_by p xs
  count_by-update_where_le p q f [] h = omega arith
  count_by-update_where_le p q f (x ∷ xs) h =
      ground (arith, h x, count_by-update_where_le p q f xs h)

  pub update_where_absent :
      (p : A → Bool) (f : A → A) (xs : List A) → any_by p xs ≡ false → update_where p f xs ≡ xs
  update_where_absent p f [] h = refl
  update_where_absent p f (x ∷ xs) h = ground (arith, update_where_absent p f xs)

  pub any_by-insert_row :
      (p : A → Bool) (x : A) (xs : List A) → any_by p (insert_row x xs) ≡ (any_by p xs || p x)
  any_by-insert_row p x [] = ground arith
  any_by-insert_row p x (y ∷ ys) = ground (arith, any_by-insert_row p x ys)

  pub find_by_sound : (p : A → Bool) (xs : List A) (x : A) → find_by p xs ≡ some x → p x ≡ true
  find_by_sound p [] x h = cc
  find_by_sound p (y ∷ ys) x h = ground (arith, find_by_sound p ys x)

  pub find_by_any :
      (p : A → Bool) (xs : List A) (x : A) → find_by p xs ≡ some x → any_by p xs ≡ true
  find_by_any p [] x h = cc
  find_by_any p (y ∷ ys) x h = ground (arith, find_by_any p ys x)

  pub filter_by_keep :
      (p : A → Bool) (x : A) (xs : List A) → p x ≡ true → filter_by p (x ∷ xs) ≡ x ∷ filter_by p xs
  filter_by_keep p x xs h = rw h refl

  pub filter_by_drop :
      (p : A → Bool) (x : A) (xs : List A) → p x ≡ false → filter_by p (x ∷ xs) ≡ filter_by p xs
  filter_by_drop p x xs h = rw h refl

  pub find_by_none : (p : A → Bool) (xs : List A) → find_by p xs ≡ none → any_by p xs ≡ false
  find_by_none p [] h = refl
  find_by_none p (y ∷ ys) h = ground (arith, find_by_none p ys)

  pub find_by-insert_row-some :
      (p : A → Bool) (y : A) (xs : List A) (x : A)
      → find_by p xs ≡ some x
      → find_by p (insert_row y xs) ≡ some x
  find_by-insert_row-some p y [] x h = cc
  find_by-insert_row-some p y (z ∷ zs) x h = ground (arith, find_by-insert_row-some p y zs x)

  -- An update that keeps what a look-up tests changes the row found and nothing else.
  pub find_by-update_where :
      (p q : A → Bool) (f : A → A) (xs : List A)
      → ((x : A) → p (f x) ≡ p x)
      → find_by p (update_where q f xs)
        ≡ elim (find_by p xs) [ none ↦ none | some x ↦ some (if q x then f x else x) ]
  find_by-update_where p q f [] h = refl
  find_by-update_where p q f (x ∷ xs) h = ground (arith, h x, find_by-update_where p q f xs h)

module _ {ℓ κ} {A : Type ℓ} (P : A → Type κ) where
  pub All-insert_row : (x : A) (xs : List A) → All P xs → P x → All P (insert_row x xs)
  All-insert_row x [] h p = (p, tt)
  All-insert_row x (y ∷ ys) h p = (h.0, All-insert_row x ys h.1 p)

  pub All-find_by : (p : A → Bool) (xs : List A) (x : A) → All P xs → find_by p xs ≡ some x → P x
  All-find_by p [] x h e = cc
  All-find_by p (y ∷ ys) x h e = ground (arith, All-find_by p ys x h.1)

  -- An update keeps a property of every row if it keeps it of each row that it changes.
  pub All-update_where :
      (q : A → Bool) (f : A → A) (xs : List A)
      → ((x : A) → q x ≡ true → P x → P (f x))
      → All P xs
      → All P (update_where q f xs)
  All-update_where q f [] h a = tt
  All-update_where q f (x ∷ xs) h a = (keep (q x) refl, All-update_where q f xs h a.1)
    where
      keep : (b : Bool) → q x ≡ b → P (if b then f x else x)
      keep true e = h x e a.0
      keep false e = a.0
