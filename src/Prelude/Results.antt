-- ===== src/Prelude/Results.antt =====
-- What a store operation returns: a value, or the error that it throws.
use Prim.Native.Nat.{ℕ}
use Prim.Native.String.{String}
use mathlib.Core.Path.{◌≡◌, refl, subst}
use mathlib.Core.Bool.{Bool, true, false}
use mathlib.Core.Option.{Option, none, some}
use agentis.Prelude.Tests.{if◌then◌else◌}

-- `StoreErrorCode` of packages/cli/src/store.ts.
pub data StoreErrorCode : Type 0 where
  forbidden conflict internal cursor_expired resync_required : StoreErrorCode

-- `StoreError`. The text of a message is kept apart from the identifier that it quotes.
pub record StoreError : Type 0 where
  pub code : StoreErrorCode
  pub message : String
  pub subject : Option ℕ

pub data Result {ℓ} (A : Type ℓ) : Type ℓ where
  ok : A → Result A
  err : StoreError → Result A

abbrev pub throw {ℓ} : {A : Type ℓ} → StoreErrorCode → String → Result A
throw c m = err (record { code = c; message = m; subject = none })

infixl 5 ◌>>=◌
abbrev pub ◌>>=◌ {ℓ κ} : {A : Type ℓ} {B : Type κ} → Result A → (A → Result B) → Result B
m >>= step = elim m [ ok value ↦ step value | err failure ↦ err failure ]

-- A property of the value, if there is one; an exception is rolled back, so it has nothing to keep.
pub data Ensures {ℓ κ} {A : Type ℓ} (P : A → Type κ) : Result A → Type (ℓ ⊔ κ) where
  holds : {a : A} → P a → Ensures P (ok a)
  threw : {e : StoreError} → Ensures P (err e)

pub Ensures_of_ok {ℓ κ} : {A : Type ℓ} {P : A → Type κ} {a : A} → Ensures P (ok a) → P a
Ensures_of_ok (holds p) = p

pub Ensures_eq {ℓ κ} :
    {A : Type ℓ} {P : A → Type κ} {m : Result A} {a : A} → Ensures P m → m ≡ ok a → P a
Ensures_eq {P} e h = Ensures_of_ok (subst (Ensures P) h e)

pub Ensures-bind {ℓ κ μ ν} :
    {A : Type ℓ} {B : Type κ} {Q : A → Type μ} {P : B → Type ν} {m : Result A} {f : A → Result B}
    → Ensures Q m
    → ((a : A) → Q a → Ensures P (f a))
    → Ensures P (m >>= f)
Ensures-bind (holds q) h = h _ q
Ensures-bind threw h = threw

pub Ensures-if {ℓ κ} :
    {A : Type ℓ} {P : A → Type κ} (b : Bool) {x y : Result A}
    → (b ≡ true → Ensures P x)
    → (b ≡ false → Ensures P y)
    → Ensures P (if b then x else y)
Ensures-if true t f = t refl
Ensures-if false t f = f refl

pub Ensures-option {ℓ κ μ} :
    {O : Type ℓ} {A : Type κ} {P : A → Type μ} (o : Option O) {x : Result A} {f : O → Result A}
    → (o ≡ none → Ensures P x)
    → ((v : O) → o ≡ some v → Ensures P (f v))
    → Ensures P (elim o [ none ↦ x | some v ↦ f v ])
Ensures-option none n s = n refl
Ensures-option (some v) n s = s v refl

pub Ensures-map {ℓ κ μ} :
    {A : Type ℓ} {P : A → Type κ} {Q : A → Type μ} {m : Result A}
    → ((a : A) → P a → Q a)
    → Ensures P m
    → Ensures Q m
Ensures-map f (holds p) = holds (f _ p)
Ensures-map f threw = threw

-- Of a computation whose value does not matter.
pub Ensures-any {ℓ} : {A : Type ℓ} (m : Result A) → Ensures (λ _. Unit {0}) m
Ensures-any (ok a) = holds tt
Ensures-any (err e) = threw

-- A value with a property is returned: nothing is thrown.
pub data Yields {ℓ κ} {A : Type ℓ} (P : A → Type κ) : Result A → Type (ℓ ⊔ κ) where
  yields : {a : A} → P a → Yields P (ok a)

pub Yields-bind {ℓ κ μ ν} :
    {A : Type ℓ} {B : Type κ} {Q : A → Type μ} {P : B → Type ν} {m : Result A} {f : A → Result B}
    → Yields Q m
    → ((a : A) → Q a → Yields P (f a))
    → Yields P (m >>= f)
Yields-bind (yields q) h = h _ q

-- What holds if a value is returned, of a computation that returns one.
pub Yields-and {ℓ κ μ} :
    {A : Type ℓ} {P : A → Type κ} {Q : A → Type μ} {m : Result A}
    → Ensures P m
    → Yields Q m
    → Yields (λ a. P a × Q a) m
Yields-and (holds p) (yields q) = yields (p, q)
Yields-and threw y = elim y [ ]

pub Yields-value {ℓ κ} :
    {A : Type ℓ} {P : A → Type κ} {m : Result A} → Yields P m → (a : A) × (m ≡ ok a) × P a
Yields-value (yields {a} p) = (a, refl, p)

-- A value, and that it is the one returned.
pub Ensures-itself {ℓ} : {A : Type ℓ} (m : Result A) → Ensures (λ a. m ≡ ok a) m
Ensures-itself (ok a) = holds refl
Ensures-itself (err e) = threw

-- A predicate of a computation that branches.
pub on_test {ℓ κ} :
    {B : Type ℓ} (P : B → Type κ) (b : Bool) {x y : B}
    → (b ≡ true → P x)
    → (b ≡ false → P y)
    → P (if b then x else y)
on_test P true t f = t refl
on_test P false t f = f refl

pub on_option {ℓ κ μ} :
    {A : Type ℓ} {B : Type κ} (P : B → Type μ) (o : Option A) {x : B} {f : A → B}
    → (o ≡ none → P x)
    → ((a : A) → o ≡ some a → P (f a))
    → P (elim o [ none ↦ x | some a ↦ f a ])
on_option P none n s = n refl
on_option P (some a) n s = s a refl
