-- ===== src/Prelude/Outcome.antt =====
-- Results of fallible operations, Rust's `Result`, and its `?` as a `do` block.
use mathlib.Core.Path.{◌≡◌, refl}
use mathlib.Core.Logic.{◌⊎◌, inl, inr}
use mathlib.Core.Bool.{Bool, true, false}
use mathlib.Core.Option.{Option, none, some}

pub data Result {ℓ κ} (E : Type κ) (A : Type ℓ) : Type (ℓ ⊔ κ) where
  ok : A → Result E A
  err : E → Result E A

module _ {κ} {E : Type κ} where
  -- `if !test { return Err(refusal) }`.
  abbrev pub guard : (test : Bool) (refusal : E) → Result E (Unit {0})
  guard false refusal = err refusal
  guard true refusal = ok tt

  infixl 5 ◌>>=◌ ◌>>◌
  abbrev pub ◌>>=◌ {ℓ ι} :
      {X : Type ℓ} {Y : Type ι} (first : Result E X) (next : X → Result E Y) → Result E Y
  err refusal >>= next = err refusal
  ok x >>= next = next x

  -- `let Some(a) = o else { return Err(e) }`.
  abbrev pub or_fail {ℓ} : {A : Type ℓ} → Option A → E → Result E A
  or_fail none e = err e
  or_fail (some a) e = ok a

  abbrev pub ◌>>◌ {ℓ} : {Y : Type ℓ} (first : Result E (Unit {0})) (next : Result E Y) → Result E Y
  first >> next = first >>= λ u. next

  -- What a successful chain went through.
  pub >>=-eq-ok {ℓ ι} :
      {X : Type ℓ} {Y : Type ι} (first : Result E X) (next : X → Result E Y) {y : Y}
      → (first >>= next) ≡ ok y
      → (x : X) × (first ≡ ok x) × (next x ≡ ok y)
  >>=-eq-ok (err refusal) next done = cc
  >>=-eq-ok (ok x) next done = (x, refl, done)

  pub guard-eq-ok : (b : Bool) (e : E) {u : Unit {0}} → guard b e ≡ ok u → b ≡ true
  guard-eq-ok true e h = refl
  guard-eq-ok false e h = cc

  pub or_fail-eq-ok {ℓ} :
      {A : Type ℓ} (o : Option A) (e : E) {a : A} → or_fail o e ≡ ok a → o ≡ some a
  or_fail-eq-ok none e h = cc
  or_fail-eq-ok (some a) e h = cc

  pub Result-cases {ℓ} :
      {A : Type ℓ} (r : Result E A) → ((a : A) × (r ≡ ok a)) ⊎ ((e : E) × (r ≡ err e))
  Result-cases (ok a) = inl (a, refl)
  Result-cases (err e) = inr (e, refl)

  pub guard-ok-eq-ok {ℓ} :
      {A : Type ℓ} (b : Bool) (e : E) (a c : A) → (guard b e >> ok a) ≡ ok c → (b ≡ true) × (a ≡ c)
  guard-ok-eq-ok true e a c h = (refl, cc)
  guard-ok-eq-ok false e a c h = cc

  pub guard_then-eq-ok {ℓ} :
      {A : Type ℓ} (b : Bool) (e : E) (m : Result E A) {a : A}
      → (guard b e >> m) ≡ ok a
      → (b ≡ true) × (m ≡ ok a)
  guard_then-eq-ok true e m h = (refl, h)
  guard_then-eq-ok false e m h = cc

  pub or_fail_then-eq-ok {ℓ ι} :
      {A : Type ℓ} {B : Type ι} (o : Option A) (e : E) (k : A → Result E B) {b : B}
      → (or_fail o e >>= k) ≡ ok b
      → (a : A) × (o ≡ some a) × (k a ≡ ok b)
  or_fail_then-eq-ok none e k h = cc
  or_fail_then-eq-ok (some a) e k h = (a, refl, h)

  pub ok-eq-ok {ℓ} : {A : Type ℓ} {a b : A} → ◌≡◌ {A = Result E A} (ok a) (ok b) → a ≡ b
  ok-eq-ok h = cc
