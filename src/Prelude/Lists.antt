-- ===== src/Prelude/Lists.antt =====
-- Lists measured by native numbers, under the library's names.
use Prim.Native.Nat.{ℕ, suc, ◌+◌, ◌≤◌}
use mathlib.Core.Path.{◌≡◌, refl}
use mathlib.Core.Bool.{Bool, true, false, ◌&&◌, ◌||◌}
use mathlib.Core.List.{List, [], ◌∷◌, ◌++◌, map}
use mathlib.Core.Option.{Option, none, some}
use native.Mathlib.Omega.{arith}
use badminton_be_rust.Prelude.Tests.{◌==◌, if◌then◌else◌, bit}

module _ {ℓ} {A : Type ℓ} where
  abbrev pub length : List A → ℕ
  length [] = 0
  length (x ∷ xs) = suc (length xs)

  pub length-append : (xs ys : List A) → length (xs ++ ys) ≡ length xs + length ys
  length-append [] ys = omega arith
  length-append (x ∷ xs) ys = omega (arith, length-append xs ys)

  abbrev pub is_empty : List A → Bool
  is_empty [] = true
  is_empty (x ∷ xs) = false

  abbrev pub head? : List A → Option A
  head? [] = none
  head? (x ∷ xs) = some x

  unfoldable pub any : (A → Bool) → List A → Bool
  any p [] = false
  any p (x ∷ xs) = p x || any p xs

  unfoldable pub all : (A → Bool) → List A → Bool
  all p [] = true
  all p (x ∷ xs) = p x && all p xs

  abbrev pub All {κ} : (A → Type κ) → List A → Type κ
  All P [] = Unit
  All P (x ∷ xs) = P x × All P xs

pub length-map {ℓ κ} :
    {A : Type ℓ} {B : Type κ} (f : A → B) (xs : List A) → length (map f xs) ≡ length xs
length-map f [] = refl
length-map f (x ∷ xs) = omega (arith, length-map f xs)

-- How often a number stands in a list.
unfoldable pub count : ℕ → List ℕ → ℕ
count a [] = 0
count a (x ∷ xs) = bit (a == x) + count a xs

unfoldable pub contains : List ℕ → ℕ → Bool
contains [] a = false
contains (x ∷ xs) a = a == x || contains xs a

pub count-append :
    (wanted : ℕ) (front back : List ℕ)
    → count wanted (front ++ back) ≡ count wanted front + count wanted back
unfolding count
count-append wanted [] back = ground arith
count-append wanted (x ∷ front) back = ground (arith, count-append wanted front back)

pub contains-count : (a : ℕ) (xs : List ℕ) → contains xs a ≡ true → 1 ≤ count a xs
unfolding contains count
contains-count a [] h = cc
contains-count a (x ∷ xs) h = ground (arith, contains-count a xs)

-- Removing every occurrence of each listed value.
unfoldable pub without : List ℕ → List ℕ → List ℕ
without ids [] = []
without ids (x ∷ xs) = if contains ids x then without ids xs else x ∷ without ids xs

abbrev pub is_some {ℓ} : {A : Type ℓ} → Option A → Bool
is_some none = false
is_some (some a) = true

-- `Option::is_some_and`.
abbrev pub is_some_and {ℓ} : {A : Type ℓ} → (A → Bool) → Option A → Bool
is_some_and p none = false
is_some_and p (some a) = p a

pub count_zero : (a : ℕ) (xs : List ℕ) → contains xs a ≡ false → count a xs ≡ 0
unfolding contains count
count_zero a [] h = refl
count_zero a (x ∷ xs) h = ground (arith, count_zero a xs)

pub append-eq-nil {ℓ} :
    {A : Type ℓ} (xs ys : List A) → is_empty (xs ++ ys) ≡ true → (xs ≡ []) × (ys ≡ [])
append-eq-nil [] [] h = (refl, refl)
append-eq-nil [] (y ∷ ys) h = cc
append-eq-nil (x ∷ xs) ys h = cc
