-- ===== src/Prelude/Removal.antt =====
-- Taking values out of a list.
use Prim.Native.Nat.{ℕ, ◌+◌, ◌≤◌}
use mathlib.Core.Path.{◌≡◌, refl, subst}
use mathlib.Core.Logic.{inl, inr}
use mathlib.Core.Bool.{true, false}
use mathlib.Core.List.{List, [], ◌∷◌}
use native.Mathlib.Omega.{arith}
use badminton_be_rust.Prelude.Tests.{◌==◌, bit, Bool-cases}
use badminton_be_rust.Prelude.Lists.{length, count, contains, contains-count, without}

pub contains_of_count : (a : ℕ) (xs : List ℕ) → 1 ≤ count a xs → contains xs a ≡ true
unfolding contains count
contains_of_count a [] h = absurd (omega arith)
contains_of_count a (x ∷ xs) h = ground (arith, contains_of_count a xs)

pub count-without_le : (a : ℕ) (ids xs : List ℕ) → count a (without ids xs) ≤ count a xs
unfolding count without
count-without_le a ids [] = omega arith
count-without_le a ids (x ∷ xs) = ground (arith, count-without_le a ids xs)

-- How many of a list's values are listed.
hits : List ℕ → List ℕ → ℕ
hits ids [] = 0
hits ids (x ∷ xs) = bit (contains ids x) + hits ids xs

length-without : (ids xs : List ℕ) → length (without ids xs) + hits ids xs ≡ length xs
unfolding without hits
length-without ids [] = refl
length-without ids (x ∷ xs) = ground (arith, length-without ids xs)

hits-cons :
    (a : ℕ) (ids xs : List ℕ)
    → contains ids a ≡ false
    → hits (a ∷ ids) xs ≡ count a xs + hits ids xs
unfolding hits count contains
hits-cons a ids [] h = refl
hits-cons a ids (x ∷ xs) h = elim (Bool-cases (a == x)) [
  | inl e ↦
      let same : a ≡ x = ground arith in
      ground (arith, hits-cons a ids xs h, subst (λ b. contains ids b ≡ false) same h)
  | inr e ↦ ground (arith, hits-cons a ids xs h)
]

hits_none : (xs : List ℕ) → hits [] xs ≡ 0
unfolding hits contains
hits_none [] = refl
hits_none (x ∷ xs) = omega (arith, hits_none xs)

hits_all :
    (ids xs : List ℕ)
    → ((a : ℕ) → count a ids ≤ 1)
    → ((a : ℕ) → count a xs ≤ 1)
    → ((a : ℕ) → 1 ≤ count a ids → contains xs a ≡ true)
    → hits ids xs ≡ length ids
unfolding count
hits_all [] xs once each listed = hits_none xs
hits_all (a ∷ ids) xs once each listed = ground (
  arith,
  once a,
  each a,
  listed a,
  contains-count a ids,
  contains-count a xs,
  hits-cons a ids xs,
  hits_all ids xs (λ b. omega (arith, once b)) each (λ b h. listed b (omega arith)),
)

-- Taking distinct values of a list without repetitions from it leaves the others.
pub length-without_all :
    (ids xs : List ℕ)
    → ((a : ℕ) → count a ids ≤ 1)
    → ((a : ℕ) → count a xs ≤ 1)
    → ((a : ℕ) → 1 ≤ count a ids → contains xs a ≡ true)
    → length (without ids xs) + length ids ≡ length xs
length-without_all ids xs once each listed =
    omega (arith, length-without ids xs, hits_all ids xs once each listed)
