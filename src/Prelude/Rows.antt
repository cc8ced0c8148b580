-- ===== src/Prelude/Rows.antt =====
-- Tables as lists of rows: SQL's SELECT, UPDATE and DELETE, and sums over the rows, by which the
-- invariants of the tables are stated.
use Prim.Native.Nat.{ℕ, ◌+◌, ◌≤◌}
use mathlib.Core.Path.{◌≡◌, refl, ap}
use mathlib.Core.Logic.{inl, inr}
use mathlib.Core.Bool.{Bool, true, false}
use mathlib.Core.List.{List, [], ◌∷◌, ◌++◌}
use mathlib.Core.Option.{Option, none, some}
use native.Mathlib.Omega.{arith}
use badminton_be_rust.Prelude.Lists.{any}
use badminton_be_rust.Prelude.Tests.{if◌then◌else◌, bit, Bool-cases}

module _ {ℓ} {A : Type ℓ} where
  -- SELECT … WHERE p: the first row, or every row.
  unfoldable pub find_row : (A → Bool) → List A → Option A
  find_row p [] = none
  find_row p (x ∷ xs) = if p x then some x else find_row p xs

  unfoldable pub select : (A → Bool) → List A → List A
  select p [] = []
  select p (x ∷ xs) = if p x then x ∷ select p xs else select p xs

  -- UPDATE … SET f WHERE p.
  unfoldable pub update : (A → Bool) → (A → A) → List A → List A
  update p f [] = []
  update p f (x ∷ xs) = (if p x then f x else x) ∷ update p f xs

  -- DELETE … WHERE p.
  unfoldable pub delete : (A → Bool) → List A → List A
  delete p [] = []
  delete p (x ∷ xs) = if p x then delete p xs else x ∷ delete p xs

  -- The sum of a measure over the rows, and the number of the rows that pass a test.
  unfoldable pub total : (A → ℕ) → List A → ℕ
  total f [] = 0
  total f (x ∷ xs) = f x + total f xs

  abbrev pub tally : (A → Bool) → List A → ℕ
  tally p = total (λ x. bit (p x))

  -- Membership by position, which can be matched.
  pub data In (x : A) : List A → Type ℓ where
    here : {y : A} {xs : List A} → x ≡ y → In x (y ∷ xs)
    there : {y : A} {xs : List A} → In x xs → In x (y ∷ xs)

  pub total-append : (f : A → ℕ) (xs ys : List A) → total f (xs ++ ys) ≡ total f xs + total f ys
  unfolding total
  total-append f [] ys = omega arith
  total-append f (x ∷ xs) ys = omega (arith, total-append f xs ys)

  pub total-add : (f g : A → ℕ) (xs : List A) → total (λ x. f x + g x) xs ≡ total f xs + total g xs
  unfolding total
  total-add f g [] = omega arith
  total-add f g (x ∷ xs) = omega (arith, total-add f g xs)

  pub total_cong :
      (f g : A → ℕ) (xs : List A) → ((x : A) → In x xs → f x ≡ g x) → total f xs ≡ total g xs
  unfolding total
  total_cong f g [] h = refl
  total_cong f g (x ∷ xs) h =
      omega (arith, h x (here refl), total_cong f g xs (λ y m. h y (there m)))

  pub total_mono :
      (f g : A → ℕ) (xs : List A) → ((x : A) → In x xs → f x ≤ g x) → total f xs ≤ total g xs
  unfolding total
  total_mono f g [] h = omega arith
  total_mono f g (x ∷ xs) h =
      omega (arith, h x (here refl), total_mono f g xs (λ y m. h y (there m)))

  pub total-ge : (f : A → ℕ) (x : A) (xs : List A) → In x xs → f x ≤ total f xs
  unfolding total
  total-ge f x [] m = elim m [ ]
  total-ge f x (y ∷ xs) (here e) = omega (arith, ap f e)
  total-ge f x (y ∷ xs) (there m) = omega (arith, total-ge f x xs m)

  pub tally_pos : (p : A → Bool) (xs : List A) (x : A) → In x xs → p x ≡ true → 1 ≤ tally p xs
  tally_pos p xs x m h = ground (arith, total-ge (λ y. bit (p y)) x xs m)

  pub tally-le-total :
      (p : A → Bool) (f : A → ℕ) (xs : List A)
      → ((x : A) → In x xs → p x ≡ true → 1 ≤ f x)
      → tally p xs ≤ total f xs
  tally-le-total p f xs h = total_mono (λ x. bit (p x)) f xs (λ x m. ground (arith, h x m))

  pub find_row-In : (p : A → Bool) (xs : List A) (x : A) → find_row p xs ≡ some x → In x xs
  unfolding find_row
  find_row-In p [] x h = cc
  find_row-In p (y ∷ xs) x h = elim (Bool-cases (p y)) [
    | inl e ↦ here (ground arith)
    | inr e ↦ there (find_row-In p xs x (ground arith))
  ]

  pub find_row-passes : (p : A → Bool) (xs : List A) (x : A) → find_row p xs ≡ some x → p x ≡ true
  unfolding find_row
  find_row-passes p [] x h = cc
  find_row-passes p (y ∷ xs) x h = ground (arith, find_row-passes p xs x)

  pub tally-find_row-none : (p : A → Bool) (xs : List A) → find_row p xs ≡ none → tally p xs ≡ 0
  unfolding find_row total
  tally-find_row-none p [] h = refl
  tally-find_row-none p (x ∷ xs) h = ground (arith, tally-find_row-none p xs)

  pub find_row_of_tally : (p : A → Bool) (xs : List A) → tally p xs ≡ 0 → find_row p xs ≡ none
  unfolding find_row total
  find_row_of_tally p [] h = refl
  find_row_of_tally p (x ∷ xs) h = ground (arith, find_row_of_tally p xs)

  pub update_none : (p : A → Bool) (f : A → A) (xs : List A) → tally p xs ≡ 0 → update p f xs ≡ xs
  unfolding update total
  update_none p f [] h = refl
  update_none p f (x ∷ xs) h = ground (arith, update_none p f xs)

  pub delete_none : (p : A → Bool) (xs : List A) → tally p xs ≡ 0 → delete p xs ≡ xs
  unfolding delete total
  delete_none p [] h = refl
  delete_none p (x ∷ xs) h = ground (arith, delete_none p xs)

  -- What an update or a deletion of one row does to a sum.
  pub total-update :
      (p : A → Bool) (f : A → A) (g : A → ℕ) (xs : List A) (x : A)
      → find_row p xs ≡ some x
      → tally p xs ≤ 1
      → total g (update p f xs) + g x ≡ total g xs + g (f x)
  unfolding find_row update total
  total-update p f g [] x h u = cc
  total-update p f g (y ∷ xs) x h u = elim (Bool-cases (p y)) [
    | inl e ↦ ground (arith, update_none p f xs)
    | inr e ↦ ground (arith, total-update p f g xs x)
  ]

  pub total-delete :
      (p : A → Bool) (g : A → ℕ) (xs : List A) (x : A)
      → find_row p xs ≡ some x
      → tally p xs ≤ 1
      → total g (delete p xs) + g x ≡ total g xs
  unfolding find_row delete total
  total-delete p g [] x h u = cc
  total-delete p g (y ∷ xs) x h u = elim (Bool-cases (p y)) [
    | inl e ↦ ground (arith, delete_none p xs)
    | inr e ↦ ground (arith, total-delete p g xs x)
  ]

  -- An update that a measure does not see.
  pub total-update_same :
      (p : A → Bool) (f : A → A) (g : A → ℕ) (xs : List A)
      → ((x : A) → p x ≡ true → g (f x) ≡ g x)
      → total g (update p f xs) ≡ total g xs
  unfolding update total
  total-update_same p f g [] h = refl
  total-update_same p f g (x ∷ xs) h = ground (arith, h x, total-update_same p f g xs h)

  pub total-delete_le :
      (p : A → Bool) (g : A → ℕ) (xs : List A) → total g (delete p xs) ≤ total g xs
  unfolding delete total
  total-delete_le p g [] = omega arith
  total-delete_le p g (x ∷ xs) = ground (arith, total-delete_le p g xs)

  In-cons : {x : A} {ys zs : List A} (y : A) → (In x ys → In x zs) → In x (y ∷ ys) → In x (y ∷ zs)
  In-cons y f (here e) = here e
  In-cons y f (there m) = there (f m)

  pub delete-In : (p : A → Bool) (x : A) (xs : List A) → In x (delete p xs) → In x xs
  unfolding delete
  delete-In p x [] m = elim m [ ]
  delete-In p x (y ∷ xs) m = elim (Bool-cases (p y)) [
    | inl e ↦ there (delete-In p x xs (rw e at m))
    | inr e ↦ In-cons y (delete-In p x xs) (rw e at m)
  ]

  pub select-In : (p : A → Bool) (x : A) (xs : List A) → In x (select p xs) → In x xs
  unfolding select
  select-In p x [] m = elim m [ ]
  select-In p x (y ∷ xs) m = elim (Bool-cases (p y)) [
    | inl e ↦ In-cons y (select-In p x xs) (rw e at m)
    | inr e ↦ there (select-In p x xs (rw e at m))
  ]

  select_passes_cons :
      (p : A → Bool) (x y : A) (xs : List A)
      → p y ≡ true
      → (In x xs → p x ≡ true)
      → In x (y ∷ xs)
      → p x ≡ true
  select_passes_cons p x y xs e ih (here q) = rw (q, e)
  select_passes_cons p x y xs e ih (there m) = ih m

  pub select-passes : (p : A → Bool) (x : A) (xs : List A) → In x (select p xs) → p x ≡ true
  unfolding select
  select-passes p x [] m = elim m [ ]
  select-passes p x (y ∷ xs) m = elim (Bool-cases (p y)) [
    | inl e ↦ select_passes_cons p x y (select p xs) e (select-passes p x xs) (rw e at m)
    | inr e ↦ select-passes p x xs (rw e at m)
  ]

  -- A row that alone passes the test is the one found.
  pub find_row_of_In :
      (p : A → Bool) (x : A) (xs : List A)
      → tally p xs ≤ 1
      → p x ≡ true
      → In x xs
      → find_row p xs ≡ some x
  unfolding find_row total
  find_row_of_In p x [] u h m = elim m [ ]
  find_row_of_In p x (y ∷ xs) u h (here e) = rw (← e, h)
  find_row_of_In p x (y ∷ xs) u h (there m) =
      ground (arith, tally_pos p xs x m h, find_row_of_In p x xs)

  pub total_zero :
      (p : A → Bool) (f : A → ℕ) (xs : List A)
      → ((x : A) → p x ≡ false → f x ≡ 0)
      → tally p xs ≡ 0
      → total f xs ≡ 0
  unfolding total
  total_zero p f [] h e = refl
  total_zero p f (x ∷ xs) h e = ground (arith, h x, total_zero p f xs h)

  pub update-append :
      (p : A → Bool) (f : A → A) (xs ys : List A)
      → update p f (xs ++ ys) ≡ update p f xs ++ update p f ys
  unfolding update
  update-append p f [] ys = refl
  update-append p f (x ∷ xs) ys = ground (arith, update-append p f xs ys)

  -- Two updates of the same rows are one.
  pub update-update :
      (p : A → Bool) (f g h : A → A) (xs : List A)
      → ((x : A) → p x ≡ true → p (f x) ≡ true)
      → ((x : A) → g (f x) ≡ h x)
      → update p g (update p f xs) ≡ update p h xs
  unfolding update
  update-update p f g h [] keep e = refl
  update-update p f g h (x ∷ xs) keep e =
      ground (arith, keep x, e x, update-update p f g h xs keep e)

  pub update_id :
      (p : A → Bool) (f : A → A) (xs : List A) → ((x : A) → f x ≡ x) → update p f xs ≡ xs
  unfolding update
  update_id p f [] e = refl
  update_id p f (x ∷ xs) e = ground (arith, e x, update_id p f xs e)

  pub find_row-append :
      (p : A → Bool) (xs ys : List A) → find_row p xs ≡ none → find_row p (xs ++ ys) ≡ find_row p ys
  unfolding find_row
  find_row-append p [] ys e = refl
  find_row-append p (x ∷ xs) ys e = ground (arith, find_row-append p xs ys)

  pub tally-any : (p : A → Bool) (xs : List A) → any p xs ≡ false → tally p xs ≡ 0
  unfolding any total
  tally-any p [] h = refl
  tally-any p (x ∷ xs) h = ground (arith, tally-any p xs)

  pub any-tally : (p : A → Bool) (xs : List A) → tally p xs ≡ 0 → any p xs ≡ false
  unfolding any total
  any-tally p [] h = refl
  any-tally p (x ∷ xs) h = ground (arith, any-tally p xs)

  -- A sum over updated rows is the sum of the updated measure.
  pub total-update_eq :
      (p : A → Bool) (f : A → A) (g : A → ℕ) (xs : List A)
      → total g (update p f xs) ≡ total (λ x. if p x then g (f x) else g x) xs
  unfolding update total
  total-update_eq p f g [] = refl
  total-update_eq p f g (x ∷ xs) = ground (arith, total-update_eq p f g xs)

  -- A row found, after an update that the test does not see.
  pub find_row-update :
      (p q : A → Bool) (f : A → A) (xs : List A) (x : A)
      → ((y : A) → p (f y) ≡ p y)
      → find_row p xs ≡ some x
      → q x ≡ true
      → find_row p (update q f xs) ≡ some (f x)
  unfolding find_row update
  find_row-update p q f [] x blind e h = cc
  find_row-update p q f (y ∷ xs) x blind e h =
      ground (arith, blind y, find_row-update p q f xs x blind)
