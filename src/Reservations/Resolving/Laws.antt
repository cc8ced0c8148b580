-- ===== src/Reservations/Resolving/Laws.antt =====
-- Which groups `resolve_group` of src/routes/reservations.rs gives.
use badminton_be_rust.Prelude.{
  ℕ, ◌≡◌, refl, sym, ap, ◌∙◌, inl, inr, Bool, true, false, not, ◌&&◌, ◌||◌, List, [], ◌∷◌, ◌++◌,
  Option, none, some, arith, ◌==◌, if◌then◌else◌, any, all, select, contains, is_empty, Bool-cases,
}
use badminton_be_rust.Reservations.{Db}
use badminton_be_rust.Reservations.Resolving.{
  my_groups, keep_first, dedup, groups_of, intersection, narrowed, gather, candidates,
  resolve_group,
}

abbrev is_shared : Db → ℕ → ℕ → Bool
is_shared db g credential = contains (groups_of db credential) g

abbrev shares_all : Db → List ℕ → ℕ → Bool
shares_all db ids g = all (is_shared db g) ids

abbrev shares_some : Db → List ℕ → ℕ → Bool
shares_some db ids g = any (is_shared db g) ids

-- The user's groups that share all the logins, or else those that share some, or else all.
unfoldable pub hosts : Db → List ℕ → List ℕ → List ℕ
unfolding any all select contains
hosts db mine ids =
    if any (shares_all db ids) mine
    then select (shares_all db ids) mine
    else if any (shares_some db ids) mine
    then select (shares_some db ids) mine
    else mine

contains-select :
    (p : ℕ → Bool) (xs : List ℕ) (g : ℕ) → contains (select p xs) g ≡ (contains xs g && p g)
unfolding select contains
contains-select p [] g = refl
contains-select p (x ∷ xs) g = elim (Bool-cases (g == x)) [
  | inl e ↦
      let same : p g ≡ p x = ap p (ground arith) in ground (arith, e, same, contains-select p xs g)
  | inr e ↦ ground (arith, e, contains-select p xs g)
]

contains-append :
    (xs ys : List ℕ) (g : ℕ) → contains (xs ++ ys) g ≡ (contains xs g || contains ys g)
unfolding contains
contains-append [] ys g = refl
contains-append (x ∷ xs) ys g = ground (arith, contains-append xs ys g)

module _ (p : ℕ → Bool) where
  all-keep_first : (id : ℕ) (ids : List ℕ) → all p (keep_first id ids) ≡ (p id && all p ids)
  unfolding all
  all-keep_first id [] = refl
  all-keep_first id (x ∷ ids) = elim (Bool-cases (id == x)) [
    | inl e ↦ let same : id ≡ x = ground arith in rw (e, same) (ground arith)
    | inr e ↦ rw e refl
  ]

  any-keep_first : (id : ℕ) (ids : List ℕ) → any p (keep_first id ids) ≡ (p id || any p ids)
  unfolding any
  any-keep_first id [] = refl
  any-keep_first id (x ∷ ids) = elim (Bool-cases (id == x)) [
    | inl e ↦ let same : id ≡ x = ground arith in rw (e, same) (ground arith)
    | inr e ↦ rw e refl
  ]

  all-dedup : (ids : List ℕ) → all p (dedup ids) ≡ all p ids
  unfolding all dedup
  all-dedup [] = refl
  all-dedup (id ∷ ids) = all-keep_first id (dedup ids) ∙ ap (λ b. p id && b) (all-dedup ids)

  any-dedup : (ids : List ℕ) → any p (dedup ids) ≡ any p ids
  unfolding any dedup
  any-dedup [] = refl
  any-dedup (id ∷ ids) = any-keep_first id (dedup ids) ∙ ap (λ b. p id || b) (any-dedup ids)

in_common : Option (List ℕ) → ℕ → Bool
in_common none g = true
in_common (some common) g = contains common g

gather-common :
    (db : Db) (ids : List ℕ) (inter : Option (List ℕ)) (union : List ℕ) (g : ℕ)
    → in_common (gather db ids inter union).0 g ≡ (in_common inter g && shares_all db ids g)
unfolding gather in_common all
gather-common db [] inter union g = ground arith
gather-common db (id ∷ ids) none union g =
    gather-common db ids (some (groups_of db id)) (union ++ groups_of db id) g
gather-common db (id ∷ ids) (some common) union g =
    let set = groups_of db id in
    ground (
      arith,
      gather-common db ids (some (intersection common set)) (union ++ set) g,
      contains-select (contains set) common g,
    )

gather-union :
    (db : Db) (ids : List ℕ) (inter : Option (List ℕ)) (union : List ℕ) (g : ℕ)
    → contains (gather db ids inter union).1 g ≡ (contains union g || shares_some db ids g)
unfolding gather any
gather-union db [] inter union g = ground arith
gather-union db (id ∷ ids) inter union g =
    let set = groups_of db id in
    ground (
      arith,
      gather-union db ids (some (narrowed inter set)) (union ++ set) g,
      contains-append union set g,
    )

select_cong :
    (p q : ℕ → Bool) (xs : List ℕ)
    → ((g : ℕ) → contains xs g ≡ true → p g ≡ q g)
    → select p xs ≡ select q xs
unfolding select contains
select_cong p q [] h = refl
select_cong p q (x ∷ xs) h =
    ground (arith, h x, select_cong p q xs (λ g e. h g (ground (arith, e))))

select_all : (xs : List ℕ) → select (λ g. true) xs ≡ xs
unfolding select
select_all [] = refl
select_all (x ∷ xs) = ap (λ l. x ∷ l) (select_all xs)

select_self : (xs : List ℕ) → select (contains xs) xs ≡ xs
select_self xs = select_cong (contains xs) (λ g. true) xs (λ g e. e) ∙ select_all xs

any_cong : (p q : ℕ → Bool) (xs : List ℕ) → ((g : ℕ) → p g ≡ q g) → any p xs ≡ any q xs
unfolding any
any_cong p q [] h = refl
any_cong p q (x ∷ xs) h = ground (arith, h x, any_cong p q xs h)

any-contains_nothing : (xs : List ℕ) → any (contains []) xs ≡ false
unfolding any contains
any-contains_nothing [] = refl
any-contains_nothing (x ∷ xs) = any-contains_nothing xs

any-contains_more :
    (y : ℕ) (ys xs : List ℕ) → any (contains (y ∷ ys)) xs ≡ (contains xs y || any (contains ys) xs)
unfolding any contains
any-contains_more y ys [] = refl
any-contains_more y ys (x ∷ xs) =
    let turned : (x == y) ≡ (y == x) = ground arith in
    ground (arith, turned, any-contains_more y ys xs)

-- Two sets have a member in common.
any_swap : (xs ys : List ℕ) → any (contains ys) xs ≡ any (contains xs) ys
unfolding any
any_swap xs [] = any-contains_nothing xs
any_swap xs (y ∷ ys) = any-contains_more y ys xs ∙ ap (λ b. contains xs y || b) (any_swap xs ys)

is_empty-select : (p : ℕ → Bool) (xs : List ℕ) → is_empty (select p xs) ≡ not (any p xs)
unfolding select any
is_empty-select p [] = refl
is_empty-select p (x ∷ xs) = ground (arith, is_empty-select p xs)

module _ (mine common : List ℕ) (p : ℕ → Bool) (h : (g : ℕ) → contains common g ≡ p g) where
  -- Whether the user has a group among the common ones, and which they are.
  has_common : is_empty (intersection common mine) ≡ not (any p mine)
  has_common =
      is_empty-select (contains mine) common
      ∙ ap not (any_swap common mine ∙ any_cong (contains common) p mine h)

  select-common : select (contains (intersection common mine)) mine ≡ select p mine
  select-common =
      select_cong (contains (intersection common mine)) p mine
        (λ g e. contains-select (contains mine) common g ∙ rw (h g, e) (ground arith))

-- The groups that pass the tests, among those of the user.
chosen :
    (mine common union : List ℕ) (p q : ℕ → Bool)
    → ((g : ℕ) → contains common g ≡ p g)
    → ((g : ℕ) → contains union g ≡ q g)
    → select (contains (candidates mine (some common, union))) mine
      ≡ (if any p mine then select p mine else if any q mine then select q mine else mine)
chosen mine common union p q hp hq = elim (Bool-cases (any p mine)) [
  | inl e ↦ simp (has_common mine common p hp, e) (select-common mine common p hp)
  | inr e ↦ elim (Bool-cases (any q mine)) [
    | inl e' ↦
        simp (has_common mine common p hp, e, has_common mine union q hq, e')
          (select-common mine union q hq)
    | inr e' ↦
        simp (has_common mine common p hp, e, has_common mine union q hq, e') (select_self mine)
  ]
]

any-nothing : (xs : List ℕ) → any (λ g. false) xs ≡ false
unfolding any
any-nothing [] = refl
any-nothing (x ∷ xs) = any-nothing xs

gather-some :
    (db : Db) (ids : List ℕ) (common union : List ℕ)
    → (c : List ℕ) × ((gather db ids (some common) union).0 ≡ some c)
unfolding gather
gather-some db [] common union = (common, refl)
gather-some db (id ∷ ids) common union =
    gather-some db ids (intersection common (groups_of db id)) (union ++ groups_of db id)

module _ (db : Db) (mine ids : List ℕ) where
  -- The gathered groups decide as the logins do.
  gathered :
      (distinct : List ℕ)
      → ((g : ℕ) → shares_all db distinct g ≡ shares_all db ids g)
      → ((g : ℕ) → shares_some db distinct g ≡ shares_some db ids g)
      → select (contains (candidates mine (gather db distinct none []))) mine ≡ hosts db mine ids
  unfolding gather hosts in_common any all contains
  gathered [] all_same some_same = elim (Bool-cases (any (shares_all db ids) mine)) [
    | inl e ↦ rw e (
        select_self mine
        ∙ sym (
            sym (select_cong (λ g. true) (shares_all db ids) mine (λ g m. all_same g))
            ∙ select_all mine))
    | inr e ↦
        let no_some : any (shares_some db ids) mine ≡ false =
          sym (any_cong (λ g. false) (shares_some db ids) mine some_same) ∙ any-nothing mine in
        rw (e, no_some) (select_self mine)
  ]
  gathered (id ∷ more) all_same some_same =
      let first = groups_of db id in
      let (common, found) = gather-some db more first ([] ++ first) in
      let both = gather db more (some first) ([] ++ first) in
      let in_all : (g : ℕ) → contains common g ≡ shares_all db ids g = λ g.
        sym (ap (λ o. in_common o g) found)
        ∙ gather-common db more (some first) ([] ++ first) g
        ∙ all_same g in
      let in_some : (g : ℕ) → contains both.1 g ≡ shares_some db ids g =
        λ g. gather-union db more (some first) ([] ++ first) g ∙ some_same g in
      ap (λ o. select (contains (candidates mine (o, both.1))) mine) found
      ∙ chosen mine common both.1 (shares_all db ids) (shares_some db ids) in_all in_some

-- `resolve_group` gives, of the groups that the user is a member of, those that share all the logins
-- of the request; if there is none, those that share some; and if there is none, all.
pub resolve_group-hosts :
    (db : Db) (user : ℕ) (ids : List ℕ)
    → resolve_group db user ids ≡ hosts db (my_groups db.tenancy user) ids
unfolding resolve_group hosts
resolve_group-hosts db user ids =
    gathered db (my_groups db.tenancy user) ids (dedup ids) (λ g. all-dedup (is_shared db g) ids)
      (λ g. any-dedup (is_shared db g) ids)
