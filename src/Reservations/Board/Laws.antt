-- ===== src/Reservations/Board/Laws.antt =====
-- How often a login is suggested by `build_matches` of src/routes/reservations.rs.
use badminton_be_rust.Prelude.{
  ℕ, ◌+◌, ◌≤◌, ◌≡◌, refl, ap, ◌∙◌, Bool, true, false, List, [], ◌∷◌, ◌++◌, map, Option, none, some,
  arith, leb, bit, Text, count, select, total, total-append,
}
use badminton_be_rust.Reservations.Board.{
  PostedLogin, BoardCourt, BoardMatch, Panel, is_at, suggest, members, resolve, matches_from,
  build_matches,
}

abbrev pub ids_of : List PostedLogin → List ℕ
ids_of logins = map (λ l. l.id) logins

-- How often a login is in the suggestions.
abbrev pub suggested : ℕ → List BoardMatch → ℕ
suggested id = total (λ m. count id m.credential_ids)

module _ (lower : Text → Text) (alnum : ℕ → Bool) where
  abbrev from_panel : ℕ → Option Panel → Bool
  from_panel i none = false
  from_panel i (some panel) = leb i panel.index

  -- The logins of a panel, those that play and those that wait, and those of the later panels.
  parts :
      (i : ℕ) (panel : Option Panel)
      → bit (is_at lower alnum i true panel)
          + (bit (is_at lower alnum i false panel) + bit (from_panel (i + 1) panel))
        ≤ bit (from_panel i panel)
  parts i none = omega arith
  parts i (some panel) = ground arith

  abbrev later : List BoardCourt → ℕ → List PostedLogin → List PostedLogin
  later board i logins = select (λ l. from_panel i (resolve lower alnum board l)) logins

  count-parts :
      (id i : ℕ) (board : List BoardCourt) (logins : List PostedLogin)
      → count id (ids_of (members lower alnum board i true logins))
          + (count id (ids_of (members lower alnum board i false logins))
              + count id (ids_of (later board (i + 1) logins)))
        ≤ count id (ids_of (later board i logins))
  unfolding select count
  count-parts id i board [] = omega arith
  count-parts id i board (login ∷ logins) =
      ground (arith, parts i (resolve lower alnum board login), count-parts id i board logins)

  suggested-suggest :
      (id : ℕ) (board : List BoardCourt) (panel : BoardCourt) (current : Bool)
      (group : List PostedLogin)
      → suggested id (suggest lower alnum board panel current group) ≡ count id (ids_of group)
  unfolding total count
  suggested-suggest id board panel current [] = refl
  suggested-suggest id board panel current (login ∷ logins) = omega arith

  suggested-matches_from :
      (id i : ℕ) (logins : List PostedLogin) (board panels : List BoardCourt)
      → suggested id (matches_from lower alnum logins board i panels)
        ≤ count id (ids_of (later board i logins))
  unfolding matches_from total
  suggested-matches_from id i logins board [] = omega arith
  suggested-matches_from id i logins board (panel ∷ panels) =
      let playing =
        suggest lower alnum board panel true (members lower alnum board i true logins) in
      let waiting =
        suggest lower alnum board panel false (members lower alnum board i false logins) in
      let rest = matches_from lower alnum logins board (i + 1) panels in
      let ids : BoardMatch → ℕ = λ m. count id m.credential_ids in
      let split : suggested id (matches_from lower alnum logins board i (panel ∷ panels))
          ≡ total ids playing + total ids waiting + total ids rest =
        total-append ids (playing ++ waiting) rest
        ∙ ap (λ n. n + total ids rest) (total-append ids playing waiting) in
      omega (
        arith,
        split,
        suggested-suggest id board panel true (members lower alnum board i true logins),
        suggested-suggest id board panel false (members lower alnum board i false logins),
        suggested-matches_from id (i + 1) logins board panels,
        count-parts id i board logins,
      )

  count-select_le :
      (p : PostedLogin → Bool) (id : ℕ) (logins : List PostedLogin)
      → count id (ids_of (select p logins)) ≤ count id (ids_of logins)
  unfolding select count
  count-select_le p id [] = omega arith
  count-select_le p id (login ∷ logins) = ground (arith, count-select_le p id logins)

  -- A login is in the suggestions as often as it is among the posted logins at most, so that one that
  -- is posted once is in one suggestion at most.
  pub suggested-build_matches :
      (id : ℕ) (logins : List PostedLogin) (board : List BoardCourt)
      → suggested id (build_matches lower alnum logins board) ≤ count id (ids_of logins)
  unfolding build_matches
  suggested-build_matches id logins board = omega (
    arith,
    suggested-matches_from id 0 logins board board,
    count-select_le (λ l. from_panel 0 (resolve lower alnum board l)) id logins,
  )
