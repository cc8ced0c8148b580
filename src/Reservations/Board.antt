-- ===== src/Reservations/Board.antt =====
-- The logins of a scanned status board: name_matches and build_matches of
-- src/routes/reservations.rs. The two Unicode tables of the standard library are parameters.
pub mod Laws
use badminton_be_rust.Prelude.{
  ℕ, ◌+◌, Bool, true, false, not, ◌&&◌, ◌||◌, List, [], ◌∷◌, ◌++◌, map, Option, none, some, ◌==◌,
  leb, ltb, max, if◌then◌else◌, Text, text, text_eq, any, select, is_empty, length, is_some,
}
use badminton_be_rust.Courts.Stations.{str_len}

-- A login's id, its name, and the court that it is in use on.
pub record PostedLogin : Type 0 where
  pub id : ℕ
  pub name : Text
  pub in_use_court : Option ℕ

pub record BoardCourt : Type 0 where
  pub court_number : ℕ
  pub minutes_left : Option ℕ
  pub current_players : List Text
  pub queue : List Text

pub record BoardMatch : Type 0 where
  pub credential_ids : List ℕ
  pub bintang_names : List Text
  pub already_in_use_ids : List ℕ
  pub in_use_court : Option ℕ
  pub court_number : ℕ
  pub minutes_left : Option ℕ
  pub is_current : Bool
  pub queue_position : Option ℕ
  pub current_players : List Text
  pub queue : List Text
  pub player_count : ℕ
  pub starts_now : Bool
  pub start_in_minutes : ℕ
  pub duration_minutes : ℕ

abbrev push_char : ℕ → List Text → List Text
push_char c [] = (c ∷ []) ∷ []
push_char c (field ∷ fields) = (c ∷ field) ∷ fields

-- `str::split` at the characters that pass a test.
unfoldable pub split_at : (ℕ → Bool) → Text → List Text
split_at p [] = [] ∷ []
split_at p (c ∷ s) = let rest = split_at p s in if p c then [] ∷ rest else push_char c rest

abbrev begins : Text → Text → Bool
begins [] s = true
begins (c ∷ t) [] = false
begins (c ∷ t) (d ∷ s) = c == d && begins t s

-- `str::contains`.
unfoldable pub contains_text : Text → Text → Bool
contains_text [] t = is_empty t
contains_text (c ∷ s) t = begins t (c ∷ s) || contains_text s t

-- `Ord::clamp`.
abbrev pub clamp : ℕ → ℕ → ℕ → ℕ
clamp low high n = if ltb n low then low else if ltb high n then high else n

abbrev pub clamped : ℕ → ℕ → ℕ → Option ℕ → ℕ
clamped low high otherwise none = otherwise
clamped low high otherwise (some n) = clamp low high n

-- The least of the positions that are there.
abbrev pub least : List (Option ℕ) → Option ℕ
least [] = none
least (none ∷ positions) = least positions
least (some p ∷ positions) = elim (least positions) [
  | none ↦ some p
  | some q ↦ some (if ltb q p then q else p)
]

abbrev pub first_court : List PostedLogin → Option ℕ
first_court [] = none
first_court (login ∷ logins) = elim login.in_use_court [
  | none ↦ first_court logins
  | some court ↦ some court
]

abbrev clamped_position : Option ℕ → Option ℕ
clamped_position none = none
clamped_position (some p) = some (clamp 1 5 p)

-- A panel of the board, whether the login is playing there, and its place in the queue.
pub record Panel : Type 0 where
  pub index : ℕ
  pub is_current : Bool
  pub position : Option ℕ

module _ (to_lowercase : Text → Text) (is_alphanumeric : ℕ → Bool) where
  abbrev tokens : Text → List Text
  tokens s = select (λ t. leb 3 (str_len t)) (split_at (λ c. not (is_alphanumeric c)) s)

  unfoldable pub name_matches : Text → List Text → Bool
  unfolding any select split_at contains_text text_eq
  name_matches login names =
      let lowered = to_lowercase login in
      any
        (λ name.
          text_eq (to_lowercase name) lowered
          || any (λ t. contains_text (to_lowercase name) t) (tokens lowered)
          || any (λ t. contains_text lowered t) (tokens (to_lowercase name)))
        names

  unfoldable pub find_current : Text → ℕ → List BoardCourt → Option Panel
  unfolding name_matches
  find_current name i [] = none
  find_current name i (panel ∷ board) =
      let rest = find_current name (i + 1) board in
      if name_matches name panel.current_players
      then some (record { index = i; is_current = true; position = none })
      else rest

  unfoldable pub find_position : Text → ℕ → List Text → Option ℕ
  unfolding name_matches
  find_position name p [] = none
  find_position name p (waiting ∷ queue) =
      let rest = find_position name (p + 1) queue in
      if name_matches name (waiting ∷ []) then some p else rest

  unfoldable pub find_queued : Text → ℕ → List BoardCourt → Option Panel
  unfolding find_position
  find_queued name i [] = none
  find_queued name i (panel ∷ board) = elim (find_position name 0 panel.queue) [
    | some p ↦ some (record { index = i; is_current = false; position = some (p + 1) })
    | none ↦ find_queued name (i + 1) board
  ]

  abbrev or_panel : Option Panel → Option Panel → Option Panel
  or_panel none other = other
  or_panel (some panel) other = some panel

  -- The single best panel of a login: playing beats waiting.
  unfoldable pub resolve : List BoardCourt → PostedLogin → Option Panel
  unfolding find_current find_queued
  resolve board login = or_panel (find_current login.name 0 board) (find_queued login.name 0 board)

  abbrev pub position_of : Option Panel → Option ℕ
  position_of none = none
  position_of (some panel) = panel.position

  abbrev pub same_kind : Bool → Bool → Bool
  same_kind true b = b
  same_kind false b = not b

  abbrev pub is_at : ℕ → Bool → Option Panel → Bool
  is_at i current none = false
  is_at i current (some panel) = panel.index == i && same_kind current panel.is_current

  abbrev suggestion : List BoardCourt → BoardCourt → Bool → List PostedLogin → BoardMatch
  suggestion board panel current group = record {
    credential_ids = map (λ l. l.id) group;
    bintang_names = map (λ l. l.name) group;
    already_in_use_ids = map (λ l. l.id) (select (λ l. is_some l.in_use_court) group);
    in_use_court = first_court group;
    court_number = panel.court_number;
    minutes_left = panel.minutes_left;
    is_current = current;
    queue_position =
        if current
        then none
        else clamped_position (least (map (λ l. position_of (resolve board l)) group));
    current_players = panel.current_players;
    queue = panel.queue;
    player_count = clamp 1 4 (length group);
    starts_now = current;
    start_in_minutes = if current then 0 else clamped 2 170 15 panel.minutes_left;
    duration_minutes = if current then clamped 1 45 45 panel.minutes_left else 45;
  }

  -- One suggestion for the logins of a panel that play, or that wait, if there are any.
  abbrev pub suggest : List BoardCourt → BoardCourt → Bool → List PostedLogin → List BoardMatch
  suggest board panel current [] = []
  suggest board panel current (login ∷ logins) =
      suggestion board panel current (login ∷ logins) ∷ []

  abbrev pub members : List BoardCourt → ℕ → Bool → List PostedLogin → List PostedLogin
  members board i current logins = select (λ l. is_at i current (resolve board l)) logins

  unfoldable pub matches_from :
      List PostedLogin → List BoardCourt → ℕ → List BoardCourt → List BoardMatch
  unfolding select resolve
  matches_from logins board i [] = []
  matches_from logins board i (panel ∷ panels) =
      suggest board panel true (members board i true logins)
      ++ suggest board panel false (members board i false logins)
      ++ matches_from logins board (i + 1) panels

  unfoldable pub build_matches : List PostedLogin → List BoardCourt → List BoardMatch
  unfolding matches_from
  build_matches logins board = matches_from logins board 0 board
