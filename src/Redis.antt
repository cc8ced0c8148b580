-- ===== src/Redis.antt =====
-- Redis, which the repository calls and does not implement: a store with one law, that a command
-- changes the entry of its key by the documented effect and no other entry. Instants are
-- milliseconds.
pub mod Memory
use badminton_be_rust.Prelude.{
  ℕ, ◌+◌, ◌*◌, ◌≡◌, Bool, true, false, not, ◌&&◌, List, [], ◌∷◌, Option, none, some, ltb, leb,
  if◌then◌else◌, Text, text_eq, delete,
}

pub data Value : Type 0 where
  str : Text → Value
  int : ℕ → Value
  zset : List (Text × ℕ) → Value

-- The value of a key, and the instant at which it expires, if any.
pub record Entry : Type 0 where
  pub value : Value
  pub expires : Option ℕ

pub data Command : Type 0 where
  set_ex : Value → ℕ → Command
  del incr : Command
  expire : ℕ → Command
  zadd : Text → ℕ → Command
  zrembyscore : ℕ → ℕ → Command

abbrev pub is_live : ℕ → Option ℕ → Bool
is_live now none = true
is_live now (some t) = ltb now t

-- An entry whose time is over is as missing.
abbrev pub live : ℕ → Option Entry → Option Entry
live now none = none
live now (some e) = if is_live now e.expires then some e else none

abbrev pub after_secs : ℕ → ℕ → ℕ
after_secs now secs = now + secs * 1000

-- A sorted set holds its members by ascending score.
abbrev pub zinsert : Text → ℕ → List (Text × ℕ) → List (Text × ℕ)
zinsert m score [] = (m, score) ∷ []
zinsert m score ((n, s) ∷ zs) =
    if ltb score s then (m, score) ∷ (n, s) ∷ zs else (n, s) ∷ zinsert m score zs

abbrev pub scored : ℕ → ℕ → Text × ℕ → Bool
scored low high z = leb low z.1 && leb z.1 high

abbrev pub bumped : Value → Value
bumped (int n) = int (n + 1)
bumped (str s) = str s
bumped (zset zs) = zset zs

abbrev pub incremented : Option Entry → Option Entry
incremented none = some (record { value = int 1; expires = none })
incremented (some e) = some (record e { value = bumped e.value })

-- The members of a sorted set; of anything else there are none.
abbrev pub members : Option Value → List (Text × ℕ)
members none = []
members (some (str s)) = []
members (some (int n)) = []
members (some (zset zs)) = zs

abbrev pub value_of : Option Entry → Option Value
value_of none = none
value_of (some e) = some e.value

abbrev pub set_members : List (Text × ℕ) → Option Entry → Option Entry
set_members [] e = none
set_members (z ∷ zs) none = some (record { value = zset (z ∷ zs); expires = none })
set_members (z ∷ zs) (some e) = some (record e { value = zset (z ∷ zs) })

abbrev pub expiring : ℕ → Option Entry → Option Entry
expiring t none = none
expiring t (some e) = some (record e { expires = some t })

-- What a command leaves at its key, given the entry that is live there. (An expired entry is gone
-- with the command.)
abbrev pub effect : ℕ → Command → Option Entry → Option Entry
effect now (set_ex v secs) e = some (record { value = v; expires = some (after_secs now secs) })
effect now del e = none
effect now incr e = incremented e
effect now (expire secs) e = expiring (after_secs now secs) e
effect now (zadd m score) e =
    set_members (zinsert m score (delete (λ z. text_eq z.0 m) (members (value_of e)))) e
effect now (zrembyscore low high) e =
    set_members (delete (scored low high) (members (value_of e))) e

pub record Redis : Type 1 where
  pub Store : Type 0
  pub lookup : Text → Store → Option Entry
  pub exec : ℕ → Text → Command → Store → Store
  pub lookup-exec :
      (now : ℕ) (key : Text) (c : Command) (s : Store) (j : Text)
      → lookup j (exec now key c s)
        ≡ (if text_eq key j then effect now c (live now (lookup key s)) else lookup j s)

-- What becomes of one command: it is carried out and answered, carried out with the answer lost, or
-- not carried out.
pub data Fate : Type 0 where
  answered lost refused : Fate

abbrev pub counter : Option Value → Option ℕ
counter none = none
counter (some (str t)) = none
counter (some (int n)) = some n
counter (some (zset zs)) = none

abbrev pub is_answered : Fate → Bool
is_answered answered = true
is_answered lost = false
is_answered refused = false

module _ (r : Redis) where
  open r use {Store, lookup, exec}

  abbrev pub read : ℕ → Text → Store → Option Value
  read now key s = value_of (live now (lookup key s))

  -- The replies that the commands give, where they are answered.
  abbrev pub command : Fate → ℕ → Text → Command → Store → Store
  command answered now key c s = exec now key c s
  command lost now key c s = exec now key c s
  command refused now key c s = s

  -- `r.get(key)`: `none` is a failure.
  abbrev pub get : Fate → ℕ → Text → Store → Option (Option Value)
  get answered now key s = some (read now key s)
  get lost now key s = none
  get refused now key s = none

  -- `r.incr(key, 1)`.
  abbrev pub incr_reply : Fate → ℕ → Text → Store → Option ℕ
  incr_reply answered now key s = counter (read now key (exec now key incr s))
  incr_reply lost now key s = none
  incr_reply refused now key s = none
