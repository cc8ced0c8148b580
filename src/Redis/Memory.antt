-- ===== src/Redis/Memory.antt =====
-- A store that is a function from keys to entries: the law of Redis can hold.
use badminton_be_rust.Prelude.{refl, Option, none, Text, text_eq, if◌then◌else◌}
use badminton_be_rust.Redis.{Redis, Entry, live, effect}

abbrev pub memory : Redis
memory = record {
  Store = Text → Option Entry;
  lookup = λ j s. s j;
  exec = λ now key c s j. if text_eq key j then effect now c (live now (s key)) else s j;
  lookup-exec = λ now key c s j. refl;
}

abbrev pub empty : Text → Option Entry
empty j = none
