-- ===== src/Otp/Windows/Entries.antt =====
-- Sorted sets of timestamps, and how a limiter's call changes the entry of its key.
use badminton_be_rust.Prelude.{
  ℕ, ◌+◌, ◌-◌, ◌≤◌, ◌<◌, ◌≡◌, refl, sym, ap, ◌∙◌, inl, inr, Bool, false, List, [], ◌∷◌, Option,
  none, some, arith, ltb, leb, if◌then◌else◌, bit, Text, text_eq, length, total, tally, delete,
  total-delete_le, Bool-cases,
}
use badminton_be_rust.Redis.{
  Entry, live, is_live, value_of, members, set_members, zinsert, scored, effect, zset, zadd, expire,
  after_secs,
}

abbrev pub in_window : ℕ → ℕ → ℕ → Bool
in_window width now t = ltb now (t + width)

-- The members that an entry has at an instant.
abbrev pub at_instant : ℕ → Option Entry → List (Text × ℕ)
at_instant now o = members (value_of (live now o))

-- How many of them are in the window that ends at an instant.
abbrev pub within : ℕ → ℕ → List (Text × ℕ) → ℕ
within width now = tally (λ z. in_window width now z.1)

pub tally-zinsert :
    (q : Text × ℕ → Bool) (m : Text) (score : ℕ) (zs : List (Text × ℕ))
    → tally q (zinsert m score zs) ≡ bit (q (m, score)) + tally q zs
unfolding total
tally-zinsert q m score [] = refl
tally-zinsert q m score ((n, s) ∷ zs) = ground (arith, tally-zinsert q m score zs)

-- What was outside a window is outside every later one.
pub within-prune :
    (width now later : ℕ) (zs : List (Text × ℕ))
    → width ≤ now
    → now ≤ later
    → within width later (delete (scored 0 (now - width)) zs) ≡ within width later zs
unfolding total delete
within-prune width now later [] w h = refl
within-prune width now later ((m, s) ∷ zs) w h = ground (arith, within-prune width now later zs w h)

-- A pruned set is what is in the window.
length-prune :
    (width now : ℕ) (zs : List (Text × ℕ))
    → width ≤ now
    → length (delete (scored 0 (now - width)) zs) ≡ within width now zs
unfolding total delete
length-prune width now [] w = refl
length-prune width now ((m, s) ∷ zs) w = ground (arith, length-prune width now zs w)

within_early :
    (width now : ℕ) (zs : List (Text × ℕ)) → now < width → within width now zs ≡ length zs
unfolding total
within_early width now [] w = refl
within_early width now ((m, s) ∷ zs) w = ground (arith, within_early width now zs w)

-- The entry after the limiter's first command.
abbrev pub pruned : ℕ → ℕ → Option Entry → Option Entry
pruned width now o =
    if leb width now
    then set_members (delete (scored 0 (now - width)) (at_instant now o)) (live now o)
    else o

abbrev expires_of : Option Entry → Option ℕ
expires_of none = none
expires_of (some e) = e.expires

at_instant-set_members :
    (later : ℕ) (zs : List (Text × ℕ)) (e : Entry)
    → at_instant later (set_members zs (some e)) ≡ (if is_live later e.expires then zs else [])
at_instant-set_members later [] e = elim (Bool-cases (is_live later e.expires)) [
  | inl on ↦ rw on refl
  | inr off ↦ rw off refl
]
at_instant-set_members later (z ∷ zs) e = elim (Bool-cases (is_live later e.expires)) [
  | inl on ↦ rw on refl
  | inr off ↦ rw off refl
]

at_instant-some :
    (now : ℕ) (e : Entry)
    → at_instant now (some e) ≡ (if is_live now e.expires then members (some e.value) else [])
at_instant-some now e = elim (Bool-cases (is_live now e.expires)) [
  | inl on ↦ rw on refl
  | inr off ↦ rw off refl
]

-- What has expired stays so.
is_live_mono :
    (now later : ℕ) (t : Option ℕ) → now ≤ later → is_live now t ≡ false → is_live later t ≡ false
is_live_mono now later none h e = cc
is_live_mono now later (some t) h e = ground arith

pub length-pruned :
    (width now : ℕ) (o : Option Entry)
    → length (at_instant now (pruned width now o)) ≡ within width now (at_instant now o)
unfolding delete total
length-pruned width now none = elim (Bool-cases (leb width now)) [
  | inl old ↦ rw old refl
  | inr early ↦ rw early refl
]
length-pruned width now (some e) = elim (Bool-cases (is_live now e.expires)) [
  | inr off ↦ elim (Bool-cases (leb width now)) [
    | inl old ↦ rw (old, off) refl
    | inr early ↦ rw (early, off) refl
  ]
  | inl on ↦ elim (Bool-cases (leb width now)) [
    | inl old ↦
        rw (old, on)
          (ap length (at_instant-set_members now _ e)
            ∙ rw on (length-prune width now (members (some e.value)) (ground arith)))
    | inr early ↦
        rw (early, on) (sym (within_early width now (members (some e.value)) (ground arith)))
  ]
]

pub within-pruned :
    (width now i later : ℕ) (o : Option Entry)
    → now ≤ i
    → now ≤ later
    → within width later (at_instant i (pruned width now o)) ≡ within width later (at_instant i o)
unfolding delete total
within-pruned width now i later none g h = elim (Bool-cases (leb width now)) [
  | inl old ↦ rw old refl
  | inr early ↦ rw early refl
]
within-pruned width now i later (some e) g h = elim (Bool-cases (leb width now)) [
  | inr early ↦ rw early refl
  | inl old ↦ elim (Bool-cases (is_live now e.expires)) [
    | inr off ↦ rw (old, off, is_live_mono now i e.expires g off) refl
    | inl on ↦
        rw (old, on)
          (ap (within width later) (at_instant-set_members i _ e)
            ∙ elim (Bool-cases (is_live i e.expires)) [
              | inr gone ↦ rw gone refl
              | inl still ↦
                  rw still (within-prune width now later (members (some e.value)) (ground arith) h)
            ])
  ]
]

-- A limiter's call brings no member in by its first command.
pub tally-pruned :
    (q : Text × ℕ → Bool) (width now i : ℕ) (o : Option Entry)
    → now ≤ i
    → tally q (at_instant i (pruned width now o)) ≤ tally q (at_instant i o)
unfolding delete total
tally-pruned q width now i none g = elim (Bool-cases (leb width now)) [
  | inl old ↦ rw old (omega arith)
  | inr early ↦ rw early (omega arith)
]
tally-pruned q width now i (some e) g = elim (Bool-cases (leb width now)) [
  | inr early ↦ rw early (omega arith)
  | inl old ↦ elim (Bool-cases (is_live now e.expires)) [
    | inr off ↦ rw (old, off, is_live_mono now i e.expires g off) (omega arith)
    | inl on ↦
        rw
          (
            old,
            on,
            at_instant-set_members i (delete (scored 0 (now - width)) (members (some e.value))) e,
          )
          elim (Bool-cases (is_live i e.expires)) [
            | inr gone ↦ rw gone (omega arith)
            | inl still ↦
                rw still (
                  total-delete_le (scored 0 (now - width)) (λ z. bit (q z))
                    (members (some e.value)))
          ]
  ]
]

set_members-zinsert :
    (m : Text) (score : ℕ) (zs : List (Text × ℕ)) (o : Option Entry)
    → set_members (zinsert m score zs) o
      ≡ some (record { value = zset (zinsert m score zs); expires = expires_of o })
set_members-zinsert m score [] none = refl
set_members-zinsert m score [] (some e) = refl
set_members-zinsert m score ((n, s) ∷ zs) none = elim (Bool-cases (ltb score s)) [
  | inl e ↦ rw e refl
  | inr e ↦ rw e refl
]
set_members-zinsert m score ((n, s) ∷ zs) (some o) = elim (Bool-cases (ltb score s)) [
  | inl e ↦ rw e refl
  | inr e ↦ rw e refl
]

-- The entry after the commands of an allowed call.
pub added :
    (now secs : ℕ) (m : Text) (score : ℕ) (o : Option Entry)
    → effect now (expire secs) (live now (effect now (zadd m score) (live now o)))
      ≡ some (record {
        value = zset (zinsert m score (delete (λ z. text_eq z.0 m) (at_instant now o)));
        expires = some (after_secs now secs);
      })
added now secs m score none =
    rw (set_members-zinsert m score (delete (λ z. text_eq z.0 m) []) none) refl
added now secs m score (some e) = elim (Bool-cases (is_live now e.expires)) [
  | inl on ↦ simp on (
      rw
        (set_members-zinsert m score (delete (λ z. text_eq z.0 m) (members (some e.value)))
          (some e))
        (rw on refl))
  | inr off ↦ simp off (rw (set_members-zinsert m score (delete (λ z. text_eq z.0 m) []) none) refl)
]
