-- ===== src/Net.antt =====
-- The address of a client, and the limiter in memory of src/net.rs.
pub mod Laws
mod Tests
use badminton_be_rust.Prelude.{
  ℕ, ◌+◌, ◌-◌, ◌%◌, ◌^◌, Bool, true, false, not, List, [], ◌∷◌, Option, none, some, ◌==◌, ltb, leb,
  if◌then◌else◌, Text, trim, head?, find_row, delete, length,
}
use badminton_be_rust.Otp.{split_commas}

-- The headers that are read, where their values are visible ASCII.
pub record Headers : Type 0 where
  pub cf_connecting_ip : Option Text
  pub x_forwarded_for : Option Text

abbrev or_else : Option ℕ → Option ℕ → Option ℕ
or_else none other = other
or_else (some ip) other = some ip

abbrev and_then : (Text → Option ℕ) → Option Text → Option ℕ
and_then f none = none
and_then f (some t) = f t

abbrev first_hop : (Text → Option ℕ) → Text → Option ℕ
first_hop parse t = and_then (λ hop. parse (trim hop)) (head? (split_commas t))

abbrev or_peer : Option ℕ → ℕ → ℕ
or_peer none peer = peer
or_peer (some ip) peer = ip

-- `parse` is the parser of addresses of the standard library; an address is a number.
unfoldable pub client_ip : (Text → Option ℕ) → Headers → ℕ → ℕ
unfolding trim split_commas
client_ip parse headers peer =
    or_peer
      (or_else (and_then (λ t. parse (trim t)) headers.cf_connecting_ip)
        (and_then (first_hop parse) headers.x_forwarded_for))
      peer

pub record Hit : Type 0 where
  pub ip : ℕ
  pub start : ℕ
  pub count : ℕ

pub record RateLimiter : Type 0 where
  pub max_in_window : ℕ
  pub window : ℕ

abbrev pub is_of : ℕ → Hit → Bool
is_of ip h = h.ip == ip

-- `duration_since` stops at zero, as the subtraction does.
abbrev pub is_over : RateLimiter → ℕ → Hit → Bool
is_over limiter now h = leb limiter.window (now - h.start)

-- `hits.entry(ip).or_insert((now, 0))`, begun again when its window is over.
abbrev pub entry : RateLimiter → ℕ → ℕ → Option Hit → Hit
entry limiter now ip none = record { ip = ip; start = now; count = 0 }
entry limiter now ip (some h) =
    if is_over limiter now h then record { ip = ip; start = now; count = 0 } else h

-- The count is a u32.
abbrev pub counted : Hit → Hit
counted h = record h { count = (h.count + 1) % 2 ^ 32 }

abbrev pub put : Hit → List Hit → List Hit
put h hits = h ∷ delete (is_of h.ip) hits

abbrev pub retained : RateLimiter → ℕ → List Hit → List Hit
retained limiter now hits =
    if ltb 10000 (length hits) then delete (is_over limiter now) hits else hits

unfoldable pub check : RateLimiter → ℕ → ℕ → List Hit → Bool × List Hit
unfolding find_row delete
check limiter now ip hits =
    let kept = retained limiter now hits in
    let h = counted (entry limiter now ip (find_row (is_of ip) kept)) in
    (leb h.count limiter.max_in_window, put h kept)
