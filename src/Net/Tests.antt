-- ===== src/Net/Tests.antt =====
-- Calls of two addresses at a limiter of src/net.rs.
use badminton_be_rust.Prelude.{
  ℕ, ◌≡◌, refl, true, false, List, [], ◌∷◌, none, find_row, delete, arith,
}
use badminton_be_rust.Net.{RateLimiter, check}
use badminton_be_rust.Net.Laws.{ideal, run, run-ideal}

-- Two calls in ten units of time.
abbrev limiter : RateLimiter
limiter = record { max_in_window = 2; window = 10 }

abbrev calls : List (ℕ × ℕ)
calls = (0, 1) ∷ (1, 1) ∷ (2, 1) ∷ (3, 2) ∷ (10, 1) ∷ []

two_in_ten : run limiter calls [] ≡ true ∷ true ∷ false ∷ true ∷ true ∷ []
unfolding run check find_row delete
two_in_ten = refl

run-ideal_example : run limiter calls [] ≡ ideal limiter calls (λ ip. none)
run-ideal_example =
    run-ideal limiter calls
      (omega arith, (omega arith, (omega arith, (omega arith, (omega arith, tt)))))
