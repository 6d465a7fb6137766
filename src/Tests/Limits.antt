-- ===== src/Tests/Limits.antt =====
-- The token buckets at concrete inputs, over numbers with three decimals.
use forecastiq.Prelude.{ℕ, ◌≡◌, ◌≢◌, refl, List, [], ◌∷◌, All, arith}
use forecastiq.Prelude.Int.{ℤ, pos, ◌-ℤ◌}
use forecastiq.Float.{◌≼◌, ◌⊖◌, fzero, fone}
use forecastiq.Float.Fixed.{fixed_float, Fixed-IsLinear, Fixed-IsRounded, Fixed-IsSymmetric}
use forecastiq.Limiter.{run, allow_key}
use forecastiq.Limiter.Bounded.{IsFilled, run-IsFilled}
use forecastiq.Limiter.Isolated.{allow_key-run}

-- A size of 2 and one token a second.
abbrev size : ℤ
size = pos 2000

abbrev rate : ℤ
rate = pos 1000

-- Three calls of one client, with the instants in nanoseconds, and one of another.
abbrev calls : List (ℕ × ℕ)
calls = (0, 7) ∷ (0, 7) ∷ (0, 7) ∷ (1_000_000_000, 8) ∷ []

sub_one : (a : ℤ) → fone ≼ a → fzero ≼ (a ⊖ fone)
unfolding ◌-ℤ◌
sub_one a h = ground arith

run-IsFilled_example : All (λ b. IsFilled size rate b.limiter) (run size rate calls [])
run-IsFilled_example =
    run-IsFilled Fixed-IsLinear Fixed-IsRounded Fixed-IsSymmetric sub_one size rate refl refl calls
      [] tt

abbrev others : List (ℕ × ℕ)
others = (0, 8) ∷ (5, 8) ∷ []

not_seven : ◌≢◌ {A = ℕ} 8 7
not_seven e = omega (arith, e)

allow_key-run_example :
    (allow_key size rate 10 7 (run size rate others [])).1 ≡ (allow_key size rate 10 7 []).1
allow_key-run_example = allow_key-run size rate 10 7 others [] (not_seven, (not_seven, tt))
