-- ===== src/Auth/Limiter/Tests.antt =====
-- Runs and examples of the rate limiter.
use smart_salary_india.Base.{ℕ, ◌≤◌, ◌≡◌, refl, List, [], ◌∷◌, arith}
use smart_salary_india.Auth.Limiter.{check_rate_limit, refuse, exceeded}
use smart_salary_india.Auth.Limiter.Window.{run, count_at, check_rate_limit-window}

-- Four requests within a minute and one after it.
abbrev times : List ℕ
times = 10_000_000 ∷ 20_000_000 ∷ 30_000_000 ∷ 40_000_000 ∷ 75_000_000 ∷ []

run-times :
    (run 3 60 "login" times (λ k. []) []).1 ≡ 10_000_000 ∷ 20_000_000 ∷ 30_000_000 ∷ 75_000_000 ∷ []
unfolding run check_rate_limit refuse
run-times = refl

check_rate_limit-full :
    (check_rate_limit 1 60 40_000_000 "login" (λ k. 10_000_000 ∷ [])).0 ≡ exceeded 30
unfolding check_rate_limit refuse
check_rate_limit-full = refl

check_rate_limit-window_example : count_at 60 40_000_000 (run 3 60 "login" times (λ k. []) []).1 ≤ 3
check_rate_limit-window_example =
    check_rate_limit-window 3 60 "login" times 40_000_000 (ground arith)
