-- ===== src/Server/RateLimit/Tests.antt =====
-- Tests of the limiter.
use quish.Base.{ℕ, ◌*◌, ◌^◌, ◌≡◌, refl, List, [], ◌∷◌, arith}
use quish.Server.RateLimit.{v4, v6, RateLimiter, new, default_limiter, delay_after}
use quish.Server.RateLimit.Slots.{Event, admits, drops, fails, World, run, Accounted, run-Accounted}

abbrev two_each : RateLimiter
two_each = new 2 (200 * 10 ^ 6) (30 * 10 ^ 9)

abbrev start : World
start = record { limiter = two_each; guards = λ ip. 0 }

start-Accounted : Accounted 2 start
unfolding new
start-Accounted = (refl, λ ip. (refl, omega arith))

-- Two connections from one address, a failure, one of them closed, and one from another.
abbrev a_day : List (ℕ × Event)
a_day =
    (1, admits (v4 7))
    ∷ (2, admits (v4 7))
    ∷ (3, fails (v4 7))
    ∷ (4, drops (v4 7))
    ∷ (5, admits (v6 7))
    ∷ []

run-Accounted_example : Accounted 2 (run start a_day)
run-Accounted_example = run-Accounted 2 start a_day start-Accounted

delay_after_default : delay_after 5 default_limiter ≡ 3200 * 10 ^ 6
unfolding delay_after default_limiter new
delay_after_default = refl
