-- ===== src/Server/SignThrottle/Tests.antt =====
-- Tests of the throttle.
use quish.Base.{◌+◌, ◌-◌, ◌*◌, ◌/◌, ◌^◌, ◌≤◌, ◌≡◌, refl, true, false, [], ◌∷◌, arith}
use quish.Server.SignThrottle.{sign_burst, sign_refill, new, refill, spend, allow_at, served}
use quish.Server.SignThrottle.Rate.{served-new}

-- A drained bucket gives one token after half a second.
refill_after_interval : (allow_at (record { tokens = 0; last = 0 }) (500 * 10 ^ 6)).0 ≡ true
unfolding allow_at refill spend
refill_after_interval = refl

refill_too_early : (allow_at (record { tokens = 0; last = 0 }) (499 * 10 ^ 6)).0 ≡ false
unfolding allow_at refill spend
refill_too_early = refl

served-new_example :
    served (new 0) (10 ∷ 20 ∷ 10 ^ 9 ∷ []) ≤ sign_burst + (10 ^ 9 - 0) / sign_refill
served-new_example =
    served-new 0 (10 ^ 9) (10 ∷ 20 ∷ 10 ^ 9 ∷ []) (omega arith)
      (omega arith, (omega arith, (omega arith, tt)))
