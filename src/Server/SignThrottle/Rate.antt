-- ===== src/Server/SignThrottle/Rate.antt =====
-- The throttle bounds the signatures over any span of time.
use quish.Base.{ℕ, ◌+◌, ◌-◌, ◌*◌, ◌/◌, ◌^◌, ◌≤◌, min, ◌≡◌, List, [], ◌∷◌, arith, All}
use quish.Server.SignThrottle.{
  sign_burst, sign_refill, SignThrottle, new, allow_at, refill, spend, served,
}

-- After a refill `last` has moved by whole intervals and not past the clock, and no more tokens
-- came in than intervals were counted.
refill_step :
    (t : SignThrottle) (now : ℕ)
    → t.tokens ≤ sign_burst
    → (gained : ℕ) × ((refill t now).last ≡ t.last + sign_refill * gained)
      × (sign_refill * gained ≤ now - t.last)
      × ((refill t now).tokens ≤ t.tokens + gained)
      × ((refill t now).tokens ≤ sign_burst)
unfolding refill
refill_step t now h = (
  min ((now - t.last) / sign_refill) (2 ^ 32 - 1),
  ground arith,
  ground arith,
  ground arith,
  ground arith,
)

served_bound :
    (times : List ℕ) (t : SignThrottle) (finish : ℕ)
    → t.tokens ≤ sign_burst
    → t.last ≤ finish
    → All (λ now. now ≤ finish) times
    → served t times ≤ t.tokens + (finish - t.last) / sign_refill
unfolding served allow_at spend
served_bound [] t finish h k a = omega arith
served_bound (now ∷ times) t finish h k a =
    let (gained, moved, within, fewer, cap) = refill_step t now h in
    ground (
      arith,
      served_bound times (refill t now) finish,
      served_bound times (record (refill t now) { tokens = (refill t now).tokens - 1 }) finish,
    )

-- Between its start and a later time a signing thread lets through at most the burst and one
-- signature for each full interval of half a second, whatever the times of the requests.
pub served-new :
    (start finish : ℕ) (times : List ℕ)
    → start ≤ finish
    → All (λ now. now ≤ finish) times
    → served (new start) times ≤ sign_burst + (finish - start) / sign_refill
unfolding new
served-new start finish times h a =
    served_bound times (record { tokens = sign_burst; last = start }) finish (omega arith) h a
