-- ===== src/Server/Challenges/Resume.antt =====
-- A challenge is resumed once, in time, on the connection that parked it.
use quish.Base.{
  ℕ, ◌+◌, ◌-◌, ◌≤◌, ◌≡◌, refl, ◌↔◌, inl, inr, not, ◌||◌, none, some, arith, ltb, ◌==◌,
  if◌then◌else◌, Option-cases,
}
use quish.Base.Text.{Bytes, bytes_eq}
use quish.Base.Text.Laws.{bytes_eq→eq, bytes_eq_refl}
use quish.Auth.Types.{ChallengeState}
use quish.Server.Challenges.{challenge_ttl, ChallengeStore, insert, take, clear}

-- `take` answers a state exactly if this connection parked it, under this token, no more than a
-- minute ago.
pub take-some :
    (store : ChallengeStore) (conn_id : ℕ) (token : Bytes) (now : ℕ) (state : ChallengeState)
    → ((take conn_id token now store).0 ≡ some state) ↔ (
        (created : ℕ) × (store conn_id ≡ some (state, created))
        × (now ≤ created + challenge_ttl)
        × (state.token ≡ token))
unfolding take
take-some store conn_id token now state = (
  λ h. elim (Option-cases (store conn_id)) [
    | inl e ↦ absurd (cc (rw (e, take) at h))
    | inr ((s, created), e) ↦
        (created, ground arith, ground arith, bytes_eq→eq state.token token (ground arith))
  ],
  λ h. let (created, e, in_time, same) = h in ground (arith, bytes_eq_refl token),
)

-- Whatever the answer, the entry of the connection is used up, and no other connection's is touched.
pub take_consumes :
    (store : ChallengeStore) (conn_id other : ℕ) (token : Bytes) (now : ℕ)
    → (take conn_id token now store).1 other ≡ (if conn_id == other then none else store other)
unfolding take
take_consumes store conn_id other token now = ground arith

pub clear_at :
    (store : ChallengeStore) (conn_id other : ℕ)
    → clear conn_id store other ≡ (if conn_id == other then none else store other)
unfolding clear
clear_at store conn_id other = refl

-- A second challenge on a connection replaces the first.
pub take-insert :
    (store : ChallengeStore) (conn_id : ℕ) (state : ChallengeState) (token : Bytes) (parked now : ℕ)
    → (take conn_id token now (insert conn_id state parked store)).0 ≡ (
        if ltb challenge_ttl (now - parked) || not (bytes_eq state.token token)
        then none
        else some state)
unfolding take insert
take-insert store conn_id state token parked now = ground arith
