-- ===== src/Server/Challenges/Tests.antt =====
-- Tests of the challenge store.
use quish.Base.{ℕ, ◌+◌, ◌≤◌, ◌≡◌, refl, ◌↔◌, none, some}
use quish.Base.Table
use quish.Base.Text.{codes}
use quish.Auth.Types.{ChallengeState}
use quish.Server.Challenges.{challenge_ttl, ChallengeStore, insert, take}
use quish.Server.Challenges.Resume.{take-some}

abbrev parked : ChallengeState
parked = record { token = codes "t1"; pending_user = some (codes "alice") }

-- Connection 4 has a challenge parked at time 1000.
abbrev one_parked : ChallengeStore
one_parked = insert 4 parked 1000 Table.empty

take_in_time : (take 4 (codes "t1") (1000 + challenge_ttl) one_parked).0 ≡ some parked
unfolding take insert
take_in_time = refl

take_late : (take 4 (codes "t1") (1001 + challenge_ttl) one_parked).0 ≡ none
unfolding take insert
take_late = refl

take-some_example : ((take 4 (codes "t1") 2000 one_parked).0 ≡ some parked) ↔ (
    (created : ℕ) × (one_parked 4 ≡ some (parked, created))
    × (2000 ≤ created + challenge_ttl)
    × (parked.token ≡ codes "t1"))
take-some_example = take-some one_parked 4 (codes "t1") 2000 parked
