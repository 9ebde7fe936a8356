-- ===== src/Server/Challenges.antt =====
-- quish-server/src/transport.rs: `ChallengeStore`. The clock is an argument, in nanoseconds.
pub mod Resume
mod Tests
use quish.Base.{
  ℕ, zero, suc, ◌+◌, ◌-◌, ◌*◌, ◌/◌, ◌%◌, ◌^◌, ◌≤◌, ◌<◌, min, ◌≡◌, refl, sym, ap, ◌∙◌, ◌≢◌, ◌↔◌, ◌⊎◌,
  inl, inr, Bool, true, false, not, ◌&&◌, ◌||◌, Option, none, some, List, [], ◌∷◌, ◌++◌, map,
  reverse, arith, ltb, leb, ◌==◌, if◌then◌else◌, ltb→lt, lt→ltb, ltb→ge, ge→ltb, leb→le, ==_iff,
  ==_refl, Bool-cases, Option-cases, ◌>>=◌, unwrap_or, is_some, length, get_elem?, get_or, drop,
  any, all, retain, All, length-append, take-append_length, drop-append_length, take-append-drop,
  take-append_le, drop-append_le, length-take, length-drop,
}
use quish.Base.Table
use quish.Base.Table.{Table}
use quish.Base.Text.{Bytes, bytes_eq}
use quish.Auth.Types.{ChallengeState}

abbrev pub challenge_ttl : ℕ
challenge_ttl = 60 * 10 ^ 9

-- Each connection's parked state and the time at which it was parked.
abbrev pub ChallengeStore : Type 0
ChallengeStore = Table (ChallengeState × ℕ)

pub insert : ℕ → ChallengeState → ℕ → ChallengeStore → ChallengeStore
insert conn_id state now store = Table.insert conn_id (state, now) store

-- `take` removes the entry first, whatever it then answers.
pub take : ℕ → Bytes → ℕ → ChallengeStore → Option ChallengeState × ChallengeStore
take conn_id token now store = elim (store conn_id) [
  | none ↦ (none, Table.remove conn_id store)
  | some (state, created) ↦ (
    (if ltb challenge_ttl (now - created) || not (bytes_eq state.token token)
        then none
        else some state),
    Table.remove conn_id store,
  )
]

pub clear : ℕ → ChallengeStore → ChallengeStore
clear conn_id store = Table.remove conn_id store
