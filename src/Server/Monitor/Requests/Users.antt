-- ===== src/Server/Monitor/Requests/Users.antt =====
-- Which identities a request leaves in `State::users`.
use quish.Base.{
  ℕ, ◌≡◌, refl, ap, ◌≢◌, ◌⊎◌, inl, inr, Option, none, some, List, [], ◌∷◌, arith, ◌==◌, Bool-cases,
}
use quish.Base.Table
use quish.Base.Table.{Table}
use quish.Server.Challenges
use quish.Base.Text.{Bytes}
use quish.Auth.Types.{Verdict, allow, deny}
use quish.Server.Monitor.{Job, Host, State, alloc, forget_session, take_conn, ChallengeAnswer}
use quish.Server.Monitor.Requests.{
  on_verdict, answer_challenge, on_spawn_login, on_spawn_transfer, on_reap, close_sessions,
  on_close,
}

pub on_verdict-users :
    (host : Host) (conn c : ℕ) (st : State) (v : Verdict) (user : Bytes)
    → (on_verdict host conn st v).state.users c ≡ some user
    → (st.users c ≡ some user) ⊎ ((conn ≡ c) × (v ≡ allow user))
unfolding on_verdict
on_verdict-users host conn c st (allow u) user h = elim (Bool-cases (conn == c)) [
  | inl e ↦ inr (ground arith, ground arith)
  | inr e ↦ inl (ground arith)
]
on_verdict-users host conn c st (Verdict.challenge s ps) user h = inl h
on_verdict-users host conn c st deny user h = inl h

pub answer_challenge-users :
    (host : Host) (conn : ℕ) (ans : Option ChallengeAnswer) (st : State)
    → (answer_challenge host conn ans st).1.users ≡ st.users
unfolding answer_challenge
answer_challenge-users host conn none st = refl
answer_challenge-users host conn (some a) st = refl

pub on_spawn_login-users :
    (host : Host) (conn : ℕ) (job : Job) (st : State)
    → (on_spawn_login host conn job st).state.users ≡ st.users
unfolding on_spawn_login alloc
on_spawn_login-users host conn job st = ground arith

pub on_spawn_transfer-users :
    (host : Host) (conn : ℕ) (job : Job) (st : State)
    → (on_spawn_transfer host conn job st).state.users ≡ st.users
unfolding on_spawn_transfer alloc
on_spawn_transfer-users host conn job st = ground arith

pub on_reap-users :
    (host : Host) (sid : ℕ) (st : State) → (on_reap host sid st).state.users ≡ st.users
unfolding on_reap forget_session
on_reap-users host sid st = ground arith

pub close_sessions-users :
    (host : Host) (sids : List ℕ) (st : State) → (close_sessions host sids st).0.users ≡ st.users
unfolding close_sessions
close_sessions-users host [] st = refl
close_sessions-users host (sid ∷ sids) st = close_sessions-users host sids _

-- The state that the loop of `Close` starts from.
abbrev pub closing : ℕ → State → State
closing conn st = record st {
  users = Table.remove conn st.users;
  challenges = Challenges.clear conn st.challenges;
  conn_sessions = (take_conn conn st.conn_sessions).1;
}

-- `Close` forgets the identity of its connection and of no other.
pub on_close-users :
    (host : Host) (conn c : ℕ) (st : State) (user : Bytes)
    → (on_close host conn st).state.users c ≡ some user
    → (conn ≢ c) × (st.users c ≡ some user)
unfolding on_close take_conn
on_close-users host conn c st user h =
    let e = close_sessions-users host (take_conn conn st.conn_sessions).0 (closing conn st) in
    elim (Bool-cases (conn == c)) [
      | inl q ↦ absurd (cc (q, ap (λ (t : Table Bytes). t c) e))
      | inr q ↦ (ground arith, ground (arith, ap (λ (t : Table Bytes). t c) e))
    ]
