-- ===== src/Server/Monitor/Requests/Teardown.antt =====
-- What `Close` leaves behind.
use quish.Base.{
  ℕ, ◌≡◌, refl, sym, ap, ◌∙◌, ◌⊎◌, inl, inr, Bool, true, none, some, List, [], ◌∷◌, ◌++◌, arith,
  ◌==◌, if◌then◌else◌, ==_iff, Bool-cases, unwrap_or, any,
}
use quish.Base.Table
use quish.Base.Table.{Table}
use mathlib.Core.Path.{subst}
use quish.Base.Text.{Bytes}
use quish.Server.Challenges.{ChallengeStore}
use quish.Server.Challenges.Resume.{clear_at}
use quish.Server.Monitor.Requests.Users.{closing}
use quish.Server.Monitor.{
  Child, sigkill, Effect, killpg, waited, Host, State, take_conn, reap_child,
}
use quish.Server.Monitor.Requests.{reap_removed, close_pam, close_sessions, on_close}

abbrev pub lists : List ℕ → ℕ → Bool
lists sids sid = any (λ s. s == sid) sids

-- The sessions of a connection.
abbrev pub sessions_of : ℕ → State → List ℕ
sessions_of conn st = unwrap_or (st.conn_sessions conn) []

-- An effect is among those of a list.
abbrev pub Does : Effect → List Effect → Type 0
Does e [] = ⊥
Does e (x ∷ xs) = (x ≡ e) ⊎ Does e xs

Does-append_left : (e : Effect) (xs ys : List Effect) → Does e xs → Does e (xs ++ ys)
Does-append_left e [] ys h = absurd h
Does-append_left e (x ∷ xs) ys (inl q) = inl q
Does-append_left e (x ∷ xs) ys (inr h) = inr (Does-append_left e xs ys h)

Does-append_right : (e : Effect) (xs ys : List Effect) → Does e ys → Does e (xs ++ ys)
Does-append_right e [] ys h = h
Does-append_right e (x ∷ xs) ys h = inr (Does-append_right e xs ys h)

pub close_sessions-sessions :
    (host : Host) (sids : List ℕ) (st : State) (k : ℕ)
    → (close_sessions host sids st).0.sessions k ≡ (if lists sids k then none else st.sessions k)
unfolding close_sessions
close_sessions-sessions host [] st k = refl
close_sessions-sessions host (sid ∷ sids) st k = ground (
  arith,
  close_sessions-sessions host sids
      (close_pam sid (record st { sessions = Table.remove sid st.sessions })).0 k,
)

close_sessions-pam :
    (host : Host) (sids : List ℕ) (st : State) (k : ℕ)
    → (close_sessions host sids st).0.pam_sessions k
      ≡ (if lists sids k then none else st.pam_sessions k)
unfolding close_sessions
close_sessions-pam host [] st k = refl
close_sessions-pam host (sid ∷ sids) st k = ground (
  arith,
  close_sessions-pam host sids
      (close_pam sid (record st { sessions = Table.remove sid st.sessions })).0 k,
)

close_sessions-others :
    (host : Host) (sids : List ℕ) (st : State)
    → ((close_sessions host sids st).0.users ≡ st.users)
      × ((close_sessions host sids st).0.challenges ≡ st.challenges)
      × ((close_sessions host sids st).0.conn_sessions ≡ st.conn_sessions)
      × ((close_sessions host sids st).0.next_session ≡ st.next_session)
unfolding close_sessions
close_sessions-others host [] st = (refl, refl, refl, refl)
close_sessions-others host (sid ∷ sids) st = close_sessions-others host sids _

reap_child-kills :
    (host : Host) (child : Child)
    → host.try_wait child ≡ none
    → Does (killpg child sigkill) (reap_child host child).1
      × Does (waited child) (reap_child host child).1
unfolding reap_child
reap_child-kills host child h =
    rw (h, reap_child) (inr (inr (inl refl)), inr (inr (inr (inr (inl refl)))))

close_sessions-kills :
    (host : Host) (sids : List ℕ) (st : State) (k : ℕ) (child : Child) (e : Effect)
    → lists sids k ≡ true
    → st.sessions k ≡ some child
    → Does e (reap_child host child).1
    → Does e (close_sessions host sids st).1
unfolding close_sessions
close_sessions-kills host [] st k child e l s d = absurd (cc)
close_sessions-kills host (sid ∷ sids) st k child e l s d =
    let st₁ = record st { sessions = Table.remove sid st.sessions } in
    let here = reap_removed host (st.sessions sid) in
    elim (Bool-cases (sid == k)) [
      | inl q ↦
          let same : st.sessions sid ≡ some child = ap st.sessions ((==_iff sid k).0 q) ∙ s in
          Does-append_left e here _ (subst (λ o. Does e (reap_removed host o)) (sym same) d)
      | inr q ↦ Does-append_right e here _ (
          Does-append_right e (close_pam sid st₁).1 _ (
            close_sessions-kills host sids (close_pam sid st₁).0 k child e (rw q at l)
              (ground arith) d))
    ]

-- `Close` takes from every table what belongs to the connection and nothing else: its identity, its
-- parked challenge, its list of sessions, and the processes and PAM sessions of that list.
pub on_close_lem :
    (host : Host) (conn : ℕ) (st : State) (other sid : ℕ)
    → let out = (on_close host conn st).state in
      (out.users other ≡ (if conn == other then none else st.users other))
      × (out.challenges other ≡ (if conn == other then none else st.challenges other))
      × (out.conn_sessions other ≡ (if conn == other then none else st.conn_sessions other))
      × (out.sessions sid ≡ (if lists (sessions_of conn st) sid then none else st.sessions sid))
      × (out.pam_sessions sid
          ≡ (if lists (sessions_of conn st) sid then none else st.pam_sessions sid))
unfolding on_close take_conn
on_close_lem host conn st other sid =
    let (users, parked, index, _) =
      close_sessions-others host (sessions_of conn st) (closing conn st) in
    (
      ap (λ (t : Table Bytes). t other) users,
      ap (λ (t : ChallengeStore). t other) parked ∙ clear_at st.challenges conn other,
      ap (λ (t : Table (List ℕ)). t other) index,
      close_sessions-sessions host (sessions_of conn st) (closing conn st) sid,
      close_sessions-pam host (sessions_of conn st) (closing conn st) sid,
    )

-- Every process of a closed connection that has not exited by itself is killed with its process
-- group, and waited for.
pub on_close_kills :
    (host : Host) (conn : ℕ) (st : State) (sid : ℕ) (child : Child)
    → lists (sessions_of conn st) sid ≡ true
    → st.sessions sid ≡ some child
    → host.try_wait child ≡ none
    → Does (killpg child sigkill) (on_close host conn st).effects
      × Does (waited child) (on_close host conn st).effects
unfolding on_close take_conn
on_close_kills host conn st sid child listed here alive =
    let (killed, reaped) = reap_child-kills host child alive in
    let kills = close_sessions-kills host (sessions_of conn st) (closing conn st) sid child in
    (kills _ listed here killed, kills _ listed here reaped)
