-- ===== src/Session/Forward/Parked.antt =====
-- The parked sockets: how many, and who gets them.
use quish.Base.{
  ℕ, ◌≤◌, ◌≡◌, refl, ◌↔◌, inl, inr, false, Option, none, some, List, [], ◌∷◌, arith, ◌==◌,
  Bool-cases, length,
}
use quish.Session.Forward.{
  ParkedConn, Park, max_parked, without, find_ref, owned_by, park_conn, expire, take_conn,
}

-- What happens to the table.
pub data Event : Type 0 where
  accepts : ℕ → ℕ → Event
  expires : ℕ → Event
  claims : ℕ → ℕ → Event

pub step : Park → Event → Park
step s (accepts conn_id tcp) = (park_conn conn_id tcp s).1
step s (expires conn_ref) = expire conn_ref s
step s (claims conn_id conn_ref) = (take_conn conn_id conn_ref s).1

pub run : Park → List Event → Park
run s [] = s
run s (e ∷ es) = run (step s e) es

length-without : (r : ℕ) (ps : List ParkedConn) → length (without r ps) ≤ length ps
length-without r [] = omega arith
length-without r (p ∷ ps) = ground (arith, length-without r ps)

step_bound :
    (s : Park) (e : Event) → length s.parked ≤ max_parked → length (step s e).parked ≤ max_parked
unfolding step park_conn expire take_conn
step_bound s (accepts c t) h = ground (arith, h, length-without s.next_conn_ref s.parked)
step_bound s (expires r) h = omega (arith, length-without r s.parked)
step_bound s (claims c r) h = ground (arith, h, length-without r s.parked)

-- Whatever is accepted, claimed or expires, no more than 128 sockets are parked at once.
pub run_bound :
    (s : Park) (es : List Event)
    → length s.parked ≤ max_parked
    → length (run s es).parked ≤ max_parked
unfolding run
run_bound s [] h = h
run_bound s (e ∷ es) h = run_bound (step s e) es (step_bound s e h)

find_ref-without : (r : ℕ) (ps : List ParkedConn) → find_ref r (without r ps) ≡ none
find_ref-without r [] = refl
find_ref-without r (p ∷ ps) = ground (arith, find_ref-without r ps)

find_ref-without_other :
    (r other : ℕ) (ps : List ParkedConn)
    → (other == r) ≡ false
    → find_ref other (without r ps) ≡ find_ref other ps
find_ref-without_other r other [] h = refl
find_ref-without_other r other (p ∷ ps) h = elim (Bool-cases (p.conn_ref == r)) [
  | inl e ↦ ground (arith, e, h, find_ref-without_other r other ps h)
  | inr e ↦ ground (arith, e, h, find_ref-without_other r other ps h)
]

owned_by_iff :
    (conn_id tcp : ℕ) (o : Option ParkedConn)
    → (owned_by conn_id o ≡ some tcp)
      ↔ ((p : ParkedConn) × (o ≡ some p) × (p.conn_id ≡ conn_id) × (p.tcp ≡ tcp))
owned_by_iff conn_id tcp none = (λ h. absurd (cc), λ h. let (p, e, c, t) = h in absurd (cc))
owned_by_iff conn_id tcp (some q) = (
  λ h. (q, refl, ground (arith, h), ground (arith, h)),
  λ h. let (p, e, c, t) = h in ground (arith, e, c, t),
)

-- A claim yields a socket exactly if that socket is parked under the reference by the very
-- connection that claims it.
pub take_conn_iff :
    (s : Park) (conn_id conn_ref tcp : ℕ)
    → ((take_conn conn_id conn_ref s).0 ≡ some tcp) ↔ (
        (p : ParkedConn) × (find_ref conn_ref s.parked ≡ some p)
        × (p.conn_id ≡ conn_id)
        × (p.tcp ≡ tcp))
unfolding take_conn
take_conn_iff s conn_id conn_ref tcp = owned_by_iff conn_id tcp (find_ref conn_ref s.parked)

-- After a claim that yielded a socket nothing is parked under its reference, so no second claim
-- yields it, and what is parked under another reference is still there.
pub take_conn_once :
    (s : Park) (conn_id conn_ref other tcp : ℕ)
    → (take_conn conn_id conn_ref s).0 ≡ some tcp
    → (other == conn_ref) ≡ false
    → (find_ref conn_ref (take_conn conn_id conn_ref s).1.parked ≡ none)
      × (find_ref other (take_conn conn_id conn_ref s).1.parked ≡ find_ref other s.parked)
unfolding take_conn
take_conn_once s conn_id conn_ref other tcp h ne = (
  ground (arith, h, find_ref-without conn_ref s.parked),
  ground (arith, h, find_ref-without_other conn_ref other s.parked ne),
)
