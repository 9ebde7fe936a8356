-- ===== src/Server/PrivDrop/Dropped.antt =====
-- What `drop_to_worker` leaves when it succeeds.
-- The calls of a worker that starts, the last one first.
use quish.Base.{
  ◌≡◌, refl, sym, ap, ◌∙◌, ◌≢◌, inl, inr, Bool, true, false, not, Option, none, some, List, [], ◌∷◌,
  ◌==◌, if◌then◌else◌, Bool-cases, Option-cases,
}
use quish.Base.Text.{Bytes, codes}
use quish.Server.PrivDrop.{
  Call, chroot, chdir, setgroups, setgid, setuid, set_no_new_privs, set_pdeathsig, Log, Kernel,
  Action, ◌>>=◌, ◌>>◌, ensure, User, ask, call, drop_to_worker,
}
use quish.Server.PrivDrop.Triples.{listed, creds}

abbrev pub worker_log : Bytes → User → Log
worker_log chroot_dir u =
    (setuid 0, false)
    ∷ (set_pdeathsig, true)
    ∷ (set_no_new_privs, true)
    ∷ (setuid u.uid, true)
    ∷ (setgid u.gid, true)
    ∷ (setgroups (u.gid ∷ []), true)
    ∷ (chdir (codes "/"), true)
    ∷ (chroot chroot_dir, true)
    ∷ []

abbrev outcome : Bool → Option (Unit {0})
outcome b = if b then some tt else none

abbrev resumed : {A : Type 0} → Call → Log → Action A → Bool → Option A × Log
resumed c log m b = elim (outcome b) [ none ↦ (none, (c, b) ∷ log) | some x ↦ m ((c, b) ∷ log) ]

decided :
    {A : Type 0} (b : Bool) (c : Call) (log : Log) (m : Action A) {a : A}
    → (resumed c log m b).0 ≡ some a
    → b ≡ true
decided true c log m h = refl
decided false c log m h = absurd (cc)

tested : (b : Bool) (log : Log) → (ensure (not b) log).0 ≡ some tt → b ≡ false
tested true log h = absurd (cc)
tested false log h = refl

abbrev pushed : List Call → Log → Log
pushed [] log = log
pushed (c ∷ cs) log = pushed cs ((c, true) ∷ log)

module _ (kernel : Kernel) where
  done :
      {A : Type 0} (c : Call) (m : Action A) (log : Log) {a : A}
      → ((call kernel c >> m) log).0 ≡ some a
      → (call kernel c >> m) log ≡ m ((c, true) ∷ log)
  done c m log h = ap (resumed c log m) (decided (kernel log c) c log m h)

  abbrev calls : {A : Type 0} → List Call → Action A → Action A
  calls [] m = m
  calls (c ∷ cs) m = call kernel c >> calls cs m

  calls_done :
      {A : Type 0} (cs : List Call) (m : Action A) (log : Log) {a : A}
      → (calls cs m log).0 ≡ some a
      → calls cs m log ≡ m (pushed cs log)
  calls_done [] m log h = refl
  calls_done (c ∷ cs) m log h =
      let first = done c (calls cs m) log h in
      first ∙ calls_done cs m ((c, true) ∷ log) (sym (ap (λ r. r.0) first) ∙ h)

  abbrev worker_calls : Bytes → User → List Call
  worker_calls chroot_dir u =
      chroot chroot_dir
      ∷ chdir (codes "/")
      ∷ setgroups (u.gid ∷ [])
      ∷ setgid u.gid
      ∷ setuid u.uid
      ∷ set_no_new_privs
      ∷ set_pdeathsig
      ∷ []

  abbrev never_root : Action (Unit {0})
  never_root = ask kernel (setuid 0) >>= λ regained. ensure (not regained)

  worker_calls_done :
      (chroot_dir : Bytes) (u : User)
      → (calls (worker_calls chroot_dir u) never_root []).0 ≡ some tt
      → (calls (worker_calls chroot_dir u) never_root []).1 ≡ worker_log chroot_dir u
  worker_calls_done chroot_dir u h =
      let made = calls_done (worker_calls chroot_dir u) never_root [] h in
      let before = pushed (worker_calls chroot_dir u) [] in
      let refused = tested (kernel before (setuid 0)) before (sym (ap (λ r. r.0) made) ∙ h) in
      ap (λ r. r.1) made ∙ ap (λ b. (setuid 0, b) ∷ before) refused

  -- A worker that starts was not to run as root, made its calls in this order with success, and
  -- then failed to become root again: it runs as the user and the group of the passwd entry, in
  -- the chroot, with that group only.
  pub drop_to_worker_done :
      (passwd : Bytes → Option User) (chroot_dir username : Bytes)
      → (drop_to_worker kernel passwd chroot_dir username []).0 ≡ some tt
      → (u : User) × (passwd username ≡ some u)
        × (u.uid ≢ 0)
        × ((drop_to_worker kernel passwd chroot_dir username []).1 ≡ worker_log chroot_dir u)
        × (creds (worker_log chroot_dir u)
            ≡ record { uid = u.uid; gid = u.gid; groups = listed (u.gid ∷ []) })
  unfolding drop_to_worker
  drop_to_worker_done passwd chroot_dir username h = elim (Option-cases (passwd username)) [
    | inl e ↦ absurd (cc (rw (drop_to_worker, e) at h))
    | inr (u, e) ↦ elim (Bool-cases (u.uid == 0)) [
      | inl z ↦ absurd (cc (rw (drop_to_worker, e, z) at h))
      | inr z ↦
          let not_root : u.uid ≢ 0 = λ r. absurd (cc (rw r at z)) in
          (
            u,
            e,
            not_root,
            rw (drop_to_worker, e, z)
                (worker_calls_done chroot_dir u (rw (drop_to_worker, e, z) at h)),
            refl,
          )
    ]
  ]
