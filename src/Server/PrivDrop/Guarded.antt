-- ===== src/Server/PrivDrop/Guarded.antt =====
-- With whose credentials the helpers touch files and run programs.
use quish.Base.{
  ℕ, ◌≡◌, refl, inl, inr, Bool, true, false, Option, none, some, if◌then◌else◌, Bool-cases,
  Option-cases,
}
use quish.Base.Text.{Bytes, codes, contains}
use quish.Server.PrivDrop.{
  Call, chdir, reopen_tty, is_dir, initgroups, setgid, setuid, setsid, dup2_stdin, dup2_stdout,
  dup2_stderr, open_read, open_write, mkdir, fstat, is_file, already_exists, copy, flush, Log,
  Kernel, Action, ◌>>=◌, ◌>>◌, or_fail, ensure, Env, env_u32, ask, call, drop_to_user, go_home,
  run_transfer_helper, run_transfer_write_helper, settle_mkdir, run_mkdir_helper,
}
use quish.Base.Text.Laws.{bytes_eq_refl}
use quish.Server.PrivDrop.Session.{take_tty}
use quish.Server.PrivDrop.Triples.{
  of_user, Creds, effect, touches, On, As, Triple, bind-Triple, or_fail-Triple, ensure-Triple,
  call-On, ask-As, try_call-As, call-As,
}

module _ (tty : Option Bytes) (kernel : Kernel) (user : Bytes) (uid gid : ℕ) where
  abbrev pub them : Creds
  them = record { uid = uid; gid = gid; groups = of_user user gid }

  abbrev Grouped : Creds → Type 0
  Grouped k = k.groups ≡ of_user user gid

  abbrev InGroup : Creds → Type 0
  InGroup k = (k.groups ≡ of_user user gid) × (k.gid ≡ gid)

  named-As :
      Triple tty them
        (Unit {0})
        (On tty them (λ k. Unit {0}))
        (call kernel (initgroups user gid)
          >> (call kernel (setgid gid) >> call kernel (setuid uid)))
        (As tty them)
  named-As =
      bind-Triple tty them
        (call-On tty them kernel (λ k. Unit {0}) Grouped (initgroups user gid) refl (λ k h. refl))
        (λ _.
          bind-Triple tty them
            (call-On tty them kernel Grouped InGroup (setgid gid) refl (λ k h. (h, refl)))
            (λ _.
              call-On tty them kernel InGroup (λ k. k ≡ them) (setuid uid) refl
                (λ k (h, h'). rw (h, h') refl)))

  pub drop_to_user-As :
      Triple tty them
        (Unit {0})
        (On tty them (λ k. Unit {0}))
        (drop_to_user kernel user uid gid)
        (As tty them)
  unfolding drop_to_user
  drop_to_user-As = record {
    holds = λ log h. elim (Bool-cases (contains 0 user)) [
      | inl e ↦ rw (drop_to_user, e) h.1
      | inr e ↦ rw (drop_to_user, e) (named-As.holds log h)
    ];
  }

  abbrev Any : Creds → Type 0
  Any k = Unit {0}

  go_home-As :
      (env : Env) → Triple tty them (Unit {0}) (As tty them) (go_home kernel env) (As tty them)
  go_home-As env = elim (Option-cases (env (codes "QUISH_SESS_HOME"))) [
    | inl e ↦ rw (go_home, e) (or_fail-Triple tty them (λ k. k ≡ them) (some tt))
    | inr (home, e) ↦ rw (go_home, e) (try_call-As tty them kernel (chdir home) (λ k. refl))
  ]

  as_user :
      (env : Env) (m : Action (Unit {0}))
      → Triple tty them (Unit {0}) (As tty them) m (As tty them)
      → Triple tty them
          (Unit {0})
          (On tty them Any)
          (drop_to_user kernel user uid gid >> (go_home kernel env >> m))
          (As tty them)
  as_user env m t =
      bind-Triple tty them drop_to_user-As (λ _. bind-Triple tty them (go_home-As env) (λ _. t))

  -- The rest of a transfer, once the file is open.
  streamed :
      (c : Call)
      → ((k : Creds) → effect c k ≡ k)
      → Triple tty them
          (Unit {0})
          (As tty them)
          (call kernel c
            >> (call kernel fstat
                >> (ask kernel is_file >>= λ is_regular.
                    (ensure is_regular >> (call kernel copy >> call kernel flush)))))
          (As tty them)
  streamed c e = bind-Triple tty them (call-As tty them kernel c e) (λ _.
      bind-Triple tty them (call-As tty them kernel fstat (λ k. refl)) (λ _.
        bind-Triple tty them (ask-As tty them kernel is_file (λ k. refl)) (λ r.
          bind-Triple tty them (ensure-Triple tty them (λ k. k ≡ them) r) (λ _.
            bind-Triple tty them (call-As tty them kernel copy (λ k. refl))
              (λ _. call-As tty them kernel flush (λ k. refl))))))

  looked :
      (path : Bytes) (there : Bool)
      → Triple tty them Bool
          (As tty them)
          (if there then ask kernel (is_dir path) else or_fail (some false))
          (As tty them)
  looked path true = ask-As tty them kernel (is_dir path) (λ k. refl)
  looked path false = or_fail-Triple tty them (λ k. k ≡ them) (some false)

  settle_mkdir-As :
      (path : Bytes) (created : Bool)
      → Triple tty them (Unit {0}) (As tty them) (settle_mkdir kernel path created) (As tty them)
  settle_mkdir-As path true = or_fail-Triple tty them (λ k. k ≡ them) (some tt)
  settle_mkdir-As path false =
      bind-Triple tty them (ask-As tty them kernel already_exists (λ k. refl)) (λ there.
        bind-Triple tty them (looked path there) (λ d. ensure-Triple tty them (λ k. k ≡ them) d))

  pub known :
      {A : Type 0} (P : Log → Type 0) (o : Option A) (f : A → Action (Unit {0})) {a : A}
      → o ≡ some a
      → Triple tty them (Unit {0}) P (f a) (As tty them)
      → Triple tty them (Unit {0}) P (or_fail o >>= f) (As tty them)
  known P o f e t = rw e (record { holds = λ log h. t.holds log h })

  pub unknown :
      {A : Type 0} (o : Option A) (f : A → Action (Unit {0}))
      → ((a : A) → Triple tty them (Unit {0}) (On tty them Any) (f a) (As tty them))
      → Triple tty them (Unit {0}) (On tty them Any) (or_fail o >>= f) (As tty them)
  unknown o f t = bind-Triple tty them (or_fail-Triple tty them Any o) t

  -- What the monitor put into the environment.
  unfoldable pub Names : Env → Type 0
  Names env =
      (env_u32 env (codes "QUISH_SESS_UID") ≡ some uid)
      × (env_u32 env (codes "QUISH_SESS_GID") ≡ some gid)
      × (env (codes "QUISH_SESS_USER") ≡ some user)

  pub transfer-As :
      (env : Env) (path : Bytes)
      → Names env
      → Triple tty them
          (Unit {0})
          (On tty them Any)
          (run_transfer_helper kernel env path)
          (As tty them)
  unfolding run_transfer_helper Names
  transfer-As env path (u, g, n) =
      known _ _ _ u
        (known _ _ _ g (known _ _ _ n (as_user env _ (streamed (open_read path) (λ k. refl)))))

  pub transfer_write-As :
      (env : Env) (path : Bytes)
      → Names env
      → Triple tty them
          (Unit {0})
          (On tty them Any)
          (run_transfer_write_helper kernel env path)
          (As tty them)
  unfolding run_transfer_write_helper Names
  transfer_write-As env path (u, g, n) = known _ _ _ u (
      known _ _ _ g (
        known _ _ _ n
          (unknown _ _ (λ mode. as_user env _ (streamed (open_write path mode) (λ k. refl))))))

  pub mkdir-As :
      (env : Env) (path : Bytes)
      → Names env
      → Triple tty them
          (Unit {0})
          (On tty them Any)
          (run_mkdir_helper kernel env path)
          (As tty them)
  unfolding run_mkdir_helper Names
  mkdir-As env path (u, g, n) = known _ _ _ u (
      known _ _ _ g (
        known _ _ _ n (
          unknown _ _ (λ mode. as_user env _ (
            bind-Triple tty them (ask-As tty them kernel (mkdir path mode) (λ k. refl))
              (settle_mkdir-As path))))))

  plain :
      (c : Call)
      → touches tty c ≡ false
      → Triple tty them (Unit {0}) (On tty them Any) (call kernel c) (On tty them Any)
  plain c e = call-On tty them kernel Any Any c e (λ k h. h)

  pub take_tty-Any :
      (command own : Option Bytes)
      → own ≡ tty
      → Triple tty them (Unit {0}) (On tty them Any) (take_tty kernel command own) (On tty them Any)
  take_tty-Any none none e = or_fail-Triple tty them Any (some tt)
  take_tty-Any (some c) none e = plain setsid refl
  take_tty-Any command (some t) e = bind-Triple tty them (plain setsid refl) (λ _.
      bind-Triple tty them (plain (reopen_tty t) (rw (← e) (rw (bytes_eq_refl t) refl))) (λ _.
        bind-Triple tty them (plain dup2_stdin refl)
          (λ _. bind-Triple tty them (plain dup2_stdout refl) (λ _. plain dup2_stderr refl))))
