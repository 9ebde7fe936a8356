-- ===== src/Server/PrivDrop/Helper.antt =====
-- With whose credentials `run_session_helper` acts.
use quish.Base.{ℕ, ◌≡◌, refl, inl, inr, Option, none, some, [], Option-cases, unwrap_or}
use quish.Base.Text.{Bytes, codes}
use quish.Auth.Types.{Base64}
use quish.Server.PrivDrop.{chdir, execve, Log, Kernel, c_string, Env}
use quish.Server.PrivDrop.Session.{exec_shell, run_session_helper, argv_of, envp_of, helper_env}
use quish.Server.PrivDrop.Triples.{
  Creds, Guarded, On, As, Ends, Triple, bind-Triple, or_fail-Triple, try_call-As, call-As,
}
use quish.Server.PrivDrop.Guarded.{
  them, Names, drop_to_user-As, known, unknown, transfer-As, transfer_write-As, mkdir-As,
  take_tty-Any,
}

module _ (tty : Option Bytes) (kernel : Kernel) (base64 : Base64) (user : Bytes) (uid gid : ℕ) where
  abbrev who : Creds
  who = them tty kernel user uid gid

  exec_shell-As :
      (env : Env)
      → Names tty kernel user uid gid env
      → env (codes "QUISH_SESS_TTY") ≡ tty
      → Triple tty who
          (Unit {0})
          (On tty who (λ k. Unit {0}))
          (exec_shell kernel base64 env)
          (As tty who)
  unfolding exec_shell Names
  exec_shell-As env (u, g, n) own = known tty kernel user uid gid _ _ _ u (
      known tty kernel user uid gid _ _ _ g (
        known tty kernel user uid gid _ _ _ n (
          unknown tty kernel user uid gid (env (codes "QUISH_SESS_HOME")) _ (λ home.
            unknown tty kernel user uid gid (env (codes "QUISH_SESS_SHELL")) _ (λ shell.
              bind-Triple tty who
                (take_tty-Any tty kernel user uid gid (env (codes "QUISH_SESS_COMMAND"))
                  (env (codes "QUISH_SESS_TTY")) own)
                (λ _. bind-Triple tty who (drop_to_user-As tty kernel user uid gid) (λ _.
                  bind-Triple tty who (try_call-As tty who kernel (chdir home) (λ k. refl)) (λ _.
                    bind-Triple tty who (or_fail-Triple tty who (λ k. k ≡ who) (c_string shell))
                      (λ shell_c.
                        bind-Triple tty who
                          (or_fail-Triple tty who (λ k. k ≡ who)
                            (argv_of shell_c (env (codes "QUISH_SESS_COMMAND"))))
                          (λ argv.
                            bind-Triple tty who
                              (or_fail-Triple tty who (λ k. k ≡ who)
                                (envp_of base64 (env (codes "QUISH_SESS_PAM_ENV")) (
                                  helper_env home user shell
                                    (unwrap_or (env (codes "QUISH_SESS_TERM")) (codes "xterm")))))
                              (λ envp.
                                call-As tty who kernel (execve shell_c argv envp)
                                  (λ k. refl))))))))))))

  helper-As :
      (env : Env)
      → Names tty kernel user uid gid env
      → env (codes "QUISH_SESS_TTY") ≡ tty
      → Triple tty who
          (Unit {0})
          (On tty who (λ k. Unit {0}))
          (run_session_helper kernel base64 env)
          (As tty who)
  unfolding run_session_helper
  helper-As env h own = elim (Option-cases (env (codes "QUISH_SESS_TRANSFER_PATH"))) [
    | inr (path, e) ↦ rw (run_session_helper, e) (transfer-As tty kernel user uid gid env path h)
    | inl e ↦ elim (Option-cases (env (codes "QUISH_SESS_TRANSFER_WRITE_PATH"))) [
      | inr (path, e') ↦
          rw (run_session_helper, e, e') (transfer_write-As tty kernel user uid gid env path h)
      | inl e' ↦ elim (Option-cases (env (codes "QUISH_SESS_MKDIR_PATH"))) [
        | inr (path, e'') ↦
            rw (run_session_helper, e, e', e'') (mkdir-As tty kernel user uid gid env path h)
        | inl e'' ↦ rw (run_session_helper, e, e', e'') (exec_shell-As env h own)
      ]
    ]
  ]

  ended :
      (r : Option (Unit {0}) × Log) → Ends tty who (Unit {0}) (As tty who) r → Guarded tty who r.1
  ended (none, log) h = h
  ended (some a, log) h = h.1

  -- Whatever the kernel answers, and whichever of its four modes the environment selects, the
  -- session helper opens, makes, reads and writes files, moves to directories and runs the shell
  -- only while it has the user, the group and the supplementary groups that the monitor named; the
  -- one exception is the opening of the session's terminal, at the path that the monitor named.
  pub run_session_helper-Guarded :
      (env : Env)
      → Names tty kernel user uid gid env
      → env (codes "QUISH_SESS_TTY") ≡ tty
      → Guarded tty who (run_session_helper kernel base64 env []).1
  run_session_helper-Guarded env h own = ended _ ((helper-As env h own).holds [] (tt, tt))
