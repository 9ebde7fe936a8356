-- ===== src/Server/PrivDrop/Session.antt =====
-- quish-server/src/privdrop.rs: `run_session_helper`, with the arguments and the environment of the
-- user's shell.
use quish.Base.{
  Option, none, some, List, [], ◌∷◌, ◌++◌, map, if◌then◌else◌, unwrap_or, is_some, any,
}
use quish.Base.Text.{Bytes, codes, contains, bytes_eq, rsplit_once}
use quish.Auth.Types.{Base64}
use quish.Server.PamEnv.{decode_pam_env}
use quish.Server.PrivDrop.{
  chdir, reopen_tty, setsid, dup2_stdin, dup2_stdout, dup2_stderr, execve, Kernel, Action, ◌>>=◌,
  ◌>>◌, or_fail, c_string, Env, env_u32, call, try_call, drop_to_user, run_transfer_helper,
  run_transfer_write_helper, run_mkdir_helper,
}

-- `shell.rsplit('/').next()`: what follows the last `/`.
abbrev pub basename : Bytes → Bytes
basename s = elim (rsplit_once b'/' s) [ none ↦ s | some (dirs, base) ↦ base ]

unfoldable pub argv_of : Bytes → Option Bytes → Option (List Bytes)
argv_of shell (some cmd) = elim (c_string cmd) [
  | none ↦ none
  | some c ↦ some (shell ∷ codes "-c" ∷ c ∷ [])
]
argv_of shell none = elim (c_string (codes "-" ++ basename shell)) [
  | none ↦ none
  | some a ↦ some (a ∷ [])
]

abbrev pub helper_keys : List Bytes
helper_keys =
    codes "HOME" ∷ codes "USER" ∷ codes "LOGNAME" ∷ codes "SHELL" ∷ codes "TERM" ∷ codes "PATH" ∷ []

-- The variables that the helper sets.
abbrev pub helper_env : Bytes → Bytes → Bytes → Bytes → List (Bytes × Bytes)
helper_env home user shell term =
    (codes "HOME", home)
    ∷ (codes "USER", user)
    ∷ (codes "LOGNAME", user)
    ∷ (codes "SHELL", shell)
    ∷ (codes "TERM", term)
    ∷ (codes "PATH", codes "/usr/local/bin:/usr/bin:/bin")
    ∷ []

abbrev pub entry : Bytes × Bytes → Bytes
entry (k, v) = k ++ b'=' ∷ v

-- The variables of PAM that pass: none of the helper's, and no NUL.
unfoldable pub pam_entries : List (Bytes × Bytes) → List Bytes
pam_entries [] = []
pam_entries ((k, v) ∷ env) =
    let rest = pam_entries env in
    if any (λ hk. bytes_eq k hk) helper_keys
    then rest
    else if contains 0 (entry (k, v))
    then rest
    else entry (k, v) ∷ rest

abbrev pub pam_env : Base64 → Option Bytes → List (Bytes × Bytes)
pam_env base64 none = []
pam_env base64 (some encoded) = decode_pam_env base64 encoded

-- The whole environment; `none` is the panic of `expect("env has no nul")`.
unfoldable pub envp_of : Base64 → Option Bytes → List (Bytes × Bytes) → Option (List Bytes)
unfolding pam_entries
envp_of base64 encoded helper =
    let own = map entry helper in
    if any (contains 0) own then none else some (pam_entries (pam_env base64 encoded) ++ own)

module _ (kernel : Kernel) where
  -- Exec channels lead a session without a terminal; shell channels take theirs.
  abbrev pub take_tty : Option Bytes → Option Bytes → Action (Unit {0})
  take_tty command none = if is_some command then call kernel setsid else or_fail (some tt)
  take_tty command (some tty) = do
    call kernel setsid
    call kernel (reopen_tty tty)
    call kernel dup2_stdin
    call kernel dup2_stdout
    call kernel dup2_stderr

module _ (kernel : Kernel) (base64 : Base64) where
  unfoldable pub exec_shell : Env → Action (Unit {0})
  unfolding argv_of envp_of
  exec_shell env = do
    uid ← or_fail (env_u32 env (codes "QUISH_SESS_UID"))
    gid ← or_fail (env_u32 env (codes "QUISH_SESS_GID"))
    user ← or_fail (env (codes "QUISH_SESS_USER"))
    home ← or_fail (env (codes "QUISH_SESS_HOME"))
    shell ← or_fail (env (codes "QUISH_SESS_SHELL"))
    take_tty kernel (env (codes "QUISH_SESS_COMMAND")) (env (codes "QUISH_SESS_TTY"))
    drop_to_user kernel user uid gid
    try_call kernel (chdir home)
    shell_c ← or_fail (c_string shell)
    argv ← or_fail (argv_of shell_c (env (codes "QUISH_SESS_COMMAND")))
    envp ← or_fail (
        envp_of base64 (env (codes "QUISH_SESS_PAM_ENV"))
          (helper_env home user shell (unwrap_or (env (codes "QUISH_SESS_TERM")) (codes "xterm"))))
    call kernel (execve shell_c argv envp)

  unfoldable pub run_session_helper : Env → Action (Unit {0})
  unfolding exec_shell
  run_session_helper env = elim (env (codes "QUISH_SESS_TRANSFER_PATH")) [
    | some path ↦ run_transfer_helper kernel env path
    | none ↦ elim (env (codes "QUISH_SESS_TRANSFER_WRITE_PATH")) [
      | some path ↦ run_transfer_write_helper kernel env path
      | none ↦ elim (env (codes "QUISH_SESS_MKDIR_PATH")) [
        | some path ↦ run_mkdir_helper kernel env path
        | none ↦ exec_shell env
      ]
    ]
  ]
