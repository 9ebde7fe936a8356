-- ===== src/Server/PrivDrop.antt =====
-- quish-server/src/privdrop.rs: `drop_to_worker` and the helpers that act as the user.
-- The kernel is a parameter: what it answers to a call, after the calls made so far.
pub mod Session
pub mod Seccomp
pub mod Triples
pub mod Guarded
pub mod Helper
pub mod Dropped
pub mod Environment
mod Tests
use quish.Base.{
  ℕ, zero, suc, ◌+◌, ◌-◌, ◌*◌, ◌/◌, ◌%◌, ◌^◌, ◌≤◌, ◌<◌, min, ◌≡◌, refl, sym, ap, ◌∙◌, ◌≢◌, ◌↔◌, ◌⊎◌,
  inl, inr, Bool, true, false, not, ◌&&◌, ◌||◌, Option, none, some, List, [], ◌∷◌, ◌++◌, map,
  reverse, arith, ltb, leb, ◌==◌, if◌then◌else◌, ltb→lt, lt→ltb, ltb→ge, ge→ltb, leb→le, ==_iff,
  ==_refl, Bool-cases, Option-cases, unwrap_or, is_some, length, get_elem?, get_or, take, drop,
  is_empty, any, all, retain, All, length-append, take-append_length, drop-append_length,
  take-append-drop, take-append_le, drop-append_le, length-take, length-drop,
}
use quish.Base.Text.{Bytes, codes, contains, parse_u32}

-- The system calls, with what the code gives them. `is_file`, `already_exists` and `is_dir` read
-- what an earlier call or `std::fs::metadata` returned; their answer is the Boolean itself.
pub data Call : Type 0 where
  chroot chdir reopen_tty is_dir : Bytes → Call
  setgroups : List ℕ → Call
  initgroups : Bytes → ℕ → Call
  setgid setuid : ℕ → Call
  set_no_new_privs set_pdeathsig setsid : Call
  dup2_stdin dup2_stdout dup2_stderr : Call
  open_read : Bytes → Call
  open_write mkdir : Bytes → ℕ → Call
  fstat is_file already_exists copy flush : Call
  execve : Bytes → List Bytes → List Bytes → Call

-- The calls and whether they succeeded, the last one first.
abbrev pub Log : Type 0
Log = List (Call × Bool)

abbrev pub Kernel : Type 0
Kernel = Log → Call → Bool

-- An action has a result, or an error, and leaves a longer log.
abbrev pub Action : Type 0 → Type 0
Action A = Log → Option A × Log

infixl 5 ◌>>=◌ ◌>>◌
abbrev pub ◌>>=◌ : {A B : Type 0} → Action A → (A → Action B) → Action B
◌>>=◌ m f log = let (r, log') = m log in elim r [ none ↦ (none, log') | some a ↦ f a log' ]

abbrev pub ◌>>◌ : {A B : Type 0} → Action A → Action B → Action B
m >> k = m >>= λ _. k

-- `a?`, `bail!` unless, and `Ok(a)`.
abbrev pub or_fail : {A : Type 0} → Option A → Action A
or_fail o log = (o, log)

abbrev pub ensure : Bool → Action (Unit {0})
ensure b log = ((if b then some tt else none), log)

-- `CString::new`.
abbrev pub c_string : Bytes → Option Bytes
c_string s = if contains 0 s then none else some s

-- `ipc::env` and `ipc::env_u32` over `std::env::var`.
abbrev pub Env : Type 0
Env = Bytes → Option Bytes

abbrev pub env_u32 : Env → Bytes → Option ℕ
env_u32 env key = elim (env key) [ none ↦ none | some v ↦ parse_u32 v ]

-- `User` of the passwd database.
pub record User : Type 0 where
  pub uid : ℕ
  pub gid : ℕ

module _ (kernel : Kernel) where
  -- The answer to a call; the same with `?`; the same with `let _ =`.
  abbrev pub ask : Call → Action Bool
  ask c log = (some (kernel log c), (c, kernel log c) ∷ log)

  abbrev pub call : Call → Action (Unit {0})
  call c log = ((if kernel log c then some tt else none), (c, kernel log c) ∷ log)

  abbrev pub try_call : Call → Action (Unit {0})
  try_call c log = (some tt, (c, kernel log c) ∷ log)

  unfoldable pub drop_to_worker : (Bytes → Option User) → Bytes → Bytes → Action (Unit {0})
  drop_to_worker passwd chroot_dir username = do
    user ← or_fail (passwd username)
    ensure (not (user.uid == 0))
    call (chroot chroot_dir)
    call (chdir (codes "/"))
    call (setgroups (user.gid ∷ []))
    call (setgid user.gid)
    call (setuid user.uid)
    call set_no_new_privs
    call set_pdeathsig
    regained ← ask (setuid 0)
    ensure (not regained)

  -- "Full credential drop for the target user".
  unfoldable pub drop_to_user : Bytes → ℕ → ℕ → Action (Unit {0})
  drop_to_user user uid gid = do
    cuser ← or_fail (c_string user)
    call (initgroups cuser gid)
    call (setgid gid)
    call (setuid uid)

  abbrev pub go_home : Env → Action (Unit {0})
  go_home env = elim (env (codes "QUISH_SESS_HOME")) [
    | none ↦ or_fail (some tt)
    | some home ↦ try_call (chdir home)
  ]

  pub run_transfer_helper : Env → Bytes → Action (Unit {0})
  unfolding drop_to_user
  run_transfer_helper env path = do
    uid ← or_fail (env_u32 env (codes "QUISH_SESS_UID"))
    gid ← or_fail (env_u32 env (codes "QUISH_SESS_GID"))
    user ← or_fail (env (codes "QUISH_SESS_USER"))
    drop_to_user user uid gid
    go_home env
    call (open_read path)
    call fstat
    is_regular ← ask is_file
    ensure is_regular
    call copy
    call flush

  pub run_transfer_write_helper : Env → Bytes → Action (Unit {0})
  unfolding drop_to_user
  run_transfer_write_helper env path = do
    uid ← or_fail (env_u32 env (codes "QUISH_SESS_UID"))
    gid ← or_fail (env_u32 env (codes "QUISH_SESS_GID"))
    user ← or_fail (env (codes "QUISH_SESS_USER"))
    mode ← or_fail (env_u32 env (codes "QUISH_SESS_TRANSFER_MODE"))
    drop_to_user user uid gid
    go_home env
    call (open_write path mode)
    call fstat
    is_regular ← ask is_file
    ensure is_regular
    call copy
    call flush

  -- What `create` returned, and then, on its error, what is there.
  abbrev pub settle_mkdir : Bytes → Bool → Action (Unit {0})
  settle_mkdir path true = or_fail (some tt)
  settle_mkdir path false = do
    exists ← ask already_exists
    directory ← (if exists then ask (is_dir path) else or_fail (some false))
    ensure directory

  pub run_mkdir_helper : Env → Bytes → Action (Unit {0})
  unfolding drop_to_user
  run_mkdir_helper env path = do
    uid ← or_fail (env_u32 env (codes "QUISH_SESS_UID"))
    gid ← or_fail (env_u32 env (codes "QUISH_SESS_GID"))
    user ← or_fail (env (codes "QUISH_SESS_USER"))
    mode ← or_fail (env_u32 env (codes "QUISH_SESS_TRANSFER_MODE"))
    drop_to_user user uid gid
    go_home env
    created ← ask (mkdir path mode)
    settle_mkdir path created
