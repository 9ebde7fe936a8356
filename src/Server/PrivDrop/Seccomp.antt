-- ===== src/Server/PrivDrop/Seccomp.antt =====
-- quish-server/src/privdrop.rs: `WORKER_SYSCALLS` and the filter of `install_seccomp`.
-- libc's numbers are a parameter: `sys` is the number of the call `SYS_` with that name.
use quish.Base.{
  ℕ, ◌≡◌, refl, sym, ap, ◌∙◌, ◌↔◌, inl, inr, Bool, true, false, List, [], ◌∷◌, map, ◌==◌,
  if◌then◌else◌, ==_iff, ==_refl, Bool-cases, any,
}
use quish.Base.Text.{Bytes, codes, bytes_eq}
use quish.Base.Text.Laws.{bytes_eq→eq, bytes_eq_refl}

abbrev pub worker_syscalls : List Bytes
worker_syscalls =
    codes "recvmsg"
    ∷ codes "sendmsg"
    ∷ codes "recvmmsg"
    ∷ codes "sendmmsg"
    ∷ codes "recvfrom"
    ∷ codes "sendto"
    ∷ codes "read"
    ∷ codes "write"
    ∷ codes "readv"
    ∷ codes "writev"
    ∷ codes "close"
    ∷ codes "socket"
    ∷ codes "bind"
    ∷ codes "connect"
    ∷ codes "getsockname"
    ∷ codes "getpeername"
    ∷ codes "getsockopt"
    ∷ codes "setsockopt"
    ∷ codes "listen"
    ∷ codes "accept4"
    ∷ codes "ioctl"
    ∷ codes "epoll_create1"
    ∷ codes "epoll_ctl"
    ∷ codes "epoll_wait"
    ∷ codes "epoll_pwait"
    ∷ codes "eventfd2"
    ∷ codes "futex"
    ∷ codes "clock_gettime"
    ∷ codes "gettimeofday"
    ∷ codes "clock_nanosleep"
    ∷ codes "nanosleep"
    ∷ codes "getrandom"
    ∷ codes "mmap"
    ∷ codes "munmap"
    ∷ codes "mremap"
    ∷ codes "mprotect"
    ∷ codes "madvise"
    ∷ codes "brk"
    ∷ codes "rt_sigaction"
    ∷ codes "rt_sigprocmask"
    ∷ codes "rt_sigreturn"
    ∷ codes "sigaltstack"
    ∷ codes "sched_yield"
    ∷ codes "sched_getaffinity"
    ∷ codes "getpid"
    ∷ codes "gettid"
    ∷ codes "uname"
    ∷ codes "clone"
    ∷ codes "clone3"
    ∷ codes "set_robust_list"
    ∷ codes "set_tid_address"
    ∷ codes "rseq"
    ∷ codes "fcntl"
    ∷ codes "exit"
    ∷ codes "exit_group"
    ∷ []

-- What happens to a call by the worker.
pub data Treatment : Type 0 where
  allowed logged kills_process : Treatment

-- A number with a rule, whose chain is empty, matches it; any other gets the default action.
pub install_seccomp : (Bytes → ℕ) → Bool → ℕ → Treatment
install_seccomp sys enforce nr =
    if any (λ n. n == nr) (map sys worker_syscalls)
    then allowed
    else if enforce
    then kills_process
    else logged

module _ (sys : Bytes → ℕ) (name : Bytes) (inj : (x : Bytes) → sys x ≡ sys name → x ≡ name) where
  same_test : (x : Bytes) → (sys x == sys name) ≡ bytes_eq name x
  same_test x = elim (Bool-cases (bytes_eq name x)) [
    | inl e ↦ rw e (rw (sym (bytes_eq→eq name x e)) (==_refl (sys name)))
    | inr e ↦ elim (Bool-cases (sys x == sys name)) [
      | inr e' ↦ e' ∙ sym e
      | inl e' ↦
          let equal = inj x ((==_iff (sys x) (sys name)).0 e') in
          absurd (cc (e, ap (bytes_eq name) equal, bytes_eq_refl name))
    ]
  ]

  any_named :
      (names : List Bytes) → any (λ n. n == sys name) (map sys names) ≡ any (bytes_eq name) names
  any_named [] = refl
  any_named (x ∷ names) = rw (same_test x) (rw (any_named names) refl)

treated :
    (enforce : Bool)
    → ((if enforce then kills_process else logged) ≡ kills_process)
      ↔ ((enforce ≡ true) × (false ≡ false))
treated true = (λ h. (refl, refl), λ h. refl)
treated false = (λ h. absurd (cc), λ h. absurd (cc))

-- With numbers that tell the names apart, the filter in force kills the worker at a call by its
-- name exactly when the list has not got it, and in audit mode it kills at none.
pub install_seccomp_kills :
    (sys : Bytes → ℕ) (enforce : Bool) (name : Bytes)
    → ((x : Bytes) → sys x ≡ sys name → x ≡ name)
    → (install_seccomp sys enforce (sys name) ≡ kills_process)
      ↔ ((enforce ≡ true) × (any (bytes_eq name) worker_syscalls ≡ false))
unfolding install_seccomp
install_seccomp_kills sys enforce name inj =
    let listed = any_named sys name inj worker_syscalls in
    elim (Bool-cases (any (bytes_eq name) worker_syscalls)) [
      | inl e ↦ (λ h. absurd (cc (rw (install_seccomp, listed, e) at h)), λ h. absurd (cc (h.1, e)))
      | inr e ↦ rw (install_seccomp, listed, e) (treated enforce)
    ]
