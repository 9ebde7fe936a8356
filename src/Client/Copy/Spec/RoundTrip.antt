-- ===== src/Client/Copy/Spec/RoundTrip.antt =====
-- quish-client/src/cp.rs: `parse_cp_spec` on the specs that the documentation of `quish cp` names,
-- `[user@]host:path` and `[user@][host]:path`.
use mathlib.Core.List.{append_assoc}
use quish.Base.{
  ℕ, suc, ◌+◌, ◌≡◌, refl, ap, inl, inr, Bool, true, false, not, Option, none, some, [], ◌∷◌, ◌++◌,
  arith, ◌==◌, if◌then◌else◌, Bool-cases, Option-cases, length, drop, is_empty, take-append_length,
}
use quish.Base.Text.{Bytes, codes, find, contains, strip_prefix}
use quish.Client.Copy.Spec.{
  remote, ok, is_before, split_user, parse_bracketed, parse_plain, parse_cp_spec,
}

-- The position of a byte that the front lacks.
find-append :
    (c : ℕ) (xs ys : Bytes) → contains c xs ≡ false → find c (xs ++ c ∷ ys) ≡ some (length xs)
find-append c [] ys h = ground arith
find-append c (x ∷ xs) ys h = ground (arith, find-append c xs ys)

is_before-find :
    (c d : ℕ) (xs ys : Bytes)
    → contains c xs ≡ false
    → (d == c) ≡ false
    → is_before (length xs) (find c (xs ++ d ∷ ys)) ≡ true
is_before-find c d [] ys h n = ground arith
is_before-find c d (x ∷ xs) ys h n = ground (arith, is_before-find c d xs ys)

suc_plus : (n : ℕ) → suc n + 1 ≡ suc (n + 1)
suc_plus n = omega arith

drop-past : (c : ℕ) (xs ys : Bytes) → drop (length xs + 1) (xs ++ c ∷ ys) ≡ ys
drop-past c [] ys = refl
drop-past c (x ∷ xs) ys = rw (suc_plus (length xs)) (drop-past c xs ys)

length-filled : (h : Bytes) → is_empty h ≡ false → (length h == 0) ≡ false
length-filled [] e = cc
length-filled (x ∷ h) e = ground arith

pub strip_bracket :
    (h rest : Bytes)
    → contains b'[' h ≡ false
    → is_empty h ≡ false
    → strip_prefix (codes "[") (h ++ rest) ≡ none
strip_bracket [] rest h e = cc
strip_bracket (x ∷ xs) rest h e = ground arith

-- A byte that the front lacks is not before the first end of the front.
is_late : ℕ → ℕ → Bytes → Bool
is_late c d s = elim (find c s) [ none ↦ true | some at ↦ not (is_before at (find d s)) ]

find_late :
    (c d : ℕ) (xs ys : Bytes)
    → contains c xs ≡ false
    → (d == c) ≡ false
    → is_late c d (xs ++ d ∷ ys) ≡ true
unfolding is_late
find_late c d [] ys h n = ground arith
find_late c d (x ∷ xs) ys h n = ground (arith, find_late c d xs ys)

pub contains-bracketed :
    (c : ℕ) (h : Bytes)
    → contains c h ≡ false
    → (b']' == c) ≡ false
    → contains c (h ++ b']' ∷ []) ≡ false
contains-bracketed c [] h n = ground arith
contains-bracketed c (x ∷ xs) h n = ground (arith, contains-bracketed c xs)

-- What ends the host is not in it.
abbrev pub IsHost : Bytes → Type 0
IsHost h =
    (is_empty h ≡ false)
    × (contains b'@' h ≡ false)
    × (contains b'/' h ≡ false)
    × (contains b'[' h ≡ false)
    × (contains b']' h ≡ false)

abbrev pub IsUser : Option Bytes → Type 0
IsUser none = Unit {0}
IsUser (some u) = (contains b'@' u ≡ false) × (contains b':' u ≡ false) × (contains b'/' u ≡ false)

abbrev pub print_user : Option Bytes → Bytes → Bytes
print_user none rest = rest
print_user (some u) rest = u ++ b'@' ∷ rest

abbrev pub print_host : Bytes → Bytes
print_host h = if contains b':' h then b'[' ∷ h ++ b']' ∷ [] else h

pub print_spec : Option Bytes → Bytes → Bytes → Bytes
print_spec user host path = print_user user (print_host host ++ b':' ∷ path)

split_user-some :
    (u rest : Bytes) → IsUser (some u) → split_user (u ++ b'@' ∷ rest) ≡ (some u, rest)
unfolding split_user
split_user-some u rest (at, colon, slash) =
    rw (split_user, find-append b'@' u rest at)
      (rw (is_before-find b':' b'@' u rest colon refl) (
        rw (is_before-find b'/' b'@' u rest slash refl)
          (rw (take-append_length u (b'@' ∷ rest)) rw (drop-past b'@' u rest))))

split_user-none : (s : Bytes) → is_late b'@' b':' s ≡ true → split_user s ≡ (none, s)
unfolding is_late split_user
split_user-none s h = elim (Option-cases (find b'@' s)) [
  | inl e ↦ rw (e, split_user)
  | inr (at, e) ↦ ground arith
]

parse_bracketed-print :
    (user : Option Bytes) (host path : Bytes)
    → contains b']' host ≡ false
    → is_empty host ≡ false
    → parse_bracketed user (host ++ b']' ∷ b':' ∷ path) ≡ ok (remote user host path)
unfolding parse_bracketed
parse_bracketed-print user host path h n =
    rw (parse_bracketed, find-append b']' host (b':' ∷ path) h)
      (rw (drop-past b']' host (b':' ∷ path))
        (rw (take-append_length host (b']' ∷ b':' ∷ path)) (rw (length-filled host n))))

parse_plain-print :
    (s : Bytes) (user : Option Bytes) (host path : Bytes)
    → contains b':' host ≡ false
    → contains b'/' host ≡ false
    → is_empty host ≡ false
    → parse_plain s user (host ++ b':' ∷ path) ≡ ok (remote user host path)
unfolding parse_plain
parse_plain-print s user host path h k n =
    rw (parse_plain, find-append b':' host path h)
      (rw (take-append_length host (b':' ∷ path))
        (rw k (rw (drop-past b':' host path) (rw (length-filled host n)))))

-- The host, once the user is split off.
parse_host :
    (s : Bytes) (user : Option Bytes) (host path : Bytes)
    → IsHost host
    → split_user s ≡ (user, print_host host ++ b':' ∷ path)
    → parse_cp_spec s ≡ ok (remote user host path)
unfolding parse_cp_spec
parse_host s user host path (full, at, slash, opening, closing) e =
    let name : (split_user s).0 ≡ user = ap (λ p. p.0) e in
    let rest : (split_user s).1 ≡ print_host host ++ b':' ∷ path = ap (λ p. p.1) e in
    elim (Bool-cases (contains b':' host)) [
      | inl c ↦
          rw (parse_cp_spec, rest)
            (rw c (
              rw name (
                rw (append_assoc host (b']' ∷ []) (b':' ∷ path))
                  (parse_bracketed-print user host path closing full))))
      | inr c ↦
          rw (parse_cp_spec, rest)
            (rw c (
              rw (strip_bracket host (b':' ∷ path) opening full)
                (rw name (rw rest (rw c (parse_plain-print s user host path c slash full))))))
    ]

print_host-late :
    (host path : Bytes) → IsHost host → is_late b'@' b':' (print_host host ++ b':' ∷ path) ≡ true
print_host-late host path (full, at, slash, opening, closing) =
    elim (Bool-cases (contains b':' host)) [
      | inl c ↦ rw c (
          find_late b'@' b':' (b'[' ∷ host ++ b']' ∷ []) path (contains-bracketed b'@' host at refl)
            refl)
      | inr c ↦ rw c (find_late b'@' b':' host path at refl)
    ]

-- Every host that contains no `@`, `/`, `[` or `]` and is not empty, printed in brackets when it
-- contains a `:`, and every user without `@`, `:` and `/` are read back from the spec, with any
-- path.
pub parse_cp_spec-print_spec :
    (user : Option Bytes) (host path : Bytes)
    → IsUser user
    → IsHost host
    → parse_cp_spec (print_spec user host path) ≡ ok (remote user host path)
unfolding print_spec
parse_cp_spec-print_spec none host path hu hh =
    parse_host _ none host path hh (split_user-none _ (print_host-late host path hh))
parse_cp_spec-print_spec (some u) host path hu hh =
    parse_host _ (some u) host path hh (split_user-some u (print_host host ++ b':' ∷ path) hu)
