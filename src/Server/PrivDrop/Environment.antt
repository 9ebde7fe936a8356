-- ===== src/Server/PrivDrop/Environment.antt =====
-- The environment of the user's shell.
-- `getenv`: the value of the first entry with this name.
use quish.Base.{
  ℕ, ◌≡◌, refl, sym, ap, inl, inr, true, false, Option, none, some, List, [], ◌∷◌, ◌++◌, map, arith,
  ◌==◌, Bool-cases, Option-cases, any, All,
}
use quish.Base.Text.{Bytes, codes, contains, strip_prefix, split_once, bytes_eq}
use quish.Auth.Types.{Base64}
use quish.Server.PamEnv.{records_of, split_lines, decode_blob, decode_pam_env}
use quish.Server.PrivDrop.Session.{helper_keys, helper_env, entry, pam_entries, pam_env, envp_of}
use mathlib.Core.Option.{some-injective}
use quish.Base.Text.Laws.{bytes_eq→eq}

abbrev pub getenv : Bytes → List Bytes → Option Bytes
getenv key [] = none
getenv key (e ∷ es) = elim (strip_prefix (key ++ b'=' ∷ []) e) [
  | none ↦ getenv key es
  | some v ↦ some v
]

split_once_before :
    (c : ℕ) (s : Bytes) {l r : Bytes} → split_once c s ≡ some (l, r) → contains c l ≡ false
split_once_before c [] h = absurd (cc)
split_once_before c (b ∷ s) h = elim (Bool-cases (b == c)) [
  | inl e ↦ let front = ap (λ p. p.0) (some-injective _ _ (rw e at h)) in rw (sym front) refl
  | inr e ↦ elim (Option-cases (split_once c s)) [
    | inl e' ↦ absurd (cc (rw (e, e') at h))
    | inr (p, e') ↦
        let front = ap (λ p. p.0) (some-injective _ _ (rw (e, e') at h)) in
        rw (sym front) (rw e (split_once_before c s e'))
  ]
]

-- No name of an entry with another name is read.
entry_skipped :
    (key k v : Bytes)
    → bytes_eq k key ≡ false
    → contains b'=' k ≡ false
    → contains b'=' key ≡ false
    → strip_prefix (key ++ b'=' ∷ []) (entry (k, v)) ≡ none
entry_skipped [] [] v n h h' = absurd (cc)
entry_skipped [] (b ∷ k) v n h h' = ground (arith, h)
entry_skipped (a ∷ key) [] v n h h' = ground (arith, h')
entry_skipped (a ∷ key) (b ∷ k) v n h h' = ground (arith, n, h, h', entry_skipped key k v)

records_of-All : (lines : List Bytes) → All (λ p. contains b'=' p.0 ≡ false) (records_of lines)
unfolding records_of
records_of-All [] = tt
records_of-All (line ∷ lines) = elim (Option-cases (split_once b'=' line)) [
  | inl e ↦ rw (records_of, e) (records_of-All lines)
  | inr (p, e) ↦ rw (records_of, e) (split_once_before b'=' line e, records_of-All lines)
]

decode_pam_env-All :
    (base64 : Base64) (encoded : Bytes)
    → All (λ p. contains b'=' p.0 ≡ false) (decode_pam_env base64 encoded)
unfolding decode_pam_env decode_blob
decode_pam_env-All base64 encoded = elim (Option-cases (base64.decode encoded)) [
  | inl e ↦ rw (decode_pam_env, e) tt
  | inr (blob, e) ↦
      rw (decode_pam_env, decode_blob, e)
        (records_of-All ((split_lines blob).0 ∷ (split_lines blob).1))
]

pam_env-All :
    (base64 : Base64) (encoded : Option Bytes)
    → All (λ p. contains b'=' p.0 ≡ false) (pam_env base64 encoded)
pam_env-All base64 none = tt
pam_env-All base64 (some encoded) = decode_pam_env-All base64 encoded

-- The names of the helper have no `=`, and PAM's entries do not use them.
differs :
    (key k : Bytes) (keys : List Bytes)
    → any (λ hk. bytes_eq key hk) keys ≡ true
    → any (λ hk. bytes_eq k hk) keys ≡ false
    → bytes_eq k key ≡ false
differs key k keys h n = elim (Bool-cases (bytes_eq k key)) [
  | inl e ↦
      let same = ap (λ x. any (λ hk. bytes_eq x hk) keys) (bytes_eq→eq k key e) in
      absurd (cc (n, same, h))
  | inr e ↦ e
]

getenv-pam_entries :
    (key : Bytes) (env : List (Bytes × Bytes)) (own : List Bytes)
    → any (λ hk. bytes_eq key hk) helper_keys ≡ true
    → contains b'=' key ≡ false
    → All (λ p. contains b'=' p.0 ≡ false) env
    → getenv key (pam_entries env ++ own) ≡ getenv key own
unfolding pam_entries
getenv-pam_entries key [] own m n h = refl
getenv-pam_entries key ((k, v) ∷ env) own m n (h, hs) =
    let rest = getenv-pam_entries key env own m n hs in
    elim (Bool-cases (any (λ hk. bytes_eq k hk) helper_keys)) [
      | inl e ↦ rw (pam_entries, e) rest
      | inr e ↦ elim (Bool-cases (contains 0 (entry (k, v)))) [
        | inl e' ↦ rw (pam_entries, e, e') rest
        | inr e' ↦
            rw (pam_entries, e, e')
              (rw (getenv, entry_skipped key k v (differs key k helper_keys m e) h n) rest)
      ]
    ]

-- Whatever PAM has put into the session's environment, the shell reads the helper's values of
-- HOME, USER, LOGNAME, SHELL, TERM and PATH: no entry of PAM has one of these names.
pub getenv-envp_of :
    (base64 : Base64) (encoded : Option Bytes) (home user shell term : Bytes) {envp : List Bytes}
    → envp_of base64 encoded (helper_env home user shell term) ≡ some envp
    → All (λ p. getenv p.0 envp ≡ some p.1) (helper_env home user shell term)
unfolding envp_of
getenv-envp_of base64 encoded home user shell term h =
    elim (Bool-cases (any (contains 0) (map entry (helper_env home user shell term)))) [
      | inl e ↦ absurd (cc (rw e at h))
      | inr e ↦
          let same = some-injective _ _ (rw e at h) in
          let passed =
            λ (key : Bytes) (m : any (λ hk. bytes_eq key hk) helper_keys ≡ true)
                (n : contains b'=' key ≡ false).
              getenv-pam_entries key (pam_env base64 encoded)
                (map entry (helper_env home user shell term)) m n (pam_env-All base64 encoded) in
          rw (sym same) (
            passed (codes "HOME") refl refl,
            (
              passed (codes "USER") refl refl,
              (
                passed (codes "LOGNAME") refl refl,
                (
                  passed (codes "SHELL") refl refl,
                  (passed (codes "TERM") refl refl, (passed (codes "PATH") refl refl, tt)),
                ),
              ),
            ),
          )
    ]
