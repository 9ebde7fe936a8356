-- ===== src/Client/KnownHosts/Trust.antt =====
-- Trust on first use: what a client promises about the keys of hosts, and that the file keeps it.
use quish.Base.{
  ◌≡◌, refl, ap, ◌∙◌, inl, inr, Bool, true, false, not, ◌&&◌, Option, none, some, List, [], ◌∷◌,
  ◌++◌, if◌then◌else◌, Bool-cases, unwrap_or, retain, All,
}
use quish.Base.Text.{Bytes, bytes_eq}
use quish.Base.Text.Laws.{IsGraphic, bytes_eq→eq}
use quish.Client.KnownHosts.{
  lookup, lookup_lines, pin, Visit, is_match, prompt_accept, verify_pinned, verify_server_cert,
  remove_known_host,
}
use quish.Client.KnownHosts.File.{
  Holds, lookup-Holds, pin-Holds, remove_known_host-Holds, record_of, or_else, lookup_lines-append,
  lookup_lines-retain,
}

pub data Event : Type 0 where
  visits : Bytes → Visit → Event
  removes : Bytes → Event

-- Names and fingerprints are visible ASCII, as `host:port` and hexadecimal digits are.
abbrev pub IsProper : Event → Type 0
IsProper (visits host v) = All IsGraphic host × All IsGraphic v.fingerprint
IsProper (removes host) = Unit {0}

-- What the user relies on: the key that a host was first accepted with.
abbrev pub Known : Type 0
Known = Bytes → Option Bytes

abbrev learn : Bytes → Option Bytes → Known → Known
learn host fp known x = if bytes_eq host x then fp else known x

-- The specification of a connection: web PKI, else the known key, else the user decides and the
-- key is known from then on.
pub trusts_known : Bytes → Visit → Known → Option Bytes → Bool × Known
trusts_known host v known (some fp) = (bytes_eq fp v.fingerprint, known)
trusts_known host v known none =
    if prompt_accept v.terminal && v.writable
    then (true, learn host (some v.fingerprint) known)
    else (false, known)

pub trusts : Bytes → Visit → Known → Bool × Known
unfolding trusts_known
trusts host v known = if v.webpki_ok then (true, known) else trusts_known host v known (known host)

-- A run of the specification: the decisions, and what is known afterwards.
pub replay : List Event → Known → List Bool × Known
replay [] known = ([], known)
replay (visits host v ∷ es) known =
    let (ok, known') = trusts host v known in let (oks, last) = replay es known' in (ok ∷ oks, last)
replay (removes host ∷ es) known = replay es (learn host none known)

-- The same run of the program on its file.
pub run : List Event → Option Bytes → List Bool × Option Bytes
run [] file = ([], file)
run (visits host v ∷ es) file =
    let (ok, file') = verify_server_cert file host v in
    let (oks, last) = run es file' in (ok ∷ oks, last)
run (removes host ∷ es) file = run es (unwrap_or (remove_known_host file host) file)

-- The file holds lines that say what is known.
abbrev Says : Option Bytes → Known → Type 0
Says file known = (ls : List Bytes) × Holds file ls × ((x : Bytes) → lookup_lines x ls ≡ known x)

or_else-none : (o : Option Bytes) → or_else o none ≡ o
or_else-none none = refl
or_else-none (some p) = refl

pin-Says :
    (file : Option Bytes) (known : Known) (host fp : Bytes)
    → All IsGraphic host
    → All IsGraphic fp
    → known host ≡ none
    → Says file known
    → Says (some (pin file host fp)) (learn host (some fp) known)
pin-Says file known host fp g k unknown (ls, holds, says) = (
  ls ++ record_of host fp ∷ [],
  pin-Holds file ls host fp g k holds,
  λ x. elim (Bool-cases (bytes_eq host x)) [
    | inl e ↦
        lookup_lines-append x host fp ls g k
        ∙ rw e (rw (says x) (rw (← bytes_eq→eq host x e) (rw unknown refl)))
    | inr e ↦ lookup_lines-append x host fp ls g k ∙ rw e (or_else-none _ ∙ says x)
  ],
)

verify_pinned-Says :
    (file : Option Bytes) (known : Known) (host : Bytes) (v : Visit) (o : Option Bytes)
    → All IsGraphic host
    → All IsGraphic v.fingerprint
    → known host ≡ o
    → Says file known
    → ((verify_pinned file host v o).0 ≡ (trusts_known host v known o).0)
      × Says (verify_pinned file host v o).1 (trusts_known host v known o).1
unfolding verify_pinned trusts_known
verify_pinned-Says file known host v (some fp) g k e s = (refl, s)
verify_pinned-Says file known host v none g k e s = elim (Bool-cases (prompt_accept v.terminal)) [
  | inl agreed ↦ rw agreed (elim (Bool-cases v.writable) [
    | inl w ↦ rw w (refl, pin-Says file known host v.fingerprint g k e s)
    | inr w ↦ rw w (refl, s)
  ])
  | inr refused ↦ rw refused (refl, s)
]

verify_server_cert-Says :
    (file : Option Bytes) (known : Known) (host : Bytes) (v : Visit)
    → All IsGraphic host
    → All IsGraphic v.fingerprint
    → Says file known
    → ((verify_server_cert file host v).0 ≡ (trusts host v known).0)
      × Says (verify_server_cert file host v).1 (trusts host v known).1
unfolding verify_server_cert trusts
verify_server_cert-Says file known host v g k (ls, holds, says) =
    let found : lookup file host ≡ known host = lookup-Holds file ls host holds ∙ says host in
    elim (Bool-cases v.webpki_ok) [
      | inl e ↦ rw e (refl, (ls, holds, says))
      | inr e ↦
          rw e (
            rw found (verify_pinned-Says file known host v (known host) g k refl (ls, holds, says)))
    ]

remove_known_host-Says :
    (file : Option Bytes) (known : Known) (host : Bytes)
    → Says file known
    → Says (unwrap_or (remove_known_host file host) file) (learn host none known)
remove_known_host-Says file known host (ls, holds, says) =
    let (after, e, kept) = remove_known_host-Holds file ls host holds in
    (
      retain (λ l. not (is_match host l)) ls,
      rw e kept,
      λ x. lookup_lines-retain x host ls ∙ ap (λ o. if bytes_eq host x then none else o) (says x),
    )

run-Says :
    (es : List Event) (file : Option Bytes) (known : Known)
    → All IsProper es
    → Says file known
    → ((run es file).0 ≡ (replay es known).0) × Says (run es file).1 (replay es known).1
unfolding run replay
run-Says [] file known p s = (refl, s)
run-Says (visits host v ∷ es) file known p s =
    let (same, says) = verify_server_cert-Says file known host v p.0.0 p.0.1 s in
    let (rest, last) = run-Says es _ _ p.1 says in
    (rw same (ap (λ t. (trusts host v known).0 ∷ t) rest), last)
run-Says (removes host ∷ es) file known p s =
    run-Says es _ _ p.1 (remove_known_host-Says file known host s)

-- From no file at all, any sequence of connections and removals decides exactly as the user's
-- memory of first keys would, and the file then answers each lookup from that memory.
pub run_refines :
    (es : List Event)
    → All IsProper es
    → ((run es none).0 ≡ (replay es (λ x. none)).0)
      × ((x : Bytes) → lookup (run es none).1 x ≡ (replay es (λ x. none)).1 x)
run_refines es p =
    let (same, (ls, holds, says)) =
      run-Says es none (λ x. none) p ([], refl, λ x. unfold lookup_lines in refl) in
    (same, λ x. lookup-Holds (run es none).1 ls x holds ∙ says x)
