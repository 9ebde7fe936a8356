-- ===== src/Client/KnownHosts.antt =====
-- quish-client/src/connect.rs: the pins of known_hosts, and the decision on a server's certificate.
-- The file is its bytes, `none` if it does not exist. Web PKI's answer and the terminal's are inputs.
pub mod File
pub mod Trust
mod Tests
use quish.Base.{
  ℕ, zero, suc, ◌+◌, ◌-◌, ◌*◌, ◌/◌, ◌%◌, ◌^◌, ◌≤◌, ◌<◌, min, ◌≡◌, refl, sym, ap, ◌∙◌, ◌≢◌, ◌↔◌, ◌⊎◌,
  inl, inr, Bool, true, false, not, ◌&&◌, ◌||◌, Option, none, some, List, [], ◌∷◌, ◌++◌, map,
  reverse, arith, ltb, leb, ◌==◌, if◌then◌else◌, ltb→lt, lt→ltb, ltb→ge, ge→ltb, leb→le, ==_iff,
  ==_refl, Bool-cases, Option-cases, ◌>>=◌, unwrap_or, is_some, length, get_elem?, get_or, take,
  drop, is_empty, any, all, retain, All, length-append, take-append_length, drop-append_length,
  take-append-drop, take-append_le, drop-append_le, length-take, length-drop,
}
use quish.Base.Text.{Bytes, codes, bytes_eq, split_once, trim}
use quish.Base.Text.Lines.{lines}
use quish.Base.Text.Utf8.{from_utf8}

-- `find_map` over the lines of `lookup`.
pub lookup_lines : Bytes → List Bytes → Option Bytes
lookup_lines host [] = none
lookup_lines host (line ∷ rest) = elim (split_once b' ' line) [
  | none ↦ lookup_lines host rest
  | some (h, fp) ↦ if bytes_eq h host then some (trim fp) else lookup_lines host rest
]

-- A file that cannot be read, or that is not UTF-8, has no pin.
pub lookup : Option Bytes → Bytes → Option Bytes
unfolding lookup_lines
lookup file host = file >>= λ content. from_utf8 content >>= λ text. lookup_lines host (lines text)

-- `writeln!(f, "{host} {fp}")` at the end of the file, which is made if there is none.
pub pin : Option Bytes → Bytes → Bytes → Bytes
pin file host fp = unwrap_or file [] ++ (host ++ b' ' ∷ (fp ++ 10 ∷ []))

-- Whether `remove_host_lines` drops a line.
abbrev pub is_match : Bytes → Bytes → Bool
is_match host line = elim (split_once b' ' line) [ none ↦ false | some (h, fp) ↦ bytes_eq h host ]

-- `kept.join("\n")`.
pub join_lines : List Bytes → Bytes
join_lines [] = []
join_lines (l ∷ []) = l
join_lines (l ∷ m ∷ rest) = l ++ 10 ∷ join_lines (m ∷ rest)

abbrev pub count_matches : Bytes → List Bytes → ℕ
count_matches host ls = length (retain (is_match host) ls)

-- The new body and the number of lines removed.
pub remove_host_lines : Bytes → Bytes → Bytes × ℕ
unfolding join_lines
remove_host_lines contents host =
    let body = join_lines (retain (λ l. not (is_match host l)) (lines contents)) in
    ((if is_empty body then body else body ++ 10 ∷ []), count_matches host (lines contents))

-- `remove_known_host`: the file afterwards, `none` for an error of the file system. A file without
-- the host is left alone.
pub remove_known_host : Option Bytes → Bytes → Option (Option Bytes)
unfolding remove_host_lines
remove_known_host none host = some none
remove_known_host (some content) host = from_utf8 content >>= λ text.
    let (body, removed) = remove_host_lines text host in
    if removed == 0 then some (some content) else some (some body)

-- `to_ascii_lowercase`.
abbrev pub to_ascii_lowercase : Bytes → Bytes
to_ascii_lowercase = map (λ c. if leb b'A' c && leb c b'Z' then c + 32 else c)

pub data Answer : Type 0 where
  accept abort show_fingerprint unknown : Answer

-- The `match` of `decide` on one line.
pub answer_of : Bytes → Answer
answer_of line =
    let word = to_ascii_lowercase (trim line) in
    if bytes_eq word (codes "yes") || bytes_eq word (codes "y")
    then accept
    else if bytes_eq word (codes "no") || bytes_eq word (codes "n")
    then abort
    else if bytes_eq word (codes "fingerprint")
        || bytes_eq word (codes "fp")
        || bytes_eq word (codes "f")
    then show_fingerprint
    else unknown

-- `decide` on the lines that the terminal will give; then it ends, or fails to read. A line that is
-- not UTF-8 is an error of `read_line`.
pub decide : List Bytes → Bool
decide [] = false
decide (line ∷ rest) = elim (from_utf8 line) [
  | none ↦ false
  | some text ↦ elim (answer_of text) [
    | accept ↦ true
    | abort ↦ false
    | show_fingerprint ↦ decide rest
    | unknown ↦ decide rest
  ]
]

-- `prompt_accept`: without a terminal the key is refused.
pub prompt_accept : Option (List Bytes) → Bool
unfolding decide
prompt_accept none = false
prompt_accept (some typed) = decide typed

-- What a connection brings: whether web PKI trusts the certificate, its fingerprint, the terminal,
-- and whether the file can be written.
pub record Visit : Type 0 where
  pub webpki_ok : Bool
  pub fingerprint : Bytes
  pub terminal : Option (List Bytes)
  pub writable : Bool

-- `verify_server_cert` once web PKI has refused: the pin that was found decides.
pub verify_pinned : Option Bytes → Bytes → Visit → Option Bytes → Bool × Option Bytes
unfolding prompt_accept
verify_pinned file host_key v (some pinned) = (bytes_eq pinned v.fingerprint, file)
verify_pinned file host_key v none =
    if not (prompt_accept v.terminal)
    then (false, file)
    else if v.writable
    then (true, some (pin file host_key v.fingerprint))
    else (false, file)

-- Whether the connection goes on, and the file afterwards.
pub verify_server_cert : Option Bytes → Bytes → Visit → Bool × Option Bytes
unfolding verify_pinned lookup
verify_server_cert file host_key v =
    if v.webpki_ok then (true, file) else verify_pinned file host_key v (lookup file host_key)
