-- ===== src/Client/Copy/Paths.antt =====
-- quish-client/src/cp.rs: where a copy lands, `resolve_local_dst`, `resolve_remote_dst` and
-- `remote_basename`. A path is its bytes.
mod Tests
use quish.Base.{
  ℕ, zero, suc, ◌+◌, ◌-◌, ◌*◌, ◌/◌, ◌%◌, ◌^◌, ◌≤◌, ◌<◌, min, ◌≡◌, refl, sym, ap, ◌∙◌, ◌≢◌, ◌↔◌, ◌⊎◌,
  inl, inr, Bool, true, false, not, ◌&&◌, ◌||◌, Option, none, some, List, [], ◌∷◌, ◌++◌, map,
  reverse, arith, ltb, leb, ◌==◌, if◌then◌else◌, ltb→lt, lt→ltb, ltb→ge, ge→ltb, leb→le, ==_iff,
  ==_refl, Bool-cases, Option-cases, ◌>>=◌, unwrap_or, is_some, length, get_elem?, get_or, take,
  drop, is_empty, any, all, retain, All, length-append, take-append_length, drop-append_length,
  take-append-drop, take-append_le, drop-append_le, length-take, length-drop,
}
use quish.Base.Text.{Bytes, codes, bytes_eq, contains}
use quish.Base.Text.Laws.{bytes_eq→eq}

-- `s.rsplit('/').next()`: what follows the last `/`.
pub last_segment : Bytes → Bytes
last_segment [] = []
last_segment (c ∷ s) =
    let rest = last_segment s in if contains b'/' s then rest else if c == b'/' then s else c ∷ s

-- `s.ends_with('/')`.
pub ends_with_slash : Bytes → Bool
ends_with_slash [] = false
ends_with_slash (c ∷ []) = c == b'/'
ends_with_slash (c ∷ d ∷ s) = ends_with_slash (d ∷ s)

-- `Path::join`: an absolute path replaces the base.
pub join : Bytes → Bytes → Bytes
unfolding ends_with_slash
join base path =
    if bytes_eq (take 1 path) (codes "/")
    then path
    else if is_empty base || ends_with_slash base
    then base ++ path
    else base ++ b'/' ∷ path

unfoldable pub remote_basename : Bytes → Option Bytes
unfolding last_segment
remote_basename remote = if is_empty (last_segment remote) then none else some (last_segment remote)

-- `none` is the error.
pub resolve_local_dst : Bytes → Bool → Bytes → Option Bytes
unfolding remote_basename ends_with_slash join
resolve_local_dst dst dst_is_dir remote =
    if dst_is_dir || ends_with_slash dst
    then (remote_basename remote >>= λ base. some (join dst base))
    else some dst

unfoldable pub resolve_remote_dst : Bytes → Bytes → Bytes
unfolding ends_with_slash
resolve_remote_dst dst src_name =
    if is_empty dst
    then src_name
    else if ends_with_slash dst
    then dst ++ src_name
    else if bytes_eq dst (codes ".") || bytes_eq dst (codes "..")
    then dst ++ b'/' ∷ src_name
    else dst

-- No `/` is left in the last segment.
last_segment_slash : (s : Bytes) → contains b'/' (last_segment s) ≡ false
unfolding last_segment
last_segment_slash [] = refl
last_segment_slash (c ∷ s) = ground (arith, last_segment_slash s)

is_empty→nil : (s : Bytes) → is_empty s ≡ true → s ≡ []
is_empty→nil [] e = refl
is_empty→nil (c ∷ s) e = absurd (cc)

-- A download into a directory either is an error, when the remote path ends in `/` or is empty,
-- or lands under a name that is not empty and has no `/`, whatever the remote path.
pub resolve_local_dst-inside :
    (dst remote : Bytes)
    → ((resolve_local_dst dst true remote ≡ none) × (last_segment remote ≡ []))
      ⊎ ((base : Bytes) × (is_empty base ≡ false)
          × (contains b'/' base ≡ false)
          × (resolve_local_dst dst true remote ≡ some (join dst base)))
unfolding resolve_local_dst
resolve_local_dst-inside dst remote = elim (Bool-cases (is_empty (last_segment remote))) [
  | inl e ↦ inl (rw (resolve_local_dst, e), is_empty→nil (last_segment remote) e)
  | inr e ↦ inr (last_segment remote, e, last_segment_slash remote, rw (resolve_local_dst, e))
]
