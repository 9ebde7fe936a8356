-- ===== src/Client/Copy/Spec.antt =====
-- quish-client/src/cp.rs: `parse_cp_spec`.
pub mod RoundTrip
mod Tests
use quish.Base.{
  ℕ, zero, suc, ◌+◌, ◌-◌, ◌*◌, ◌/◌, ◌%◌, ◌^◌, ◌≤◌, ◌<◌, min, ◌≡◌, refl, sym, ap, ◌∙◌, ◌≢◌, ◌↔◌, ◌⊎◌,
  inl, inr, Bool, true, false, not, ◌&&◌, ◌||◌, Option, none, some, List, [], ◌∷◌, ◌++◌, map,
  reverse, arith, ltb, leb, ◌==◌, if◌then◌else◌, ltb→lt, lt→ltb, ltb→ge, ge→ltb, leb→le, ==_iff,
  ==_refl, Bool-cases, Option-cases, ◌>>=◌, unwrap_or, is_some, length, get_elem?, get_or, take,
  drop, is_empty, any, all, retain, All, length-append, take-append_length, drop-append_length,
  take-append-drop, take-append_le, drop-append_le, length-take, length-drop,
}
use quish.Base.Text.{Bytes, codes, find, contains, strip_prefix}

pub data CpSpec : Type 0 where
  local : Bytes → CpSpec
  remote : Option Bytes → Bytes → Bytes → CpSpec

pub data SpecError : Type 0 where
  unterminated empty_host expected_colon : SpecError

pub data Parsed : Type 0 where
  ok : CpSpec → Parsed
  err : SpecError → Parsed

-- `o.is_none_or(|c| at < c)`.
abbrev pub is_before : ℕ → Option ℕ → Bool
is_before at none = true
is_before at (some c) = ltb at c

-- The candidate `user@`, and the rest.
pub split_user : Bytes → Option Bytes × Bytes
split_user s = elim (find b'@' s) [
  | none ↦ (none, s)
  | some at ↦
      if is_before at (find b':' s) && is_before at (find b'/' s)
      then (some (take at s), drop (at + 1) s)
      else (none, s)
]

-- After the `[` of a bracketed host.
pub parse_bracketed : Option Bytes → Bytes → Parsed
parse_bracketed user after = elim (find b']' after) [
  | none ↦ err unterminated
  | some close ↦
      if close == 0
      then err empty_host
      else elim (strip_prefix (codes ":") (drop (close + 1) after)) [
        | none ↦ err expected_colon
        | some path ↦ ok (remote user (take close after) path)
      ]
]

-- `s` is the whole spec, `rest` what follows the user.
pub parse_plain : Bytes → Option Bytes → Bytes → Parsed
parse_plain s user rest = elim (find b':' rest) [
  | none ↦ ok (local s)
  | some colon ↦
      if contains b'/' (take colon rest)
      then ok (local s)
      else if colon == 0
      then err empty_host
      else ok (remote user (take colon rest) (drop (colon + 1) rest))
]

pub parse_cp_spec : Bytes → Parsed
unfolding split_user parse_bracketed parse_plain
parse_cp_spec s =
    let (user, rest) = split_user s in
    elim (strip_prefix (codes "[") rest) [
      | some after ↦ parse_bracketed user after
      | none ↦ parse_plain s user rest
    ]
