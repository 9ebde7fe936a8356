-- ===== src/Proto/Frame.antt =====
-- quish-proto/src/lib.rs: frames with a length prefix, `[len: u32 big-endian][postcard body]`.
-- The postcard crate is a parameter: a `Codec` for each type of message.
pub mod RoundTrip
pub mod Split
mod Tests
use quish.Base.{
  ℕ, ◌+◌, ◌*◌, ◌/◌, ◌%◌, ◌^◌, ◌<◌, ◌≡◌, List, [], ◌∷◌, ◌++◌, Option, none, some, ltb, if◌then◌else◌,
  length, take, drop, All,
}
use quish.Base.Text.{Bytes}
use mathlib.Core.List.{foldl}

-- `MAX_FRAME_LEN` and `LEN_PREFIX`.
abbrev pub max_frame_len : ℕ
max_frame_len = 64 * 1024

abbrev pub len_prefix : ℕ
len_prefix = 4

-- `CodecError`.
pub data CodecError : Type 0 where
  too_large : ℕ → CodecError
  postcard : CodecError

pub data Result {ℓ} (A : Type ℓ) : Type ℓ where
  ok : A → Result A
  err : CodecError → Result A

infixl 5 ◌>>=◌
abbrev pub ◌>>=◌ {ℓ κ} : {A : Type ℓ} {B : Type κ} → Result A → (A → Result B) → Result B
ok a >>= f = f a
err e >>= f = err e

-- What the code uses of postcard for one type. `none` stands for an error of the crate.
-- `from_to` is the documented round trip.
pub record Codec (T : Type 0) : Type 0 where
  pub to_stdvec : T → Option Bytes
  pub from_bytes : Bytes → Option T
  pub from_to : (m : T) (b : Bytes) → to_stdvec m ≡ some b → from_bytes b ≡ some m

-- `u32::to_be_bytes` and `u32::from_be_bytes`.
unfoldable pub to_be_bytes : ℕ → Bytes
to_be_bytes n = n / 2 ^ 24 % 256 ∷ n / 2 ^ 16 % 256 ∷ n / 2 ^ 8 % 256 ∷ n % 256 ∷ []

unfoldable pub from_be_bytes : Bytes → ℕ
from_be_bytes = foldl (λ acc b. acc * 256 + b) 0

-- `postcard::Error` becomes `CodecError::Postcard` at a `?`.
abbrev or_postcard {ℓ} : {A : Type ℓ} → Option A → Result A
or_postcard none = err postcard
or_postcard (some a) = ok a

-- `body.len() as u32` is taken modulo 2 ^ 32.
unfoldable pub encode : {T : Type 0} → Codec T → T → Result Bytes
encode c msg = do
  body ← or_postcard (c.to_stdvec msg)
  if ltb max_frame_len (length body)
      then err (too_large (length body))
      else ok (to_be_bytes (length body % 2 ^ 32) ++ body)

pub decode : {T : Type 0} → Codec T → Bytes → Result T
decode c body = or_postcard (c.from_bytes body)

unfoldable pub parse_len : Bytes → Result ℕ
parse_len prefix =
    let len = from_be_bytes prefix in if ltb max_frame_len len then err (too_large len) else ok len

-- `take_frame(&mut buf)`: the result, and what `buf` holds afterwards.
unfoldable pub take_frame : Bytes → Result (Option Bytes) × Bytes
take_frame buf =
    if ltb (length buf) len_prefix then (ok none, buf) else elim (parse_len (take len_prefix buf)) [
      | err e ↦ (err e, buf)
      | ok len ↦ if ltb (length buf) (len_prefix + len) then (ok none, buf) else (
        ok (some (drop len_prefix (take (len_prefix + len) buf))),
        drop (len_prefix + len) buf,
      )
    ]
