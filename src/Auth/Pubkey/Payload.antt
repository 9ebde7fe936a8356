-- ===== src/Auth/Pubkey/Payload.antt =====
-- The bytes that a token signs determine the binding, the name and the time.
use quish.Base.{
  ℕ, ◌+◌, ◌*◌, ◌^◌, ◌<◌, ◌≡◌, refl, sym, ap, ◌∙◌, [], ◌∷◌, ◌++◌, arith, length, length-append,
}
use quish.Base.Text.{Bytes}
use quish.Auth.Pubkey.{token_domain, to_le_bytes, signing_payload}

append_injective :
    (xs ys us vs : Bytes) → length xs ≡ length us → xs ++ ys ≡ us ++ vs → (xs ≡ us) × (ys ≡ vs)
append_injective [] ys [] vs h e = (refl, e)
append_injective [] ys (u ∷ us) vs h e = absurd (omega arith)
append_injective (x ∷ xs) ys [] vs h e = absurd (omega arith)
append_injective (x ∷ xs) ys (u ∷ us) vs h e =
    let (p, q) = append_injective xs ys us vs (omega arith) (ground arith) in (ground arith, q)

-- Two byte strings with tails of equal length.
append_injective_tail :
    (xs ys us vs : Bytes) → length ys ≡ length vs → xs ++ ys ≡ us ++ vs → (xs ≡ us) × (ys ≡ vs)
append_injective_tail xs ys us vs h e =
    append_injective xs ys us vs
      (omega (arith, ap length e, length-append xs ys, length-append us vs)) e

from_le_bytes : Bytes → ℕ
from_le_bytes [] = 0
from_le_bytes (b ∷ bs) = b + 256 * from_le_bytes bs

from_le_bytes-to_le_bytes : (n : ℕ) → n < 2 ^ 64 → from_le_bytes (to_le_bytes n) ≡ n
unfolding from_le_bytes to_le_bytes
from_le_bytes-to_le_bytes n h = omega arith

to_le_bytes_injective : (m n : ℕ) → m < 2 ^ 64 → n < 2 ^ 64 → to_le_bytes m ≡ to_le_bytes n → m ≡ n
to_le_bytes_injective m n hm hn e =
    sym (from_le_bytes-to_le_bytes m hm) ∙ ap from_le_bytes e ∙ from_le_bytes-to_le_bytes n hn

-- For channel bindings of 32 bytes and times below 2 ^ 64, the bytes to be signed determine the
-- binding, the name and the time.
pub signing_payload_injective :
    (b c u v : Bytes) (s t : ℕ)
    → length b ≡ 32
    → length c ≡ 32
    → s < 2 ^ 64
    → t < 2 ^ 64
    → signing_payload b u s ≡ signing_payload c v t
    → (b ≡ c) × (u ≡ v) × (s ≡ t)
unfolding signing_payload
signing_payload_injective b c u v s t hb hc hs ht e =
    let (_, e₁) =
      append_injective token_domain (b ++ (u ++ to_le_bytes s)) token_domain
        (c ++ (v ++ to_le_bytes t)) refl e in
    let (bc, e₂) =
      append_injective b (u ++ to_le_bytes s) c (v ++ to_le_bytes t) (omega arith) e₁ in
    let (uv, e₃) =
      append_injective_tail u (to_le_bytes s) v (to_le_bytes t) (unfold to_le_bytes in refl) e₂ in
    (bc, uv, to_le_bytes_injective s t hs ht e₃)
