-- ===== src/Server/SignProxy/Framing.antt =====
-- The frames of the signing socket.
use quish.Base.{
  ℕ, zero, suc, ◌≤◌, ◌≡◌, refl, sym, ap, inl, inr, Bool, false, some, List, [], ◌∷◌, ◌++◌, arith,
  ltb, ltb→ge, ge→ltb, Bool-cases, Option-cases, length, take, drop, length-append,
  take-append_length, drop-append_length, take-append_le, drop-append_le,
}
use quish.Base.Text.{Bytes}
use quish.Proto.Frame.{Codec, to_be_bytes, from_be_bytes}
use quish.Proto.Frame.Split.{from_be_bytes-to_be_bytes}
use mathlib.Core.Option.{some-injective}
use mathlib.Core.List.{append_assoc}
use quish.Server.SignProxy.{ipc_cap, sign_write, message, read_body, sign_read}

take_less : {A : Type 0} (n : ℕ) (xs ys : List A) → n ≤ length xs → length (take n xs) ≡ n
take_less zero xs ys h = refl
take_less (suc n) [] ys h = absurd (omega arith)
take_less (suc n) (x ∷ xs) ys h = omega (arith, take_less n xs ys (omega arith))

prefixed :
    (n : ℕ) (xs : Bytes)
    → (take 4 (to_be_bytes n ++ xs) ≡ to_be_bytes n)
      × (drop 4 (to_be_bytes n ++ xs) ≡ xs)
      × (ltb (length (to_be_bytes n ++ xs)) 4 ≡ false)
unfolding to_be_bytes
prefixed n xs = (refl, refl, ge→ltb _ 4 (omega arith))

module _ {T : Type 0} (codec : Codec T) where
  body_read :
      (msg : T) (bytes more : Bytes)
      → codec.to_stdvec msg ≡ some bytes
      → ltb ipc_cap (length bytes) ≡ false
      → read_body codec (length bytes) (bytes ++ more) ≡ (message msg, more)
  unfolding read_body
  body_read msg bytes more e small =
      let enough =
        ge→ltb (length (bytes ++ more)) (length bytes) (omega (arith, length-append bytes more)) in
      rw
        (
          read_body,
          small,
          enough,
          take-append_length bytes more,
          drop-append_length bytes more,
          codec.from_to msg bytes e,
        )
        refl

  -- What was written is read back, and the bytes after it stay.
  pub sign_read-sign_write :
      (msg : T) (more : Bytes) (closed : Bool) {frame : Bytes}
      → sign_write codec msg ≡ some frame
      → sign_read codec (frame ++ more) closed ≡ (message msg, more)
  unfolding sign_write sign_read
  sign_read-sign_write msg more closed h = elim (Option-cases (codec.to_stdvec msg)) [
    | inl e ↦ absurd (cc (rw (sign_write, e) at h))
    | inr (bytes, e) ↦ elim (Bool-cases (ltb ipc_cap (length bytes))) [
      | inl e' ↦ absurd (cc (rw (sign_write, e, e') at h))
      | inr e' ↦
          let (front, back, long) = prefixed (length bytes) (bytes ++ more) in
          let n =
            from_be_bytes-to_be_bytes (length bytes)
              (omega (arith, ltb→ge ipc_cap (length bytes) e')) in
          rw (sym (some-injective _ _ (rw (sign_write, e, e') at h))) (
            rw (append_assoc (to_be_bytes (length bytes)) bytes more)
              (rw (sign_read, front, back, long, n) (body_read msg bytes more e e')))
    ]
  ]

  body_append :
      (n : ℕ) (bytes more : Bytes) {msg : T} {rest : Bytes}
      → read_body codec n bytes ≡ (message msg, rest)
      → read_body codec n (bytes ++ more) ≡ (message msg, rest ++ more)
  unfolding read_body
  body_append n bytes more h = elim (Bool-cases (ltb ipc_cap n)) [
    | inl e ↦ absurd (cc (rw (read_body, e) at h))
    | inr e ↦ elim (Bool-cases (ltb (length bytes) n)) [
      | inl e' ↦ absurd (cc (rw (read_body, e, e') at h))
      | inr e' ↦
          let fits = ltb→ge (length bytes) n e' in
          let fits' =
            ge→ltb (length (bytes ++ more)) n (omega (arith, length-append bytes more, fits)) in
          let parsed = rw (read_body, e, e') at h in
          rw
            (
              read_body,
              e,
              fits',
              take-append_le n bytes more fits,
              drop-append_le n bytes more fits,
            )
            (ap (λ r. (r.0, r.1 ++ more)) parsed)
    ]
  ]

  -- A message that was read is read from longer input too.
  pub sign_read-append :
      (bytes more : Bytes) (closed closed' : Bool) {msg : T} {rest : Bytes}
      → sign_read codec bytes closed ≡ (message msg, rest)
      → sign_read codec (bytes ++ more) closed' ≡ (message msg, rest ++ more)
  unfolding sign_read
  sign_read-append bytes more closed closed' h = elim (Bool-cases (ltb (length bytes) 4)) [
    | inl e ↦ elim (Bool-cases closed) [
      | inl e' ↦ absurd (cc (rw (sign_read, e, e') at h))
      | inr e' ↦ absurd (cc (rw (sign_read, e, e') at h))
    ]
    | inr e ↦
        let fits = ltb→ge (length bytes) 4 e in
        let fits' =
          ge→ltb (length (bytes ++ more)) 4 (omega (arith, length-append bytes more, fits)) in
        rw (sign_read, fits', take-append_le 4 bytes more fits, drop-append_le 4 bytes more fits)
          (body_append (from_be_bytes (take 4 bytes)) (drop 4 bytes) more (rw (sign_read, e) at h))
  ]
