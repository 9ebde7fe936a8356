-- ===== src/Client/ForwardSpec/Tokens.antt =====
-- quish-client/src/main.rs: what `split_forward_tokens` makes of a spec.
use mathlib.Core.List.{append_assoc}
use quish.Base.{
  ℕ, zero, suc, ◌<◌, ◌≡◌, refl, ap, ◌∙◌, ◌≢◌, ◌⊎◌, inl, inr, false, Option, none, some, List, [],
  ◌∷◌, ◌++◌, arith, ◌==◌, if◌then◌else◌, Bool-cases, Option-cases, length, is_empty, All,
  length-append,
}
use quish.Base.Text.{Bytes, codes, contains, strip_prefix, split_once}
use quish.Base.Text.Laws.{split_once-append}
use quish.Client.Target.RoundTrip.{split_once_absent}
use quish.Client.ForwardSpec.{ForwardError, no_fuel, push, split_loop, split_forward_tokens}

-- What is left after a separator is shorter.
abbrev LeftBelow : ℕ → Option (Bytes × Bytes) → Type 0
LeftBelow n none = Unit {0}
LeftBelow n (some (l, r)) = length r < n

abbrev RestBelow : ℕ → Option Bytes → Type 0
RestBelow n none = Unit {0}
RestBelow n (some r) = length r < n

below_suc : (n : ℕ) → n < suc n
below_suc n = omega arith

LeftBelow-suc :
    (b n : ℕ) (o : Option (Bytes × Bytes))
    → LeftBelow n o
    → LeftBelow (suc n) (elim o [ none ↦ none | some (l, r) ↦ some (b ∷ l, r) ])
LeftBelow-suc b n none h = tt
LeftBelow-suc b n (some (l, r)) h = omega arith

split_once_shorter : (c : ℕ) (s : Bytes) → LeftBelow (length s) (split_once c s)
split_once_shorter c [] = tt
split_once_shorter c (b ∷ s) = elim (Bool-cases (b == c)) [
  | inl e ↦ rw e (below_suc (length s))
  | inr e ↦ rw e (LeftBelow-suc b (length s) (split_once c s) (split_once_shorter c s))
]

strip_prefix_shorter : (p : ℕ) (s : Bytes) → RestBelow (length s) (strip_prefix (p ∷ []) s)
strip_prefix_shorter p [] = tt
strip_prefix_shorter p (b ∷ s) = elim (Bool-cases (p == b)) [
  | inl e ↦ rw e (below_suc (length s))
  | inr e ↦ rw e tt
]

push_fueled :
    (token : Bytes) (r : ForwardError ⊎ List Bytes) → r ≢ inl no_fuel → push token r ≢ inl no_fuel
push_fueled token (inl e) h = h
push_fueled token (inr ts) h = cc

split_loop_ends : (fuel : ℕ) (s : Bytes) → length s < fuel → split_loop fuel s ≢ inl no_fuel
unfolding split_loop
split_loop_ends zero s h = absurd (omega arith)
split_loop_ends (suc fuel) s h = elim (Option-cases (strip_prefix (codes "[") s)) [
  | inl e ↦ elim (Option-cases (split_once b':' s)) [
    | inl f ↦ rw (split_loop, e) (rw f cc)
    | inr ((token, r), f) ↦
        let shorter : length r < length s = rw f at (split_once_shorter b':' s) in
        rw (split_loop, e)
          (rw f (push_fueled token (split_loop fuel r) (split_loop_ends fuel r (omega arith))))
  ]
  | inr (inner, e) ↦
      let inside : length inner < length s = rw e at (strip_prefix_shorter b'[' s) in
      elim (Option-cases (split_once b']' inner)) [
        | inl f ↦ rw (split_loop, e) (rw f cc)
        | inr ((addr, after), f) ↦
            let beyond : length after < length inner = rw f at (split_once_shorter b']' inner) in
            elim (Option-cases (strip_prefix (codes ":") after)) [
              | inl g ↦ elim (Bool-cases (is_empty after)) [
                | inl d ↦ rw (split_loop, e) (rw f (rw g (rw d cc)))
                | inr d ↦ rw (split_loop, e) (rw f (rw g (rw d cc)))
              ]
              | inr (r, g) ↦
                  let shorter : length r < length after =
                    rw g at (strip_prefix_shorter b':' after) in
                  rw (split_loop, e)
                    (rw f (
                      rw g (
                        push_fueled addr (split_loop fuel r)
                          (split_loop_ends fuel r (omega arith)))))
            ]
      ]
]

-- The splitting comes to its end, whatever the text: each round is left with less of it.
pub split_forward_tokens_ends : (s : Bytes) → split_forward_tokens s ≢ inl no_fuel
unfolding split_forward_tokens
split_forward_tokens_ends s = split_loop_ends (suc (length s)) s (omega arith)

-- A token in brackets when it contains a `:`.
abbrev pub IsToken : Bytes → Type 0
IsToken t = (contains b'[' t ≡ false) × (contains b']' t ≡ false)

abbrev pub print_token : Bytes → Bytes
print_token t = if contains b':' t then b'[' ∷ (t ++ b']' ∷ []) else t

-- The first token and the others.
pub print_tokens : Bytes → List Bytes → Bytes
print_tokens t [] = print_token t
print_tokens t (u ∷ us) = print_token t ++ b':' ∷ print_tokens u us

no_bracket : (t : Bytes) → contains b'[' t ≡ false → strip_prefix (codes "[") t ≡ none
no_bracket [] h = refl
no_bracket (c ∷ t) h = ground arith

no_bracket_colon :
    (t rest : Bytes) → contains b'[' t ≡ false → strip_prefix (codes "[") (t ++ b':' ∷ rest) ≡ none
no_bracket_colon [] rest h = refl
no_bracket_colon (c ∷ t) rest h = ground arith

split_loop_last :
    (fuel : ℕ) (t : Bytes) → IsToken t → split_loop (suc fuel) (print_token t) ≡ inr (t ∷ [])
unfolding split_loop
split_loop_last fuel t (o, k) = elim (Bool-cases (contains b':' t)) [
  | inl c ↦ rw (split_loop, c) (rw (split_once-append b']' t [] k))
  | inr c ↦ rw (split_loop, c) (rw (no_bracket t o) (rw c (rw (split_once_absent b':' t c) (rw c))))
]

split_loop_first :
    (fuel : ℕ) (t rest : Bytes)
    → IsToken t
    → split_loop (suc fuel) (print_token t ++ b':' ∷ rest) ≡ push t (split_loop fuel rest)
unfolding split_loop
split_loop_first fuel t rest (o, k) = elim (Bool-cases (contains b':' t)) [
  | inl c ↦
      rw (split_loop, c)
        (rw (append_assoc t (b']' ∷ []) (b':' ∷ rest))
          (rw (split_once-append b']' t (b':' ∷ rest) k)))
  | inr c ↦
      rw (split_loop, c)
        (rw (no_bracket_colon t rest o) (rw c (rw (split_once-append b':' t rest c))))
]

shorter_rest :
    (front rest : Bytes) (fuel : ℕ) → length (front ++ b':' ∷ rest) < suc fuel → length rest < fuel
shorter_rest front rest fuel n = omega (arith, length-append front (b':' ∷ rest))

split_loop-print_tokens :
    (fuel : ℕ) (t : Bytes) (ts : List Bytes)
    → All IsToken (t ∷ ts)
    → length (print_tokens t ts) < fuel
    → split_loop fuel (print_tokens t ts) ≡ inr (t ∷ ts)
unfolding split_loop print_tokens
split_loop-print_tokens zero t ts h n = absurd (omega arith)
split_loop-print_tokens (suc fuel) t [] (h, _) n = split_loop_last fuel t h
split_loop-print_tokens (suc fuel) t (u ∷ us) (h, hs) n =
    split_loop_first fuel t (print_tokens u us) h
    ∙ ap (push t) (
        split_loop-print_tokens fuel u us hs
          (shorter_rest (print_token t) (print_tokens u us) fuel n))

-- Tokens without brackets, each written in brackets when it contains a `:`, are split as they
-- were, however many there are.
pub split_forward_tokens-print_tokens :
    (t : Bytes) (ts : List Bytes)
    → All IsToken (t ∷ ts)
    → split_forward_tokens (print_tokens t ts) ≡ inr (t ∷ ts)
unfolding split_forward_tokens
split_forward_tokens-print_tokens t ts h =
    split_loop-print_tokens (suc (length (print_tokens t ts))) t ts h (omega arith)
