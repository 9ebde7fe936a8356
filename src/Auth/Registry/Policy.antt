-- ===== src/Auth/Registry/Policy.antt =====
-- What `UserPolicy::permits` means.
use quish.Base.{
  ◌≡◌, refl, ◌↔◌, ◌⊎◌, inl, inr, true, ◌||◌, List, [], ◌∷◌, arith, Bool-cases, is_empty, any,
}
use quish.Base.Text.{Bytes, bytes_eq}
use quish.Base.Text.Laws.{bytes_eq→eq, bytes_eq_refl}
use quish.Auth.Registry.{UserPolicy, permits}

abbrev pub Listed : Bytes → List Bytes → Type 0
Listed user [] = ⊥
Listed user (u ∷ us) = (u ≡ user) ⊎ Listed user us

any_eq→Listed :
    (user : Bytes) (us : List Bytes) → any (λ u. bytes_eq u user) us ≡ true → Listed user us
any_eq→Listed user [] h = cc
any_eq→Listed user (u ∷ us) h = elim (Bool-cases (bytes_eq u user)) [
  | inl e ↦ inl (bytes_eq→eq u user e)
  | inr e ↦ inr (any_eq→Listed user us (rw e at h))
]

Listed→any_eq :
    (user : Bytes) (us : List Bytes) → Listed user us → any (λ u. bytes_eq u user) us ≡ true
Listed→any_eq user [] h = absurd h
Listed→any_eq user (u ∷ us) (inl e) = rw e (rw (bytes_eq_refl user))
Listed→any_eq user (u ∷ us) (inr h) = ground (arith, Listed→any_eq user us h)

allowed :
    (user : Bytes) (us : List Bytes)
    → (is_empty us || any (λ u. bytes_eq u user) us) ≡ true
    → (us ≡ []) ⊎ Listed user us
allowed user [] h = inl refl
allowed user (u ∷ us) h = inr (any_eq→Listed user (u ∷ us) h)

allowed_back :
    (user : Bytes) (us : List Bytes)
    → (us ≡ []) ⊎ Listed user us
    → (is_empty us || any (λ u. bytes_eq u user) us) ≡ true
allowed_back user [] h = refl
allowed_back user (u ∷ us) (inl e) = cc
allowed_back user (u ∷ us) (inr l) = Listed→any_eq user (u ∷ us) l

-- A user passes exactly if no deny entry names them and the allow list is empty or names them.
pub permits_iff :
    (p : UserPolicy) (user : Bytes)
    → (permits p user ≡ true)
      ↔ ((¬ Listed user p.deny_users) × ((p.allow_users ≡ []) ⊎ Listed user p.allow_users))
unfolding permits
permits_iff p user = elim (Bool-cases (any (λ u. bytes_eq u user) p.deny_users)) [
  | inl e ↦ (λ h. absurd (cc (rw e at h)), λ h. absurd (h.0 (any_eq→Listed user p.deny_users e)))
  | inr e ↦ rw e (
    λ h. ((λ l. cc (e, Listed→any_eq user p.deny_users l)), allowed user p.allow_users h),
    λ h. allowed_back user p.allow_users h.1,
  )
]
