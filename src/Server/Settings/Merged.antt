-- ===== src/Server/Settings/Merged.antt =====
-- Who may log in under the flags and the file.
use quish.Base.{◌≡◌, refl, ◌↔◌, ◌⊎◌, inl, inr, true, Option, List, [], ◌∷◌, unwrap_or}
use quish.Base.Text.{Bytes}
use quish.Auth.Registry.{permits}
use quish.Auth.Registry.Policy.{Listed, permits_iff}
use quish.Server.Settings.{FileConfig, Args, users, merge}

-- Named by the flags, or by the file where no flag names anyone.
abbrev pub IsNamed : Bytes → List Bytes → Option (List Bytes) → Type 0
IsNamed user flags file = Listed user flags ⊎ ((flags ≡ []) × Listed user (unwrap_or file []))

IsNamed-users :
    (user : Bytes) (flags : List Bytes) (file : Option (List Bytes))
    → IsNamed user flags file
    → Listed user (users flags file)
IsNamed-users user [] file (inl h) = absurd h
IsNamed-users user [] file (inr (e, h)) = h
IsNamed-users user (f ∷ flags) file (inl h) = h
IsNamed-users user (f ∷ flags) file (inr (e, h)) = absurd (cc (e))

users-IsNamed :
    (user : Bytes) (flags : List Bytes) (file : Option (List Bytes))
    → Listed user (users flags file)
    → IsNamed user flags file
users-IsNamed user [] file h = inr (refl, h)
users-IsNamed user (f ∷ flags) file h = inl h

none_named :
    (flags : List Bytes) (file : Option (List Bytes))
    → (users flags file ≡ []) ↔ ((flags ≡ []) × (unwrap_or file [] ≡ []))
none_named [] file = (λ h. (refl, h), λ h. h.1)
none_named (f ∷ flags) file = (λ h. absurd (cc), λ h. absurd (cc))

-- Under the merged settings a user may log in exactly if no list that is in force denies them, and
-- either no list is in force or it names them: a list of flags takes the whole place of the
-- file's, for the users allowed and for those denied apart, and denial wins.
pub merge-permits_iff :
    (args : Args) (file : FileConfig) (user : Bytes)
    → (permits (merge args file).policy user ≡ true) ↔ (
        (¬ IsNamed user args.deny_users file.deny_users)
        × (((args.allow_users ≡ []) × (unwrap_or file.allow_users [] ≡ []))
            ⊎ IsNamed user args.allow_users file.allow_users))
unfolding merge
merge-permits_iff args file user =
    let nobody = none_named args.allow_users file.allow_users in
    let both = permits_iff (merge args file).policy user in
    (
      λ h.
          let (denied, rest) = both.0 h in
          (
            λ n. denied (IsNamed-users user args.deny_users file.deny_users n),
            elim rest [
              | inl e ↦ inl (nobody.0 e)
              | inr l ↦ inr (users-IsNamed user args.allow_users file.allow_users l)
            ],
          ),
      λ (denied, rest). both.1 (
        (λ l. denied (users-IsNamed user args.deny_users file.deny_users l)),
        elim rest [
          | inl e ↦ inl (nobody.1 e)
          | inr n ↦ inr (IsNamed-users user args.allow_users file.allow_users n)
        ],
      ),
    )
