-- ===== src/Server/Settings/Tests.antt =====
-- Tests of the merged settings.
use quish.Base.{◌≡◌, refl, ◌↔◌, ◌⊎◌, true, false, none, some, [], ◌∷◌, unwrap_or}
use quish.Base.Text.{codes}
use quish.Auth.Registry.{permits}
use quish.Server.Settings.{FileConfig, Args, merge}
use quish.Server.Settings.Merged.{IsNamed, merge-permits_iff}

abbrev file : FileConfig
file = record {
  listen = none;
  path = some (codes "/s");
  privsep_user = none;
  privsep_dir = none;
  host_key = none;
  max_auth_fails = some 3;
  allow_forward = some true;
  allow_remote_forward = none;
  no_seccomp = none;
  totp = none;
  allow_users = none;
  deny_users = some (codes "eve" ∷ []);
  oidc = none;
}

-- The flag that denies `bob` takes the place of the file's list.
abbrev args : Args
args = record {
  listen = none;
  path = none;
  dev_insecure_user = none;
  totp = false;
  privsep_dir = none;
  privsep_user = none;
  host_key = none;
  max_auth_fails = some 9;
  allow_forward = false;
  allow_remote_forward = false;
  no_seccomp = false;
  allow_users = [];
  deny_users = codes "bob" ∷ [];
}

merged :
    ((merge args file).max_auth_fails ≡ 9)
    × ((merge args file).path ≡ codes "/s")
    × ((merge args file).allow_forward ≡ true)
unfolding merge
merged = (refl, refl, refl)

merge-permits_iff_example : (permits (merge args file).policy (codes "eve") ≡ true) ↔ (
    (¬ IsNamed (codes "eve") args.deny_users file.deny_users)
    × (((args.allow_users ≡ []) × (unwrap_or file.allow_users [] ≡ []))
        ⊎ IsNamed (codes "eve") args.allow_users file.allow_users))
merge-permits_iff_example = merge-permits_iff args file (codes "eve")
