-- ===== src/Security/Examples.antt =====
-- Logins and requests with digests that compute, and the theorems at inputs that meet their
-- hypotheses.
use khalij_intelligent_energ.Base.{
  ℕ, String, true, false, ◌≡◌, ◌⊎◌, ◌↔◌, ◌||◌, refl, none, some, [], ◌∷◌, arith,
}
use khalij_intelligent_energ.Base.Result.{ok}
use khalij_intelligent_energ.Base.Table.{Dict, get}
use khalij_intelligent_energ.Config.{Settings}
use khalij_intelligent_energ.Config.Examples.{live_settings}
use khalij_intelligent_energ.Security.Auth.{
  User, Token, Digests, has_colon, hash_password, bootstrap_users, verify_password, totp,
  verify_totp, verify_token, verify_settings_2fa, authenticate,
}
use khalij_intelligent_energ.Security.Roles.{Role, role_allows}
use khalij_intelligent_energ.Security.Deps.{
  CurrentUser, get_current_user, require_action, request_action, require_settings_admin,
  request_settings,
}
use khalij_intelligent_energ.Security.Deps.Access.{
  IsTokenOf, request_action_iff, request_settings_enforced,
}
use khalij_intelligent_energ.Security.Deps.Login.{login_checked, login_lets_in}

abbrev pub enforced_settings : Settings ℕ
enforced_settings = record live_settings { auth_enforce = true; auth_login_require_2fa = true }

abbrev pub digests : Digests
digests = record {
  sign = λ body. body.username;
  pbkdf2 = λ password salt. password;
  is_hex = λ salt. true;
  hotp = λ secret step. "123456";
  is_digits = λ code. true;
}

abbrev pub admin_token : Token
admin_token = record {
  body = record { username = "admin"; role = "admin"; exp = 3700 };
  sig = "admin";
}

abbrev pub admin_user : CurrentUser
admin_user = record { username = "admin"; role = Role.admin; token = some admin_token }

settings_pass :
    request_settings enforced_settings digests 200
      (bootstrap_users digests)
      (some (some admin_token))
      (some "123456")
    ≡ ok admin_user
unfolding request_settings request_action require_settings_admin get_current_user require_action
    verify_token has_colon role_allows verify_settings_2fa verify_totp totp bootstrap_users
    hash_password get
settings_pass = refl

login_ok :
    (authenticate digests enforced_settings 100
      (bootstrap_users digests)
      "admin"
      "admin"
      (some "123456")
      false).ok
    ≡ true
unfolding authenticate verify_password verify_totp totp bootstrap_users hash_password get
login_ok = refl

request_action_iff_example :
    (request_action enforced_settings digests 200 "apply" (some (some admin_token)) ≡ ok admin_user)
    ↔ ((token : Token) × (some (some admin_token) ≡ some (some token))
        × IsTokenOf enforced_settings digests 200 token admin_user
        × (role_allows Role.admin "apply" ≡ true))
request_action_iff_example =
    request_action_iff enforced_settings digests 200 "apply" (some (some admin_token)) admin_user
      refl

request_settings_enforced_example :
    (admin_user.role ≡ Role.admin)
    × ((token : Token) × (some (some admin_token) ≡ some (some token))
        × IsTokenOf enforced_settings digests 200 token admin_user)
    × (verify_settings_2fa digests 200 (bootstrap_users digests) "admin" (some "123456") ≡ true)
request_settings_enforced_example =
    request_settings_enforced enforced_settings digests 200 (bootstrap_users digests)
      (some (some admin_token)) (some "123456") admin_user refl settings_pass

login_checked_example :
    (user : User) × (get "admin" (bootstrap_users digests) ≡ some user)
    × (verify_password digests "admin" user.password_hash ≡ true)
    × ((false || true ≡ false)
        ⊎ ((user.totp_secret ≡ none)
            ⊎ ((secret : String) × (user.totp_secret ≡ some secret)
                × (verify_totp digests secret "123456" 100 ≡ true))))
login_checked_example =
    login_checked enforced_settings digests 100 (bootstrap_users digests) "admin" "admin"
      (some "123456") false login_ok

plain_admin : has_colon "admin" ≡ false
unfolding has_colon
plain_admin = refl

login_lets_in_example :
    (user : User) × (token : Token) × (get "admin" (bootstrap_users digests) ≡ some user)
    × ((authenticate digests enforced_settings 100
          (bootstrap_users digests)
          "admin"
          "admin"
          (some "123456")
          false).token
        ≡ some token)
    × (get_current_user enforced_settings digests 3700 (some (some token))
        ≡ ok (record { username = "admin"; role = user.role; token = some token }))
login_lets_in_example =
    login_lets_in enforced_settings digests 100 (bootstrap_users digests) "admin" "admin"
      (some "123456") false 3700 (omega arith) plain_admin login_ok

-- An operator named after a domain.
abbrev domain_users : Dict User
domain_users =
    (
      "ops:1",
      record {
        password_hash = hash_password digests "secret" "44444444444444444444444444444444";
        role = Role.operator;
        totp_secret = none;
      },
    )
    ∷ []
