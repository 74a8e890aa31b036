-- ===== src/Security/Deps/Login.antt =====
-- What a login of app/services/auth.py needs, and what its token is good for.
use khalij_intelligent_energ.Base.{
  ℕ, ◌+◌, ◌≤◌, String, Bool, true, false, ◌||◌, ◌≡◌, ◌⊎◌, inl, inr, refl, Option, none, some,
  is_empty, or_else, arith, Bool-cases, Option-cases,
}
use khalij_intelligent_energ.Base.Result.{ok}
use khalij_intelligent_energ.Base.Table.{Dict, get}
use khalij_intelligent_energ.Config.{Settings}
use khalij_intelligent_energ.Security.Auth.{
  User, Token, Digests, has_colon, splits_back, issue_token, verify_password, verify_totp,
  authenticate,
}
use khalij_intelligent_energ.Security.Roles.{Role, role_value, role_of}
use khalij_intelligent_energ.Security.Deps.{CurrentUser, get_current_user}
use khalij_intelligent_energ.Security.Deps.Access.{IsTokenOf, token_user}

role_of_value : (r : Role) → role_of (role_value r) ≡ some r
role_of_value Role.viewer = refl
role_of_value Role.operator = refl
role_of_value Role.admin = refl

-- The text of a role has no `:`.
splits_back_value :
    (username : String) (role : Role) (exp : ℕ)
    → has_colon username ≡ false
    → splits_back (record { username = username; role = role_value role; exp = exp }) ≡ true
unfolding has_colon
splits_back_value username Role.viewer exp h = rw h refl
splits_back_value username Role.operator exp h = rw h refl
splits_back_value username Role.admin exp h = rw h refl

module _ {F : Type 0} (cfg : Settings F) (d : Digests) (now : ℕ) (users : Dict User)
    (username password : String) (code : Option String) (require_2fa : Bool) where
  -- A login that succeeds is by a user that exists, with the user's password, and where a one-time
  -- code is asked for and the user has a secret, with a code that is valid now.
  pub login_checked :
      (authenticate d cfg now users username password code require_2fa).ok ≡ true
      → (user : User) × (get username users ≡ some user)
        × (verify_password d password user.password_hash ≡ true)
        × ((require_2fa || cfg.auth_login_require_2fa ≡ false)
            ⊎ ((user.totp_secret ≡ none)
                ⊎ ((secret : String) × (user.totp_secret ≡ some secret)
                    × (verify_totp d secret (or_else code "") now ≡ true))))
  unfolding authenticate
  login_checked h = elim (Option-cases (get username users)) [
    | inl e ↦ ground arith
    | inr (user, e) ↦ elim (Bool-cases (verify_password d password user.password_hash)) [
      | inr f ↦ ground arith
      | inl t ↦ (
        user,
        e,
        t,
        elim (Bool-cases (require_2fa || cfg.auth_login_require_2fa)) [
          | inr off ↦ inl off
          | inl on ↦ elim (Option-cases user.totp_secret) [
            | inl none_set ↦ inr (inl none_set)
            | inr (secret, set) ↦ inr (
                inr (
                  secret,
                  set,
                  elim (Bool-cases (verify_totp d secret (or_else code "") now)) [
                    | inl good ↦ good
                    | inr bad ↦ elim (Bool-cases (is_empty (or_else code ""))) [
                      | inl empty ↦ ground arith
                      | inr full ↦ ground arith
                    ]
                  ],
                ))
          ]
        ],
      )
    ]
  ]

  -- The token of a login that succeeds, of a user without a colon in the name, lets the user in, with the
  -- user's role, until it has run out.
  pub login_lets_in :
      (later : ℕ)
      → later ≤ now + cfg.auth_token_ttl_seconds
      → has_colon username ≡ false
      → (authenticate d cfg now users username password code require_2fa).ok ≡ true
      → (user : User) × (token : Token) × (get username users ≡ some user)
        × ((authenticate d cfg now users username password code require_2fa).token ≡ some token)
        × (get_current_user cfg d later (some (some token))
            ≡ ok (record { username = username; role = user.role; token = some token }))
  unfolding get_current_user authenticate issue_token
  login_lets_in later bound plain h =
      let (user, found, right, factor) = login_checked h in
      let token = issue_token d cfg.auth_token_ttl_seconds now username user.role in
      let current : CurrentUser = record {
        username = username;
        role = user.role;
        token = some token;
      } in
      let is : IsTokenOf cfg d later token current = record {
        split = splits_back_value username user.role (now + cfg.auth_token_ttl_seconds) plain;
        signed = refl;
        held = refl;
        current = bound;
        named = refl;
        role_is = role_of_value user.role;
      } in
      let passed = token_user cfg d later token current is in
      (user, token, found, ground arith, ground arith)
