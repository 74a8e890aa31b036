-- ===== src/Security/Deps/Access.antt =====
-- What a request needs to pass app/api/deps.py.
use khalij_intelligent_energ.Base.{
  ◌&&◌, ℕ, ◌≤◌, String, true, false, ◌≡◌, ◌↔◌, inl, inr, refl, ap, ◌∙◌, Option, none, some, str_eq,
  str_eq→eq, str_eq_self, ltb, arith, Bool-cases, Option-cases,
}
use khalij_intelligent_energ.Base.Result.{ok, Result-cases}
use khalij_intelligent_energ.Base.Table.{Dict, get}
use khalij_intelligent_energ.Config.{Settings}
use khalij_intelligent_energ.Security.Auth.{
  splits_back, User, Token, Digests, verify_token, verify_settings_2fa,
}
use khalij_intelligent_energ.Security.Roles.{Role, role_allows, role_of}
use khalij_intelligent_energ.Security.Deps.{
  CurrentUser, user_of, get_current_user, require_action, request_action, require_settings_admin,
  request_settings,
}

abbrev pub rank : Role → ℕ
rank Role.viewer = 0
rank Role.operator = 1
rank Role.admin = 2

-- What a role may do, every higher role may do, whatever the action's name.
pub role_allows_monotone :
    (r s : Role) (action : String)
    → rank r ≤ rank s
    → role_allows r action ≡ true
    → role_allows s action ≡ true
unfolding role_allows get
role_allows_monotone Role.viewer Role.viewer action le h = h
role_allows_monotone Role.viewer Role.operator action le h = ground arith
role_allows_monotone Role.viewer Role.admin action le h = ground arith
role_allows_monotone Role.operator Role.viewer action le h = ground arith
role_allows_monotone Role.operator Role.operator action le h = h
role_allows_monotone Role.operator Role.admin action le h = ground arith
role_allows_monotone Role.admin Role.viewer action le h = ground arith
role_allows_monotone Role.admin Role.operator action le h = ground arith
role_allows_monotone Role.admin Role.admin action le h = h

settings_admin : (r : Role) → role_allows r "settings" ≡ true → r ≡ Role.admin
unfolding role_allows get
settings_admin Role.viewer h = cc
settings_admin Role.operator h = cc
settings_admin Role.admin h = refl

module _ {F : Type 0} (cfg : Settings F) (d : Digests) (now : ℕ) where
  -- The token splits into its parts, is signed, has not run out, and names the user and the role.
  pub record IsTokenOf (token : Token) (user : CurrentUser) : Type 0 where
    pub split : splits_back token.body ≡ true
    pub signed : d.sign token.body ≡ token.sig
    pub current : now ≤ token.body.exp
    pub held : user.token ≡ some token
    pub named : user.username ≡ token.body.username
    pub role_is : role_of token.body.role ≡ some user.role

  user_of_token :
      (token : Token) (user : CurrentUser)
      → user_of (some token) (verify_token d now (some token)) ≡ some user
      → IsTokenOf token user
  unfolding verify_token
  user_of_token token user h =
      elim (Bool-cases (splits_back token.body && str_eq (d.sign token.body) token.sig)) [
        | inr f ↦ ground arith
        | inl t ↦ elim (Bool-cases (ltb token.body.exp now)) [
          | inl late ↦ ground arith
          | inr soon ↦ elim (Option-cases (role_of token.body.role)) [
            | inl e ↦ ground arith
            | inr (role, e) ↦
                let found : CurrentUser = record {
                  username = token.body.username;
                  role = role;
                  token = some token;
                } in
                let it : some found ≡ some user = ground arith in
                record {
                  split = ground arith;
                  signed = str_eq→eq (d.sign token.body) token.sig (ground arith);
                  current = ground arith;
                  held = ground arith;
                  named = ground arith;
                  role_is = ground arith;
                }
          ]
        ]
      ]

  -- The checks that a token needs let its user in.
  pub token_user :
      (token : Token) (user : CurrentUser)
      → IsTokenOf token user
      → user_of (some token) (verify_token d now (some token)) ≡ some user
  unfolding verify_token
  token_user token user is =
      let same_sig : str_eq (d.sign token.body) token.sig ≡ true =
        rw is.signed (str_eq_self token.sig) in
      let current : ltb token.body.exp now ≡ false = ground (arith, is.current) in
      let found : CurrentUser = record {
        username = token.body.username;
        role = user.role;
        token = some token;
      } in
      let made : user_of (some token) (verify_token d now (some token)) ≡ some found =
        ground (arith, is.role_is, is.split) in
      let eq : found ≡ user = ground (arith, is.named, is.held) in made ∙ ap some eq

  -- Where authentication is enforced, a request passes as a user just when it bears a token whose text
  -- splits into its parts, that is signed, has not run out, and names that user and a role that the
  -- matrix allows the action.
  pub request_action_iff :
      (action : String) (header : Option (Option Token)) (user : CurrentUser)
      → cfg.auth_enforce ≡ true
      → (request_action cfg d now action header ≡ ok user) ↔ (
          (token : Token) × (header ≡ some (some token))
          × IsTokenOf token user
          × (role_allows user.role action ≡ true))
  unfolding request_action get_current_user require_action verify_token
  request_action_iff action none user enforced = (λ h. ground arith, λ h. ground arith)
  request_action_iff action (some none) user enforced = (λ h. ground arith, λ h. ground arith)
  request_action_iff action (some (some token)) user enforced = (
    λ h. elim (Option-cases (user_of (some token) (verify_token d now (some token)))) [
      | inl e ↦ ground arith
      | inr (found, e) ↦ elim (Bool-cases (role_allows found.role action)) [
        | inr f ↦ ground arith
        | inl t ↦
            let same : found ≡ user = ground arith in
            (token, refl, user_of_token token user (e ∙ ap some same), ground arith)
      ]
    ],
    λ (other, eq, is, allowed).
        let same : other ≡ token = ground arith in
        let passed = token_user token user (rw (← same) is) in ground arith,
  )

  -- Where authentication is enforced, a request that passes for the settings is by an admin with a
  -- valid token, and either has no secret for one-time codes or gives a code that is valid now.
  pub request_settings_enforced :
      (users : Dict User) (header : Option (Option Token)) (code : Option String)
      (user : CurrentUser)
      → cfg.auth_enforce ≡ true
      → request_settings cfg d now users header code ≡ ok user
      → (user.role ≡ Role.admin)
        × ((token : Token) × (header ≡ some (some token)) × IsTokenOf token user)
        × (verify_settings_2fa d now users user.username code ≡ true)
  unfolding request_settings require_settings_admin
  request_settings_enforced users header code user enforced h =
      elim (Result-cases (request_action cfg d now "settings" header)) [
        | inr (e, eq) ↦ ground arith
        | inl (found, eq) ↦
            elim (Bool-cases (verify_settings_2fa d now users found.username code)) [
              | inr f ↦ ground arith
              | inl t ↦
                  let same : found ≡ user = ground arith in
                  let (token, bears, is, allowed) =
                    (request_action_iff "settings" header user enforced).0 (eq ∙ ap ok same) in
                  (settings_admin user.role allowed, (token, bears, is), ground arith)
            ]
      ]
