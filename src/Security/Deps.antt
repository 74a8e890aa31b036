-- ===== src/Security/Deps.antt =====
-- app/api/deps.py: what a route asks of a request before it runs. A header without a bearer token
-- is `none`, and a token that does not split into its parts is `some none`.
pub mod Access
pub mod Login
use khalij_intelligent_energ.Base.{
  ℕ, String, Bool, true, false, not, ◌&&◌, Option, none, some, str_eq, is_empty, if◌then◌else◌,
}
use khalij_intelligent_energ.Base.Result.{Result, ok, err}
use khalij_intelligent_energ.Base.Table.{Dict}
use khalij_intelligent_energ.Config.{Settings}
use khalij_intelligent_energ.Security.Auth.{
  User, Token, Digests, AuthResult, verify_token, verify_settings_2fa,
}
use khalij_intelligent_energ.Security.Roles.{Role, role_allows}

pub data HttpError : Type 0 where
  -- status 401 and status 403
  unauthorized forbidden : String → HttpError

pub record CurrentUser : Type 0 where
  pub username : String
  pub role : Role
  pub token : Option Token

-- The identity without a token where authentication is not enforced.
abbrev pub dev_user : CurrentUser
dev_user = record { username = "dev"; role = Role.admin; token = none }

-- `result.detail or "Invalid token"`
abbrev pub detail_of : AuthResult → String
detail_of result = if is_empty result.detail then "Invalid token" else result.detail

abbrev pub user_of : Option Token → AuthResult → Option CurrentUser
user_of token result = elim result.role [
  | none ↦ none
  | some role ↦ elim result.username [
    | none ↦ none
    | some username ↦
        if result.ok
        then some (record { username = username; role = role; token = token })
        else none
  ]
]

abbrev pub or_unauthorized : Option CurrentUser → String → Result HttpError CurrentUser
or_unauthorized none detail = err (unauthorized detail)
or_unauthorized (some user) _ = ok user

module _ {F : Type 0} (cfg : Settings F) (d : Digests) (now : ℕ) where
  unfoldable pub get_current_user_optional : Option (Option Token) → Option CurrentUser
  get_current_user_optional none = none
  get_current_user_optional (some token) = user_of token (verify_token d now token)

  unfoldable pub get_current_user : Option (Option Token) → Result HttpError CurrentUser
  get_current_user none =
      if not cfg.auth_enforce then ok dev_user else err (unauthorized "Missing bearer token")
  get_current_user (some token) =
      let result = verify_token d now token in
      or_unauthorized (user_of token result) (detail_of result)

  unfoldable pub require_action : String → CurrentUser → Result HttpError CurrentUser
  require_action action user =
      if not cfg.auth_enforce && str_eq user.username "dev"
      then ok user
      else if not (role_allows user.role action)
      then err (forbidden action)
      else ok user

  -- A route's dependency: the user of the request, who may do the action.
  unfoldable pub request_action : String → Option (Option Token) → Result HttpError CurrentUser
  request_action action header = elim (get_current_user header) [
    | ok user ↦ require_action action user
    | err e ↦ err e
  ]

  unfoldable pub require_settings_admin :
      Dict User → CurrentUser → Option String → Result HttpError CurrentUser
  require_settings_admin users user code =
      if not cfg.auth_enforce && str_eq user.username "dev"
      then ok user
      else if not (verify_settings_2fa d now users user.username code)
      then err (unauthorized "Valid X-2FA-Code header required for settings changes")
      else ok user

  unfoldable pub request_settings :
      Dict User → Option (Option Token) → Option String → Result HttpError CurrentUser
  request_settings users header code = elim (request_action "settings" header) [
    | ok user ↦ require_settings_admin users user code
    | err e ↦ err e
  ]
