-- ===== src/Security/Claims.antt =====
-- app/services/oidc.py: what the claims of a token say of a user. Lists of role names that the settings
-- give as one text are held as lists; a JWT is held as its segments, each as the claims that it decodes
-- to, if it does.
use Prim.Native.Char.{code}
use khalij_intelligent_energ.Base.{
  ℕ, ◌+◌, String, Bool, true, false, ◌&&◌, ◌||◌, not, Option, none, some, List, [], ◌∷◌, ◌==◌,
  is_empty, is_nil, leb, or_else, if◌then◌else◌,
}
use khalij_intelligent_energ.Base.Result.{Result, ok, err}
use khalij_intelligent_energ.Base.Table.{Dict, get}
use khalij_intelligent_energ.Security.Roles.{Role}

-- The settings of app/core/config.py that this module reads.
pub record OidcSettings : Type 0 where
  pub app_debug : Bool
  pub auth_token_ttl_seconds : ℕ
  pub oidc_enabled : Bool
  pub oidc_issuer : String
  pub oidc_client_id : String
  pub oidc_client_secret : String
  pub oidc_redirect_uri : String
  pub oidc_scopes : String
  pub oidc_role_claim : String
  pub oidc_admin_roles : List String
  pub oidc_operator_roles : List String
  pub oidc_viewer_roles : List String
  pub oidc_dev_bypass : Bool

pub record OidcDiscovery : Type 0 where
  pub authorization_endpoint : String
  pub token_endpoint : String
  pub issuer : String

-- `OidcError`, by its text, and the other errors that may pass through.
pub data OidcError : Type 0 where
  disabled settings_required invalid_state discovery_failed no_token malformed_jwt : OidcError
  dev_login_disabled bad_role : OidcError
  exchange_failed : ℕ → OidcError
  http_error decode_error attribute_error : OidcError

-- A claim: a text, a list by the texts of its elements, an object by its lists, or nothing.
pub data ClaimValue : Type 0 where
  null : ClaimValue
  text : String → ClaimValue
  list : List String → ClaimValue
  object : Dict (List String) → ClaimValue

abbrev pub Claims : Type 0
Claims = Dict ClaimValue

abbrev pub is_truthy : ClaimValue → Bool
is_truthy null = false
is_truthy (text s) = not (is_empty s)
is_truthy (list xs) = not (is_nil xs)
is_truthy (object fields) = not (is_nil fields)

-- `claims.get(name)`
abbrev pub claim : String → Claims → ClaimValue
claim name claims = or_else (get name claims) null

abbrev pub lower_code : ℕ → ℕ
lower_code c = if leb b'A' c && leb c b'Z' then c + 32 else c

-- `text.lower()` by code points; other letters than those of ASCII keep their case here.
abbrev pub lowered : String → List ℕ
lowered String.[] = []
lowered (String.◌∷◌ c s) = lower_code (code c) ∷ lowered s

abbrev pub same_codes : List ℕ → List ℕ → Bool
same_codes [] [] = true
same_codes (x ∷ xs) (y ∷ ys) = x == y && same_codes xs ys
same_codes _ _ = false

abbrev pub names_role : List String → String → Bool
names_role [] role = false
names_role (name ∷ names) role = same_codes (lowered name) (lowered role) || names_role names role

-- `normalized & _split_csv(...)` is not empty
unfoldable pub overlaps : List String → List String → Bool
overlaps [] names = false
overlaps (role ∷ roles) names = names_role names role || overlaps roles names

abbrev pub realm_roles : ClaimValue → Result OidcError ClaimValue
realm_roles (object fields) = elim (get "roles" fields) [
  | none ↦ ok null
  | some roles ↦ ok (list roles)
]
realm_roles _ = err attribute_error

-- The operand of `or` that is taken: the first that is truthy, or the last.
unfoldable pub raw_roles : OidcSettings → Claims → Result OidcError ClaimValue
raw_roles cfg claims =
    if is_truthy (claim cfg.oidc_role_claim claims)
    then ok (claim cfg.oidc_role_claim claims)
    else if is_truthy (claim "groups" claims)
    then ok (claim "groups" claims)
    else realm_roles (or_else (get "realm_access" claims) (object []))

unfoldable pub roles_of : ClaimValue → List String
roles_of null = []
roles_of (text s) = s ∷ []
roles_of (list xs) = xs
roles_of (object fields) = or_else (get "roles" fields) []

unfoldable pub role_for : OidcSettings → List String → Role
role_for cfg roles =
    if overlaps roles cfg.oidc_admin_roles
    then Role.admin
    else if overlaps roles cfg.oidc_operator_roles
    then Role.operator
    else Role.viewer

unfoldable pub map_roles_from_claims : OidcSettings → Claims → Result OidcError Role
unfolding raw_roles roles_of role_for
map_roles_from_claims cfg claims = elim (raw_roles cfg claims) [
  | err e ↦ err e
  | ok raw ↦ ok (role_for cfg (roles_of raw))
]

unfoldable pub decode_jwt_payload : List (Option Claims) → Result OidcError Claims
decode_jwt_payload [] = err malformed_jwt
decode_jwt_payload (header ∷ []) = err malformed_jwt
decode_jwt_payload (header ∷ none ∷ rest) = err decode_error
decode_jwt_payload (header ∷ some claims ∷ rest) = ok claims

abbrev pub first_of {ℓ} : {A : Type ℓ} → Option A → Option A → Option A
first_of none other = other
first_of (some a) _ = some a

abbrev pub text_of : ClaimValue → Option String
text_of (text s) = if is_empty s then none else some s
text_of _ = none

-- The name of a user: the claims of names are texts or missing.
unfoldable pub username_of : Claims → String
username_of claims =
    or_else
      (first_of (text_of (claim "preferred_username" claims))
        (first_of (text_of (claim "email" claims)) (text_of (claim "sub" claims))))
      "oidc-user"
