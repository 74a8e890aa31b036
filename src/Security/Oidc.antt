-- ===== src/Security/Oidc.antt =====
-- app/services/oidc.py: the login through an identity provider. The random texts, the digest of the code
-- challenge, what discovery finds and what the token endpoint answers are arguments.
pub mod States
pub mod Claimed
pub mod Examples
use Prim.Native.Char.{code}
use Prim.Native.String
use khalij_intelligent_energ.Base.{
  ℕ, suc, ◌+◌, String, Bool, true, false, ◌&&◌, ◌||◌, not, Option, none, some, List, [], ◌∷◌, ◌==◌,
  map, is_empty, is_nil, str_eq, leb, or_else, if◌then◌else◌,
}
use khalij_intelligent_energ.Base.Result.{
  Result, ok, err, Action, ◌>>=◌, ◌>>◌, pure, raise, gets, or_raise, guard, modify,
}
use khalij_intelligent_energ.Base.Table.{Dict, get}
use khalij_intelligent_energ.Security.Auth.{Digests, Token, AuthResult, issue_token}
use khalij_intelligent_energ.Security.Roles.{Role}
use khalij_intelligent_energ.Security.Claims.{
  OidcSettings, OidcDiscovery, OidcError, disabled, settings_required, invalid_state,
  discovery_failed, no_token, malformed_jwt, dev_login_disabled, bad_role, exchange_failed,
  http_error, decode_error, attribute_error, ClaimValue, null, text, list, object, Claims,
  is_truthy, claim, lower_code, lowered, same_codes, names_role, overlaps, realm_roles, raw_roles,
  roles_of, role_for, map_roles_from_claims, decode_jwt_payload, first_of, text_of, username_of,
}

-- `_pending_states`: the verifier of each login that was begun.
abbrev pub Pending : Type 0
Pending = Dict String

abbrev pub Call : Type 0 → Type 0
Call = Action Pending OidcError

-- `pending.pop(state, None)`
unfoldable pub without : String → Pending → Pending
without state [] = []
without state ((key, verifier) ∷ rest) =
    let kept = without state rest in if str_eq key state then kept else (key, verifier) ∷ kept

abbrev pub put_state : String → String → Pending → Pending
put_state state verifier pending = (state, verifier) ∷ without state pending

-- The endpoint that the browser is sent to: a discovered one, or the path of Keycloak under an issuer.
pub data AuthBase : Type 0 where
  discovered keycloak : String → AuthBase

pub record AuthorizeUrl : Type 0 where
  pub auth_base : AuthBase
  pub client_id : String
  pub redirect_uri : String
  pub scope : String
  pub state : String
  pub code_challenge : String

abbrev pub authorize_url : OidcSettings → AuthBase → String → String → AuthorizeUrl
authorize_url cfg base state challenge = record {
  auth_base = base;
  client_id = cfg.oidc_client_id;
  redirect_uri = cfg.oidc_redirect_uri;
  scope = cfg.oidc_scopes;
  state = state;
  code_challenge = challenge;
}

-- `fetched` is what the well-known document gives, `none` where the request or its parts fail.
unfoldable pub discover : OidcSettings → Option OidcDiscovery → Option OidcDiscovery
discover cfg fetched = if is_empty cfg.oidc_issuer then none else fetched

module _ (cfg : OidcSettings) (challenge : String → String) where
  unfoldable pub begin_login : String → String → Call (AuthorizeUrl × String)
  begin_login state verifier = do
    guard cfg.oidc_enabled disabled
    guard (not (is_empty cfg.oidc_issuer) && not (is_empty cfg.oidc_client_id)) settings_required
    modify (put_state state verifier)
    pure (authorize_url cfg (AuthBase.keycloak cfg.oidc_issuer) state (challenge verifier), state)

  abbrev pub base_of : Option OidcDiscovery → AuthBase
  base_of none = AuthBase.keycloak cfg.oidc_issuer
  base_of (some disc) = AuthBase.discovered disc.authorization_endpoint

  unfoldable pub begin_login_discovered :
      Option OidcDiscovery → String → String → Call (AuthorizeUrl × String)
  unfolding discover
  begin_login_discovered fetched state verifier = do
    modify (put_state state verifier)
    pure (authorize_url cfg (base_of (discover cfg fetched)) state (challenge verifier), state)

-- What the token endpoint answers; a token that is null or empty is `none`.
pub record TokenAnswer : Type 0 where
  pub status_code : ℕ
  pub id_token : Option (List (Option Claims))
  pub access_token : Option (List (Option Claims))

abbrev pub lift : {A : Type 0} → Result OidcError A → Call A
lift (ok a) = pure a
lift (err e) = raise e

unfoldable pub signed_in : Digests → OidcSettings → ℕ → String → Role → AuthResult
signed_in d cfg now username role = record {
  ok = true;
  username = some username;
  role = some role;
  requires_2fa = false;
  token = some (issue_token d cfg.auth_token_ttl_seconds now username role);
  detail = "";
}

module _ (cfg : OidcSettings) (d : Digests) (now : ℕ) where
  -- What follows the answer of the token endpoint.
  unfoldable pub accept : TokenAnswer → Call AuthResult
  unfolding signed_in
  accept answer = do
    guard (not (leb 400 answer.status_code)) (exchange_failed answer.status_code)
    id_token ← or_raise (first_of answer.id_token answer.access_token) no_token
    claims ← lift (decode_jwt_payload id_token)
    role ← lift (map_roles_from_claims cfg claims)
    pure (signed_in d cfg now (username_of claims) role)

  -- What follows once the state is taken. `post` is the answer to the code and the verifier, `none`
  -- where the request fails.
  unfoldable pub redeem :
      Option OidcDiscovery
      → (String → String → Option TokenAnswer)
      → String
      → String
      → Call AuthResult
  unfolding accept
  redeem fetched post auth_code verifier = do
    or_raise (discover cfg fetched) discovery_failed
    answer ← or_raise (post auth_code verifier) http_error
    accept answer

  unfoldable pub exchange_code :
      Option OidcDiscovery
      → (String → String → Option TokenAnswer)
      → String
      → String
      → Call AuthResult
  unfolding redeem
  exchange_code fetched post auth_code state = do
    verifier ← or_raise (← gets (get state)) invalid_state
    modify (without state)
    redeem fetched post auth_code verifier

  abbrev pub role_named : String → Option Role
  role_named role =
      if same_codes (lowered role) (lowered "viewer")
      then some Role.viewer
      else if same_codes (lowered role) (lowered "operator")
      then some Role.operator
      else if same_codes (lowered role) (lowered "admin")
      then some Role.admin
      else none

  unfoldable pub dev_login : String → String → Call AuthResult
  unfolding signed_in
  dev_login username role = do
    guard (cfg.oidc_enabled && cfg.oidc_dev_bypass && cfg.app_debug) dev_login_disabled
    mapped ← or_raise (role_named role) bad_role
    pure (signed_in d cfg now username mapped)
