-- ===== src/Security/Oidc/Examples.antt =====
-- Logins through a provider on small data, and their theorems on them.
use khalij_intelligent_energ.Base.{
  String, ◌≡◌, ◌≢◌, refl, true, false, none, some, List, [], ◌∷◌, eq_iff,
}
use khalij_intelligent_energ.Base.Result.{ok, err}
use khalij_intelligent_energ.Base.Table.{get}
use khalij_intelligent_energ.Security.Roles.{Role}
use khalij_intelligent_energ.Security.Examples.{digests}
use khalij_intelligent_energ.Security.Claims.{
  OidcSettings, OidcDiscovery, Claims, list, text, invalid_state, map_roles_from_claims, raw_roles,
  roles_of, role_for, overlaps, decode_jwt_payload, username_of,
}
use khalij_intelligent_energ.Security.Oidc.{
  TokenAnswer, Pending, signed_in, discover, accept, redeem, without, exchange_code,
}
use khalij_intelligent_energ.Security.Oidc.States.{
  OidcCall, begin, exchange, run_oidc, state_used_once,
}
use khalij_intelligent_energ.Security.Oidc.Claimed.{IsClaimed, exchange-IsClaimed}

abbrev settings : OidcSettings
settings = record {
  app_debug = false;
  auth_token_ttl_seconds = 3600;
  oidc_enabled = true;
  oidc_issuer = "https://idp";
  oidc_client_id = "iems";
  oidc_client_secret = "";
  oidc_redirect_uri = "https://app/callback";
  oidc_scopes = "openid";
  oidc_role_claim = "roles";
  oidc_admin_roles = "iems-admin" ∷ "admin" ∷ [];
  oidc_operator_roles = "iems-operator" ∷ [];
  oidc_viewer_roles = "iems-viewer" ∷ [];
  oidc_dev_bypass = false;
}

abbrev found : OidcDiscovery
found = record { authorization_endpoint = "a"; token_endpoint = "t"; issuer = "https://idp" }

abbrev claims : Claims
claims = ("roles", list ("IEMS-Admin" ∷ [])) ∷ ("email", text "a@b") ∷ []

abbrev answer : TokenAnswer
answer = record {
  status_code = 200;
  id_token = some (none ∷ some claims ∷ none ∷ []);
  access_token = none;
}

abbrev pending : Pending
pending = ("s1", "v1") ∷ []

let_in :
    (exchange_code settings digests 100 (some found) (λ c v. some answer) "code" "s1" pending).0
    ≡ ok (signed_in digests settings 100 "a@b" Role.admin)
unfolding exchange_code redeem accept discover map_roles_from_claims raw_roles roles_of role_for
    overlaps decode_jwt_payload username_of get without
let_in = refl

exchange-IsClaimed_example :
    IsClaimed settings
      (λ c v. some answer)
      "code"
      "s1"
      pending
      (signed_in digests settings 100 "a@b" Role.admin)
exchange-IsClaimed_example =
    exchange-IsClaimed settings digests 100 (some found) (λ c v. some answer) "code" "s1" pending
      (signed_in digests settings 100 "a@b" Role.admin) let_in

abbrev calls : List OidcCall
calls = begin "s2" "v2" ∷ exchange 150 (some found) (λ c v. some answer) "code" "s1" ∷ []

other_state : ◌≢◌ {A = String} "s2" "s1"
other_state e = let h : false ≡ true = (eq_iff "s2" "s1").1 e in cc

state_used_once_example :
    ((exchange_code settings digests 200
        (some found)
        (λ c v. some answer)
        "code"
        "s1"
        (run_oidc settings (λ v. v) digests calls [])).0
      ≡ err invalid_state)
    × ((exchange_code settings digests 200
          (some found)
          (λ c v. some answer)
          "code"
          "s1"
          (run_oidc settings
            (λ v. v)
            digests
            calls
            (exchange_code settings digests 100
              (some found)
              (λ c v. some answer)
              "code0"
              "s1"
              pending).1)).0
        ≡ err invalid_state)
state_used_once_example =
    state_used_once settings (λ v. v) digests calls 100 200 (some found) (some found)
      (λ c v. some answer) (λ c v. some answer) "code" "code0" "s1" pending (other_state, (tt, tt))
