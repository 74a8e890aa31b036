-- ===== src/Security/Oidc/Claimed.antt =====
-- What app/services/oidc.py grants: the role that the claims name.
use khalij_intelligent_energ.Base.{
  false, ℕ, String, true, ◌≡◌, ◌⊎◌, ◌↔◌, refl, sym, ap, ◌∙◌, inl, inr, Option, some, List, [], ◌∷◌,
  arith, Bool-cases, Option-cases, leb,
}
use khalij_intelligent_energ.Base.Result.{ok, Result-cases}
use khalij_intelligent_energ.Base.Table.{get}
use khalij_intelligent_energ.Security.Auth.{Digests, AuthResult}
use khalij_intelligent_energ.Security.Roles.{Role}
use khalij_intelligent_energ.Security.Claims.{
  OidcSettings, OidcDiscovery, Claims, ClaimValue, lowered, same_codes, names_role, overlaps,
  raw_roles, roles_of, role_for, map_roles_from_claims, decode_jwt_payload, username_of, first_of,
}
use khalij_intelligent_energ.Security.Oidc.{
  TokenAnswer, Pending, without, redeem, accept, signed_in, exchange_code, discover,
}

abbrev pub In : String → List String → Type 0
In s [] = ⊥
In s (x ∷ xs) = (s ≡ x) ⊎ In s xs

-- A name of the first list is, without regard to case, one of the second.
pub record Shares (roles names : List String) : Type 0 where
  pub role : String
  pub name : String
  pub held : In role roles
  pub listed : In name names
  pub alike : lowered name ≡ lowered role

same_codes→eq : (xs ys : List ℕ) → same_codes xs ys ≡ true → xs ≡ ys
same_codes→eq [] [] h = refl
same_codes→eq [] (y ∷ ys) h = cc
same_codes→eq (x ∷ xs) [] h = cc
same_codes→eq (x ∷ xs) (y ∷ ys) h = ground (arith, same_codes→eq xs ys)

same_codes_self : (xs : List ℕ) → same_codes xs xs ≡ true
same_codes_self [] = refl
same_codes_self (x ∷ xs) = ground (arith, same_codes_self xs)

names_role→In :
    (names : List String) (role : String)
    → names_role names role ≡ true
    → (name : String) × In name names × (lowered name ≡ lowered role)
names_role→In [] role h = cc
names_role→In (name ∷ names) role h = elim (Bool-cases (same_codes (lowered name) (lowered role))) [
  | inl t ↦ (name, inl refl, same_codes→eq (lowered name) (lowered role) t)
  | inr f ↦
      let (other, held, alike) = names_role→In names role (ground arith) in (other, inr held, alike)
]

overlaps→Shares : (roles names : List String) → overlaps roles names ≡ true → Shares roles names
unfolding overlaps
overlaps→Shares [] names h = cc
overlaps→Shares (role ∷ roles) names h = elim (Bool-cases (names_role names role)) [
  | inl t ↦
      let (name, listed, alike) = names_role→In names role t in
      record { role = role; name = name; held = inl refl; listed = listed; alike = alike }
  | inr f ↦
      let rest = overlaps→Shares roles names (ground arith) in
      record {
        role = rest.role;
        name = rest.name;
        held = inr rest.held;
        listed = rest.listed;
        alike = rest.alike;
      }
]

listed→names_role :
    (names : List String) (role name : String)
    → In name names
    → lowered name ≡ lowered role
    → names_role names role ≡ true
listed→names_role [] role name h alike = absurd h
listed→names_role (n ∷ names) role name (inl e) alike =
    let same : same_codes (lowered n) (lowered role) ≡ true =
      ap (λ codes. same_codes codes (lowered role)) (ap lowered (sym e) ∙ alike)
      ∙ same_codes_self (lowered role) in
    ground arith
listed→names_role (n ∷ names) role name (inr h) alike =
    ground (arith, listed→names_role names role name h alike)

Shares→overlaps :
    (roles names : List String) (role name : String)
    → In role roles
    → In name names
    → lowered name ≡ lowered role
    → overlaps roles names ≡ true
unfolding overlaps
Shares→overlaps [] names role name h listed alike = absurd h
Shares→overlaps (r ∷ roles) names role name (inl e) listed alike =
    let same = listed→names_role names r name listed (alike ∙ ap lowered e) in ground arith
Shares→overlaps (r ∷ roles) names role name (inr h) listed alike =
    ground (arith, Shares→overlaps roles names role name h listed alike)

admin_role :
    (cfg : OidcSettings) (roles : List String)
    → (role_for cfg roles ≡ Role.admin) ↔ Shares roles cfg.oidc_admin_roles
unfolding role_for
admin_role cfg roles = (
  λ h. overlaps→Shares roles cfg.oidc_admin_roles (ground arith),
  λ shares.
      let t =
        Shares→overlaps roles cfg.oidc_admin_roles shares.role shares.name shares.held shares.listed
          shares.alike in
      ground arith,
)

-- A user whom an exchange lets in, with the claims that it rests on: those of the token that the
-- endpoint answered to the code and to the verifier of the state.
pub record IsClaimed (cfg : OidcSettings) (post : String → String → Option TokenAnswer)
    (auth_code state : String) (p : Pending) (result : AuthResult) : Type 0 where
  pub verifier : String
  pub begun : get state p ≡ some verifier
  pub answer : TokenAnswer
  pub answered : post auth_code verifier ≡ some answer
  pub accepted : leb 400 answer.status_code ≡ false
  pub id_token : List (Option Claims)
  pub taken : first_of answer.id_token answer.access_token ≡ some id_token
  pub claims : Claims
  pub decoded : decode_jwt_payload id_token ≡ ok claims
  pub raw : ClaimValue
  pub read : raw_roles cfg claims ≡ ok raw
  pub named : result.username ≡ some (username_of claims)
  pub granted : result.role ≡ some (role_for cfg (roles_of raw))
  pub admin : (result.role ≡ some Role.admin) ↔ Shares (roles_of raw) cfg.oidc_admin_roles

module _ (cfg : OidcSettings) (d : Digests) (now : ℕ) where
  -- What follows the answer of the token endpoint.
  answered_lem :
      (post : String → String → Option TokenAnswer) (auth_code state verifier : String)
      (p q : Pending) (result : AuthResult) (answer : TokenAnswer)
      → get state p ≡ some verifier
      → post auth_code verifier ≡ some answer
      → (accept cfg d now answer q).0 ≡ ok result
      → IsClaimed cfg post auth_code state p result
  unfolding accept map_roles_from_claims signed_in
  answered_lem post auth_code state verifier p q result answer begun posted h =
      elim (Bool-cases (leb 400 answer.status_code)) [
        | inl t ↦ absurd (ground arith)
        | inr f ↦ elim (Option-cases (first_of answer.id_token answer.access_token)) [
          | inl e ↦ absurd (ground arith)
          | inr (id_token, e) ↦ elim (Result-cases (decode_jwt_payload id_token)) [
            | inr (error, e') ↦ absurd (ground arith)
            | inl (claims, e') ↦ elim (Result-cases (raw_roles cfg claims)) [
              | inr (error, e'') ↦ absurd (ground arith)
              | inl (raw, e'') ↦
                  let is : signed_in d cfg now (username_of claims) (role_for cfg (roles_of raw))
                      ≡ result =
                    ground arith in
                  rw (← is) (record {
                    verifier = verifier;
                    begun = begun;
                    answer = answer;
                    answered = posted;
                    accepted = f;
                    id_token = id_token;
                    taken = e;
                    claims = claims;
                    decoded = e';
                    raw = raw;
                    read = e'';
                    named = refl;
                    granted = refl;
                    admin = (
                      λ h'. (admin_role cfg (roles_of raw)).0 (ground arith),
                      λ shares. let h' = (admin_role cfg (roles_of raw)).1 shares in ground arith,
                    );
                  })
            ]
          ]
        ]
      ]

  redeemed :
      (fetched : Option OidcDiscovery) (post : String → String → Option TokenAnswer)
      (auth_code state verifier : String) (p q : Pending) (result : AuthResult)
      → get state p ≡ some verifier
      → (redeem cfg d now fetched post auth_code verifier q).0 ≡ ok result
      → IsClaimed cfg post auth_code state p result
  unfolding redeem
  redeemed fetched post auth_code state verifier p q result begun h =
      elim (Option-cases (discover cfg fetched)) [
        | inl e ↦ absurd (ground arith)
        | inr (disc, e) ↦ elim (Option-cases (post auth_code verifier)) [
          | inl e' ↦ absurd (ground arith)
          | inr (answer, e') ↦
              answered_lem post auth_code state verifier p q result answer begun e'
                (sym (rw (e, e') refl) ∙ h)
        ]
      ]

  -- A user whom an exchange lets in comes with claims. A login was begun with the state, and the
  -- claims are those of the token that the endpoint answered, without an error, to the code and to
  -- that login's verifier. The name is that of the claims, and the role is the one that the claims
  -- map to: admin just where one of the role names in the claims is, without regard to case, one of
  -- the admin names of the settings.
  pub exchange-IsClaimed :
      (fetched : Option OidcDiscovery) (post : String → String → Option TokenAnswer)
      (auth_code state : String) (p : Pending) (result : AuthResult)
      → (exchange_code cfg d now fetched post auth_code state p).0 ≡ ok result
      → IsClaimed cfg post auth_code state p result
  unfolding exchange_code
  exchange-IsClaimed fetched post auth_code state p result h = elim (Option-cases (get state p)) [
    | inl e ↦ absurd (ground arith)
    | inr (verifier, e) ↦
        redeemed fetched post auth_code state verifier p (without state p) result e
          (sym (rw e refl) ∙ h)
  ]
