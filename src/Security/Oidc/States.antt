-- ===== src/Security/Oidc/States.antt =====
-- The pending states of app/services/oidc.py: a state is good for one exchange, after a login that was begun
-- with it.
use khalij_intelligent_energ.Base.{
  String, ◌≡◌, ◌≢◌, refl, inl, inr, ◌∙◌, Option, none, some, List, [], ◌∷◌, All, arith,
  Option-cases, ℕ, eq_iff, str_eq, ne→str_eq, str_eq_self, if◌then◌else◌,
}
use khalij_intelligent_energ.Base.Result.{ok, err, Result, Keeps, keeps_state}
use khalij_intelligent_energ.Base.Table.{get}
use khalij_intelligent_energ.Security.Auth.{Digests}
use khalij_intelligent_energ.Security.Claims.{OidcSettings, OidcDiscovery, OidcError, invalid_state}
use khalij_intelligent_energ.Security.Oidc.{
  TokenAnswer, Pending, without, put_state, begin_login, begin_login_discovered, redeem, lift,
  exchange_code, dev_login,
}

-- A call, with what the provider answers to it.
pub data OidcCall : Type 0 where
  begin : String → String → OidcCall
  begin_discovered : Option OidcDiscovery → String → String → OidcCall
  exchange :
      ℕ → Option OidcDiscovery → (String → String → Option TokenAnswer) → String → String → OidcCall
  dev : ℕ → String → String → OidcCall

module _ (cfg : OidcSettings) (challenge : String → String) (d : Digests) where
  unfoldable pub serve_oidc : OidcCall → Pending → Pending
  serve_oidc (begin state verifier) p = (begin_login cfg challenge state verifier p).1
  serve_oidc (begin_discovered fetched state verifier) p =
      (begin_login_discovered cfg challenge fetched state verifier p).1
  serve_oidc (exchange now fetched post auth_code state) p =
      (exchange_code cfg d now fetched post auth_code state p).1
  serve_oidc (dev now username role) p = (dev_login cfg d now username role p).1

  unfoldable pub run_oidc : List OidcCall → Pending → Pending
  run_oidc [] p = p
  run_oidc (c ∷ cs) p = run_oidc cs (serve_oidc c p)

-- The call begins no login with this state.
abbrev pub Spares : String → OidcCall → Type 0
Spares state (begin s verifier) = s ≢ state
Spares state (begin_discovered fetched s verifier) = s ≢ state
Spares state (exchange now fetched post auth_code s) = Unit {0}
Spares state (dev now username role) = Unit {0}

get-without :
    (state other : String) (p : Pending)
    → get other (without state p) ≡ (if str_eq state other then none else get other p)
unfolding get without
get-without state other [] = ground arith
get-without state other ((key, verifier) ∷ rest) =
    ground
      (arith, eq_iff key state, eq_iff key other, eq_iff state other, get-without state other rest)

get-put_state :
    (state other verifier : String) (p : Pending)
    → get other (put_state state verifier p)
      ≡ (if str_eq state other then some verifier else get other p)
unfolding get
get-put_state state other verifier p = ground (arith, eq_iff state other, get-without state other p)

lift-Keeps : {A : Type 0} (r : Result OidcError A) → Keeps (lift r)
lift-Keeps (ok a) = record { same = λ p. refl }
lift-Keeps (err e) = record { same = λ p. refl }

module _ (cfg : OidcSettings) (d : Digests) (now : ℕ) where
  redeem-Keeps :
      (fetched : Option OidcDiscovery) (post : String → String → Option TokenAnswer)
      (auth_code verifier : String)
      → Keeps (redeem cfg d now fetched post auth_code verifier)
  unfolding redeem
  redeem-Keeps fetched post auth_code verifier = search (keeps_state, lift-Keeps) depth 16

  -- An exchange takes its state and no other, however it ends.
  exchange-get :
      (fetched : Option OidcDiscovery) (post : String → String → Option TokenAnswer)
      (auth_code state other : String) (p : Pending)
      → get other (exchange_code cfg d now fetched post auth_code state p).1
        ≡ (if str_eq state other then none else get other p)
  unfolding exchange_code
  exchange-get fetched post auth_code state other p = elim (Option-cases (get state p)) [
    | inl e ↦ ground (arith, eq_iff state other)
    | inr (verifier, e) ↦
        let runs : (exchange_code cfg d now fetched post auth_code state p).1 ≡ without state p =
          rw (e, (redeem-Keeps fetched post auth_code verifier).same (without state p)) refl in
        rw runs (get-without state other p)
  ]

module _ (cfg : OidcSettings) (challenge : String → String) (d : Digests) where
  serve_oidc-get :
      (c : OidcCall) (state : String) (p : Pending)
      → Spares state c
      → get state p ≡ none
      → get state (serve_oidc cfg challenge d c p) ≡ none
  unfolding serve_oidc begin_login begin_login_discovered dev_login
  serve_oidc-get (begin s verifier) state p spares h =
      let other = ne→str_eq s state spares in ground (arith, get-put_state s state verifier p)
  serve_oidc-get (begin_discovered fetched s verifier) state p spares h =
      let other = ne→str_eq s state spares in ground (arith, get-put_state s state verifier p)
  serve_oidc-get (exchange now fetched post auth_code s) state p spares h =
      ground (arith, exchange-get cfg d now fetched post auth_code s state p)
  serve_oidc-get (dev now username role) state p spares h = ground arith

  run_oidc-get :
      (cs : List OidcCall) (state : String) (p : Pending)
      → All (Spares state) cs
      → get state p ≡ none
      → get state (run_oidc cfg challenge d cs p) ≡ none
  unfolding run_oidc
  run_oidc-get [] state p spares h = h
  run_oidc-get (c ∷ cs) state p spares h =
      run_oidc-get cs state (serve_oidc cfg challenge d c p) spares.1
        (serve_oidc-get c state p spares.0 h)

  refused-exchange :
      (now : ℕ) (fetched : Option OidcDiscovery) (post : String → String → Option TokenAnswer)
      (auth_code state : String) (p : Pending)
      → get state p ≡ none
      → (exchange_code cfg d now fetched post auth_code state p).0 ≡ err invalid_state
  unfolding exchange_code
  refused-exchange now fetched post auth_code state p h = rw h refl

  -- An exchange with a state fails where no login was begun with it since the start, or since an
  -- earlier exchange with it, whether that one succeeded or not; whatever else was called.
  pub state_used_once :
      (cs : List OidcCall) (earlier now : ℕ) (fetched fetched' : Option OidcDiscovery)
      (post post' : String → String → Option TokenAnswer) (auth_code auth_code' state : String)
      (p : Pending)
      → All (Spares state) cs
      → let used = (exchange_code cfg d earlier fetched' post' auth_code' state p).1 in
        ((exchange_code cfg d now fetched post auth_code state (run_oidc cfg challenge d cs [])).0
          ≡ err invalid_state)
        × ((exchange_code cfg d now fetched post auth_code state
              (run_oidc cfg challenge d cs used)).0
            ≡ err invalid_state)
  unfolding get
  state_used_once cs earlier now fetched fetched' post post' auth_code auth_code' state p spares =
      let used = (exchange_code cfg d earlier fetched' post' auth_code' state p).1 in
      let taken : get state used ≡ none =
        exchange-get cfg d earlier fetched' post' auth_code' state state p
        ∙ rw (str_eq_self state) refl in
      (
        refused-exchange now fetched post auth_code state _ (run_oidc-get cs state [] spares refl),
        refused-exchange now fetched post auth_code state _
            (run_oidc-get cs state used spares taken),
      )
