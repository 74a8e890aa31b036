-- ===== src/Security/Auth.antt =====
-- app/services/auth.py and app/security/totp.py: passwords, one-time codes, signed tokens.
-- The digests are parameters. A token is held as the parts of its text, a text that does not split
-- into four is `none`; seconds are numbers.
use Prim.Native.Char.{code}
use khalij_intelligent_energ.Base.{
  ℕ, ◌+◌, ◌-◌, ◌/◌, String, Bool, true, false, not, ◌&&◌, ◌||◌, Option, none, some, [], ◌∷◌, str_eq,
  ◌==◌, is_empty, is_some, ltb, or_else, if◌then◌else◌,
}
use khalij_intelligent_energ.Base.Table.{Dict, get}
use khalij_intelligent_energ.Config.{Settings}
use khalij_intelligent_energ.Security.Roles.{Role, role_value, role_of}

-- An encoded password: the three parts between the dollar signs.
pub record PasswordHash : Type 0 where
  pub algo : String
  pub salt : String
  pub digest : String

pub record User : Type 0 where
  pub password_hash : PasswordHash
  pub role : Role
  pub totp_secret : Option String

-- The signed part of a token's text, `{username}:{role}:{exp}`.
pub record TokenBody : Type 0 where
  pub username : String
  pub role : String
  pub exp : ℕ

-- The text `{body}:{sig}`. A text of another form, in which no number stands third, is `none` where a
-- token is read.
pub record Token : Type 0 where
  pub body : TokenBody
  pub sig : String

unfoldable pub has_colon : String → Bool
has_colon String.[] = false
has_colon (String.◌∷◌ c s) = code c == 58 || has_colon s

-- Whether `token.split(":", 3)` gives back the parts that were joined.
abbrev pub splits_back : TokenBody → Bool
splits_back body = not (has_colon body.username || has_colon body.role)

-- The digests: HMAC-SHA256 of a token's text under the secret key, PBKDF2 of a password and a salt,
-- and the six digits of RFC 6238 for a secret and a time step.
pub record Digests : Type 0 where
  pub sign : TokenBody → String
  pub pbkdf2 : String → String → String
  pub is_hex : String → Bool
  pub hotp : String → ℕ → String
  pub is_digits : String → Bool

pub record AuthResult : Type 0 where
  pub ok : Bool
  pub username : Option String
  pub role : Option Role
  pub requires_2fa : Bool
  pub token : Option Token
  pub detail : String

abbrev pub refused : String → AuthResult
refused detail = record {
  ok = false;
  username = none;
  role = none;
  requires_2fa = false;
  token = none;
  detail = detail;
}

abbrev pub asks_2fa : String → Role → String → AuthResult
asks_2fa username role detail = record (refused detail) {
  username = some username;
  role = some role;
  requires_2fa = true;
}

module _ (d : Digests) where
  unfoldable pub hash_password : String → String → PasswordHash
  hash_password password salt = record {
    algo = "pbkdf2_sha256";
    salt = salt;
    digest = d.pbkdf2 password salt;
  }

  -- A salt that is no hexadecimal text raises a ValueError.
  unfoldable pub verify_password : String → PasswordHash → Bool
  unfolding hash_password
  verify_password password encoded =
      str_eq encoded.algo "pbkdf2_sha256"
      && d.is_hex encoded.salt
      && str_eq (hash_password password encoded.salt).digest encoded.digest

  unfoldable pub bootstrap_users : Dict User
  bootstrap_users =
      (
        "viewer",
        record {
          password_hash = hash_password "viewer" "11111111111111111111111111111111";
          role = Role.viewer;
          totp_secret = none;
        },
      )
      ∷ (
        "operator",
        record {
          password_hash = hash_password "operator" "22222222222222222222222222222222";
          role = Role.operator;
          totp_secret = some "JBSWY3DPEHPK3PXP";
        },
      )
      ∷ (
        "admin",
        record {
          password_hash = hash_password "admin" "33333333333333333333333333333333";
          role = Role.admin;
          totp_secret = some "JBSWY3DPEHPK3PXP";
        },
      )
      ∷ []

  unfoldable pub totp : String → ℕ → String
  totp secret for_time = d.hotp secret (for_time / 30)

  -- One step of 30 seconds of skew either way.
  unfoldable pub verify_totp : String → String → ℕ → Bool
  unfolding totp
  verify_totp secret code now =
      not (is_empty code)
      && d.is_digits code
      && (str_eq (totp secret (now - 30)) code
          || str_eq (totp secret now) code
          || str_eq (totp secret (now + 30)) code)

  unfoldable pub issue_token : ℕ → ℕ → String → Role → Token
  issue_token ttl now username role =
      let body : TokenBody = record {
        username = username;
        role = role_value role;
        exp = now + ttl;
      } in
      record { body = body; sig = d.sign body }

  abbrev pub accepted : Token → Option Role → AuthResult
  accepted token none = refused "Malformed token"
  accepted token (some role) = record (refused "") {
    ok = true;
    username = some token.body.username;
    role = some role;
    token = some token;
  }

  -- Where a part before the number has a `:`, the split puts one into the signature, and no digest in
  -- hexadecimal has one.
  unfoldable pub verify_token : ℕ → Option Token → AuthResult
  verify_token now none = refused "Malformed token"
  verify_token now (some token) =
      if not (splits_back token.body && str_eq (d.sign token.body) token.sig)
      then refused "Invalid token signature"
      else if ltb token.body.exp now
      then refused "Token expired"
      else accepted token (role_of token.body.role)

  -- Whether a user's one-time code lets them on: the answer that refuses, or none.
  abbrev pub second_factor :
      Bool → ℕ → String → Role → Option String → Option String → Option AuthResult
  second_factor asked now username role none code = none
  second_factor asked now username role (some secret) code =
      if not asked
      then none
      else if is_empty (or_else code "")
      then some (asks_2fa username role "2FA required")
      else if not (verify_totp secret (or_else code "") now)
      then some (asks_2fa username role "Invalid 2FA code")
      else none

  abbrev pub logged_in : {F : Type 0} → Settings F → ℕ → String → User → AuthResult
  logged_in cfg now username user = record (refused "") {
    ok = true;
    username = some username;
    role = some user.role;
    requires_2fa = is_some user.totp_secret;
    token = some (issue_token cfg.auth_token_ttl_seconds now username user.role);
  }

  abbrev pub log_in :
      {F : Type 0}
      → Settings F
      → ℕ
      → String
      → String
      → Option String
      → Bool
      → Option User
      → AuthResult
  log_in cfg now username password code require_2fa none = refused "Invalid credentials"
  log_in cfg now username password code require_2fa (some user) =
      if not (verify_password password user.password_hash)
      then refused "Invalid credentials"
      else or_else
          (second_factor (require_2fa || cfg.auth_login_require_2fa) now username user.role
            user.totp_secret code)
          (logged_in cfg now username user)

  unfoldable pub authenticate :
      {F : Type 0}
      → Settings F
      → ℕ
      → Dict User
      → String
      → String
      → Option String
      → Bool
      → AuthResult
  authenticate cfg now users username password code require_2fa =
      log_in cfg now username password code require_2fa (get username users)

  abbrev pub settings_2fa : ℕ → Option String → Option User → Bool
  settings_2fa now code none = false
  settings_2fa now code (some user) = elim user.totp_secret [
    | none ↦ true
    | some secret ↦
        if is_empty (or_else code "") then false else verify_totp secret (or_else code "") now
  ]

  unfoldable pub verify_settings_2fa : ℕ → Dict User → String → Option String → Bool
  verify_settings_2fa now users username code = settings_2fa now code (get username users)
