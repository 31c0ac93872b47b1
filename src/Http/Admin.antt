-- ===== src/Http/Admin.antt =====
-- internal/api/admin_auth.go: the tokens of administrators, and the handlers that issue and ask for them.
-- JSON, base64 and HMAC are those of `Codec`, bcrypt and the user's row are arguments.
pub mod Tokens
use Prim.Native.Char.{Char, code}
use Prim.Native.String.{◌++◌}
use coin.Base.{
  ℕ, ◌+◌, ◌-◌, ◌*◌, ◌/◌, String, Bool, true, false, not, ◌&&◌, ◌||◌, Option, none, some, List, [],
  ◌∷◌, leb, ◌=?◌, ◌==◌, if◌then◌else◌,
}
use coin.Int.{ℤ, pos, pos_part, leb_ℤ}
use coin.Text.{trim_space}
use coin.Text.Case.{to_lower}
use coin.Http.{
  Outcome, passed, refused, Reply, write_success, internal_error, invalid_param, found_or, ◌>>=◌,
  ◌>>◌, refuse_if,
}

abbrev pub admin_token_type_access : String
admin_token_type_access = "access"

abbrev pub admin_token_type_refresh : String
admin_token_type_refresh = "refresh"

pub record AdminTokenClaims : Type 0 where
  pub subject : String
  pub token_type : String
  pub issued_at : ℕ
  pub expires_at : ℕ

-- The JSON of the header in base64, encoding/json of claims, base64.RawURLEncoding, and the HMAC of a
-- text under a key in base64.
pub record Codec : Type 0 where
  pub header : String
  pub marshal : AdminTokenClaims → String
  pub unmarshal : String → Option AdminTokenClaims
  pub encode : String → String
  pub decode : String → Option String
  pub mac : String → String → String

pub data TokenError : Type 0 where
  invalid_format invalid_signature invalid_payload invalid_claims invalid_subject : TokenError
  invalid_type token_expired : TokenError

-- Claims, or the error of `ParseAndValidate`.
pub data Parsed : Type 0 where
  valid : AdminTokenClaims → Parsed
  invalid : TokenError → Parsed

-- The times to live are in nanoseconds.
pub record AdminTokenManager : Type 0 where
  pub key : String
  pub access_ttl : ℕ
  pub refresh_ttl : ℕ

abbrev ttl_or : ℕ → ℤ → ℕ
ttl_or default ttl = if leb_ℤ ttl (pos 0) then default else pos_part ttl

-- `newAdminTokenManager`; `none` is its error
unfoldable pub new_admin_token_manager : String → ℤ → ℤ → Option AdminTokenManager
new_admin_token_manager key access_ttl refresh_ttl =
    if trim_space key == ""
    then none
    else some (record {
      key = trim_space key;
      access_ttl = ttl_or 1800000000000 access_ttl;
      refresh_ttl = ttl_or 604800000000000 refresh_ttl;
    })

-- `Unix` of an instant, none of which is earlier than 1970.
abbrev pub unix : ℕ → ℕ
unix t = (t - 62135596800000000000) / 1000000000

abbrev in_front : Char → List String → List String
in_front c [] = []
in_front c (p ∷ ps) = String.◌∷◌ c p ∷ ps

-- `strings.Split` at dots
unfoldable pub split_dots : String → List String
split_dots String.[] = "" ∷ []
split_dots (String.◌∷◌ c s) =
    let rest = split_dots s in if code c =? 46 then "" ∷ rest else in_front c rest

abbrev behind_space : Char → Option (String × String) → Option (String × String)
behind_space c none = none
behind_space c (some (u, v)) = some (String.◌∷◌ c u, v)

-- `strings.SplitN` at a space into two parts; `none` where there is no space
unfoldable pub split_space : String → Option (String × String)
split_space String.[] = none
split_space (String.◌∷◌ c s) =
    let rest = split_space s in if code c =? 32 then some ("", s) else behind_space c rest

pub record TokenPair : Type 0 where
  pub access_token : String
  pub refresh_token : String
  pub access_expires_at : ℕ
  pub refresh_expires_at : ℕ

pub record AdminUser : Type 0 where
  pub username : String
  pub password_hash : String
  pub status : String

-- The answer of `GetAdminUserByUsername`.
pub data UserAnswer : Type 0 where
  user : AdminUser → UserAnswer
  no_user : UserAnswer
  user_error : UserAnswer

pub record AdminLoginRequest : Type 0 where
  pub username : String
  pub password : String

-- What a login and a refresh answer.
pub record Session : Type 0 where
  pub tokens : TokenPair
  pub username : String

module _ (codec : Codec) (m : AdminTokenManager) where
  -- `sign`
  unfoldable pub sign : AdminTokenClaims → String
  sign claims =
      let signed = codec.header ++ "." ++ codec.encode (codec.marshal claims) in
      signed ++ "." ++ codec.mac m.key signed

  abbrev pub token_pair : ℕ → String → TokenPair
  token_pair now username = record {
    access_token = sign (record {
      subject = username;
      token_type = admin_token_type_access;
      issued_at = unix now;
      expires_at = unix (now + m.access_ttl);
    });
    refresh_token = sign (record {
      subject = username;
      token_type = admin_token_type_refresh;
      issued_at = unix now;
      expires_at = unix (now + m.refresh_ttl);
    });
    access_expires_at = now + m.access_ttl;
    refresh_expires_at = now + m.refresh_ttl;
  }

  -- `IssueTokenPair`; `none` is its error
  unfoldable pub issue_token_pair : ℕ → String → Option TokenPair
  issue_token_pair now username =
      if trim_space username == "" then none else some (token_pair now (trim_space username))

  -- The tests of `ParseAndValidate` on claims that are signed.
  unfoldable pub check_claims : ℕ → String → AdminTokenClaims → Parsed
  check_claims now expected_type claims =
      if trim_space claims.subject == ""
      then invalid invalid_subject
      else if not (trim_space claims.token_type == trim_space expected_type)
      then invalid invalid_type
      else if leb claims.expires_at (unix now)
      then invalid token_expired
      else valid claims

  abbrev read_claims : ℕ → String → Option AdminTokenClaims → Parsed
  read_claims now expected_type none = invalid invalid_claims
  read_claims now expected_type (some claims) = check_claims now expected_type claims

  abbrev read_payload : ℕ → String → Option String → Parsed
  read_payload now expected_type none = invalid invalid_payload
  read_payload now expected_type (some raw) = read_claims now expected_type (codec.unmarshal raw)

  abbrev read_parts : ℕ → String → List String → Parsed
  read_parts now expected_type (header ∷ payload ∷ signature ∷ []) =
      if codec.mac m.key (header ++ "." ++ payload) == signature
      then read_payload now expected_type (codec.decode payload)
      else invalid invalid_signature
  read_parts now expected_type _ = invalid invalid_format

  -- `ParseAndValidate`
  unfoldable pub parse_and_validate : ℕ → String → String → Parsed
  parse_and_validate now token expected_type =
      read_parts now expected_type (split_dots (trim_space token))

  abbrev subject_or : (TokenError → String) → Parsed → Outcome String
  subject_or message (valid claims) = passed claims.subject
  subject_or message (invalid e) = refused 401 "ADMIN_AUTH_INVALID" (message e)

  -- `Middleware`: the username that the request's context is given
  unfoldable pub authorize : (TokenError → String) → ℕ → String → Outcome String
  authorize message now authorization = do
    let authz = trim_space authorization
    refuse_if (authz == "") (refused 401 "ADMIN_AUTH_REQUIRED" "missing authorization header")
    (scheme, token) ←
        found_or (split_space authz)
          (refused 401 "ADMIN_AUTH_REQUIRED" "invalid authorization header")
    refuse_if (not (to_lower (trim_space scheme) == "bearer"))
        (refused 401 "ADMIN_AUTH_REQUIRED" "invalid authorization header")
    subject_or message (parse_and_validate now (trim_space token) admin_token_type_access)

  abbrev active_user : String → UserAnswer → Outcome AdminUser
  active_user message user_error = internal_error "load admin user failed"
  active_user message no_user = refused 401 "ADMIN_AUTH_INVALID" message
  active_user message (user u) =
      if to_lower (trim_space u.status) == "active"
      then passed u
      else refused 401 "ADMIN_AUTH_INVALID" message

  abbrev session_of : ℕ → AdminUser → Outcome (Reply Session)
  session_of now u =
      found_or (issue_token_pair now u.username) (internal_error "issue token failed") >>= λ tokens.
      write_success (record { tokens = tokens; username = u.username })

  -- `handleLogin`
  unfoldable pub handle_login :
      (String → String → Bool)
      → (String → UserAnswer)
      → ℕ
      → Option AdminLoginRequest
      → Outcome (Reply Session)
  handle_login matches user_by_name now body = do
    req ← found_or body (invalid_param "invalid request body")
    let username = trim_space req.username
    let password = trim_space req.password
    refuse_if (username == "" || password == "")
        (invalid_param "username and password are required")
    u ← active_user "invalid username or password" (user_by_name username)
    refuse_if (not (matches u.password_hash password))
        (refused 401 "ADMIN_AUTH_INVALID" "invalid username or password")
    session_of now u

  -- `handleRefresh`, with the token of the body
  unfoldable pub handle_refresh :
      (TokenError → String) → (String → UserAnswer) → ℕ → Option String → Outcome (Reply Session)
  handle_refresh message user_by_name now body = do
    given ← found_or body (invalid_param "invalid request body")
    let token = trim_space given
    refuse_if (token == "") (invalid_param "refresh_token is required")
    subject ← subject_or message (parse_and_validate now token admin_token_type_refresh)
    u ← active_user "admin user inactive" (user_by_name subject)
    session_of now u
