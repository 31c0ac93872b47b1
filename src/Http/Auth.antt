-- ===== src/Http/Auth.antt =====
-- internal/api/auth.go: the middleware that authenticates the requests of merchants. SHA-256, HMAC and
-- the reading of a time are arguments; both digests are in hexadecimal, as the code has them.
pub mod Signing
use coin.Base.{
  ℕ, ◌+◌, ◌-◌, ◌*◌, ◌^◌, String, Bool, true, false, not, ◌||◌, Option, none, some, List, [], ◌∷◌,
  ◌++◌, ltb, leb, ◌==◌, if◌then◌else◌,
}
use coin.Int.{ℤ, pos, negsuc, pos_part, leb_ℤ}
use coin.Text.{trim_space}
use coin.Text.Case.{to_lower}
use coin.Text.Hash.{bytes, same}
use coin.Listing.Token.{parse_int}
use coin.Http.{
  Outcome, passed, refused, internal_error, invalid_param, found_or, ◌>>=◌, ◌>>◌, refuse_if,
}

-- What the middleware reads of a request; `none` is a body that cannot be read.
pub record Request : Type 0 where
  pub method : String
  pub path : String
  pub merchant_no : String
  pub timestamp : String
  pub nonce : String
  pub signature : String
  pub body : Option (List ℕ)

-- The answer of `GetActiveSecret`.
pub data SecretAnswer : Type 0 where
  secret : String → SecretAnswer
  no_secret : SecretAnswer
  secret_error : SecretAnswer

-- 1970-01-01 UTC
abbrev pub unix_epoch : ℕ
unix_epoch = 62135596800000000000

abbrev timestamp_of : Option ℤ → Option ℕ → Option ℕ
timestamp_of (some (pos ms)) text = some (unix_epoch + ms * 1000000)
timestamp_of _ text = text

-- `parseTimestamp`: milliseconds, or a time of RFC 3339
unfoldable pub parse_timestamp : (String → Option ℕ) → String → Option ℕ
parse_timestamp parse_time v = timestamp_of (parse_int (bytes v)) (parse_time v)

-- `absDuration` of `Sub`, which stops at the largest int64.
unfoldable pub abs_duration : ℕ → ℕ → ℕ
abs_duration now t = let d = (now - t) + (t - now) in if ltb (2 ^ 63 - 1) d then 2 ^ 63 - 1 else d

-- The window of `NewAuthMiddleware`, five minutes where none is configured.
unfoldable pub time_window : ℤ → ℕ
time_window window = if leb_ℤ window (pos 0) then 300000000000 else pos_part window

-- strings.Join of the parts with newlines
unfoldable pub signing_string : String → String → String → String → String → List ℕ → List ℕ
signing_string method path merchant_no timestamp nonce body_hash =
    bytes method
    ++ 10
      ∷ (bytes path
          ++ 10
            ∷ (bytes merchant_no ++ 10 ∷ (bytes timestamp ++ 10 ∷ (bytes nonce ++ 10 ∷ body_hash))))

abbrev secret_or : SecretAnswer → Outcome String
secret_or (secret s) = passed s
secret_or no_secret = refused 401 "INVALID_SIGNATURE" "signature verify failed"
secret_or secret_error = internal_error "load merchant credential failed"

module _ (sha256_hex : List ℕ → List ℕ) (hmac_hex : String → List ℕ → List ℕ)
    (parse_time : String → Option ℕ) (get_active_secret : String → SecretAnswer) where
  -- The signature that a request with these trimmed headers must have.
  unfoldable pub expected_signature :
      String → String → String → String → String → String → List ℕ → List ℕ
  expected_signature key method path merchant_no timestamp nonce body =
      hmac_hex key (signing_string method path merchant_no timestamp nonce (sha256_hex body))

  -- `NewAuthMiddleware`: the merchant whom the request's context is given
  unfoldable pub authenticate : ℤ → ℕ → Request → Outcome String
  authenticate window now r = do
    let merchant_no = trim_space r.merchant_no
    let timestamp = trim_space r.timestamp
    let nonce = trim_space r.nonce
    let signature = trim_space r.signature
    refuse_if (merchant_no == "" || timestamp == "" || nonce == "" || signature == "")
        (refused 400 "AUTH_HEADER_MISSING" "missing auth header")
    key ← secret_or (get_active_secret merchant_no)
    t ←
        found_or (parse_timestamp parse_time timestamp)
          (refused 401 "TIMESTAMP_OUT_OF_WINDOW" "timestamp parse failed")
    refuse_if (ltb (time_window window) (abs_duration now t))
        (refused 401 "TIMESTAMP_OUT_OF_WINDOW" "timestamp out of window")
    body ← found_or r.body (invalid_param "read body failed")
    refuse_if
        (not (
          same (expected_signature key r.method r.path merchant_no timestamp nonce body)
            (bytes (to_lower signature))))
        (refused 401 "INVALID_SIGNATURE" "signature verify failed")
    passed merchant_no
