-- ===== src/Auth/Token.antt =====
-- internal/auth/token.go: JSON web tokens and API keys. The library golang-jwt, SHA-256 and the
-- random bytes are parameters. Times are in seconds.
use Prim.Native.String.{◌++◌, slice}
use tinydm.Prelude.{ℕ, ◌+◌, ◌%◌, ◌/◌, String, Bool, true, ◌≡◌, List, [], ◌∷◌, if◌then◌else◌}
use tinydm.Prelude.Int.{ℤ, pos, ltb_ℤ, ◌+ℤ◌, scale, wrap64, negsuc}
use tinydm.Sql.{Result, ok, err, plain, wrap}
use tinydm.Auth.{UserType}

pub record Claims : Type 0 where
  pub username : String
  pub user_type : String
  pub subject : String
  pub issued_at : ℤ
  pub expires_at : ℤ

pub record Token : Type 0 where
  pub claims : Claims
  pub valid : Bool

-- golang-jwt: which algorithms are HMACs, `SignedString` with HS256, and `ParseWithClaims` at a
-- time, with the function that gives the key for an algorithm.
pub record Jwt : Type 0 where
  pub is_hmac : String → Bool
  pub signed_string : String → Claims → Result String
  pub parse_with_claims : ℕ → String → (String → Result String) → Result Token

-- What it documents: HS256 is an HMAC, and a token that it signed is accepted with the same key until
-- it expires, with the claims it was made of.
pub record Documented (jwt : Jwt) : Type 0 where
  pub hs256-IsHmac : jwt.is_hmac "HS256" ≡ true
  pub parse-sign :
      (key token : String) (claims : Claims) (now : ℕ) (key_of : String → Result String)
      → jwt.signed_string key claims ≡ ok token
      → key_of "HS256" ≡ ok key
      → ltb_ℤ (pos now) claims.expires_at ≡ true
      → jwt.parse_with_claims now token key_of ≡ ok (record { claims = claims; valid = true })

-- The whole seconds of nanoseconds
abbrev seconds_of : ℤ → ℤ
seconds_of (pos n) = pos (n / 1000000000)
seconds_of (negsuc n) = negsuc (n / 1000000000)

-- time.Duration(minutes) * time.Minute, an int64 of nanoseconds, in seconds
unfoldable pub lifetime : ℤ → ℤ
lifetime minutes = seconds_of (wrap64 (scale 60000000000 minutes))

module _ (jwt : Jwt) where
  unfoldable pub claims_of : ℕ → ℤ → String → String → UserType → Claims
  claims_of now expiry_minutes user_id username user_type = record {
    username = username;
    user_type = user_type;
    subject = user_id;
    issued_at = pos now;
    expires_at = pos now +ℤ lifetime expiry_minutes;
  }

  -- `NewJWT`
  unfoldable pub new_jwt : ℕ → String → ℤ → String → String → UserType → Result String
  new_jwt now secret expiry_minutes user_id username user_type =
      elim (jwt.signed_string secret (claims_of now expiry_minutes user_id username user_type)) [
        | ok signed ↦ ok signed
        | err e ↦ err (wrap "sign token" e)
      ]

  -- The function that `ParseJWT` gives to the library.
  abbrev pub key_for : String → String → Result String
  key_for secret alg =
      if jwt.is_hmac alg then ok secret else err (plain ("unexpected signing method: " ++ alg))

  -- `ParseJWT`
  unfoldable pub parse_jwt : ℕ → String → String → Result Claims
  parse_jwt now secret token_str = elim (jwt.parse_with_claims now token_str (key_for secret)) [
    | err e ↦ err (wrap "parse token" e)
    | ok token ↦ if token.valid then ok token.claims else err (plain "invalid token claims")
  ]

-- `hex.EncodeToString`
abbrev hex_digit : ℕ → String
hex_digit n = slice "0123456789abcdef" n (n + 1)

abbrev hex_byte : ℕ → String
hex_byte b = hex_digit (b / 16 % 16) ++ hex_digit (b % 16)

unfoldable pub encode_to_string : List ℕ → String
encode_to_string [] = ""
encode_to_string (b ∷ bytes) = hex_byte b ++ encode_to_string bytes

pub record GeneratedKey : Type 0 where
  pub plaintext : String
  pub hash : String
  pub prefix : String

module _ (sum256 : String → List ℕ) where
  -- `HashAPIKey`
  unfoldable pub hash_api_key : String → String
  hash_api_key key = encode_to_string (sum256 key)

  -- `GenerateAPIKey`; `read` is what `rand.Read` gives: 32 bytes or an error.
  unfoldable pub generate_api_key : Result (List ℕ) → Result GeneratedKey
  generate_api_key (err e) = err (wrap "generate api key bytes" e)
  generate_api_key (ok bytes) =
      let plaintext = "tdm_" ++ encode_to_string bytes in
      ok (record {
        plaintext = plaintext;
        hash = encode_to_string (sum256 plaintext);
        prefix = slice plaintext 0 12;
      })
