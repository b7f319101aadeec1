-- ===== src/App/Auth/Keys.antt =====
-- The parts of backend/app/auth.py that a token is verified with: PyJWT as the code uses it, and the
-- reading of the key set.
use p_r_i_s_m.Prelude.{Eq-ℕ, ℕ, Option, none, some, String, Eq-String, ◌==◌, Bool, if◌then◌else◌}
use p_r_i_s_m.Dict.{Dict}
use p_r_i_s_m.Text.{Text, Eq-Text}

-- `role` and `claims` follow from the claims and are read by nobody.
pub record Principal : Type 0 where
  pub user_id : String
  pub email : Option String

-- the ways in which `verify` raises `AuthError`
pub data AuthError : Type 0 where
  malformed_token no_shared_secret no_jwks_url unknown_signing_key : AuthError
  algorithm_mismatch unsupported_algorithm token_expired invalid_token : AuthError
  could_not_verify no_subject : AuthError

-- what is read of a token's header, of a key of the key set, and of the claims
pub record Header : Type 0 where
  pub alg : String
  pub kid : Option String

pub record Jwk : Type 0 where
  pub alg : Option String
  pub kty : Option String
  pub kid : Option String

pub record Claims : Type 0 where
  pub sub : Option String
  pub email : Option String

-- `decode` returns the claims or raises.
pub data Decoded : Type 0 where
  claims : Claims → Decoded
  expired invalid : Decoded

-- the keyword arguments of `decode`; an empty audience or issuer is not asked for
pub record Options : Type 0 where
  pub leeway : ℕ
  pub audience : String
  pub issuer : String

-- PyJWT: the header of a token that was not verified yet, the decoding with a shared secret and
-- with a key, at a reading of the clock, and `get_default_algorithms`.
pub record Jwt (Key : Type 0) : Type 0 where
  pub header_of : Text → Option Header
  pub decode_shared : ℕ → Options → Text → String → String → Decoded
  pub decode_signed : ℕ → Options → Text → Key → String → Decoded
  pub is_known : String → Bool
  pub from_jwk : String → Jwk → Option Key

pub record Verifier (Key : Type 0) : Type 0 where
  pub secret : String
  pub jwks_url : String
  pub options : Options
  pub jwks_ttl : ℕ
  pub keys : Dict String (String × Key)
  pub keys_fetched_at : ℕ

-- A result, or an `AuthError`.
pub data Result (A : Type 0) : Type 0 where
  ok : A → Result A
  raised : AuthError → Result A

-- `jwk.get("alg") or ("ES256" if jwk.get("kty") == "EC" else "RS256")`
unfoldable pub default_alg : Option String → String
default_alg none = "RS256"
default_alg (some kty) = if kty == "EC" then "ES256" else "RS256"

unfoldable pub alg_of : Jwk → String
alg_of jwk = elim jwk.alg [
  | none ↦ default_alg jwk.kty
  | some alg ↦ if alg == "" then default_alg jwk.kty else alg
]

-- `jwk.get("kid", "")`
unfoldable pub kid_of : Option String → String
kid_of none = ""
kid_of (some kid) = kid

unfoldable pub claims_of : Decoded → Result Claims
claims_of (claims c) = ok c
claims_of expired = raised token_expired
claims_of invalid = raised invalid_token
