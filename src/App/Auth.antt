-- ===== src/App/Auth.antt =====
-- `JWTVerifier` and `current_principal` of backend/app/auth.py. PyJWT, the request for the key set
-- and the clock are not part of the repository: the first is the record `Jwt`, the others arguments.
mod Keys
pub mod Verified
unfoldable pub use Keys.*
use p_r_i_s_m.Prelude.{
  Eq-ℕ, ◌&&◌, ℕ, ◌+◌, ◌*◌, List, [], ◌∷◌, Option, none, some, String, Eq-String, ◌==◌, Bool, true,
  false, not, ◌||◌, ltb, if◌then◌else◌,
}
use p_r_i_s_m.Dict.{Dict, lookup, assign}
use p_r_i_s_m.Text.{Text, Unicode, Eq-Text, codes, strip}
use p_r_i_s_m.TtlCache.{second}

-- from the subject on
unfoldable pub principal_of : Result Claims → Result Principal
principal_of (raised e) = raised e
principal_of (ok c) = elim c.sub [
  | none ↦ raised no_subject
  | some sub ↦
      if sub == "" then raised no_subject else ok (record { user_id = sub; email = c.email })
]

module _ {Key : Type 0} where
  -- `configured`
  unfoldable pub configured : Verifier Key → Bool
  configured v = not (v.secret == "") || not (v.jwks_url == "")

  -- the loop over the key set; `none` where a key cannot be read
  unfoldable pub add_keys :
      Jwt Key → List Jwk → Dict String (String × Key) → Option (Dict String (String × Key))
  add_keys jwt [] keys = some keys
  add_keys jwt (jwk ∷ jwks) keys =
      let alg = alg_of jwk in
      elim (jwt.is_known alg) [
        | false ↦ add_keys jwt jwks keys
        | true ↦ elim (jwt.from_jwk alg jwk) [
          | none ↦ none
          | some key ↦ add_keys jwt jwks (assign (kid_of jwk.kid) (alg, key) keys)
        ]
      ]

  -- `self._keys[kid]`, or the only key where the token names none
  unfoldable pub pick : Option String → Dict String (String × Key) → Option (String × Key)
  pick (some kid) keys = lookup kid keys
  pick none [] = none
  pick none ((_, key) ∷ []) = some key
  pick none (_ ∷ _ ∷ _) = none

  -- the body of `if refresh or stale or not self._keys`, and the two tests behind it; the answer to
  -- the request is `none` where the request fails
  unfoldable pub refetch :
      Jwt Key
      → ℕ
      → Option (List Jwk)
      → Option String
      → Verifier Key
      → Verifier Key × Result (Option (String × Key))
  unfolding add_keys pick
  refetch jwt now none kid v = (v, raised could_not_verify)
  refetch jwt now (some jwks) kid v = elim (add_keys jwt jwks []) [
    | none ↦ (v, raised invalid_token)
    | some keys ↦ (record v { keys = keys; keys_fetched_at = now }, ok (pick kid keys))
  ]

  has_none : Dict String (String × Key) → Bool
  has_none [] = true
  has_none (_ ∷ _) = false

  -- `_key_for`
  unfoldable pub key_for :
      Jwt Key
      → ℕ
      → Option (List Jwk)
      → Option String
      → Bool
      → Verifier Key
      → Verifier Key × Result (Option (String × Key))
  unfolding refetch has_none pick
  key_for jwt now doc kid refresh v =
      let stale = ltb (v.keys_fetched_at + v.jwks_ttl * second) now in
      if refresh || (stale || has_none v.keys)
      then refetch jwt now doc kid v
      else (v, ok (pick kid v.keys))

  -- the two calls of `_key_for`, which may send a request each
  unfoldable pub find_key :
      Jwt Key
      → ℕ
      → Option (List Jwk)
      → Option (List Jwk)
      → Option String
      → Verifier Key
      → Verifier Key × Result (Option (String × Key))
  unfolding key_for
  find_key jwt now doc again kid v =
      let (v', found) = key_for jwt now doc kid false v in
      elim found [
        | ok none ↦ key_for jwt now again kid true v'
        | ok (some key) ↦ (v', ok (some key))
        | raised e ↦ (v', raised e)
      ]

  -- from the key on
  unfoldable pub decode_with :
      Jwt Key → ℕ → Options → Text → String → Result (Option (String × Key)) → Result Claims
  unfolding claims_of
  decode_with jwt now options token alg (raised e) = raised e
  decode_with jwt now options token alg (ok none) = raised unknown_signing_key
  decode_with jwt now options token alg (ok (some (key_alg, key))) =
      if key_alg == alg
      then claims_of (jwt.decode_signed now options token key alg)
      else raised algorithm_mismatch

  -- the branch of the algorithm, on a header
  unfoldable pub read_claims :
      Jwt Key
      → ℕ
      → Option (List Jwk)
      → Option (List Jwk)
      → Text
      → Header
      → Verifier Key
      → Verifier Key × Result Claims
  unfolding find_key decode_with claims_of
  read_claims jwt now doc again token header v =
      let (v', key) = find_key jwt now doc again header.kid v in
      let alg = header.alg in
      if alg == "HS256"
      then (
        v,
        if v.secret == ""
            then raised no_shared_secret
            else claims_of (jwt.decode_shared now v.options token v.secret "HS256"),
      )
      else if alg == "RS256" || alg == "ES256"
      then (if v.jwks_url == ""
          then (v, raised no_jwks_url)
          else (v', decode_with jwt now v.options token alg key))
      else (v, raised unsupported_algorithm)

  -- `verify`; `doc` and `again` are the answers to the requests for the key set, where they are sent
  unfoldable pub verify :
      Jwt Key
      → ℕ
      → Option (List Jwk)
      → Option (List Jwk)
      → Text
      → Verifier Key
      → Verifier Key × Result Principal
  unfolding read_claims principal_of
  verify jwt now doc again token v = elim (jwt.header_of token) [
    | none ↦ (v, raised malformed_token)
    | some header ↦
        let (v', read) = read_claims jwt now doc again token header v in (v', principal_of read)
  ]

-- `auth.partition(" ")`, without the space
unfoldable pub partition : Text → Text × Text
partition [] = ([], [])
partition (c ∷ text) =
    let (scheme, token) = partition text in if c == 32 then ([], text) else (c ∷ scheme, token)

-- `_bearer`, on the header `authorization`; `lower` is `str.lower`.
unfoldable pub bearer : Unicode → (Text → Text) → Text → Option Text
unfolding partition strip
bearer u lower auth =
    let (scheme, token) = partition auth in
    if lower scheme == codes "bearer" && not (strip u token == [])
    then some (strip u token)
    else none

-- The answers of `current_principal`: nobody, a user, or a response 401.
pub data Identity : Type 0 where
  anonymous : Identity
  signed_in : Principal → Identity
  sign_in_required : Identity
  not_configured : Identity
  not_signed_in : AuthError → Identity

unfoldable pub identity_of : Result Principal → Identity
identity_of (ok p) = signed_in p
identity_of (raised e) = not_signed_in e

-- `current_principal`, on the token of the request
unfoldable pub current_principal :
    {Key : Type 0}
    → Jwt Key
    → ℕ
    → Option (List Jwk)
    → Option (List Jwk)
    → Bool
    → Option Text
    → Verifier Key
    → Verifier Key × Identity
unfolding configured verify identity_of
current_principal jwt now doc again auth_required none v =
    (v, if auth_required then sign_in_required else anonymous)
current_principal jwt now doc again auth_required (some token) v =
    let (v', verified) = verify jwt now doc again token v in
    if configured v then (v', identity_of verified) else (v, not_configured)
