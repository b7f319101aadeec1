-- ===== src/App/Auth/Verified.antt =====
-- What a token must be for its bearer to be a user, and what happens to any other.
use p_r_i_s_m.Prelude.{
  ℕ, List, ◌≡◌, ◌≢◌, refl, Option, none, some, String, Eq-String, ◌==◌, Bool, false, ◌||◌, arith,
  inl, inr, Bool-cases, Option-cases, eq_of_test, ne_of_test,
}
use text.Mathlib.TextEquality.{eq_iff}
use p_r_i_s_m.Text.{Text}
use p_r_i_s_m.App.Auth.{
  Principal, Header, Jwk, Claims, Decoded, claims, expired, invalid, Options, Jwt, Verifier, Result,
  ok, raised, find_key, claims_of, decode_with, read_claims, principal_of, verify, anonymous,
  signed_in, current_principal, configured, identity_of,
}

claims_of-ok : (d : Decoded) (c : Claims) → claims_of d ≡ ok c → d ≡ claims c
unfolding claims_of
claims_of-ok (claims d) c h = ground arith
claims_of-ok expired c h = absurd (ground arith)
claims_of-ok invalid c h = absurd (ground arith)

principal_of-ok :
    (read : Result Claims) (p : Principal)
    → principal_of read ≡ ok p
    → (c : Claims) × (read ≡ ok c) × (c.sub ≡ some p.user_id) × (p.user_id ≢ "")
unfolding principal_of
principal_of-ok (raised e) p h = absurd (ground arith)
principal_of-ok (ok c) p h = elim (Option-cases c.sub) [
  | inl e ↦ absurd (ground arith)
  | inr (sub, e) ↦ elim (Bool-cases (sub == "")) [
    | inl t ↦ absurd (ground arith)
    | inr t ↦ (c, refl, ground arith, λ p. ground (arith, eq_iff sub ""))
  ]
]

module _ {Key : Type 0} (jwt : Jwt Key) (now : ℕ) (doc again : Option (List Jwk)) where
  -- The claims that PyJWT has accepted: with the shared secret for a token of its own algorithm
  -- alone, and with a key of the key set for a token of that key's algorithm alone.
  pub data IsAccepted (v : Verifier Key) (token : Text) (header : Header) (c : Claims)
      : Type 0 where
    by_secret :
        header.alg ≡ "HS256"
        → v.secret ≢ ""
        → jwt.decode_shared now v.options token v.secret "HS256" ≡ claims c
        → IsAccepted v token header c
    by_key :
        (key : Key)
        → header.alg ≢ "HS256"
        → v.jwks_url ≢ ""
        → (find_key jwt now doc again header.kid v).1 ≡ ok (some (header.alg, key))
        → jwt.decode_signed now v.options token key header.alg ≡ claims c
        → IsAccepted v token header c

  decode_with-ok :
      (options : Options) (token : Text) (alg : String) (found : Result (Option (String × Key)))
      (c : Claims)
      → decode_with jwt now options token alg found ≡ ok c
      → (key : Key) × (found ≡ ok (some (alg, key)))
        × (jwt.decode_signed now options token key alg ≡ claims c)
  unfolding decode_with
  decode_with-ok options token alg (raised e) c h = absurd (ground arith)
  decode_with-ok options token alg (ok none) c h = absurd (ground arith)
  decode_with-ok options token alg (ok (some (key_alg, key))) c h =
      elim (Bool-cases (key_alg == alg)) [
        | inl t ↦ (
          key,
          ground (arith, eq_iff key_alg alg),
          claims_of-ok (jwt.decode_signed now options token key alg) c (ground arith),
        )
        | inr t ↦ absurd (ground arith)
      ]

  read_claims-ok :
      (v : Verifier Key) (token : Text) (header : Header) (c : Claims)
      → (read_claims jwt now doc again token header v).1 ≡ ok c
      → IsAccepted v token header c
  unfolding read_claims
  read_claims-ok v token header c h = elim (Bool-cases (header.alg == "HS256")) [
    | inl shared ↦ elim (Bool-cases (v.secret == "")) [
      | inl t ↦ absurd (ground arith)
      | inr t ↦
          by_secret (eq_of_test header.alg "HS256" shared) (ne_of_test v.secret "" t)
            (claims_of-ok _ c (ground arith))
    ]
    | inr other ↦ elim (Bool-cases (header.alg == "RS256" || header.alg == "ES256")) [
      | inl signed ↦ elim (Bool-cases (v.jwks_url == "")) [
        | inl t ↦ absurd (ground arith)
        | inr t ↦
            let (key, found, decoded) =
              decode_with-ok v.options token header.alg (find_key jwt now doc again header.kid v).1
                c (ground arith) in
            by_key key (ne_of_test header.alg "HS256" other) (ne_of_test v.jwks_url "" t) found
              decoded
      ]
      | inr t ↦ absurd (ground arith)
    ]
  ]

  verify-ok :
      (v : Verifier Key) (token : Text) (p : Principal)
      → (verify jwt now doc again token v).1 ≡ ok p
      → (header : Header) × (c : Claims) × (jwt.header_of token ≡ some header)
        × IsAccepted v token header c
        × (c.sub ≡ some p.user_id)
        × (p.user_id ≢ "")
  unfolding verify
  verify-ok v token p h = elim (Option-cases (jwt.header_of token)) [
    | inl e ↦ absurd (ground arith)
    | inr (header, e) ↦
        let read = (read_claims jwt now doc again token header v).1 in
        let of_read : principal_of read ≡ ok p = ground arith in
        let (c, same, sub, nonempty) = principal_of-ok read p of_read in
        (header, c, e, read_claims-ok v token header c same, sub, nonempty)
  ]

  identity_of-signed_in :
      (r : Result Principal) (p : Principal) → identity_of r ≡ signed_in p → r ≡ ok p
  unfolding identity_of
  identity_of-signed_in (ok q) p h = ground arith
  identity_of-signed_in (raised e) p h = absurd (ground arith)

  identity_of_known : (r : Result Principal) → identity_of r ≢ anonymous
  unfolding identity_of
  identity_of_known (ok q) h = ground arith
  identity_of_known (raised e) h = ground arith

  -- A request is a user's only if it bears a token whose claims PyJWT has accepted for exactly the
  -- algorithm of its header, with a key of that algorithm, and the user is the subject of those
  -- claims, which is not empty. It is anonymous only if it bears no token and none is required: a
  -- token that is not acceptable never makes it so.
  pub current_principal-IsAccepted :
      (auth_required : Bool) (bearing : Option Text) (v : Verifier Key)
      → ((p : Principal)
          → (current_principal jwt now doc again auth_required bearing v).1 ≡ signed_in p
          → (token : Text) × (header : Header) × (c : Claims) × (bearing ≡ some token)
            × (jwt.header_of token ≡ some header)
            × IsAccepted v token header c
            × (c.sub ≡ some p.user_id)
            × (p.user_id ≢ ""))
        × ((current_principal jwt now doc again auth_required bearing v).1 ≡ anonymous
            → (bearing ≡ none) × (auth_required ≡ false))
  unfolding current_principal
  current_principal-IsAccepted auth_required none v = (
    λ p h. absurd (elim (Bool-cases auth_required) [ inl t ↦ ground arith | inr t ↦ ground arith ]),
    λ h. (refl, elim (Bool-cases auth_required) [ inl t ↦ absurd (ground arith) | inr t ↦ t ]),
  )
  current_principal-IsAccepted auth_required (some token) v =
      let verified = (verify jwt now doc again token v).1 in
      (
        λ p h. elim (Bool-cases (configured v)) [
          | inl t ↦
              let (header, c, e, accepted, sub, nonempty) =
                verify-ok v token p (identity_of-signed_in verified p (ground arith)) in
              (token, header, c, refl, e, accepted, sub, nonempty)
          | inr t ↦ absurd (ground arith)
        ],
        λ h. elim (Bool-cases (configured v)) [
          | inl t ↦ absurd (identity_of_known verified (ground arith))
          | inr t ↦ absurd (ground arith)
        ],
      )
