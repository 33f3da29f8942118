-- ===== src/Auth/Tokens/RoundTrip.antt =====
-- Tokens and password hashes that the service makes are the ones it accepts.
use doc_search_ai.Auth.Tokens.{
  Crypto, Claims, ascii, base64url_encode, sign, claims_of, create_access_token,
  validate_access_token, read_payload, user_of_claims, compare_digest, load_claims, or_default,
  hash_password, hash_parts, verify_password,
}
use doc_search_ai.Auth.Tokens.Base64.{
  CryptoLaws, base64url_encode-no_dot, base64url_encode-ascii, decode-encode,
}
use doc_search_ai.Auth.Models.{UserRecord}
use doc_search_ai.Errors.{invalid_token}
use doc_search_ai.Text.{
  Text, text_eq, text_eq_refl, text_eq_iff, split_once, split_once-append, split_once-joined,
  has_char, text,
}
use doc_search_ai.Common.{
  ℕ, ◌+◌, ◌≤◌, ◌≡◌, refl, some, [], ◌∷◌, ◌++◌, ltb, ok, raise, if◌then◌else◌, true, false,
  bind-eq-ok, Option-cases, inl, inr, Bool, arith, Bool-cases, raise_if, not, ◌∙◌, raise_if-false,
  ap,
}

module _ (crypto : Crypto) (laws : CryptoLaws crypto) where
  compare_digest-same : (a : Text) → ascii a ≡ true → compare_digest a a ≡ ok true
  unfolding compare_digest
  compare_digest-same a h = rw (h, text_eq_refl a) refl

  -- A token that was created is accepted until its lifetime is over, with the user it was made for
  -- (without the password hash), and from then on it is refused.
  pub validate-create :
      (secret : Text) (ttl created now : ℕ) (r : UserRecord)
      → validate_access_token crypto secret now (create_access_token crypto secret ttl created r)
        ≡ (if ltb (created + ttl) now
            then raise invalid_token
            else ok (record r { password_hash = [] }))
  unfolding validate_access_token create_access_token read_payload
  validate-create secret ttl created now r =
      let claims = crypto.dumps (claims_of r (created + ttl)) in
      let encoded = base64url_encode crypto claims in
      let signed : ascii (sign crypto secret encoded) ≡ true =
        unfold sign in base64url_encode-ascii crypto laws (crypto.hmac_sha256 secret encoded) in
      rw
        (
          create_access_token,
          validate_access_token,
          split_once-append 46 encoded (sign crypto secret encoded)
              (base64url_encode-no_dot crypto laws claims),
          compare_digest-same (sign crypto secret encoded) signed,
          read_payload,
          decode-encode crypto laws claims,
          laws.loaded (claims_of r (created + ttl)),
        )
        (unfold claims_of user_of_claims in refl)

  pub verify-hash :
      (salt password : Text)
      → has_char 36 salt ≡ false
      → (other_password : Text) → ascii (crypto.pbkdf2 other_password salt) ≡ true
      → verify_password crypto other_password (hash_password crypto salt password)
        ≡ ok (text_eq (crypto.pbkdf2 other_password salt) (crypto.pbkdf2 password salt))
  unfolding verify_password hash_password hash_parts has_char compare_digest
  verify-hash salt password plain other_password h =
      rw
        (
          hash_password,
          verify_password,
          hash_parts,
          split_once-append 36 (text "pbkdf2_sha256") (salt ++ 36 ∷ crypto.pbkdf2 password salt)
              refl,
          split_once-append 36 salt (crypto.pbkdf2 password salt) plain,
          text_eq_refl (text "pbkdf2_sha256"),
          compare_digest,
          h,
          laws.hexadecimal password salt,
        )
        refl

pub not-false : (b : Bool) → not b ≡ false → b ≡ true
not-false true h = refl
not-false false h = absurd cc

ltb-le : (a b : ℕ) → ltb a b ≡ false → b ≤ a
ltb-le a b h = ground arith

pub compare_digest-eq :
    (a b : Text) (same : Bool) → compare_digest a b ≡ ok same → text_eq a b ≡ same
unfolding compare_digest
compare_digest-eq a b same h = ground arith

read_payload-ok :
    (crypto : Crypto) (now : ℕ) (encoded : Text) (user : UserRecord)
    → read_payload crypto now encoded ≡ ok user
    → (claims : Claims) × (load_claims crypto encoded ≡ some claims)
      × (now ≤ or_default claims.exp 0)
      × (user_of_claims claims ≡ ok user)
unfolding read_payload
read_payload-ok crypto now encoded user h = elim (Option-cases (load_claims crypto encoded)) [
  | inl e ↦ absurd (cc (rw (e, read_payload) at h))
  | inr (claims, e) ↦ elim (Bool-cases (ltb (or_default claims.exp 0) now)) [
    | inl late ↦ absurd (cc (rw (e, late, read_payload) at h))
    | inr alive ↦ (claims, e, ltb-le _ _ alive, rw (e, alive, read_payload) at h)
  ]
]

-- A token that is accepted, at whatever time, was signed with the secret, is not expired, and
-- carries the user that is returned.
pub validate-signed :
    (crypto : Crypto) (secret : Text) (now : ℕ) (token : Text) (user : UserRecord)
    → validate_access_token crypto secret now token ≡ ok user
    → (encoded : Text) × (claims : Claims) × (token ≡ encoded ++ 46 ∷ sign crypto secret encoded)
      × (load_claims crypto encoded ≡ some claims)
      × (now ≤ or_default claims.exp 0)
      × (user_of_claims claims ≡ ok user)
unfolding validate_access_token
validate-signed crypto secret now token user h = elim (Option-cases (split_once 46 token)) [
  | inl e ↦ absurd (cc (rw (e, validate_access_token) at h))
  | inr ((encoded, signature), e) ↦
      let run = rw (e, validate_access_token) at h in
      let (same, compared, run1) =
        bind-eq-ok (compare_digest signature (sign crypto secret encoded)) _ run in
      let (_, raised, run2) = bind-eq-ok (raise_if (not same) invalid_token) _ run1 in
      let equal : text_eq signature (sign crypto secret encoded) ≡ true =
        compare_digest-eq signature (sign crypto secret encoded) same compared
        ∙ not-false same (raise_if-false (not same) _ raised) in
      let (claims, loaded, alive, made) = read_payload-ok crypto now encoded user run2 in
      (
        encoded,
        claims,
        split_once-joined 46 token encoded signature e
            ∙ ap (λ s. encoded ++ 46 ∷ s)
                ((text_eq_iff signature (sign crypto secret encoded)).0 equal),
        loaded,
        alive,
        made,
      )
]
