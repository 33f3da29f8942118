-- ===== src/Auth/Tokens.antt =====
-- backend/app/auth/service.py: the access tokens and the hashes of passwords. `Crypto` is what the
-- service calls of hashlib, hmac, base64 and json; times are whole seconds.
pub mod Base64
pub mod RoundTrip
use doc_search_ai.Auth.Models.{UserRecord, member_role}
use doc_search_ai.Parsers.{Bytes}
use doc_search_ai.Errors.{Exception, Raises, invalid_token, other}
use doc_search_ai.Text.{Text, text, text_eq, split_once, rstrip_char, repeat}
use doc_search_ai.Common.{
  ℕ, ◌+◌, ◌-◌, ◌%◌, Bool, true, false, not, ◌&&◌, Option, none, some, [], ◌∷◌, ◌++◌, all, ltb,
  length, ok, raise, ◌>>=◌, ◌>>◌, if◌then◌else◌, raise_if,
}

-- What `json.loads` finds under the keys of a token's payload. A payload that is signed is an object
-- with texts and a number under these keys, since only `create_access_token` signs.
pub record Claims : Type 0 where
  pub employee_id : Option Text
  pub workspace_id : Option Text
  pub workspace_name : Option Text
  pub role : Option Text
  pub display_name : Option Text
  pub exp : Option ℕ

pub record Crypto : Type 0 where
  -- `pbkdf2_hmac("sha256", password, salt, 120_000).hex()`
  pub pbkdf2 : Text → Text → Text
  -- `hmac.new(secret.encode(), message.encode(), sha256).digest()`
  pub hmac_sha256 : Text → Text → Bytes
  -- `base64.urlsafe_b64encode(b).decode()`, and its inverse, which may raise a ValueError
  pub b64encode : Bytes → Text
  pub b64decode : Text → Option Bytes
  -- `json.dumps(payload, ...).encode()` and `json.loads`
  pub dumps : Claims → Bytes
  pub loads : Bytes → Option Claims

abbrev pub ascii : Text → Bool
ascii s = all (λ c. ltb c 128) s

-- `secrets.compare_digest` of two texts, which must be ASCII.
unfoldable pub compare_digest : Text → Text → Raises Bool
compare_digest a b =
    if ascii a && ascii b then ok (text_eq a b) else raise (other (text "TypeError"))

unfoldable pub base64url_encode : Crypto → Bytes → Text
base64url_encode crypto bytes = rstrip_char 61 (crypto.b64encode bytes)

-- `-len(value) % 4`
abbrev pub padding_length : ℕ → ℕ
padding_length n = (4 - n % 4) % 4

unfoldable pub base64url_decode : Crypto → Text → Option Bytes
base64url_decode crypto value =
    crypto.b64decode (value ++ repeat 61 (padding_length (length value)))

unfoldable pub sign : Crypto → Text → Text → Text
sign crypto secret encoded_payload =
    base64url_encode crypto (crypto.hmac_sha256 secret encoded_payload)

unfoldable pub claims_of : UserRecord → ℕ → Claims
claims_of r exp = record {
  employee_id = some r.employee_id;
  workspace_id = some r.workspace_id;
  workspace_name = some r.workspace_name;
  role = some r.role;
  display_name = r.display_name;
  exp = some exp;
}

unfoldable pub create_access_token : Crypto → Text → ℕ → ℕ → UserRecord → Text
create_access_token crypto secret ttl now r =
    let encoded_payload = base64url_encode crypto (crypto.dumps (claims_of r (now + ttl))) in
    encoded_payload ++ 46 ∷ sign crypto secret encoded_payload

-- `payload[key]`
abbrev pub required : Option Text → Raises Text
required none = raise (other (text "KeyError"))
required (some value) = ok value

abbrev pub or_default {ℓ} : {A : Type ℓ} → Option A → A → A
or_default none default = default
or_default (some a) default = a

unfoldable pub user_of_claims : Claims → Raises UserRecord
user_of_claims claims = do
  employee_id ← required claims.employee_id
  workspace_id ← required claims.workspace_id
  workspace_name ← required claims.workspace_name
  ok (record {
    employee_id = employee_id;
    password_hash = [];
    workspace_id = workspace_id;
    workspace_name = workspace_name;
    role = or_default claims.role member_role;
    display_name = claims.display_name;
  })

abbrev pub load_claims : Crypto → Text → Option Claims
load_claims crypto encoded_payload = elim (base64url_decode crypto encoded_payload) [
  | none ↦ none
  | some bytes ↦ crypto.loads bytes
]

-- The payload of a token whose signature was checked.
unfoldable pub read_payload : Crypto → ℕ → Text → Raises UserRecord
read_payload crypto now encoded_payload = elim (load_claims crypto encoded_payload) [
  | none ↦ raise invalid_token
  | some claims ↦
      let user = user_of_claims claims in
      if ltb (or_default claims.exp 0) now then raise invalid_token else user
]

unfoldable pub validate_access_token : Crypto → Text → ℕ → Text → Raises UserRecord
validate_access_token crypto secret now token = elim (split_once 46 token) [
  | none ↦ raise invalid_token
  | some parts ↦ (do
    same ← compare_digest parts.1 (sign crypto secret parts.0)
    raise_if (not same) invalid_token
    read_payload crypto now parts.0)
]

-- `hash_password`, with the salt that `secrets.token_hex(16)` gave.
unfoldable pub hash_password : Crypto → Text → Text → Text
hash_password crypto salt password =
    text "pbkdf2_sha256" ++ 36 ∷ (salt ++ 36 ∷ crypto.pbkdf2 password salt)

-- The last two of the three parts of a hash, if its algorithm is the known one.
unfoldable pub hash_parts : Text → Option (Text × Text)
hash_parts password_hash = elim (split_once 36 password_hash) [
  | none ↦ none
  | some parts ↦
      let rest = split_once 36 parts.1 in
      if text_eq parts.0 (text "pbkdf2_sha256") then rest else none
]

unfoldable pub verify_password : Crypto → Text → Text → Raises Bool
verify_password crypto password password_hash = elim (hash_parts password_hash) [
  | none ↦ ok false
  | some parts ↦ compare_digest (crypto.pbkdf2 password parts.0) parts.1
]
