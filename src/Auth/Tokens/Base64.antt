-- ===== src/Auth/Tokens/Base64.antt =====
-- What the cryptographic library documents, and the encoding without padding.
use doc_search_ai.Auth.Tokens.{
  Crypto, Claims, ascii, base64url_encode, base64url_decode, padding_length,
}
use doc_search_ai.Parsers.{Bytes}
use doc_search_ai.Text.{Text, has_char, repeat, rstrip_char, rstrip_char-padded}
use doc_search_ai.Common.{ℕ, ◌+◌, ◌%◌, ◌<◌, ◌≡◌, some, false, true, ◌++◌, length, ap, arith, ◌∙◌}

-- A base64 text: characters without "=", "." and "$", and up to three "=" that make its length a
-- multiple of four.
pub record IsBase64 (s : Text) : Type 0 where
  pub body : Text
  pub pads : ℕ
  pub parts : s ≡ body ++ repeat 61 pads
  pub no_pad : has_char 61 body ≡ false
  pub no_dot : has_char 46 body ≡ false
  pub is_ascii : ascii body ≡ true
  pub few : pads < 4
  pub whole : (length body + pads) % 4 ≡ 0

pub record CryptoLaws (crypto : Crypto) : Type 0 where
  pub encoded : (b : Bytes) → IsBase64 (crypto.b64encode b)
  pub decoded : (b : Bytes) → crypto.b64decode (crypto.b64encode b) ≡ some b
  pub loaded : (claims : Claims) → crypto.loads (crypto.dumps claims) ≡ some claims
  -- a digest is written in hexadecimal
  pub hexadecimal : (password salt : Text) → ascii (crypto.pbkdf2 password salt) ≡ true

module _ (crypto : Crypto) (laws : CryptoLaws crypto) where
  encode-body : (b : Bytes) → base64url_encode crypto b ≡ (laws.encoded b).body
  unfolding base64url_encode
  encode-body b =
      let e = laws.encoded b in
      ap (rstrip_char 61) e.parts ∙ rstrip_char-padded 61 e.pads e.body e.no_pad

  pub base64url_encode-no_dot : (b : Bytes) → has_char 46 (base64url_encode crypto b) ≡ false
  base64url_encode-no_dot b = ap (has_char 46) (encode-body b) ∙ (laws.encoded b).no_dot

  pub base64url_encode-ascii : (b : Bytes) → ascii (base64url_encode crypto b) ≡ true
  base64url_encode-ascii b = ap ascii (encode-body b) ∙ (laws.encoded b).is_ascii

  padding : (n k : ℕ) → k < 4 → (n + k) % 4 ≡ 0 → padding_length n ≡ k
  padding n k few whole = omega arith

  -- The padding that was taken off is put back.
  pub decode-encode : (b : Bytes) → base64url_decode crypto (base64url_encode crypto b) ≡ some b
  unfolding base64url_decode
  decode-encode b =
      let e = laws.encoded b in
      rw (encode-body b, base64url_decode, padding (length e.body) e.pads e.few e.whole, ← e.parts)
        (laws.decoded b)
