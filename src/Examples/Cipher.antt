-- ===== src/Examples/Cipher.antt =====
-- A cryptography that is easy to compute with and keeps the laws: a digest is a constant,
-- a number is written in unary, and claims are written with their lengths.
use doc_search_ai.Auth.Tokens.{Crypto, Claims, ascii, padding_length}
use doc_search_ai.Auth.Tokens.Base64.{CryptoLaws}
use doc_search_ai.Parsers.{Bytes}
use doc_search_ai.Text.{Text, has_char, repeat}
use doc_search_ai.Common.{
  ℕ, zero, suc, ◌+◌, ◌==◌, Option, none, some, [], ◌∷◌, ◌++◌, length, take, drop, if◌then◌else◌,
  ◌≡◌, refl, false, true, arith, ap, ◌∙◌, all,
}

unfoldable pub unary : ℕ → Text → Text
unary zero rest = 66 ∷ rest
unary (suc n) rest = 65 ∷ unary n rest

unfoldable pub write_all : Bytes → Text
write_all [] = []
write_all (n ∷ b) = unary n (write_all b)

unfoldable pub read_all : ℕ → Text → Bytes
read_all n [] = []
read_all n (c ∷ s) =
    let more = read_all (suc n) s in
    let next = read_all 0 s in
    let same = read_all n s in if c == 65 then more else if c == 66 then n ∷ next else same

unary-read : (n m : ℕ) (s : Text) → read_all m (unary n s) ≡ (n + m) ∷ read_all 0 s
unfolding unary read_all
unary-read zero m s = ap (λ k. k ∷ read_all 0 s) (omega arith)
unary-read (suc n) m s = unary-read n (suc m) s ∙ ap (λ k. k ∷ read_all 0 s) (omega arith)

write-read : (b : Bytes) → read_all 0 (write_all b) ≡ b
unfolding write_all read_all
write-read [] = refl
write-read (n ∷ b) =
    unary-read n 0 (write_all b)
    ∙ ap (λ k. k ∷ read_all 0 (write_all b)) (omega arith)
    ∙ ap (λ l. n ∷ l) (write-read b)

pads-read : (k m : ℕ) → read_all m (repeat 61 k) ≡ []
unfolding read_all repeat
pads-read zero m = refl
pads-read (suc k) m = pads-read k m

padded-read : (s : Text) (k m : ℕ) → read_all m (s ++ repeat 61 k) ≡ read_all m s
unfolding read_all
padded-read [] k m = pads-read k m
padded-read (c ∷ s) k m =
    ground (arith, padded-read s k (suc m), padded-read s k 0, padded-read s k m)

unary-without :
    (ch n : ℕ) (s : Text)
    → (65 == ch) ≡ false
    → (66 == ch) ≡ false
    → has_char ch s ≡ false
    → has_char ch (unary n s) ≡ false
unfolding unary has_char
unary-without ch zero s a b h = rw (b, h) refl
unary-without ch (suc n) s a b h = rw (a, unary-without ch n s a b h) refl

write-without :
    (ch : ℕ) (b : Bytes)
    → (65 == ch) ≡ false
    → (66 == ch) ≡ false
    → has_char ch (write_all b) ≡ false
unfolding write_all has_char
write-without ch [] x y = refl
write-without ch (n ∷ b) x y = unary-without ch n (write_all b) x y (write-without ch b x y)

unary-ascii : (n : ℕ) (s : Text) → ascii s ≡ true → ascii (unary n s) ≡ true
unfolding unary all
unary-ascii zero s h = h
unary-ascii (suc n) s h = unary-ascii n s h

write-ascii : (b : Bytes) → ascii (write_all b) ≡ true
unfolding write_all all
write-ascii [] = refl
write-ascii (n ∷ b) = unary-ascii n (write_all b) (write-ascii b)

unfoldable pub write_claim : Option Text → Bytes → Bytes
write_claim none rest = 0 ∷ rest
write_claim (some t) rest = suc (length t) ∷ (t ++ rest)

unfoldable pub read_claim : Bytes → Option Text × Bytes
read_claim [] = (none, [])
read_claim (zero ∷ rest) = (none, rest)
read_claim (suc n ∷ rest) = (some (take n rest), drop n rest)

take-append : (t rest : Text) → take (length t) (t ++ rest) ≡ t
take-append [] rest = refl
take-append (c ∷ t) rest = ap (λ l. c ∷ l) (take-append t rest)

drop-append : (t rest : Text) → drop (length t) (t ++ rest) ≡ rest
drop-append [] rest = refl
drop-append (c ∷ t) rest = drop-append t rest

claim-read : (o : Option Text) (rest : Bytes) → read_claim (write_claim o rest) ≡ (o, rest)
unfolding read_claim write_claim
claim-read none rest = refl
claim-read (some t) rest = rw (take-append t rest, drop-append t rest) refl

unfoldable pub write_exp : Option ℕ → Bytes
write_exp none = []
write_exp (some n) = n ∷ []

unfoldable pub read_exp : Bytes → Option ℕ
read_exp [] = none
read_exp (n ∷ rest) = some n

exp-read : (o : Option ℕ) → read_exp (write_exp o) ≡ o
unfolding read_exp write_exp
exp-read none = refl
exp-read (some n) = refl

unfoldable pub write_claims : Claims → Bytes
write_claims c = write_claim c.employee_id (
    write_claim c.workspace_id (
      write_claim c.workspace_name
        (write_claim c.role (write_claim c.display_name (write_exp c.exp)))))

unfoldable pub read_claims : Bytes → Claims
read_claims b =
    let a1 = read_claim b in
    let a2 = read_claim a1.1 in
    let a3 = read_claim a2.1 in
    let a4 = read_claim a3.1 in
    let a5 = read_claim a4.1 in
    record {
      employee_id = a1.0;
      workspace_id = a2.0;
      workspace_name = a3.0;
      role = a4.0;
      display_name = a5.0;
      exp = read_exp a5.1;
    }

claims-read : (c : Claims) → read_claims (write_claims c) ≡ c
unfolding read_claims write_claims
claims-read c = simp (claim-read, exp-read)

abbrev pub toy_crypto : Crypto
toy_crypto = record {
  pbkdf2 = λ password salt. unary 1 [];
  hmac_sha256 = λ secret message. 1 ∷ [];
  b64encode = λ b. write_all b ++ repeat 61 (padding_length (length (write_all b)));
  b64decode = λ s. some (read_all 0 s);
  dumps = write_claims;
  loads = λ b. some (read_claims b);
}

pub toy_crypto-CryptoLaws : CryptoLaws toy_crypto
unfolding all
toy_crypto-CryptoLaws = record {
  encoded = λ b. record {
    body = write_all b;
    pads = padding_length (length (write_all b));
    parts = refl;
    no_pad = write-without 61 b refl refl;
    no_dot = write-without 46 b refl refl;
    is_ascii = write-ascii b;
    few = omega arith;
    whole = omega arith;
  };
  decoded = λ b. ap some (padded-read (write_all b) _ 0 ∙ write-read b);
  loaded = λ c. ap some (claims-read c);
  hexadecimal = λ password salt. unary-ascii 1 [] refl;
}
