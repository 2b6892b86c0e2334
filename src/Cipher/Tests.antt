-- ===== src/Cipher/Tests.antt =====
-- A cipher that hides nothing, and the theorem on it.
use sicurre.Prelude.{ℕ, ◌+◌, ◌≤◌, ◌≡◌, refl, ap, Option, none, some, List, [], ◌∷◌, ◌++◌, arith}
use sicurre.Prelude.Lists.{drop}
use sicurre.Prelude.Text.{Text, codes, starts_with}
use sicurre.Cipher.{Bytes, Crypto, encrypt_secret, decrypt_secret, secret_prefix, key_bytes}
use sicurre.Cipher.Reversal.{CryptoLaws, decrypt-encrypt}

abbrev tag : Bytes
tag = 0 ∷ 0 ∷ 0 ∷ 0 ∷ 0 ∷ 0 ∷ 0 ∷ 0 ∷ 0 ∷ 0 ∷ 0 ∷ 0 ∷ 0 ∷ 0 ∷ 0 ∷ 0 ∷ []

-- The text behind a tag.
abbrev untagged : Bytes → Bytes
untagged b = drop 16 b

abbrev plain : Crypto
plain = record {
  b64encode = λ b. b;
  b64decode = λ t. some t;
  sha256_digest = λ t. t;
  aead_encrypt = λ k n p a. tag ++ p;
  aead_decrypt = λ k n c a. some (untagged c);
  utf8_encode = λ t. t;
  utf8_decode = λ b. some b;
}

plain-laws : CryptoLaws plain
plain-laws = record {
  b64_round = λ b. refl;
  aead_round = λ k n p a. refl;
  aead_length = λ k n p a. omega arith;
  utf8_round = λ t. refl;
  utf8_length = λ t. omega arith;
}

abbrev nonce : Bytes
nonce = 1 ∷ 2 ∷ 3 ∷ 4 ∷ 5 ∷ 6 ∷ 7 ∷ 8 ∷ 9 ∷ 10 ∷ 11 ∷ 12 ∷ []

abbrev sealed_token : Text
sealed_token = codes "enc:v1:" ++ nonce ++ tag ++ codes "cf-token"

decrypt-encrypt_example :
    decrypt_secret plain [] (codes "development") sealed_token ≡ some (codes "cf-token")
unfolding secret_prefix encrypt_secret key_bytes sicurre.Prelude.Text.lower
decrypt-encrypt_example =
    decrypt-encrypt plain [] (codes "development") nonce (codes "cf-token") sealed_token plain-laws
      refl (omega arith) refl refl
