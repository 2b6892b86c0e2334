-- ===== src/Cipher/Reversal.antt =====
-- What is encrypted is marked as such, is not encrypted again, and decrypts to what it was.
use mathlib.Core.Option.{some-injective}
use sicurre.Prelude.{
  ◌+◌, ◌≤◌, ◌≡◌, refl, ap, sym, ◌∙◌, true, false, Option, none, some, [], ◌∷◌, ◌++◌, arith,
  if◌then◌else◌, if_cases, ltb,
}
use sicurre.Prelude.Lists.{length, take, drop, length-append}
use sicurre.Prelude.Text.{Text, starts_with, starts_with-append}
use sicurre.Cipher.{
  Bytes, Crypto, secret_prefix, behind, key_bytes, sealed, encrypt_secret, read_text, opened_with,
  opened, decrypt_secret,
}

-- What the libraries document: decoding undoes encoding, opening undoes sealing, a sealed text is
-- sixteen bytes longer, and UTF-8 gives a character at least one byte.
pub record CryptoLaws (crypto : Crypto) : Type 0 where
  pub b64_round : (b : Bytes) → crypto.b64decode (crypto.b64encode b) ≡ some b
  pub aead_round :
      (k n p : Bytes) (a : Text) → crypto.aead_decrypt k n (crypto.aead_encrypt k n p a) a ≡ some p
  pub aead_length :
      (k n p : Bytes) (a : Text) → length (crypto.aead_encrypt k n p a) ≡ length p + 16
  pub utf8_round : (t : Text) → crypto.utf8_decode (crypto.utf8_encode t) ≡ some t
  pub utf8_length : (t : Text) → length t ≤ length (crypto.utf8_encode t)

behind-append : (p s : Text) → behind p (p ++ s) ≡ s
behind-append [] s = refl
behind-append (c ∷ p) s = behind-append p s

take-append : (a b : Bytes) → take (length a) (a ++ b) ≡ a
take-append [] b = refl
take-append (x ∷ a) b = ap (λ (t : Bytes). x ∷ t) (take-append a b)

drop-append : (a b : Bytes) → drop (length a) (a ++ b) ≡ b
drop-append [] b = refl
drop-append (x ∷ a) b = drop-append a b

module _ (crypto : Crypto) (configured_key environment : Text) where
  sealed-marked :
      (nonce : Bytes) (value c : Text) (key : Option Bytes)
      → sealed crypto configured_key environment nonce value key ≡ some c
      → starts_with secret_prefix c ≡ true
  unfolding sealed
  sealed-marked nonce value c none e = absurd cc
  sealed-marked nonce value c (some key) e =
      ap (starts_with secret_prefix) (sym (some-injective _ c e))
      ∙ starts_with-append secret_prefix _

  -- What is encrypted carries the marker, and is not encrypted again.
  pub encryption_marks_and_stops :
      (nonce again : Bytes) (value c : Text)
      → encrypt_secret crypto configured_key environment nonce value ≡ some c
      → (starts_with secret_prefix c ≡ true)
        × (encrypt_secret crypto configured_key environment again c ≡ some c)
  unfolding encrypt_secret
  encryption_marks_and_stops nonce again value c e =
      let marked : starts_with secret_prefix c ≡ true =
        if_cases (λ (o : Option Text). o ≡ some c → starts_with secret_prefix c ≡ true)
          (starts_with secret_prefix value)
          (λ h k. ap (starts_with secret_prefix) (sym (some-injective value c k)) ∙ h)
          (λ h. sealed-marked nonce value c (key_bytes crypto configured_key environment)) e in
      (marked, rw marked refl)

  sealed_opens :
      (nonce : Bytes) (value c : Text) (key : Option Bytes)
      → CryptoLaws crypto
      → length nonce ≡ 12
      → 1 ≤ length value
      → key_bytes crypto configured_key environment ≡ key
      → sealed crypto configured_key environment nonce value key ≡ some c
      → opened crypto configured_key environment (crypto.b64decode (behind secret_prefix c))
        ≡ some value
  unfolding sealed opened opened_with read_text
  sealed_opens nonce value c none laws n full k e = absurd cc
  sealed_opens nonce value c (some key) laws n full k e =
      let plain = crypto.utf8_encode value in
      let body = crypto.aead_encrypt key nonce plain secret_prefix in
      let size : length (nonce ++ body) ≡ 12 + (length plain + 16) =
        length-append nonce body
        ∙ ap (λ m. m + length body) n
        ∙ ap (λ m. 12 + m) (laws.aead_length key nonce plain secret_prefix) in
      let long : ltb (length (nonce ++ body)) 29 ≡ false =
        ground (arith, size, laws.utf8_length value, full) in
      rw
        (
          sym (some-injective _ c e),
          behind-append secret_prefix (crypto.b64encode (nonce ++ body)),
          laws.b64_round (nonce ++ body),
          long,
          k,
          sym n,
          take-append nonce body,
          drop-append nonce body,
          laws.aead_round key nonce plain secret_prefix,
        )
        (laws.utf8_round value)

  -- With libraries that keep their documented laws, a credential that is not empty and does not
  -- start with the marker decrypts, with the same settings, to what it was, whatever nonce of
  -- twelve bytes was drawn.
  pub decrypt-encrypt :
      (nonce : Bytes) (value c : Text)
      → CryptoLaws crypto
      → length nonce ≡ 12
      → 1 ≤ length value
      → starts_with secret_prefix value ≡ false
      → encrypt_secret crypto configured_key environment nonce value ≡ some c
      → decrypt_secret crypto configured_key environment c ≡ some value
  unfolding decrypt_secret encrypt_secret
  decrypt-encrypt nonce value c laws n full fresh e =
      let sealed_as =
        ap
          (λ b.
            if b
            then some value
            else sealed crypto configured_key environment nonce value
                (key_bytes crypto configured_key environment))
          (sym fresh)
        ∙ e in
      rw (sealed-marked nonce value c (key_bytes crypto configured_key environment) sealed_as) (
        sealed_opens nonce value c (key_bytes crypto configured_key environment) laws n full refl
          sealed_as)
