-- ===== src/Cipher.antt =====
-- The encryption of provider credentials: src/core/secret_cipher.py. AES-GCM, Base64, SHA-256 and
-- UTF-8 are outside, and so is the nonce that `os.urandom` gives.
pub mod Reversal
mod Tests
use sicurre.Prelude.{
  ℕ, zero, suc, ◌+◌, ◌-◌, ◌%◌, Bool, true, false, not, ◌&&◌, ◌||◌, Option, none, some, List, [],
  ◌∷◌, ◌++◌, ◌==◌, if◌then◌else◌, ltb,
}
use sicurre.Prelude.Lists.{length, take, drop}
use sicurre.Prelude.Text.{Text, codes, text_eq, is_empty, lower, starts_with}

abbrev pub Bytes : Type 0
Bytes = List ℕ

-- `none` is an exception.
pub record Crypto : Type 0 where
  pub b64encode : Bytes → Text
  pub b64decode : Text → Option Bytes
  pub sha256_digest : Text → Bytes
  pub aead_encrypt : Bytes → Bytes → Bytes → Text → Bytes
  pub aead_decrypt : Bytes → Bytes → Bytes → Text → Option Bytes
  pub utf8_encode : Text → Bytes
  pub utf8_decode : Bytes → Option Text

unfoldable pub secret_prefix : Text
secret_prefix = codes "enc:v1:"

unfoldable pub local_key_context : Text
local_key_context = codes "sicurre-local-secret-storage-v1"

-- The padding of a Base64 text, `"=" * (-n % 4)`
unfoldable pub padding : ℕ → Text
padding n = take ((4 - n % 4) % 4) (61 ∷ 61 ∷ 61 ∷ [])

unfoldable pub sized : Option Bytes → Option Bytes
sized none = none
sized (some key) = if length key == 32 then some key else none

unfoldable pub is_production : Text → Bool
is_production environment =
    text_eq (lower environment) (codes "production") || text_eq (lower environment) (codes "prod")

-- `s.removeprefix(p)`
abbrev pub behind : Text → Text → Text
behind [] s = s
behind (_ ∷ p) [] = []
behind (_ ∷ p) (_ ∷ s) = behind p s

module _ (crypto : Crypto) (configured_key environment : Text) where
  -- `_key_bytes`
  unfoldable pub key_bytes : Option Bytes
  unfolding sized padding is_production local_key_context
  key_bytes =
      if not (is_empty configured_key)
      then sized (crypto.b64decode (configured_key ++ padding (length configured_key)))
      else if is_production environment
      then none
      else some (crypto.sha256_digest local_key_context)

  unfoldable pub sealed : Bytes → Text → Option Bytes → Option Text
  sealed nonce value none = none
  sealed nonce value (some key) = some (
      secret_prefix
      ++ crypto.b64encode
          (nonce ++ crypto.aead_encrypt key nonce (crypto.utf8_encode value) secret_prefix))

  unfoldable pub encrypt_secret : Bytes → Text → Option Text
  unfolding sealed
  encrypt_secret nonce value =
      if starts_with secret_prefix value then some value else sealed nonce value key_bytes

  unfoldable pub read_text : Option Bytes → Option Text
  read_text none = none
  read_text (some plain) = crypto.utf8_decode plain

  unfoldable pub opened_with : Bytes → Option Bytes → Option Text
  unfolding read_text
  opened_with payload none = none
  opened_with payload (some key) =
      read_text (crypto.aead_decrypt key (take 12 payload) (drop 12 payload) secret_prefix)

  unfoldable pub opened : Option Bytes → Option Text
  unfolding opened_with
  opened none = none
  opened (some payload) = if ltb (length payload) 29 then none else opened_with payload key_bytes

  unfoldable pub decrypt_secret : Text → Option Text
  unfolding opened
  decrypt_secret value =
      if not (starts_with secret_prefix value)
      then some value
      else opened (crypto.b64decode (behind secret_prefix value))
