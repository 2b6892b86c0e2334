-- ===== src/Quarantine/Store.antt =====
-- The `QuarantineStore` protocol of src/data_platform/services/quarantine_storage.py, as the routes
-- use it. The file system and R2 are outside: a store is a parameter, and any call of it may raise.
use sicurre.Prelude.{ℕ, Bool, Option, List}
use sicurre.Prelude.Text.{Text}

abbrev pub Payload : Type 0
Payload = List ℕ

pub record QuarantineObject : Type 0 where
  pub storage_uri : Text
  pub content_hash : ℕ
  pub size_bytes : ℕ

pub record QuarantineStore : Type 1 where
  pub State : Type 0
  pub write : ℕ → ℕ → Payload → State → Option QuarantineObject × State
  pub read : Text → State → Option Payload
  pub delete : Text → State → Bool × State
