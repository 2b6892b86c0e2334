-- ===== src/Quarantine/Custody.antt =====
-- The deposit of a held message's original MIME: `upload_quarantine_content` of
-- src/data_platform/api/routers/email_scan.py. The hash, the decoding of the body and the masking of
-- personal data are arguments.
pub mod ReadBack
pub mod WriteOnce
use sicurre.Prelude.{
  ℕ, ◌≡◌, refl, Bool, true, false, not, ◌&&◌, ◌||◌, Option, none, some, List, [], ◌∷◌, arith,
  if◌then◌else◌, ◌==◌, ltb,
}
use sicurre.Prelude.Table.{update}
use sicurre.Prelude.Lists.{any, find, length, take}
use sicurre.Prelude.Text.{Text, lower, strip, is_empty, same_name}
use sicurre.Prelude.Http.{Reply, ok, raised, reject}
use sicurre.Database.{Db, Integration, IntegrationStatus, active, pending_verification}
use sicurre.Quarantine.Item.{QuarantineItem, owned, is_held}
use sicurre.Quarantine.Store.{QuarantineStore, QuarantineObject, Payload}
use sicurre.Quarantine.Release.{present}

abbrev pub accepts_mail : IntegrationStatus → Bool
accepts_mail active = true
accepts_mail pending_verification = true
accepts_mail _ = false

-- WHERE shared_secret_hash = ? AND status IN ('pending_verification','active')
abbrev pub holds_secret : ℕ → Integration → Bool
holds_secret secret_hash r = r.shared_secret_hash == secret_hash && accepts_mail r.status

pub record CustodyResponse : Type 0 where
  pub idempotent : Bool

pub record Custody : Type 0 where
  pub max_message_bytes : ℕ
  pub sha256_text : Text → ℕ
  pub sha256 : Payload → ℕ
  pub readable_body : Payload → Text
  pub anonymize_pii : Text → Text

abbrev pub is_null : Option Text → Bool
is_null none = true
is_null (some _) = false

abbrev pub same_hash : Option ℕ → ℕ → Bool
same_hash none h = false
same_hash (some g) h = g == h

abbrev pub stored_row : QuarantineObject → QuarantineItem → QuarantineItem
stored_row o r = record r {
  raw_storage_uri = some o.storage_uri;
  raw_content_hash = some o.content_hash;
  raw_size_bytes = some o.size_bytes;
}

abbrev pub preview_row : Text → QuarantineItem → QuarantineItem
preview_row body r = record r { body_text = body }

module _ (store : QuarantineStore) (c : Custody) where
  open store use {State, write}

  -- ... AND raw_storage_uri IS NULL
  abbrev pub vacant : ℕ → ℕ → Text → QuarantineItem → Bool
  vacant id workspace domain r = owned id workspace domain r && is_null r.raw_storage_uri

  unfoldable pub record_object :
      ℕ → ℕ → Text → Payload → QuarantineObject → List QuarantineItem → List QuarantineItem
  record_object id workspace domain payload o rows =
      let stored = update (vacant id workspace domain) (stored_row o) rows in
      let readable = c.readable_body payload in
      if is_empty (strip readable)
      then stored
      else update (owned id workspace domain) (preview_row (take 4000 (c.anonymize_pii readable)))
          stored

  unfoldable pub record_write :
      ℕ
      → ℕ
      → Text
      → Payload
      → Db
      → Option QuarantineObject × State
      → Reply CustodyResponse × (Db × State)
  record_write id workspace domain payload db (none, objects) =
      (reject 500 "Internal Server Error", (db, objects))
  record_write id workspace domain payload db (some o, objects) = (
    ok (record { idempotent = false }),
    (record db { quarantine = record_object id workspace domain payload o db.quarantine }, objects),
  )

  unfoldable pub deposit :
      ℕ → ℕ → Text → Payload → Db × State → Reply CustodyResponse × (Db × State)
  deposit id workspace domain payload (db, objects) =
      record_write id workspace domain payload db (write workspace id payload objects)

  unfoldable pub deposit_into :
      ℕ → ℕ → Text → Payload → QuarantineItem → Db × State → Reply CustodyResponse × (Db × State)
  deposit_into id workspace domain payload item w =
      if is_empty payload
      then (reject 400 "Raw MIME content is required", w)
      else if ltb c.max_message_bytes (length payload)
      then (reject 413 "Message exceeds quarantine storage limit", w)
      else if present item.raw_storage_uri
      then (if same_hash item.raw_content_hash (c.sha256 payload)
          then (ok (record { idempotent = true }), w)
          else (reject 409 "Quarantine content already exists", w))
      else deposit id workspace domain payload w

  -- WHERE id = ? AND workspace_id = ? AND lower(domain) = lower(?) AND status = 'held'
  abbrev pub awaited : ℕ → Integration → QuarantineItem → Bool
  awaited id r i = owned id r.workspace_id (lower r.zone_name) i && is_held i.status

  unfoldable pub upload_found :
      ℕ
      → Payload
      → Integration
      → Option QuarantineItem
      → Db × State
      → Reply CustodyResponse × (Db × State)
  upload_found id payload r none w = (reject 404 "Quarantined item not found", w)
  upload_found id payload r (some item) w =
      deposit_into id r.workspace_id (lower r.zone_name) payload item w

  unfoldable pub upload_for :
      ℕ → Payload → Option Integration → Db × State → Reply CustodyResponse × (Db × State)
  upload_for id payload none w = (reject 401 "Invalid shared secret", w)
  upload_for id payload (some r) (db, objects) =
      upload_found id payload r (find (awaited id r) db.quarantine) (db, objects)

  unfoldable pub upload_quarantine_content :
      ℕ → Text → Payload → Db × State → Reply CustodyResponse × (Db × State)
  upload_quarantine_content id secret payload (db, objects) =
      if is_empty secret
      then (reject 401 "Missing X-Sicurre-Secret header", (db, objects))
      else upload_for id payload (find (holds_secret (c.sha256_text secret)) db.integrations)
          (db, objects)
