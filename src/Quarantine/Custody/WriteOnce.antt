-- ===== src/Quarantine/Custody/WriteOnce.antt =====
-- A message's content is written once.
use sicurre.Prelude.{
  ℕ, ◌≡◌, refl, Bool, false, Option, none, some, List, arith, if◌then◌else◌, ltb, Bool-cases, inl,
  inr,
}
use sicurre.Prelude.Table.{update, find-update}
use sicurre.Prelude.Lists.{find, length, take}
use sicurre.Prelude.Text.{Text, lower, strip, is_empty}
use sicurre.Database.{Db, Integration}
use sicurre.Quarantine.Item.{QuarantineItem, owned}
use sicurre.Quarantine.Store.{QuarantineStore, QuarantineObject, Payload}
use sicurre.Quarantine.Release.{present}
use sicurre.Quarantine.Custody.{
  Custody, holds_secret, is_null, same_hash, stored_row, preview_row, vacant, record_object,
  awaited, record_write, upload_found, deposit, deposit_into, upload_for, upload_quarantine_content,
}

-- The stored content of a row, as the table names it.
abbrev pub SameContent : QuarantineItem → QuarantineItem → Type 0
SameContent r s =
    (s.raw_storage_uri ≡ r.raw_storage_uri)
    × (s.raw_content_hash ≡ r.raw_content_hash)
    × (s.raw_size_bytes ≡ r.raw_size_bytes)
    × (s.status ≡ r.status)

module _ (store : QuarantineStore) (c : Custody) (key owner : ℕ) (zone : Text) where
  open store use {State, write, read}

  -- In these rows the message has content, and it is that of `r`.
  abbrev Keeps : QuarantineItem → List QuarantineItem → Type 0
  Keeps r rows =
      (s : QuarantineItem) × (find (owned key owner zone) rows ≡ some s) × SameContent r s

  preview-Keeps :
      (p : QuarantineItem → Bool) (body : Text) (rows : List QuarantineItem) (r : QuarantineItem)
      → find (owned key owner zone) rows ≡ some r
      → Keeps r (update p (preview_row body) rows)
  preview-Keeps p body rows r e = (
    if p r then preview_row body r else r,
    ground (arith, find-update (owned key owner zone) p (preview_row body) (λ x. refl) rows),
    ground arith,
  )

  stored-kept :
      (id workspace : ℕ) (domain : Text) (o : QuarantineObject) (rows : List QuarantineItem)
      (r : QuarantineItem)
      → find (owned key owner zone) rows ≡ some r
      → is_null r.raw_storage_uri ≡ false
      → find
          (owned key owner zone)
          (update (vacant store c id workspace domain) (stored_row o) rows)
        ≡ some r
  stored-kept id workspace domain o rows r e h = ground (
    arith,
    find-update (owned key owner zone) (vacant store c id workspace domain) (stored_row o)
        (λ x. refl) rows,
  )

  record_object-Keeps :
      (id workspace : ℕ) (domain : Text) (payload : Payload) (o : QuarantineObject)
      (rows : List QuarantineItem) (r : QuarantineItem)
      → find (owned key owner zone) rows ≡ some r
      → is_null r.raw_storage_uri ≡ false
      → Keeps r (record_object store c id workspace domain payload o rows)
  unfolding record_object
  record_object-Keeps id workspace domain payload o rows r e h =
      let kept = stored-kept id workspace domain o rows r e h in
      elim (Bool-cases (is_empty (strip (c.readable_body payload)))) [
        | inl blank ↦ rw blank (r, kept, (refl, refl, refl, refl))
        | inr shown ↦ rw shown (
            preview-Keeps (owned id workspace domain)
              (take 4000 (c.anonymize_pii (c.readable_body payload)))
              (update (vacant store c id workspace domain) (stored_row o) rows) r kept)
      ]

  record_write-Keeps :
      (id workspace : ℕ) (domain : Text) (payload : Payload) (db : Db)
      (written : Option QuarantineObject × State) (r : QuarantineItem)
      → find (owned key owner zone) db.quarantine ≡ some r
      → is_null r.raw_storage_uri ≡ false
      → Keeps r (record_write store c id workspace domain payload db written).1.0.quarantine
  unfolding record_write
  record_write-Keeps id workspace domain payload db (none, objects) r e h =
      (r, e, (refl, refl, refl, refl))
  record_write-Keeps id workspace domain payload db (some o, objects) r e h =
      record_object-Keeps id workspace domain payload o db.quarantine r e h

  deposit-Keeps :
      (id workspace : ℕ) (domain : Text) (payload : Payload) (w : Db × State) (r : QuarantineItem)
      → find (owned key owner zone) w.0.quarantine ≡ some r
      → is_null r.raw_storage_uri ≡ false
      → Keeps r (deposit store c id workspace domain payload w).1.0.quarantine
  unfolding deposit
  deposit-Keeps id workspace domain payload (db, objects) r e h =
      record_write-Keeps id workspace domain payload db (write workspace id payload objects) r e h

  deposit_into-Keeps :
      (id workspace : ℕ) (domain : Text) (payload : Payload) (item : QuarantineItem)
      (w : Db × State) (r : QuarantineItem)
      → find (owned key owner zone) w.0.quarantine ≡ some r
      → is_null r.raw_storage_uri ≡ false
      → Keeps r (deposit_into store c id workspace domain payload item w).1.0.quarantine
  unfolding deposit_into
  deposit_into-Keeps id workspace domain payload item w r e h =
      elim (Bool-cases (is_empty payload)) [
        | inl a ↦ rw a (r, e, (refl, refl, refl, refl))
        | inr a ↦ rw a (elim (Bool-cases (ltb c.max_message_bytes (length payload))) [
          | inl b ↦ rw b (r, e, (refl, refl, refl, refl))
          | inr b ↦ rw b (elim (Bool-cases (present item.raw_storage_uri)) [
            | inl d ↦ rw d (elim (Bool-cases (same_hash item.raw_content_hash (c.sha256 payload))) [
              | inl f ↦ rw f (r, e, (refl, refl, refl, refl))
              | inr f ↦ rw f (r, e, (refl, refl, refl, refl))
            ])
            | inr d ↦ rw d (deposit-Keeps id workspace domain payload w r e h)
          ])
        ])
      ]

  upload_found-Keeps :
      (id : ℕ) (payload : Payload) (i : Integration) (o : Option QuarantineItem) (w : Db × State)
      (r : QuarantineItem)
      → find (owned key owner zone) w.0.quarantine ≡ some r
      → is_null r.raw_storage_uri ≡ false
      → Keeps r (upload_found store c id payload i o w).1.0.quarantine
  unfolding upload_found
  upload_found-Keeps id payload i none w r e h = (r, e, (refl, refl, refl, refl))
  upload_found-Keeps id payload i (some item) w r e h =
      deposit_into-Keeps id i.workspace_id (lower i.zone_name) payload item w r e h

  upload_for-Keeps :
      (id : ℕ) (payload : Payload) (i : Option Integration) (w : Db × State) (r : QuarantineItem)
      → find (owned key owner zone) w.0.quarantine ≡ some r
      → is_null r.raw_storage_uri ≡ false
      → Keeps r (upload_for store c id payload i w).1.0.quarantine
  unfolding upload_for
  upload_for-Keeps id payload none w r e h = (r, e, (refl, refl, refl, refl))
  upload_for-Keeps id payload (some i) (db, objects) r e h =
      upload_found-Keeps id payload i (find (awaited store c id i) db.quarantine) (db, objects) r e
        h

  -- Whatever is uploaded, by whom and for which message, a message that has its content keeps the
  -- reference, the hash, the size and the status that it had.
  pub upload_write_once :
      (id : ℕ) (secret : Text) (payload : Payload) (w : Db × State) (r : QuarantineItem)
      → find (owned key owner zone) w.0.quarantine ≡ some r
      → is_null r.raw_storage_uri ≡ false
      → (s : QuarantineItem) × (find
            (owned key owner zone)
            (upload_quarantine_content store c id secret payload w).1.0.quarantine
          ≡ some s)
        × SameContent r s
  unfolding upload_quarantine_content
  upload_write_once id secret payload (db, objects) r e h = elim (Bool-cases (is_empty secret)) [
    | inl a ↦ rw a (r, e, (refl, refl, refl, refl))
    | inr a ↦ rw a (
        upload_for-Keeps id payload (find (holds_secret (c.sha256_text secret)) db.integrations)
          (db, objects) r e h)
  ]
