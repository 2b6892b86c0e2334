-- ===== src/Quarantine/Custody/ReadBack.antt =====
-- What an upload has written is what the store reads back.
use sicurre.Prelude.{
  ℕ, ◌≤◌, ◌≡◌, refl, ap, ◌∙◌, true, false, Option, none, some, List, arith, if◌then◌else◌,
  Bool-cases, inl, inr,
}
use sicurre.Prelude.Table.{update, find-update}
use sicurre.Prelude.Lists.{find, length, take, find-some}
use sicurre.Prelude.Text.{Text, lower, strip, is_empty}
use sicurre.Prelude.Http.{ok}
use sicurre.Database.{Db, Integration}
use sicurre.Quarantine.Item.{QuarantineItem, owned}
use sicurre.Quarantine.Store.{QuarantineStore, QuarantineObject, Payload}
use sicurre.Quarantine.Release.{text_or_empty}
use sicurre.Quarantine.Custody.{
  Custody, stored_row, preview_row, vacant, record_object, awaited, record_write, upload_found,
  deposit, deposit_into, upload_for,
}

module _ (store : QuarantineStore) (c : Custody) where
  open store use {State, write, read}

  stored-found :
      (id : ℕ) (r : Integration) (o : QuarantineObject) (rows : List QuarantineItem)
      (item : QuarantineItem)
      → find (awaited store c id r) rows ≡ some item
      → item.raw_storage_uri ≡ none
      → find
          (awaited store c id r)
          (update (vacant store c id r.workspace_id (lower r.zone_name)) (stored_row o) rows)
        ≡ some (stored_row o item)
  stored-found id r o rows item e h = ground (
    arith,
    find-update (awaited store c id r) (vacant store c id r.workspace_id (lower r.zone_name))
        (stored_row o) (λ x. refl) rows,
    find-some (awaited store c id r) rows {x = item} e,
  )

  -- The row of an awaited message, after its content was recorded.
  record_object-awaited :
      (id : ℕ) (r : Integration) (payload : Payload) (o : QuarantineObject)
      (rows : List QuarantineItem) (item : QuarantineItem)
      → find (awaited store c id r) rows ≡ some item
      → item.raw_storage_uri ≡ none
      → (s : QuarantineItem) × (find
            (awaited store c id r)
            (record_object store c id r.workspace_id (lower r.zone_name) payload o rows)
          ≡ some s)
        × (s.raw_storage_uri ≡ some o.storage_uri)
        × (s.raw_content_hash ≡ some o.content_hash)
  unfolding record_object
  record_object-awaited id r payload o rows item e h =
      let stored = stored-found id r o rows item e h in
      let body = take 4000 (c.anonymize_pii (c.readable_body payload)) in
      let p = owned id r.workspace_id (lower r.zone_name) in
      let x : QuarantineItem = stored_row o item in
      elim (Bool-cases (is_empty (strip (c.readable_body payload)))) [
        | inl blank ↦ rw blank (x, stored, refl, refl)
        | inr shown ↦ rw shown (
          if p x then preview_row body x else x,
          ground (
            arith,
            find-update (awaited store c id r) p (preview_row body) (λ y. refl)
                (update (vacant store c id r.workspace_id (lower r.zone_name)) (stored_row o) rows),
          ),
          ground arith,
          ground arith,
        )
      ]

  written_deposit :
      (id workspace : ℕ) (domain : Text) (payload : Payload) (db : Db)
      (written : Option QuarantineObject × State) (o : QuarantineObject)
      → written.0 ≡ some o
      → record_write store c id workspace domain payload db written ≡ (
        ok (record { idempotent = false }),
        (
          record db {
            quarantine = record_object store c id workspace domain payload o db.quarantine;
          },
          written.1,
        ),
      )
  unfolding record_write
  written_deposit id workspace domain payload db (none, objects) o h = cc
  written_deposit id workspace domain payload db (some o', objects) o h = ground arith

  first_deposit :
      (id workspace : ℕ) (domain : Text) (payload : Payload) (item : QuarantineItem) (db : Db)
      (objects : State) (o : QuarantineObject)
      → item.raw_storage_uri ≡ none
      → is_empty payload ≡ false
      → length payload ≤ c.max_message_bytes
      → (write workspace id payload objects).0 ≡ some o
      → deposit_into store c id workspace domain payload item (db, objects) ≡ (
        ok (record { idempotent = false }),
        (
          record db {
            quarantine = record_object store c id workspace domain payload o db.quarantine;
          },
          (write workspace id payload objects).1,
        ),
      )
  unfolding deposit_into deposit
  first_deposit id workspace domain payload item db objects o h full fits written = ground (
    arith,
    written_deposit id workspace domain payload db (write workspace id payload objects) o written,
  )

  first_upload :
      (id : ℕ) (payload : Payload) (r : Integration) (db : Db) (objects : State)
      (item : QuarantineItem) (o : QuarantineObject)
      → find (awaited store c id r) db.quarantine ≡ some item
      → item.raw_storage_uri ≡ none
      → is_empty payload ≡ false
      → length payload ≤ c.max_message_bytes
      → (write r.workspace_id id payload objects).0 ≡ some o
      → upload_for store c id payload (some r) (db, objects) ≡ (
        ok (record { idempotent = false }),
        (
          record db {
            quarantine =
                record_object store c id r.workspace_id (lower r.zone_name) payload o db.quarantine;
          },
          (write r.workspace_id id payload objects).1,
        ),
      )
  unfolding upload_for upload_found
  first_upload id payload r db objects item o e h full fits written =
      ap (λ x. upload_found store c id payload r x (db, objects)) e
      ∙ first_deposit id r.workspace_id (lower r.zone_name) payload item db objects o h full fits
          written

  second_upload :
      (id : ℕ) (payload : Payload) (r : Integration) (w : Db × State) (s : QuarantineItem)
      (uri : Text)
      → find (awaited store c id r) w.0.quarantine ≡ some s
      → s.raw_storage_uri ≡ some uri
      → is_empty uri ≡ false
      → s.raw_content_hash ≡ some (c.sha256 payload)
      → is_empty payload ≡ false
      → length payload ≤ c.max_message_bytes
      → upload_for store c id payload (some r) w ≡ (ok (record { idempotent = true }), w)
  unfolding upload_for upload_found deposit_into
  second_upload id payload r w s uri e h uri_set hash full fits =
      ap (λ x. upload_found store c id payload r x w) e ∙ ground arith

  -- On a store that reads back what a write that succeeds has put under its URI: where a held message
  -- has no content, and the store's write of a payload that is not empty and within the size limit
  -- succeeds, then after the upload the store reads these very bytes under the URI that the row
  -- names, and the same upload again is acknowledged as a repeat and changes nothing.
  pub upload_then_read :
      ((workspace id : ℕ) (payload : Payload) (objects : State) (o : QuarantineObject)
        → (write workspace id payload objects).0 ≡ some o
        → (read o.storage_uri (write workspace id payload objects).1 ≡ some payload)
          × (is_empty o.storage_uri ≡ false)
          × (o.content_hash ≡ c.sha256 payload))
      → (id : ℕ) (payload : Payload) (r : Integration) (w : Db × State) (item : QuarantineItem)
        (o : QuarantineObject)
      → find (awaited store c id r) w.0.quarantine ≡ some item
      → item.raw_storage_uri ≡ none
      → is_empty payload ≡ false
      → length payload ≤ c.max_message_bytes
      → (write r.workspace_id id payload w.1).0 ≡ some o
      → let w' = (upload_for store c id payload (some r) w).1 in
        ((s : QuarantineItem) × (find (awaited store c id r) w'.0.quarantine ≡ some s)
          × (read (text_or_empty s.raw_storage_uri) w'.1 ≡ some payload))
        × (upload_for store c id payload (some r) w' ≡ (ok (record { idempotent = true }), w'))
  upload_then_read faithful id payload r (db, objects) item o e h full fits written =
      let laws = faithful r.workspace_id id payload objects o written in
      let (s, found, uri, hash) = record_object-awaited id r payload o db.quarantine item e h in
      rw (first_upload id payload r db objects item o e h full fits written) (
        (s, found, rw uri laws.0),
        second_upload id payload r _ s o.storage_uri found uri laws.1 (hash ∙ ap some laws.2) full
            fits,
      )
