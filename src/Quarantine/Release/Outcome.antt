-- ===== src/Quarantine/Release/Outcome.antt =====
-- What the caller of a release learns, and what it leaves behind.
use sicurre.Prelude.{
  ℕ, ◌≡◌, refl, ◌∙◌, ◌⊎◌, true, false, ◌&&◌, Option, none, some, List, [], ◌∷◌, arith, Bool-cases,
  Option-cases, inl, inr, if_both,
}
use sicurre.Prelude.Table.{find-update}
use sicurre.Prelude.Text.{Text, codes, ends_with}
use sicurre.Prelude.Lists.{take, find, find-some, any}
use sicurre.Prelude.Http.{Reply, ok, raised}
use sicurre.Database.{Db, AuthUser, Integration, connects, is_active}
use sicurre.Delivery.{Attempt, done, refused, crashed, DeliveryResult}
use sicurre.Quarantine.Item.{
  Status, held, releasing, released, deleted, QuarantineItem, owned, claim_row, fail_row,
  release_row, forget_row,
}
use sicurre.Quarantine.Store.{QuarantineStore}
use sicurre.Quarantine.Release.{
  Outside, text_or_empty, ReleaseResponse, stop, proceed, check, check_status, check_integration,
  already_released, claim, claimable, present, record_release_feedback, deliver, set_item,
  drop_object, settle, release_checked,
}

-- What the checks have established when they let a release go on.
pub record Cleared (db : Db) (user : AuthUser) (id : ℕ) (domain : Text) (item : QuarantineItem)
    (r : Integration) : Type 0 where
  pub found : find (owned id user.workspace_id domain) db.quarantine ≡ some item
  pub is_held : item.status ≡ held
  pub has_content : present item.raw_storage_uri ≡ true
  pub integrated :
      find (λ r. connects user.workspace_id item.domain r && is_active r.status) db.integrations
      ≡ some r
  pub has_token : present r.api_token ≡ true

check_integration_sound :
    (db : Db) (user : AuthUser) (item item' : QuarantineItem) (r : Integration)
    → check_integration db user item ≡ proceed item' r
    → (item ≡ item')
      × (present item.raw_storage_uri ≡ true)
      × (find (λ r. connects user.workspace_id item.domain r && is_active r.status) db.integrations
          ≡ some r)
      × (present r.api_token ≡ true)
unfolding check_integration
check_integration_sound db user item item' r h = ground arith

pub check_status_sound :
    (db : Db) (user : AuthUser) (item item' : QuarantineItem) (s : Status) (r : Integration)
    → check_status db user item s ≡ proceed item' r
    → (s ≡ held) × (check_integration db user item ≡ proceed item' r)
unfolding check_status
check_status_sound db user item item' held r h = (refl, h)
check_status_sound db user item item' releasing r h = cc
check_status_sound db user item item' released r h = cc
check_status_sound db user item item' deleted r h = cc

pub check-Cleared :
    (db : Db) (user : AuthUser) (id : ℕ) (domain : Text) (item : QuarantineItem) (r : Integration)
    → check db user id domain ≡ proceed item r
    → Cleared db user id domain item r
unfolding check
check-Cleared db user id domain item r h =
    elim (Option-cases (find (owned id user.workspace_id domain) db.quarantine)) [
      | inl e ↦ absurd (ground arith)
      | inr (row, e) ↦
          let status = check_status_sound db user row item row.status r (ground arith) in
          let rest = check_integration_sound db user row item r status.1 in
          record {
            found = ground arith;
            is_held = ground arith;
            has_content = ground arith;
            integrated = ground arith;
            has_token = ground arith;
          }
    ]

any-claimable :
    (id workspace : ℕ) (domain : Text) (rows : List QuarantineItem) (item : QuarantineItem)
    → find (owned id workspace domain) rows ≡ some item
    → item.status ≡ held
    → any (claimable id workspace domain) rows ≡ true
any-claimable id workspace domain [] item e h = absurd (ground arith)
any-claimable id workspace domain (r ∷ rs) item e h =
    ground (arith, any-claimable id workspace domain rs item)

module _ (store : QuarantineStore) (o : Outside) (user : AuthUser) (id : ℕ) (domain : Text) where
  open store use {State, delete}

  -- The row that a statement of the route addresses.
  abbrev pub row : Db → Option QuarantineItem
  row db = find (owned id user.workspace_id domain) db.quarantine

  row-set_item :
      (f : QuarantineItem → QuarantineItem)
      → ((r : QuarantineItem)
          → owned id user.workspace_id domain (f r) ≡ owned id user.workspace_id domain r)
      → (db : Db) (item : QuarantineItem) → row db ≡ some item
      → row (set_item store user id domain f db) ≡ some (f item)
  row-set_item f keep db item e = ground (
    arith,
    find-update (owned id user.workspace_id domain) (owned id user.workspace_id domain) f keep
        db.quarantine,
    find-some (owned id user.workspace_id domain) db.quarantine {x = item} e,
  )

  abbrev claimed : Db → Db
  claimed db = record db { quarantine = (claim id user.workspace_id domain db.quarantine).1 }

  row-claim :
      (db : Db) (item : QuarantineItem)
      → row db ≡ some item
      → item.status ≡ held
      → row (claimed db) ≡ some (claim_row item)
  unfolding claim
  row-claim db item e h = ground (
    arith,
    find-update (owned id user.workspace_id domain) (claimable id user.workspace_id domain)
        claim_row (λ r. refl) db.quarantine,
    find-some (owned id user.workspace_id domain) db.quarantine {x = item} e,
  )

  row-feedback :
      (item : QuarantineItem) (db : Db) → row (record_release_feedback o user item db) ≡ row db
  unfolding record_release_feedback
  row-feedback item db = ground arith

  -- What a settled delivery leaves in the row of a claimed item.
  abbrev pub IsSettled : QuarantineItem → Db × State → Reply ReleaseResponse × (Db × State) → Type 0
  IsSettled item (_, objects) (ok resp, (db', _)) =
      (item' : QuarantineItem) × (row db' ≡ some item')
      × (item'.status ≡ released)
      × (item'.delivery_message_id ≡ resp.delivery_message_id)
      × (item'.delivered_at ≡ some o.now)
      × (resp.idempotent ≡ false)
  IsSettled item (_, objects) (raised n d, (db', objects')) =
      (m : Text) × (row db' ≡ some (fail_row m (claim_row item)))
      × (◌≡◌ {A = State} objects' objects)
      × ((((n ≡ 403) ⊎ (n ≡ 424)) × (m ≡ take 240 d))
          ⊎ ((n ≡ 503)
              × (d ≡ codes "Quarantine storage is temporarily unavailable")
              × (m ≡ codes "Quarantine storage is unavailable")))

  drop_object-row :
      (item x : QuarantineItem) (w : Db × State)
      → row w.0 ≡ some x
      → (row (drop_object store user id domain item w).0 ≡ some x)
        ⊎ (row (drop_object store user id domain item w).0 ≡ some (forget_row x))
  unfolding drop_object
  drop_object-row item x (db, objects) e =
      elim (Bool-cases (delete (text_or_empty item.raw_storage_uri) objects).0) [
        | inl gone ↦ inr (rw gone (row-set_item forget_row (λ r. refl) db x e))
        | inr stays ↦ inl (rw stays e)
      ]

  settle-IsSettled :
      (item : QuarantineItem) (a : Attempt DeliveryResult) (db : Db) (objects : State)
      → row db ≡ some (claim_row item)
      → IsSettled item (db, objects) (settle store o user id domain item a (db, objects))
  unfolding settle
  settle-IsSettled item (done result) db objects e =
      let marked = set_item store user id domain (release_row result.message_id o.now) db in
      let final : QuarantineItem = release_row result.message_id o.now (claim_row item) in
      let found : row (record_release_feedback o user item marked) ≡ some final =
        row-feedback item marked
        ∙ row-set_item (release_row result.message_id o.now) (λ r. refl) db (claim_row item) e in
      elim (drop_object-row item final (record_release_feedback o user item marked, objects)
        found) [
          | inl kept ↦ (final, kept, refl, refl, refl, refl)
          | inr dropped ↦ (forget_row final, dropped, refl, refl, refl, refl)
        ]
  settle-IsSettled item (refused c m) db objects e = (
    take 240 m,
    row-set_item (fail_row (take 240 m)) (λ r. refl) db (claim_row item) e,
    refl,
    inl (
      if_both (λ (n : ℕ). (n ≡ 403) ⊎ (n ≡ 424)) (ends_with (codes "permission_required") c)
          (inl refl) (inr refl),
      refl,
    ),
  )
  settle-IsSettled item crashed db objects e =
      let m = codes "Quarantine storage is unavailable" in
      (m, row-set_item (fail_row m) (λ r. refl) db (claim_row item) e, refl, inr (refl, refl, refl))

  -- A release that the checks let through settles the item: the answer is a success and the row is
  -- released with the delivery that the answer names, or it is an error, the row is held again and
  -- but for the error as it was, and no stored object is touched. The row's error is the first 240
  -- characters of the answer's where Cloudflare refused (403 or 424), and the text that the storage
  -- is unavailable where the release crashed (503).
  pub release_settles :
      (db : Db) (objects : State) (item : QuarantineItem) (r : Integration)
      → check db user id domain ≡ proceed item r
      → IsSettled item
          (db, objects)
          (release_checked store o user id domain (check db user id domain) (db, objects))
  unfolding release_checked claim
  release_settles db objects item r h =
      let cleared = check-Cleared db user id domain item r h in
      let some_row =
        any-claimable id user.workspace_id domain db.quarantine item cleared.found
          cleared.is_held in
      rw (h, some_row)
        (settle-IsSettled item (deliver store o objects item r) (claimed db) objects
          (row-claim db item cleared.found cleared.is_held))

  check-released :
      (db : Db) (item : QuarantineItem)
      → row db ≡ some item
      → item.status ≡ released
      → check db user id domain ≡ stop (already_released db user item)
  unfolding check check_status
  check-released db item e h = ground arith

  released_again :
      (db : Db) (objects : State) (item : QuarantineItem)
      → row db ≡ some item
      → item.status ≡ released
      → release_checked store o user id domain (check db user id domain) (db, objects)
        ≡ (already_released db user item, (db, objects))
  unfolding release_checked
  released_again db objects item e h = rw (check-released db item e h)

module _ (store : QuarantineStore) (user : AuthUser) (id : ℕ) (domain : Text) where
  open store use {State}

  -- Once a release has succeeded, a second one, whatever the outside then answers, delivers nothing
  -- and changes nothing: it answers with the delivery of the first and says that it is a repeat.
  pub release_idempotent :
      (o o' : Outside) (db db' : Db) (objects objects' : State) (item : QuarantineItem)
      (r : Integration) (resp : ReleaseResponse)
      → check db user id domain ≡ proceed item r
      → release_checked store o user id domain (check db user id domain) (db, objects)
        ≡ (ok resp, (db', objects'))
      → (resp' : ReleaseResponse) × (release_checked store o' user id domain
            (check db' user id domain)
            (db', objects')
          ≡ (ok resp', (db', objects')))
        × (resp'.delivery_message_id ≡ resp.delivery_message_id)
        × (resp'.idempotent ≡ true)
  unfolding already_released
  release_idempotent o o' db db' objects objects' item r resp h e =
      let settled = rw e at (release_settles store o user id domain db objects item r h) in
      let (item', found, status, delivery, at, fresh) = settled in
      (
        record {
          forwarded_to = elim (find (connects user.workspace_id item'.domain) db'.integrations) [
            | none ↦ codes ""
            | some i ↦ i.destination_email
          ];
          delivery_message_id = item'.delivery_message_id;
          queued = none;
          idempotent = true;
        },
        released_again store o' user id domain db' objects' item' found status,
        delivery,
        refl,
      )
