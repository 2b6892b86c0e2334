-- ===== src/Quarantine/Release.antt =====
-- `_release_quarantine_item` and `_record_release_feedback` of
-- src/data_platform/api/routers/quarantine.py, in the phases between which other requests may run:
-- the checks, the claim, the delivery and the settlement.
pub mod Isolation
pub mod Outcome
use sicurre.Prelude.{
  ℕ, ◌≡◌, refl, Bool, true, false, not, ◌&&◌, ◌||◌, Option, none, some, List, [], ◌∷◌, ◌++◌, map,
  arith, if◌then◌else◌, is_some,
}
use sicurre.Prelude.Lists.{find, any, take}
use sicurre.Prelude.Table.{update}
use sicurre.Prelude.Text.{Text, codes, ends_with, is_empty}
use sicurre.Prelude.Http.{Reply, ok, raised, reject}
use sicurre.Prelude.Json.{Json}
use sicurre.Database.{Db, Integration, AuthUser, Feedback, connects, is_active, owned_domain}
use sicurre.Delivery.{
  Response, Attempt, done, refused, crashed, DeliveryResult, resolve_sending_address,
  send_raw_email,
}
use sicurre.Delivery.Headers.{Fields, prepare_restoration}
use sicurre.Quarantine.Item.{
  Status, held, releasing, released, deleted, QuarantineItem, owned, is_held, claim_row, fail_row,
  release_row, forget_row,
}
use sicurre.Quarantine.Store.{QuarantineStore, Payload}

pub record ReleaseResponse : Type 0 where
  pub forwarded_to : Text
  pub delivery_message_id : Option Text
  pub queued : Option Bool
  pub idempotent : Bool

-- `bool(value)` of a text column that may be NULL
abbrev pub present : Option Text → Bool
present none = false
present (some t) = not (is_empty t)

abbrev pub text_or_empty : Option Text → Text
text_or_empty none = codes ""
text_or_empty (some t) = t

-- The outcome of the checks: an answer, or the item and the integration to release it with.
pub data Checked : Type 0 where
  stop : Reply ReleaseResponse → Checked
  proceed : QuarantineItem → Integration → Checked

unfoldable pub already_released : Db → AuthUser → QuarantineItem → Reply ReleaseResponse
already_released db user item = ok (record {
  forwarded_to = elim (find (connects user.workspace_id item.domain) db.integrations) [
    | none ↦ codes ""
    | some r ↦ r.destination_email
  ];
  delivery_message_id = item.delivery_message_id;
  queued = none;
  idempotent = true;
})

unfoldable pub check_integration : Db → AuthUser → QuarantineItem → Checked
check_integration db user item =
    if not (present item.raw_storage_uri)
    then stop (reject 409 "Original email content is unavailable; the message was not released")
    else elim (find (λ r. connects user.workspace_id item.domain r && is_active r.status)
        db.integrations) [
          | none ↦ stop (reject 409 "Active Cloudflare integration required")
          | some r ↦
              if present r.api_token
              then proceed item r
              else stop (reject 409 "Cloudflare token is not configured")
        ]

unfoldable pub check_status : Db → AuthUser → QuarantineItem → Status → Checked
check_status db user item released = stop (already_released db user item)
check_status db user item releasing = stop (reject 409 "Message release is already in progress")
check_status db user item deleted = stop (reject 409 "Message is no longer held")
check_status db user item held = check_integration db user item

unfoldable pub check : Db → AuthUser → ℕ → Text → Checked
check db user id domain = elim (find (owned id user.workspace_id domain) db.quarantine) [
  | none ↦ stop (reject 404 "Quarantined item not found")
  | some item ↦ check_status db user item item.status
]

-- UPDATE ... SET status = 'releasing' ... AND status = 'held' RETURNING id
abbrev pub claimable : ℕ → ℕ → Text → QuarantineItem → Bool
claimable id workspace domain r = owned id workspace domain r && is_held r.status

unfoldable pub claim : ℕ → ℕ → Text → List QuarantineItem → Bool × List QuarantineItem
claim id workspace domain rows = (
  any (claimable id workspace domain) rows,
  update (claimable id workspace domain) claim_row rows,
)

-- What the process outside answers during one release.
pub record Outside : Type 0 where
  pub print : Json → Text
  pub decrypt_secret : Text → Option Text
  pub routing_addresses : Text → Text → Option Response
  pub routing_rules : Text → Text → Option Response
  pub send_raw : Text → Text → Text → Text → Payload → Option Response
  pub parse_mime : Payload → Fields × Payload
  pub print_mime : Fields → Payload → Payload
  pub new_message_id : Text → Text
  pub now : ℕ
  pub feedback_id : ℕ
  pub feedback_stored : Bool

abbrev pub restored : Outside → Text → Text → Payload → Payload
restored o sender recipient raw =
    let (fields, body) = o.parse_mime raw in
    o.print_mime (prepare_restoration sender recipient (o.new_message_id sender) fields) body

-- The delivery, once the content and the token are at hand.
unfoldable pub send_restored : Outside → Integration → Payload → Text → Attempt DeliveryResult
send_restored o r raw token =
    elim (resolve_sending_address o.print r.zone_name r.destination_email
      (o.routing_addresses token r.account_id) (o.routing_rules token r.zone_id)) [
        | refused c m ↦ refused c m
        | crashed ↦ crashed
        | done sender ↦ send_raw_email o.print r.destination_email (
            o.send_raw token r.account_id sender r.destination_email
              (restored o sender r.destination_email raw))
      ]

-- `_record_release_feedback`: an exception is suppressed.
unfoldable pub record_release_feedback : Outside → AuthUser → QuarantineItem → Db → Db
record_release_feedback o user item db =
    if o.feedback_stored
    then record db {
      feedback =
          record {
            id = o.feedback_id;
            workspace_id = user.workspace_id;
            member = user.id;
            event_id = item.message_id;
            original_verdict = item.safety_verdict;
            created_at = o.now;
          }
          ∷ db.feedback;
    }
    else db

module _ (store : QuarantineStore) where
  open store use {State, read, delete}

  unfoldable pub deliver : Outside → State → QuarantineItem → Integration → Attempt DeliveryResult
  deliver o objects item r = elim (read (text_or_empty item.raw_storage_uri) objects) [
    | none ↦ crashed
    | some raw ↦ elim (o.decrypt_secret (text_or_empty r.api_token)) [
      | none ↦ crashed
      | some token ↦ send_restored o r raw token
    ]
  ]

  -- UPDATE app_quarantine_item SET ... WHERE id = ? AND workspace_id = ? AND lower(domain) = lower(?)
  abbrev pub set_item : AuthUser → ℕ → Text → (QuarantineItem → QuarantineItem) → Db → Db
  set_item user id domain f db = record db {
    quarantine = update (owned id user.workspace_id domain) f db.quarantine;
  }

  -- The object goes first; only then is the row's reference cleared. An exception is suppressed.
  unfoldable pub drop_object : AuthUser → ℕ → Text → QuarantineItem → Db × State → Db × State
  drop_object user id domain item (db, objects) =
      let (gone, objects') = delete (text_or_empty item.raw_storage_uri) objects in
      (if gone then set_item user id domain forget_row db else db, objects')

  unfoldable pub settle :
      Outside
      → AuthUser
      → ℕ
      → Text
      → QuarantineItem
      → Attempt DeliveryResult
      → Db × State
      → Reply ReleaseResponse × (Db × State)
  settle o user id domain item (done result) (db, objects) = (
    ok (record {
      forwarded_to = result.recipient;
      delivery_message_id = some result.message_id;
      queued = some result.queued;
      idempotent = false;
    }),
    drop_object user id domain item (
      record_release_feedback o user item
          (set_item user id domain (release_row result.message_id o.now) db),
      objects,
    ),
  )
  settle o user id domain item (refused code message) (db, objects) = (
    raised (if ends_with (codes "permission_required") code then 403 else 424) message,
    (set_item user id domain (fail_row (take 240 message)) db, objects),
  )
  settle o user id domain item crashed (db, objects) = (
    reject 503 "Quarantine storage is temporarily unavailable",
    (set_item user id domain (fail_row (codes "Quarantine storage is unavailable")) db, objects),
  )

  unfoldable pub release_checked :
      Outside → AuthUser → ℕ → Text → Checked → Db × State → Reply ReleaseResponse × (Db × State)
  unfolding claim
  release_checked o user id domain (stop answer) w = (answer, w)
  release_checked o user id domain (proceed item r) (db, objects) =
      let (claimed, rows) = claim id user.workspace_id domain db.quarantine in
      let db' = record db { quarantine = rows } in
      if claimed
      then settle o user id domain item (deliver o objects item r) (db', objects)
      else (reject 409 "Message release is already in progress", (db', objects))

  unfoldable pub release_domain :
      Outside → AuthUser → ℕ → Reply Text → Db × State → Reply ReleaseResponse × (Db × State)
  release_domain o user id (raised n d) w = (raised n d, w)
  release_domain o user id (ok domain) (db, objects) =
      release_checked o user id domain (check db user id domain) (db, objects)

  unfoldable pub release_quarantine_item :
      Outside → AuthUser → ℕ → Text → Db × State → Reply ReleaseResponse × (Db × State)
  unfolding release_domain
  release_quarantine_item o user id domain (db, objects) =
      release_domain o user id (owned_domain db domain user) (db, objects)
