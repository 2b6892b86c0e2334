-- ===== src/Quarantine/Tests.antt =====
-- Inputs that exercise the quarantine theorems.
use mathlib.Core.Path.{subst}
use mathlib.Core.Option.{some-injective}
use native.Mathlib.Decide.{ℕ_discrete}
use sicurre.Prelude.{
  ℕ, ◌+◌, ◌≤◌, ◌≡◌, refl, true, false, Option, none, some, List, [], ◌∷◌, ◌++◌, arith,
  if◌then◌else◌,
}
use sicurre.Prelude.Lists.{length, find}
use sicurre.Prelude.Table.{select}
use sicurre.Prelude.Text.{Text, codes, text_eq, text_eq_refl, is_empty, lower, same_name, ends_with}
use sicurre.Prelude.Http.{ok}
use sicurre.Prelude.Json.{Json, bool, str, arr, obj, nil, cons, end, field}
use sicurre.Database.{Db, Integration, AuthUser, active}
use sicurre.Delivery.{
  resolve_sending_address, check_destination, send_raw_email, routing_sender, rule_address,
  literal_address,
}
use sicurre.Quarantine.Item.{
  QuarantineItem, held, released, owned, deleted_mark, claim_row, fail_row,
}
use sicurre.Quarantine.Store.{QuarantineStore, QuarantineObject, Payload}
use sicurre.Quarantine.Release.{
  Outside, text_or_empty, ReleaseResponse, check, check_status, check_integration, claim, deliver,
  send_restored, settle, drop_object, record_release_feedback, release_checked,
  release_quarantine_item,
}
use sicurre.Quarantine.Release.Isolation.{others, release_isolated}
use sicurre.Quarantine.Release.Outcome.{IsSettled, release_settles, release_idempotent}
use sicurre.Quarantine.Retention.{expired, purge_expired_quarantine}
use sicurre.Quarantine.Retention.Enforcement.{purge_enforces}
use sicurre.Quarantine.Custody.{Custody, awaited, upload_for, upload_quarantine_content}
use sicurre.Quarantine.Custody.ReadBack.{upload_then_read}
use sicurre.Quarantine.Custody.WriteOnce.{SameContent, upload_write_once}
use sicurre.Quarantine.Race.{
  delivering, System, look, lose, succeed, claim as take_claim, Reach, here, next, start,
}
use sicurre.Quarantine.Race.Safety.{at_most_one_delivery, deletion_undone_by_failed_release}

abbrev read_back : Text → List (Text × Payload) → Option Payload
read_back uri [] = none
read_back uri ((u, p) ∷ objects) = if text_eq u uri then some p else read_back uri objects

abbrev memory_uri : ℕ → ℕ → Text
memory_uri workspace id = codes "mem:" ++ (workspace ∷ id ∷ [])

-- A store in memory.
abbrev memory : QuarantineStore
memory = record {
  State = List (Text × Payload);
  write = λ workspace id payload objects. (
    some (record {
      storage_uri = memory_uri workspace id;
      content_hash = length payload;
      size_bytes = length payload;
    }),
    (memory_uri workspace id, payload) ∷ objects,
  );
  read = read_back;
  delete = λ uri objects. (true, objects);
}

abbrev item : QuarantineItem
item = record {
  id = 7;
  workspace_id = 1;
  domain = codes "vinse.app";
  message_id = 70;
  sender = codes "a@b.c";
  subject = codes "Facture";
  body_text = codes "...";
  safety_verdict = codes "phishing";
  composite_score = 900000;
  status = held;
  created_at = 10;
  expires_at = 20;
  raw_storage_uri = some (memory_uri 1 7);
  raw_content_hash = some 3;
  raw_size_bytes = some 3;
  last_delivery_error = none;
  delivery_message_id = none;
  delivered_at = none;
}

abbrev bare : QuarantineItem
bare = record item { raw_storage_uri = none; raw_content_hash = none; raw_size_bytes = none }

abbrev integration : Integration
integration = record {
  id = 3;
  user_email = codes "me@vinse.app";
  workspace_id = 1;
  zone_id = codes "z";
  zone_name = codes "Vinse.app";
  account_id = codes "acc";
  worker_name = codes "w";
  rule_id = codes "r";
  destination_email = codes "me@mail.fr";
  api_token = some (codes "token");
  shared_secret_hash = 6;
  status = active;
  error_message = none;
  created_at = 1;
  updated_at = 1;
}

abbrev db : Db
db = record {
  integrations = integration ∷ [];
  quarantine = record item { workspace_id = 2 } ∷ item ∷ [];
  security_rules = [];
  feedback = [];
  events = [];
  alerts = [];
  preferences = [];
}

abbrev db_bare : Db
db_bare = record db { quarantine = bare ∷ [] }

abbrev user : AuthUser
user = record { id = 4; workspace_id = 1 }

abbrev object : Text → Json → Json
object k v = obj (field k v end)

abbrev verified : Json
verified = object (codes "result") (
    arr (
      cons
        (obj (
          field (codes "email") (str (codes "Me@mail.fr"))
            (field (codes "verified") (bool true) end)))
        nil))

abbrev rules : Json
rules = object (codes "result") (
    arr (
      cons
        (obj (
          field (codes "enabled") (bool true) (
            field (codes "matchers")
              (arr (
                cons
                  (obj (
                    field (codes "type") (str (codes "literal"))
                      (field (codes "value") (str (codes "Contact@vinse.app")) end)))
                  nil))
              end)))
        nil))

abbrev sent : Json
sent = obj (
    field (codes "success") (bool true) (
      field (codes "result")
        (obj (
          field (codes "message_id") (str (codes "<1@cf>"))
            (field (codes "queued") (arr (cons (str (codes "me@mail.fr")) nil)) end)))
        end))

abbrev outside : Outside
outside = record {
  print = λ _. codes "";
  decrypt_secret = some;
  routing_addresses = λ _ _. some (record { status_code = 200; json = some verified });
  routing_rules = λ _ _. some (record { status_code = 200; json = some rules });
  send_raw = λ _ _ _ _ _. some (record { status_code = 200; json = some sent });
  parse_mime = λ raw. ([], raw);
  print_mime = λ _ body. body;
  new_message_id = λ sender. codes "<new@" ++ sender;
  now = 15;
  feedback_id = 9;
  feedback_stored = true;
}

abbrev objects : List (Text × Payload)
objects = (memory_uri 1 7, 1 ∷ 2 ∷ 3 ∷ []) ∷ []

abbrev zone : Text
zone = codes "vinse.app"

release_isolated_example :
    others 1 (release_quarantine_item memory outside user 7 (codes " Vinse.app") (db, objects)).1.0
    ≡ others 1 db
release_isolated_example = release_isolated memory outside user 7 (codes " Vinse.app") (db, objects)

release_settles_example :
    IsSettled memory outside user 7 zone item
      (db, objects)
      (release_checked memory outside user 7 zone (check db user 7 zone) (db, objects))
unfolding check check_status check_integration same_name lower
release_settles_example =
    release_settles memory outside user 7 zone db objects item integration refl

abbrev response : ReleaseResponse
response = record {
  forwarded_to = codes "me@mail.fr";
  delivery_message_id = some (codes "<1@cf>");
  queued = some true;
  idempotent = false;
}

abbrev after_release : Db × List (Text × Payload)
after_release = (release_checked memory outside user 7 zone (check db user 7 zone) (db, objects)).1

release_idempotent_example :
    (r : ReleaseResponse) × (release_checked memory outside user 7 zone
        (check after_release.0 user 7 zone)
        after_release
      ≡ (ok r, after_release))
    × (r.delivery_message_id ≡ some (codes "<1@cf>"))
    × (r.idempotent ≡ true)
unfolding check check_status check_integration same_name lower release_checked settle deliver
    send_restored resolve_sending_address check_destination send_raw_email routing_sender
    rule_address literal_address drop_object record_release_feedback claim ends_with
release_idempotent_example =
    release_idempotent memory user 7 zone outside outside db after_release.0 objects after_release.1
      item integration response refl refl

purge_enforces_example :
    select
      (expired 30 (some 1))
      (purge_expired_quarantine memory 30 (some 1) (db.quarantine, objects)).1.0
    ≡ []
purge_enforces_example = purge_enforces memory (λ uri s. refl) 30 (some 1) db.quarantine objects

abbrev rows : List QuarantineItem
rows = record item { id = 8; status = released } ∷ item ∷ []

abbrev custody : Custody
custody = record {
  max_message_bytes = 10;
  sha256_text = length;
  sha256 = length;
  readable_body = λ p. p;
  anonymize_pii = λ t. t;
}

upload_write_once_example :
    (s : QuarantineItem) × (find
        (owned 7 1 zone)
        (upload_quarantine_content memory custody 7
          (codes "secret")
          (5 ∷ [])
          (db, objects)).1.0.quarantine
      ≡ some s)
    × SameContent item s
unfolding same_name lower
upload_write_once_example =
    upload_write_once memory custody 7 1 zone 7 (codes "secret") (5 ∷ []) (db, objects) item refl
      refl

memory_faithful :
    (workspace id : ℕ) (payload : Payload) (s : List (Text × Payload)) (o : QuarantineObject)
    → (memory.write workspace id payload s).0 ≡ some o
    → (read_back o.storage_uri (memory.write workspace id payload s).1 ≡ some payload)
      × (is_empty o.storage_uri ≡ false)
      × (o.content_hash ≡ length payload)
memory_faithful workspace id payload s o h =
    subst
      (λ (x : QuarantineObject).
        (read_back x.storage_uri (memory.write workspace id payload s).1 ≡ some payload)
        × (is_empty x.storage_uri ≡ false)
        × (x.content_hash ≡ length payload))
      (some-injective _ o h) (rw (text_eq_refl (memory_uri workspace id)) refl, refl, refl)

abbrev deposited : QuarantineObject
deposited = record { storage_uri = memory_uri 1 7; content_hash = 2; size_bytes = 2 }

upload_then_read_example :
    let w' = (upload_for memory custody 7 (5 ∷ 6 ∷ []) (some integration) (db_bare, [])).1 in
    ((s : QuarantineItem) × (find (awaited memory custody 7 integration) w'.0.quarantine ≡ some s)
      × (memory.read (text_or_empty s.raw_storage_uri) w'.1 ≡ some (5 ∷ 6 ∷ [])))
    × (upload_for memory custody 7 (5 ∷ 6 ∷ []) (some integration) w'
        ≡ (ok (record { idempotent = true }), w'))
unfolding same_name lower
upload_then_read_example =
    upload_then_read memory custody memory_faithful 7 (5 ∷ 6 ∷ []) integration (db_bare, []) bare
      deposited refl refl refl (omega arith) refl

-- Two requests that both saw the message held: one claims it, the other is turned away.
two_releases : (s : System) × Reach (start item) s
unfolding ℕ_discrete check_status check_integration same_name lower
two_releases = (
  _,
  next
      (next
        (next
          (next (next here (look 0 db user item integration refl refl))
            (look 1 db user item integration refl refl))
          (take_claim 0 refl))
        (take_claim 1 refl))
      (succeed 0 (codes "<1@cf>") 15 refl),
)

-- Cloudflare accepts a message and the answer is lost; the next release sends the message again.
sent_again : (s : System) × Reach (start item) s × (s.deliveries ≡ 2) × (s.lost ≡ 1)
unfolding ℕ_discrete check_status check_integration same_name lower
sent_again = (
  _,
  next
      (next
        (next
          (next (next (next here (look 0 db user item integration refl refl)) (take_claim 0 refl))
            (lose 0 (codes "timeout") refl))
          (look 1 db user (fail_row (codes "timeout") (claim_row item)) integration refl refl))
        (take_claim 1 refl))
      (succeed 1 (codes "<2@cf>") 15 refl),
  refl,
  refl,
)

at_most_one_delivery_example :
    (two_releases.0.deliveries ≤ two_releases.0.lost + 1)
    × ((i j : ℕ)
        → two_releases.0.phase i ≡ delivering
        → two_releases.0.phase j ≡ delivering
        → i ≡ j)
at_most_one_delivery_example = at_most_one_delivery item two_releases.0 two_releases.1

deletion_undone_by_failed_release_example :
    (s : System) × Reach (start item) s
    × (s.row.status ≡ held)
    × (s.row.sender ≡ deleted_mark)
    × (s.row.raw_storage_uri ≡ none)
    × (s.deliveries ≡ 0)
unfolding check_status check_integration same_name lower
deletion_undone_by_failed_release_example =
    deletion_undone_by_failed_release item (codes "refused") db user item integration refl
