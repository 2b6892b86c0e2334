-- ===== src/Quarantine/Removal.antt =====
-- The other routes on held messages: listing, deletion and release with a whitelist rule
-- (src/data_platform/api/routers/quarantine.py).
pub mod Trust
use sicurre.Prelude.{ℕ, Bool, true, false, ◌&&◌, Option, none, some, List, ◌∷◌, if◌then◌else◌, ◌==◌}
use sicurre.Prelude.Table.{select}
use sicurre.Prelude.Lists.{any, find}
use sicurre.Prelude.Text.{Text, text_eq, lower, strip, same_name}
use sicurre.Prelude.Http.{Reply, ok, raised, reject}
use sicurre.Database.{Db, AuthUser, SecurityRule, RuleType, whitelist, blocklist, owned_domain}
use sicurre.Quarantine.Item.{Status, held, released, QuarantineItem, owned, is_held, scrub_row}
use sicurre.Quarantine.Store.{QuarantineStore}
use sicurre.Quarantine.Release.{Outside, ReleaseResponse, set_item, release_quarantine_item}
use sicurre.Quarantine.Retention.{drop_content, purge_expired_quarantine}

abbrev pub held_or_released : Status → Bool
held_or_released held = true
held_or_released released = true
held_or_released _ = false

abbrev pub is_whitelist : RuleType → Bool
is_whitelist whitelist = true
is_whitelist blocklist = false

-- WHERE workspace_id = ? AND lower(domain) = lower(?) AND status = 'held'
abbrev pub listed : ℕ → Text → QuarantineItem → Bool
listed workspace domain r =
    r.workspace_id == workspace && (same_name r.domain domain && is_held r.status)

-- workspace_id = ? AND lower(domain) = lower(?) AND rule_type = 'whitelist' AND lower(pattern) = ?
abbrev pub whitelists : ℕ → Text → Text → SecurityRule → Bool
whitelists workspace domain sender r =
    r.workspace_id == workspace
    && (same_name r.domain domain && (is_whitelist r.rule_type && text_eq (lower r.pattern) sender))

-- A table that is answered in the order that `arrange` gives it (ORDER BY created_at DESC).
module _ (store : QuarantineStore) where
  open store use {State, write, delete}

  abbrev with_quarantine : Db → List QuarantineItem → Db
  with_quarantine db rows = record db { quarantine = rows }

  unfoldable pub list_domain :
      ℕ
      → (List QuarantineItem → List QuarantineItem)
      → AuthUser
      → Reply Text
      → Db × State
      → Reply (List QuarantineItem) × (Db × State)
  list_domain now arrange user (raised n d) w = (raised n d, w)
  list_domain now arrange user (ok domain) (db, objects) =
      let (_, (rows, objects')) =
        purge_expired_quarantine store now (some user.workspace_id) (db.quarantine, objects) in
      (
        ok (arrange (select (listed user.workspace_id domain) rows)),
        (with_quarantine db rows, objects'),
      )

  unfoldable pub list_quarantine :
      ℕ
      → (List QuarantineItem → List QuarantineItem)
      → AuthUser
      → Text
      → Db × State
      → Reply (List QuarantineItem) × (Db × State)
  list_quarantine now arrange user domain (db, objects) =
      list_domain now arrange user (owned_domain db domain user) (db, objects)

  unfoldable pub delete_found :
      AuthUser → ℕ → Text → Option QuarantineItem → Db × State → Reply (Unit {0}) × (Db × State)
  delete_found user id domain none w = (reject 404 "Quarantined item not found", w)
  delete_found user id domain (some item) (db, objects) =
      let (gone, objects') = drop_content store item.raw_storage_uri objects in
      if gone
      then (ok tt, (set_item store user id domain scrub_row db, objects'))
      else (reject 503 "Quarantine storage is temporarily unavailable", (db, objects'))

  unfoldable pub delete_domain :
      AuthUser → ℕ → Reply Text → Db × State → Reply (Unit {0}) × (Db × State)
  delete_domain user id (raised n d) w = (raised n d, w)
  delete_domain user id (ok domain) (db, objects) =
      delete_found user id domain (find (owned id user.workspace_id domain) db.quarantine)
        (db, objects)

  unfoldable pub delete_quarantine_item :
      AuthUser → ℕ → Text → Db × State → Reply (Unit {0}) × (Db × State)
  delete_quarantine_item user id domain (db, objects) =
      delete_domain user id (owned_domain db domain user) (db, objects)

  unfoldable pub add_whitelist : ℕ → ℕ → AuthUser → Text → Text → Db → Db
  add_whitelist rule_id now user domain sender db =
      if any (whitelists user.workspace_id domain sender) db.security_rules then db else record db {
        security_rules =
            record {
              id = rule_id;
              workspace_id = user.workspace_id;
              domain = domain;
              rule_type = whitelist;
              pattern = sender;
              created_at = now;
            }
            ∷ db.security_rules;
      }

  unfoldable pub whitelist_released :
      ℕ
      → ℕ
      → AuthUser
      → Text
      → Text
      → Reply ReleaseResponse × (Db × State)
      → Reply (ReleaseResponse × Text) × (Db × State)
  whitelist_released rule_id now user domain sender (raised n d, w) = (raised n d, w)
  whitelist_released rule_id now user domain sender (ok r, (db, objects)) =
      (ok (r, sender), (add_whitelist rule_id now user domain sender db, objects))

  unfoldable pub whitelist_found :
      Outside
      → ℕ
      → AuthUser
      → ℕ
      → Text
      → Option QuarantineItem
      → Db × State
      → Reply (ReleaseResponse × Text) × (Db × State)
  whitelist_found o rule_id user id domain none w = (reject 404 "Quarantined item not found", w)
  whitelist_found o rule_id user id domain (some item) w =
      whitelist_released rule_id o.now user domain (lower (strip item.sender))
        (release_quarantine_item store o user id domain w)

  unfoldable pub whitelist_domain :
      Outside
      → ℕ
      → AuthUser
      → ℕ
      → Reply Text
      → Db × State
      → Reply (ReleaseResponse × Text) × (Db × State)
  whitelist_domain o rule_id user id (raised n d) w = (raised n d, w)
  whitelist_domain o rule_id user id (ok domain) (db, objects) =
      whitelist_found o rule_id user id domain
        (find (λ r. owned id user.workspace_id domain r && held_or_released r.status) db.quarantine)
        (db, objects)

  unfoldable pub release_and_whitelist_item :
      Outside → ℕ → AuthUser → ℕ → Text → Db × State → Reply (ReleaseResponse × Text) × (Db × State)
  release_and_whitelist_item o rule_id user id domain (db, objects) =
      whitelist_domain o rule_id user id (owned_domain db domain user) (db, objects)
