-- ===== src/Quarantine/Removal/Trust.antt =====
-- Trusting a sender, in release_and_whitelist_item of src/data_platform/api/routers/quarantine.py.
use sicurre.Prelude.{ℕ, ◌≡◌, refl, ==_refl, true, if_cases}
use sicurre.Prelude.Lists.{any}
use sicurre.Prelude.Text.{Text, text_eq_refl, lower, lower_idem, same_name_refl}
use sicurre.Database.{Db, AuthUser}
use sicurre.Quarantine.Store.{QuarantineStore}
use sicurre.Quarantine.Removal.{whitelists, add_whitelist}

module _ (store : QuarantineStore) where
  added_whitelists :
      (rule_id now : ℕ) (user : AuthUser) (domain sender : Text) (db : Db)
      → any
          (whitelists user.workspace_id domain (lower sender))
          (add_whitelist store rule_id now user domain (lower sender) db).security_rules
        ≡ true
  unfolding add_whitelist
  added_whitelists rule_id now user domain sender db =
      if_cases
        (λ (d : Db).
          any (whitelists user.workspace_id domain (lower sender)) d.security_rules ≡ true)
        (any (whitelists user.workspace_id domain (lower sender)) db.security_rules) (λ h. h)
        (λ _.
          rw
            (
              ==_refl user.workspace_id,
              same_name_refl domain,
              lower_idem sender,
              text_eq_refl (lower sender),
            )
            refl)

  known_whitelist :
      (rule_id now : ℕ) (user : AuthUser) (domain sender : Text) (db : Db)
      → any (whitelists user.workspace_id domain sender) db.security_rules ≡ true
      → add_whitelist store rule_id now user domain sender db ≡ db
  unfolding add_whitelist
  known_whitelist rule_id now user domain sender db h = rw h refl

-- Trusting a sender, whose address the route puts in lower case, a second time adds no rule: the
-- tables stay as the first time left them.
pub trust_once :
    (store : QuarantineStore) (rule_id again now later : ℕ) (user : AuthUser) (domain sender : Text)
    → (db : Db)
    → add_whitelist store again later user domain
        (lower sender)
        (add_whitelist store rule_id now user domain (lower sender) db)
      ≡ add_whitelist store rule_id now user domain (lower sender) db
trust_once store rule_id again now later user domain sender db =
    known_whitelist store again later user domain (lower sender)
      (add_whitelist store rule_id now user domain (lower sender) db)
      (added_whitelists store rule_id now user domain sender db)
