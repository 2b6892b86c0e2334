-- ===== src/Quarantine/Release/Isolation.antt =====
-- A release touches one workspace only.
use sicurre.Prelude.{ℕ, ◌≡◌, refl, ap, ◌∙◌, Bool, true, false, not, arith, ◌==◌}
use sicurre.Prelude.Table.{select, update, select-update}
use sicurre.Prelude.Text.{Text, codes}
use sicurre.Prelude.Lists.{take}
use sicurre.Prelude.Http.{ok, raised}
use sicurre.Database.{Db, AuthUser, owned_domain}
use sicurre.Delivery.{Attempt, done, refused, crashed, DeliveryResult}
use sicurre.Quarantine.Item.{
  QuarantineItem, owned, elsewhere, claim_row, fail_row, release_row, forget_row,
}
use sicurre.Quarantine.Store.{QuarantineStore}
use sicurre.Quarantine.Release.{
  Outside, Checked, stop, proceed, check, claim, claimable, record_release_feedback, deliver,
  set_item, drop_object, settle, release_checked, release_domain, release_quarantine_item,
}

-- The rows of other workspaces, and the tables that a release only reads.
abbrev pub others : ℕ → Db → Db
others workspace db = record db {
  quarantine = select (elsewhere workspace) db.quarantine;
  feedback = select (λ f. not (f.workspace_id == workspace)) db.feedback;
}

owned-elsewhere :
    (id workspace : ℕ) (domain : Text) (r : QuarantineItem)
    → owned id workspace domain r ≡ true
    → elsewhere workspace r ≡ false
owned-elsewhere id workspace domain r h = ground arith

-- An update of the caller's rows leaves the others alone.
others-update :
    (workspace : ℕ) (p : QuarantineItem → Bool) (f : QuarantineItem → QuarantineItem)
    → ((r : QuarantineItem) → (f r).workspace_id ≡ r.workspace_id)
    → ((r : QuarantineItem) → p r ≡ true → elsewhere workspace r ≡ false)
    → (db : Db)
    → others workspace (record db { quarantine = update p f db.quarantine }) ≡ others workspace db
others-update workspace p f keep own db =
    ap
      (λ rows. record db {
        quarantine = rows;
        feedback = select (λ f. not (f.workspace_id == workspace)) db.feedback;
      })
      (select-update (elsewhere workspace) p f (λ r h. (own r h, ground (arith, keep r, own r h)))
        db.quarantine)

module _ (store : QuarantineStore) (o : Outside) (user : AuthUser) (id : ℕ) where
  open store use {State, delete}

  abbrev ws : ℕ
  ws = user.workspace_id

  others-set_item :
      (domain : Text) (f : QuarantineItem → QuarantineItem)
      → ((r : QuarantineItem) → (f r).workspace_id ≡ r.workspace_id)
      → (db : Db) → others ws (set_item store user id domain f db) ≡ others ws db
  others-set_item domain f keep db =
      others-update ws (owned id ws domain) f keep (owned-elsewhere id ws domain) db

  others-feedback :
      (item : QuarantineItem) (db : Db)
      → others ws (record_release_feedback o user item db) ≡ others ws db
  unfolding record_release_feedback
  others-feedback item db = ground arith

  others-drop_object :
      (domain : Text) (item : QuarantineItem) (w : Db × State)
      → others ws (drop_object store user id domain item w).0 ≡ others ws w.0
  unfolding drop_object
  others-drop_object domain item (db, objects) =
      ground (arith, others-set_item domain forget_row (λ r. refl) db)

  others-settle :
      (domain : Text) (item : QuarantineItem) (a : Attempt DeliveryResult) (w : Db × State)
      → others ws (settle store o user id domain item a w).1.0 ≡ others ws w.0
  unfolding settle
  others-settle domain item (done r) (db, objects) =
      let released = set_item store user id domain (release_row r.message_id o.now) db in
      others-drop_object domain item (record_release_feedback o user item released, objects)
      ∙ others-feedback item released
      ∙ others-set_item domain (release_row r.message_id o.now) (λ r. refl) db
  others-settle domain item (refused c m) (db, objects) =
      others-set_item domain (fail_row (take 240 m)) (λ r. refl) db
  others-settle domain item crashed (db, objects) =
      others-set_item domain (fail_row (codes "Quarantine storage is unavailable")) (λ r. refl) db

  others-claim :
      (domain : Text) (db : Db)
      → others ws (record db { quarantine = (claim id ws domain db.quarantine).1 }) ≡ others ws db
  unfolding claim
  others-claim domain db =
      others-update ws (claimable id ws domain) claim_row (λ r. refl) (λ r h. ground arith) db

  others-release_checked :
      (domain : Text) (c : Checked) (w : Db × State)
      → others ws (release_checked store o user id domain c w).1.0 ≡ others ws w.0
  unfolding release_checked
  others-release_checked domain (stop answer) w = refl
  others-release_checked domain (proceed item r) (db, objects) =
      let db' = record db { quarantine = (claim id ws domain db.quarantine).1 } in
      ground (
        arith,
        others-settle domain item (deliver store o objects item r) (db', objects),
        others-claim domain db,
      )

  -- A release, however it ends, changes no row of another workspace, and no integration or rule.
  pub release_isolated :
      (domain : Text) (w : Db × State)
      → others user.workspace_id (release_quarantine_item store o user id domain w).1.0
        ≡ others user.workspace_id w.0
  unfolding release_quarantine_item
  release_isolated domain (db, objects) =
      elim (owned_domain db domain user)
        as (λ d. others ws (release_domain store o user id d (db, objects)).1.0 ≡ others ws db) [
          | raised n d ↦ unfold release_domain in refl
          | ok active ↦
              unfold release_domain in
              others-release_checked active (check db user id active) (db, objects)
        ]
