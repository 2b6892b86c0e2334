-- ===== src/Quarantine/Retention.antt =====
-- `purge_expired_quarantine` of src/data_platform/services/quarantine_retention.py. The clock and
-- the store are outside; a call of the store may raise. The rows that the first SELECT returned are
-- an argument of the loop, since the table may change while it runs.
pub mod Enforcement
use sicurre.Prelude.{
  ℕ, ◌+◌, ◌≤◌, ◌≡◌, refl, sym, ap, ◌∙◌, ◌⊎◌, Bool, true, false, not, ◌&&◌, Option, none, some, List,
  [], ◌∷◌, arith, if◌then◌else◌, Bool-cases, inl, inr, ◌==◌, ltb, String,
}
use sicurre.Prelude.Table.{select, update, select-update}
use sicurre.Prelude.Lists.{any, length}
use sicurre.Prelude.Text.{Text, codes}
use sicurre.Quarantine.Item.{Status, held, deleted, QuarantineItem, keyed, is_held, scrub_row}
use sicurre.Quarantine.Store.{QuarantineStore}
use sicurre.Quarantine.Release.{present, text_or_empty}

pub record QuarantinePurgeResult : Type 0 where
  pub candidates : ℕ
  pub purged : ℕ
  pub failed : ℕ

abbrev pub of_workspace : Option ℕ → QuarantineItem → Bool
of_workspace none r = true
of_workspace (some w) r = r.workspace_id == w

-- WHERE expires_at < ? AND status = 'held' [AND workspace_id = ?]
abbrev pub expired : ℕ → Option ℕ → QuarantineItem → Bool
expired cutoff workspace r =
    ltb r.expires_at cutoff && (is_held r.status && of_workspace workspace r)

-- WHERE id = ? AND workspace_id = ? AND status = 'held'
abbrev pub purgeable : QuarantineItem → QuarantineItem → Bool
purgeable item r = keyed item.id item.workspace_id r && is_held r.status

module _ (store : QuarantineStore) where
  open store use {State, delete}

  abbrev pub World : Type 0
  World = List QuarantineItem × State

  -- `if storage_uri: await store.delete(...)`, and whether that went through
  unfoldable pub drop_content : Option Text → State → Bool × State
  drop_content uri objects =
      if present uri then delete (text_or_empty uri) objects else (true, objects)

  -- One round of the loop.
  unfoldable pub purge_item :
      QuarantineItem → QuarantinePurgeResult → World → QuarantinePurgeResult × World
  unfolding drop_content
  purge_item item acc (rows, objects) =
      let (gone, objects') = drop_content item.raw_storage_uri objects in
      if gone
      then (
        record acc { purged = acc.purged + (if any (purgeable item) rows then 1 else 0) },
        (update (purgeable item) scrub_row rows, objects'),
      )
      else (record acc { failed = acc.failed + 1 }, (rows, objects'))

  unfoldable pub purge_items :
      List QuarantineItem → QuarantinePurgeResult → World → QuarantinePurgeResult × World
  purge_items [] acc w = (acc, w)
  purge_items (item ∷ rest) acc w =
      let (acc', w') = purge_item item acc w in purge_items rest acc' w'

  unfoldable pub purge_expired_quarantine : ℕ → Option ℕ → World → QuarantinePurgeResult × World
  purge_expired_quarantine now workspace (rows, objects) =
      let candidates = select (expired now workspace) rows in
      purge_items candidates (record { candidates = length candidates; purged = 0; failed = 0 })
        (rows, objects)
