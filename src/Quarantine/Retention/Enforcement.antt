-- ===== src/Quarantine/Retention/Enforcement.antt =====
-- Retention is enforced, and spares what is not its business.
use sicurre.Prelude.{ℕ, ◌+◌, ◌≤◌, ◌≡◌, refl, true, false, Option, none, some, List, [], ◌∷◌, arith}
use sicurre.Prelude.Table.{select, update, find-update}
use sicurre.Prelude.Lists.{any, find, length, All}
use sicurre.Prelude.Text.{Text}
use sicurre.Quarantine.Item.{QuarantineItem, keyed, is_held, scrub_row}
use sicurre.Quarantine.Store.{QuarantineStore}
use sicurre.Quarantine.Retention.{
  QuarantinePurgeResult, expired, purgeable, drop_content, purge_item, purge_items,
  purge_expired_quarantine,
}

-- Every expired row is one of the items that are still to be visited.
abbrev IsCovered : ℕ → Option ℕ → List QuarantineItem → List QuarantineItem → Type 0
IsCovered now w items rows =
    All (λ r. expired now w r ≡ true → any (λ c. keyed c.id c.workspace_id r) items ≡ true) rows

IsCovered-update :
    (now : ℕ) (w : Option ℕ) (item : QuarantineItem) (items rows : List QuarantineItem)
    → IsCovered now w (item ∷ items) rows
    → IsCovered now w items (update (purgeable item) scrub_row rows)
IsCovered-update now w item items [] h = tt
IsCovered-update now w item items (r ∷ rs) h =
    (λ e. ground (arith, h.0), IsCovered-update now w item items rs h.1)

IsCovered-select :
    (now : ℕ) (w : Option ℕ) (items rows : List QuarantineItem)
    → ((r : QuarantineItem)
        → any (λ c. keyed c.id c.workspace_id r) (select (expired now w) rows) ≡ true
        → any (λ c. keyed c.id c.workspace_id r) items ≡ true)
    → IsCovered now w items rows
IsCovered-select now w items [] h = tt
IsCovered-select now w items (r ∷ rs) h =
    (λ e. ground (arith, h r), IsCovered-select now w items rs λ s q. ground (arith, h s))

select-of_covered :
    (now : ℕ) (w : Option ℕ) (rows : List QuarantineItem)
    → IsCovered now w [] rows
    → select (expired now w) rows ≡ []
select-of_covered now w [] h = refl
select-of_covered now w (r ∷ rs) h = ground (arith, h.0, select-of_covered now w rs h.1)

module _ (store : QuarantineStore) where
  open store use {State, delete}

  abbrev pub DeletesAll : Type 0
  DeletesAll = (uri : Text) (objects : State) → (delete uri objects).0 ≡ true

  drop_content-DeletesAll :
      DeletesAll → (uri : Option Text) (objects : State) → (drop_content store uri objects).0 ≡ true
  unfolding drop_content
  drop_content-DeletesAll all none objects = refl
  drop_content-DeletesAll all (some u) objects = ground (arith, all u objects)

  purge_item-rows :
      DeletesAll
      → (item : QuarantineItem) (acc : QuarantinePurgeResult) (w : List QuarantineItem × State)
      → (purge_item store item acc w).1.0 ≡ update (purgeable item) scrub_row w.0
  unfolding purge_item
  purge_item-rows all item acc (rows, objects) =
      ground (arith, drop_content-DeletesAll all item.raw_storage_uri objects)

  purge_items-none_left :
      DeletesAll
      → (now : ℕ) (scope : Option ℕ) (items : List QuarantineItem) (acc : QuarantinePurgeResult)
        (w : List QuarantineItem × State)
      → IsCovered now scope items w.0
      → select (expired now scope) (purge_items store items acc w).1.0 ≡ []
  unfolding purge_items
  purge_items-none_left all now scope [] acc w h = select-of_covered now scope w.0 h
  purge_items-none_left all now scope (item ∷ items) acc w h =
      purge_items-none_left all now scope items (purge_item store item acc w).0
        (purge_item store item acc w).1
        (rw (purge_item-rows all item acc w) (IsCovered-update now scope item items w.0 h))

  -- When the store deletes what it is asked to, no held row in scope is past its expiry after a
  -- purge, however many there were.
  pub purge_enforces :
      ((uri : Text) (objects : State) → (delete uri objects).0 ≡ true)
      → (now : ℕ) (workspace : Option ℕ) (rows : List QuarantineItem) (objects : State)
      → select
          (expired now workspace)
          (purge_expired_quarantine store now workspace (rows, objects)).1.0
        ≡ []
  unfolding purge_expired_quarantine
  purge_enforces all now workspace rows objects =
      purge_items-none_left all now workspace (select (expired now workspace) rows)
        (record {
          candidates = length (select (expired now workspace) rows);
          purged = 0;
          failed = 0;
        })
        (rows, objects)
        (IsCovered-select now workspace (select (expired now workspace) rows) rows (λ r q. q))

  purge_item-accounts :
      (item : QuarantineItem) (acc : QuarantinePurgeResult) (w : List QuarantineItem × State)
      → let after = (purge_item store item acc w).0 in
        (after.candidates ≡ acc.candidates)
        × (after.purged + after.failed ≤ acc.purged + acc.failed + 1)
        × (acc.purged ≤ after.purged)
        × (acc.failed ≤ after.failed)
  unfolding purge_item
  purge_item-accounts item acc (rows, objects) = ground arith

  purge_items-accounts :
      (items : List QuarantineItem) (acc : QuarantinePurgeResult) (w : List QuarantineItem × State)
      → let after = (purge_items store items acc w).0 in
        (after.candidates ≡ acc.candidates)
        × (after.purged + after.failed ≤ acc.purged + acc.failed + length items)
        × (acc.purged ≤ after.purged)
        × (acc.failed ≤ after.failed)
  unfolding purge_items
  purge_items-accounts [] acc w = omega arith
  purge_items-accounts (item ∷ items) acc w =
      let step = purge_item store item acc w in
      omega (arith, purge_item-accounts item acc w, purge_items-accounts items step.0 step.1)

  purge_items-spares :
      (items : List QuarantineItem) (acc : QuarantinePurgeResult) (w : List QuarantineItem × State)
      (id workspace : ℕ) (r : QuarantineItem)
      → find (keyed id workspace) w.0 ≡ some r
      → is_held r.status ≡ false
      → find (keyed id workspace) (purge_items store items acc w).1.0 ≡ some r
  unfolding purge_items
  purge_items-spares [] acc w id workspace r e h = e
  purge_items-spares (item ∷ items) acc w id workspace r e h =
      let step = purge_item store item acc w in
      purge_items-spares items step.0 step.1 id workspace r (spared item acc w id workspace r e h) h
    where
      spared :
          (item : QuarantineItem) (acc : QuarantinePurgeResult) (w : List QuarantineItem × State)
          (id workspace : ℕ) (r : QuarantineItem)
          → find (keyed id workspace) w.0 ≡ some r
          → is_held r.status ≡ false
          → find (keyed id workspace) (purge_item store item acc w).1.0 ≡ some r
      spared item acc (rows, objects) id workspace r e h =
          unfold purge_item in
          ground
            (arith, find-update (keyed id workspace) (purgeable item) scrub_row (λ s. refl) rows)

  -- A purge leaves a message alone that is being released, or was released or deleted, and its
  -- counts add up to no more than the candidates.
  pub purge_spares :
      (now : ℕ) (workspace : Option ℕ) (rows : List QuarantineItem) (objects : State) (id owner : ℕ)
      (r : QuarantineItem)
      → find (keyed id owner) rows ≡ some r
      → is_held r.status ≡ false
      → let (result, w) = purge_expired_quarantine store now workspace (rows, objects) in
        (find (keyed id owner) w.0 ≡ some r)
        × (result.candidates ≡ length (select (expired now workspace) rows))
        × (result.purged + result.failed ≤ result.candidates)
  unfolding purge_expired_quarantine
  purge_spares now workspace rows objects id owner r e h =
      let items = select (expired now workspace) rows in
      let start : QuarantinePurgeResult = record {
        candidates = length items;
        purged = 0;
        failed = 0;
      } in
      let counts = purge_items-accounts items start (rows, objects) in
      (
        purge_items-spares items start (rows, objects) id owner r e h,
        omega (arith, counts),
        omega (arith, counts),
      )
