-- ===== src/Quarantine/Objects/Refinement.antt =====
-- What the R2 custody store promises: one cell for each message, which a write fills, a read by the
-- message's URI returns and a deletion by that URI empties, and no other message's cell is touched.
use mathlib.Core.Path.{ap₂, subst}
use mathlib.Core.Bool.{true≢false}
use mathlib.Core.Option.{some-injective}
use sicurre.Prelude.{
  ℕ, ◌≡◌, ◌≢◌, refl, ap, sym, ◌∙◌, Bool, true, false, ◌&&◌, Option, none, some, ◌++◌, arith,
  if◌then◌else◌, Bool-cases, inl, inr,
}
use sicurre.Prelude.Lists.{any}
use sicurre.Prelude.Text.{Text, text_eq, text_eq_refl, eq_of_text_eq, is_empty}
use sicurre.Quarantine.Store.{QuarantineObject, Payload}
use sicurre.Quarantine.Objects.{
  ObjectClient, R2Settings, r2_prefix, r2_key, dots, scheme, parse_uri, written, put_at, r2_write,
  get_at, r2_read, delete_at, r2_delete, r2_store,
}
use sicurre.Quarantine.Objects.Segments.{segments}
use sicurre.Quarantine.Objects.Keys.{parse_uri-r2_key, r2_key_injective}

-- What R2 documents of a bucket: a stored object is read back as it was stored, a deleted one is
-- gone, and either leaves the other keys alone.
pub record ClientLaws (client : ObjectClient) : Type 0 where
  pub put_then_get :
      (b k : Text) (p : Payload) (s : client.Objects)
      → (client.put_object b k p s).0 ≡ true
      → client.get_object b k (client.put_object b k p s).1 ≡ some p
  pub put_elsewhere :
      (b k k' : Text) (p : Payload) (s : client.Objects)
      → k ≢ k'
      → client.get_object b k' (client.put_object b k p s).1 ≡ client.get_object b k' s
  pub delete_then_get :
      (b k : Text) (s : client.Objects)
      → (client.delete_object b k s).0 ≡ true
      → client.get_object b k (client.delete_object b k s).1 ≡ none
  pub delete_elsewhere :
      (b k k' : Text) (s : client.Objects)
      → k ≢ k'
      → client.get_object b k' (client.delete_object b k s).1 ≡ client.get_object b k' s

-- The abstract store: a cell for each workspace and message.
abbrev pub Cells : Type 0
Cells = Text → Text → Option Payload

abbrev pub same_message : Text → Text → Text → Text → Bool
same_message w i w' i' = text_eq w w' && text_eq i i'

abbrev pub set_cell : Text → Text → Option Payload → Cells → Cells
set_cell w i p cells w' i' = if same_message w i w' i' then p else cells w' i'

same_message-eq : (w i w' i' : Text) → same_message w i w' i' ≡ true → (w ≡ w') × (i ≡ i')
same_message-eq w i w' i' h =
    (eq_of_text_eq w w' (ground (arith, h)), eq_of_text_eq i i' (ground (arith, h)))

module _ (client : ObjectClient) (sha256 : Payload → ℕ) (settings : R2Settings) where
  open client use {Objects, put_object, get_object, delete_object}

  -- The cells that a bucket stands for.
  abbrev pub view : Objects → Cells
  view s w i = get_at client sha256 settings (r2_key settings w i) s

  written-some :
      (key : Text) (p : Payload) (x : Bool × Objects) (o : QuarantineObject)
      → (written client sha256 settings key p x).0 ≡ some o
      → (x.0 ≡ true)
        × ((written client sha256 settings key p x).1 ≡ x.1)
        × (o.storage_uri ≡ scheme settings ++ key)
        × (o.content_hash ≡ sha256 p)
  unfolding written
  written-some key p (false, s) o e = absurd cc
  written-some key p (true, s) o e = (
    refl,
    refl,
    sym (ap (λ (x : QuarantineObject). x.storage_uri) (some-injective _ o e)),
    sym (ap (λ (x : QuarantineObject). x.content_hash) (some-injective _ o e)),
  )

  put_at-some :
      (k : Option Text) (p : Payload) (s : Objects) (o : QuarantineObject)
      → (put_at client sha256 settings k p s).0 ≡ some o
      → (key : Text) × (k ≡ some key)
        × ((put_object settings.bucket key p s).0 ≡ true)
        × ((put_at client sha256 settings k p s).1 ≡ (put_object settings.bucket key p s).1)
        × (o.storage_uri ≡ scheme settings ++ key)
        × (o.content_hash ≡ sha256 p)
  unfolding put_at
  put_at-some none p s o e = absurd cc
  put_at-some (some key) p s o e =
      let (a, b, c, d) = written-some key p (put_object settings.bucket key p s) o e in
      (key, refl, a, b, c, d)

  kept :
      (w i key : Text) (s s' : Objects) (w' i' : Text)
      → r2_key settings w i ≡ some key
      → same_message w i w' i' ≡ false
      → ((key' : Text)
          → key ≢ key'
          → get_object settings.bucket key' s' ≡ get_object settings.bucket key' s)
      → (k : Option Text) → r2_key settings w' i' ≡ k
      → get_at client sha256 settings k s' ≡ get_at client sha256 settings k s
  unfolding get_at
  kept w i key s s' w' i' e h elsewhere none e' = refl
  kept w i key s s' w' i' e h elsewhere (some key') e' = elsewhere key' (λ q.
      let (a, b) = r2_key_injective settings w i w' i' key e (e' ∙ ap some (sym q)) in
      let itself : same_message w i w i ≡ true = rw (text_eq_refl w, text_eq_refl i) refl in
      true≢false (sym itself ∙ ap₂ (same_message w i) a b ∙ h))

  -- A change of one key's object is a change of that message's cell.
  view_change :
      (w i key : Text) (p : Option Payload) (s s' : Objects)
      → r2_key settings w i ≡ some key
      → get_object settings.bucket key s' ≡ p
      → ((key' : Text)
          → key ≢ key'
          → get_object settings.bucket key' s' ≡ get_object settings.bucket key' s)
      → (w' i' : Text) → view s' w' i' ≡ set_cell w i p (view s) w' i'
  unfolding get_at
  view_change w i key p s s' e here elsewhere w' i' = elim (Bool-cases (same_message w i w' i')) [
    | inl h ↦
        let (a, b) = same_message-eq w i w' i' h in
        rw h (
          ap (λ o. get_at client sha256 settings o s') (sym (ap₂ (r2_key settings) a b) ∙ e) ∙ here)
    | inr h ↦ rw h (kept w i key s s' w' i' e h elsewhere (r2_key settings w' i') refl)
  ]

  -- With a client that keeps R2's documented laws and a prefix without a .. segment, the R2 store
  -- implements one cell for each workspace and message: a write that succeeds sets this message's
  -- cell alone, reading its URI returns the cell, and a deletion by the URI that succeeds empties
  -- it and no other.
  pub r2_store_refines :
      ClientLaws client
      → any dots (segments (r2_prefix settings)) ≡ false
      → (w i : Text) (p : Payload) (s : Objects) (o : QuarantineObject)
      → (r2_write client sha256 settings w i p s).0 ≡ some o
      → let s' = (r2_write client sha256 settings w i p s).1 in
        ((w' i' : Text) → view s' w' i' ≡ set_cell w i (some p) (view s) w' i')
        × ((t : Objects) → r2_read client sha256 settings o.storage_uri t ≡ view t w i)
        × ((t : Objects)
            → (r2_delete client sha256 settings o.storage_uri t).0 ≡ true
            → (w' i' : Text)
            → view (r2_delete client sha256 settings o.storage_uri t).1 w' i'
              ≡ set_cell w i none (view t) w' i')
  unfolding r2_write r2_read r2_delete get_at delete_at
  r2_store_refines laws inside w i p s o e =
      let (key, ek, stored, after, uri, hash) = put_at-some (r2_key settings w i) p s o e in
      let parsed = ap (parse_uri settings) uri ∙ parse_uri-r2_key settings w i key inside ek in
      (
        rw after (
            view_change w i key (some p) s (put_object settings.bucket key p s).1 ek
              (laws.put_then_get settings.bucket key p s stored)
              (λ key' different. laws.put_elsewhere settings.bucket key key' p s different)),
        λ t. rw (parsed, ek) refl,
        λ t removed. rw parsed (
            view_change w i key none t (delete_object settings.bucket key t).1 ek
              (laws.delete_then_get settings.bucket key t
                (subst (λ k. (delete_at client sha256 settings k t).0 ≡ true) parsed removed))
              (λ key' different. laws.delete_elsewhere settings.bucket key key' t different)),
      )

  scheme_nonempty : (key : Text) → is_empty (scheme settings ++ key) ≡ false
  unfolding scheme
  scheme_nonempty key = refl

  -- The law that `upload_then_read` asks of a store.
  pub r2_store-faithful :
      ClientLaws client
      → any dots (segments (r2_prefix settings)) ≡ false
      → (name : ℕ → Text) (workspace id : ℕ) (payload : Payload) (objects : Objects)
        (o : QuarantineObject)
      → let store = r2_store client sha256 settings name in
        (store.write workspace id payload objects).0 ≡ some o
        → (store.read o.storage_uri (store.write workspace id payload objects).1 ≡ some payload)
          × (is_empty o.storage_uri ≡ false)
          × (o.content_hash ≡ sha256 payload)
  unfolding r2_write
  r2_store-faithful laws inside name workspace id payload objects o e =
      let (filled, reads, _) =
        r2_store_refines laws inside (name workspace) (name id) payload objects o e in
      let (key, ek, stored, after, uri, hash) =
        put_at-some (r2_key settings (name workspace) (name id)) payload objects o e in
      (
        reads _
            ∙ filled (name workspace) (name id)
            ∙ rw (text_eq_refl (name workspace), text_eq_refl (name id)) refl,
        ap is_empty uri ∙ scheme_nonempty key,
        hash,
      )
