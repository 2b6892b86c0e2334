-- ===== src/Delivery/Headers/ReplyAddress.antt =====
-- The address that a reply to a restored message goes to.
use sicurre.Prelude.{◌≡◌, refl, ◌∙◌, false, none, some, [], ◌∷◌, ◌++◌, arith}
use sicurre.Prelude.Text.{Text, codes, lower, strip, is_empty, same_name}
use sicurre.Delivery.Headers.{
  Fields, get, remove, remove_all, rewritten, is_transport, names, text_of, with_original_id,
  with_reply_to, local, identified, addressed, prepare_restoration,
}
use sicurre.Delivery.Headers.Laws.{
  get-add, get-remove_ne, get-remove_all, get-drop_transport, contains-eq-get,
}

get-add_ne :
    (m name value : Text) (fs : Fields)
    → same_name name m ≡ false
    → get m (fs ++ (name, value) ∷ []) ≡ get m fs
get-add_ne m name value fs h = grind (arith, get-add m name value fs, contains-eq-get m fs)

get-identified :
    (new_id : Text) (fs : Fields)
    → get (codes "Reply-To") (identified new_id fs) ≡ get (codes "Reply-To") fs
unfolding identified with_original_id same_name lower
get-identified new_id fs =
    let without = remove (codes "Message-ID") fs in
    let original = strip (text_of (get (codes "Message-ID") fs)) in
    ground (
      arith,
      get-add_ne (codes "Reply-To") (codes "X-Sicurre-Original-Message-ID") original
          (without ++ (codes "Message-ID", new_id) ∷ []) refl,
      get-add_ne (codes "Reply-To") (codes "Message-ID") new_id without refl,
      get-remove_ne (codes "Message-ID") (codes "Reply-To") fs refl,
    )

get-addressed :
    (sender recipient : Text) (fs : Fields)
    → get (codes "Reply-To") (addressed sender recipient fs) ≡ get (codes "Reply-To") fs
unfolding addressed same_name lower
get-addressed sender recipient fs =
    let from = codes "Sicurre Restoration <" ++ sender ++ codes ">" in
    get-add_ne (codes "Reply-To") (codes "To") recipient (fs ++ (codes "From", from) ∷ []) refl
    ∙ get-add_ne (codes "Reply-To") (codes "From") from fs refl

get-local :
    (message : Fields) → get (codes "Reply-To") (local message) ≡ get (codes "Reply-To") message
unfolding local is_transport same_name lower
get-local message =
    let cleaned = remove_all rewritten message in
    get-drop_transport (codes "Reply-To") (names cleaned) cleaned refl
    ∙ get-remove_all (codes "Reply-To") rewritten message refl

get-with_reply_to :
    (original : Text) (fs : Fields)
    → is_empty original ≡ false
    → get (codes "Reply-To") (with_reply_to original fs)
      ≡ (elim (get (codes "Reply-To") fs) [ some v ↦ some v | none ↦ some original ])
unfolding with_reply_to same_name lower
get-with_reply_to original fs h = ground (
  arith,
  get-add_ne (codes "Reply-To") (codes "X-Sicurre-Original-From") original fs refl,
  get-add_ne (codes "Reply-To") (codes "X-Sicurre-Original-From") original
      (fs ++ (codes "Reply-To", original) ∷ []) refl,
  get-add (codes "Reply-To") (codes "Reply-To") original fs,
  contains-eq-get (codes "Reply-To") fs,
)

-- A reply to the restored message goes where a reply to the original went: to its Reply-To field,
-- and without one to its From field, if that is not blank.
pub restoration_keeps_reply_address :
    (sender recipient new_id : Text) (message : Fields)
    → is_empty (strip (text_of (get (codes "From") message))) ≡ false
    → get (codes "Reply-To") (prepare_restoration sender recipient new_id message)
      ≡ (elim (get (codes "Reply-To") message) [
        | some v ↦ some v
        | none ↦ some (strip (text_of (get (codes "From") message)))
      ])
unfolding prepare_restoration
restoration_keeps_reply_address sender recipient new_id message h =
    let fs = identified new_id (local message) in
    ground (
      arith,
      get-with_reply_to (strip (text_of (get (codes "From") message)))
          (addressed sender recipient fs) h,
      get-addressed sender recipient fs,
      get-identified new_id (local message),
      get-local message,
    )
