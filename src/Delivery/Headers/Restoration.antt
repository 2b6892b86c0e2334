-- ===== src/Delivery/Headers/Restoration.antt =====
-- What a message that is restored from quarantine carries.
use sicurre.Prelude.{
  ℕ, ◌+◌, ◌≡◌, refl, Bool, true, false, [], ◌∷◌, ◌++◌, arith, if◌then◌else◌, inl, inr, ◌⊎◌,
}
use sicurre.Prelude.Lists.{any}
use sicurre.Prelude.Text.{Text, codes, lower, strip, same_name}
use sicurre.Delivery.Headers.{
  Fields, occurrences, get, remove, remove_all, rewritten, is_transport, names, text_of,
  with_original_id, with_reply_to, local, identified, addressed, prepare_restoration,
}
use sicurre.Delivery.Headers.Laws.{
  occurrences-remove, occurrences-add, occurrences-remove_all, occurrences-drop_transport,
  drop_transport-names, is_transport-same,
}

abbrev one_if : Bool → ℕ
one_if b = if b then 1 else 0

occurrences-with_original_id :
    (m original : Text) (fs : Fields)
    → same_name (codes "X-Sicurre-Original-Message-ID") m ≡ false
    → occurrences m (with_original_id original fs) ≡ occurrences m fs
unfolding with_original_id
occurrences-with_original_id m original fs h =
    ground (arith, occurrences-add m (codes "X-Sicurre-Original-Message-ID") original fs)

occurrences-identified :
    (m new_id : Text) (fs : Fields)
    → same_name (codes "X-Sicurre-Original-Message-ID") m ≡ false
    → occurrences m (identified new_id fs)
      ≡ (if same_name (codes "Message-ID") m then 1 else occurrences m fs)
unfolding identified
occurrences-identified m new_id fs h =
    let without = remove (codes "Message-ID") fs in
    let original = strip (text_of (get (codes "Message-ID") fs)) in
    ground (
      arith,
      occurrences-with_original_id m original (without ++ (codes "Message-ID", new_id) ∷ []) h,
      occurrences-add m (codes "Message-ID") new_id without,
      occurrences-remove (codes "Message-ID") m fs,
    )

occurrences-addressed :
    (m sender recipient : Text) (fs : Fields)
    → occurrences m (addressed sender recipient fs)
      ≡ occurrences m fs + one_if (same_name (codes "From") m) + one_if (same_name (codes "To") m)
unfolding addressed
occurrences-addressed m sender recipient fs =
    let from = codes "Sicurre Restoration <" ++ sender ++ codes ">" in
    ground (
      arith,
      occurrences-add m (codes "To") recipient (fs ++ (codes "From", from) ∷ []),
      occurrences-add m (codes "From") from fs,
    )

occurrences-with_reply_to :
    (m original : Text) (fs : Fields)
    → same_name (codes "Reply-To") m ≡ false
    → same_name (codes "X-Sicurre-Original-From") m ≡ false
    → occurrences m (with_reply_to original fs) ≡ occurrences m fs
unfolding with_reply_to
occurrences-with_reply_to m original fs h k = ground (
  arith,
  occurrences-add m (codes "X-Sicurre-Original-From") original fs,
  occurrences-add m (codes "X-Sicurre-Original-From") original
      (fs ++ (codes "Reply-To", original) ∷ []),
  occurrences-add m (codes "Reply-To") original fs,
)

-- The count of any name that the restoration does not treat as the original's.
occurrences-prepare_restoration :
    (m sender recipient new_id : Text) (message : Fields)
    → same_name (codes "X-Sicurre-Original-Message-ID") m ≡ false
    → same_name (codes "Reply-To") m ≡ false
    → same_name (codes "X-Sicurre-Original-From") m ≡ false
    → occurrences m (prepare_restoration sender recipient new_id message)
      ≡ (if same_name (codes "Message-ID") m then 1 else occurrences m (local message))
        + one_if (same_name (codes "From") m)
        + one_if (same_name (codes "To") m)
unfolding prepare_restoration
occurrences-prepare_restoration m sender recipient new_id message a b c = omega (
  arith,
  occurrences-with_reply_to m (strip (text_of (get (codes "From") message)))
      (addressed sender recipient (identified new_id (local message))) b c,
  occurrences-addressed m sender recipient (identified new_id (local message)),
  occurrences-identified m new_id (local message) a,
)

occurrences-local :
    (m : Text) (message : Fields)
    → (is_transport m ≡ true) ⊎ (any (λ n. same_name n m) rewritten ≡ true)
    → occurrences m (local message) ≡ 0
unfolding local
occurrences-local m message (inl h) = drop_transport-names m (remove_all rewritten message) h
occurrences-local m message (inr h) =
    let cleaned = remove_all rewritten message in
    ground (
      arith,
      occurrences-drop_transport m (names cleaned) cleaned,
      occurrences-remove_all m rewritten message,
    )

is_transport-ne :
    (a m : Text) → is_transport a ≡ false → is_transport m ≡ true → same_name a m ≡ false
is_transport-ne a m h k = ground (arith, is_transport-same a m)

-- Whatever the held message carried, the delivered one has exactly one From, one To and one
-- Message-ID field.
pub restoration_identity :
    (sender recipient new_id : Text) (message : Fields)
    → let sent = prepare_restoration sender recipient new_id message in
      (occurrences (codes "From") sent ≡ 1)
      × (occurrences (codes "To") sent ≡ 1)
      × (occurrences (codes "Message-ID") sent ≡ 1)
unfolding same_name lower
restoration_identity sender recipient new_id message = (
  omega (
    arith,
    occurrences-prepare_restoration (codes "From") sender recipient new_id message refl refl refl,
    occurrences-local (codes "From") message (inr refl),
  ),
  omega (
    arith,
    occurrences-prepare_restoration (codes "To") sender recipient new_id message refl refl refl,
    occurrences-local (codes "To") message (inr refl),
  ),
  omega (
    arith,
    occurrences-prepare_restoration (codes "Message-ID") sender recipient new_id message refl refl
        refl,
  ),
)

-- No field of the original hop is delivered: no Received, Received-SPF, Return-Path or
-- Delivered-To field, and no X- field but Sicurre's own.
pub restoration_drops_transport :
    (sender recipient new_id name : Text) (message : Fields)
    → is_transport name ≡ true
    → occurrences name (prepare_restoration sender recipient new_id message) ≡ 0
unfolding is_transport lower
restoration_drops_transport sender recipient new_id name message h = ground (
  arith,
  occurrences-prepare_restoration name sender recipient new_id message
      (is_transport-ne (codes "X-Sicurre-Original-Message-ID") name refl h)
      (is_transport-ne (codes "Reply-To") name refl h)
      (is_transport-ne (codes "X-Sicurre-Original-From") name refl h),
  is_transport-ne (codes "Message-ID") name refl h,
  is_transport-ne (codes "From") name refl h,
  is_transport-ne (codes "To") name refl h,
  occurrences-local name message (inl h),
)

-- No signature or authentication result of the original message is delivered.
pub restoration_drops_signatures :
    (sender recipient new_id : Text) (message : Fields)
    → let sent = prepare_restoration sender recipient new_id message in
      (occurrences (codes "DKIM-Signature") sent ≡ 0)
      × (occurrences (codes "ARC-Seal") sent ≡ 0)
      × (occurrences (codes "ARC-Message-Signature") sent ≡ 0)
      × (occurrences (codes "ARC-Authentication-Results") sent ≡ 0)
      × (occurrences (codes "Authentication-Results") sent ≡ 0)
unfolding same_name lower
restoration_drops_signatures sender recipient new_id message = (
  dropped (codes "DKIM-Signature") refl refl refl refl refl refl refl,
  dropped (codes "ARC-Seal") refl refl refl refl refl refl refl,
  dropped (codes "ARC-Message-Signature") refl refl refl refl refl refl refl,
  dropped (codes "ARC-Authentication-Results") refl refl refl refl refl refl refl,
  dropped (codes "Authentication-Results") refl refl refl refl refl refl refl,
)
  where
    dropped :
        (m : Text)
        → same_name (codes "X-Sicurre-Original-Message-ID") m ≡ false
        → same_name (codes "Reply-To") m ≡ false
        → same_name (codes "X-Sicurre-Original-From") m ≡ false
        → same_name (codes "Message-ID") m ≡ false
        → same_name (codes "From") m ≡ false
        → same_name (codes "To") m ≡ false
        → any (λ n. same_name n m) rewritten ≡ true
        → occurrences m (prepare_restoration sender recipient new_id message) ≡ 0
    dropped m a b c d e f g = ground (
      arith,
      occurrences-prepare_restoration m sender recipient new_id message a b c,
      occurrences-local m message (inr g),
    )
