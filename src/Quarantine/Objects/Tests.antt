-- ===== src/Quarantine/Objects/Tests.antt =====
-- Buckets and file systems in memory, and the stores' theorems on them.
use sicurre.Prelude.{
  ℕ, ◌≡◌, ◌≢◌, refl, ap, Bool, true, false, ◌&&◌, Option, none, some, List, [], ◌∷◌, ◌++◌,
  if◌then◌else◌, Bool-cases, inl, inr,
}
use sicurre.Prelude.Lists.{length}
use sicurre.Prelude.Text.{Text, codes, text_eq, text_eq_refl, eq_of_text_eq, has_infix}
use sicurre.Quarantine.Store.{QuarantineObject, Payload}
use sicurre.Quarantine.Objects.{
  ObjectClient, R2Settings, safe_identifier, r2_key, r2_write, r2_read, r2_delete,
}
use sicurre.Quarantine.Objects.Refinement.{ClientLaws, view, set_cell, r2_store_refines}
use sicurre.Quarantine.Objects.Local.{
  FileSystem, FileLaws, is_relative_to, local_write, local_read, local_delete, local_store_confined,
}

different : (s t : Text) → s ≢ t → text_eq s t ≡ false
different s t h = elim (Bool-cases (text_eq s t)) [
  | inl e ↦ absurd (h (eq_of_text_eq s t e))
  | inr e ↦ e
]

abbrev bucket : ObjectClient
bucket = record {
  Objects = Text → Text → Option Payload;
  put_object = λ b k p s. (true, λ b' k'. if text_eq k k' && text_eq b b' then some p else s b' k');
  get_object = λ b k s. s b k;
  delete_object = λ b k s. (true, λ b' k'. if text_eq k k' && text_eq b b' then none else s b' k');
}

bucket-laws : ClientLaws bucket
bucket-laws = record {
  put_then_get = λ b k p s _. rw (text_eq_refl k, text_eq_refl b) refl;
  put_elsewhere = λ b k k' p s h. rw (different k k' h) refl;
  delete_then_get = λ b k s _. rw (text_eq_refl k, text_eq_refl b) refl;
  delete_elsewhere = λ b k k' s h. rw (different k k' h) refl;
}

abbrev settings : R2Settings
settings = record { bucket = codes "q"; quarantine_r2_prefix = codes "/raw/./mail/" }

abbrev stored : QuarantineObject
stored = record {
  storage_uri = codes "r2://q/raw/mail/w1/m-7.eml";
  content_hash = 2;
  size_bytes = 2;
}

abbrev payload : Payload
payload = 5 ∷ 6 ∷ []

abbrev empty_bucket : Text → Text → Option Payload
empty_bucket _ _ = none

r2_store_refines_example :
    let s' = (r2_write bucket length settings (codes "w1") (codes "m-7") payload empty_bucket).1 in
    ((w i : Text)
      → view bucket length settings s' w i
        ≡ set_cell
            (codes "w1")
            (codes "m-7")
            (some payload)
            (view bucket length settings empty_bucket)
            w
            i)
    × ((t : Text → Text → Option Payload)
        → r2_read bucket length settings stored.storage_uri t
          ≡ view bucket length settings t (codes "w1") (codes "m-7"))
    × ((t : Text → Text → Option Payload)
        → (r2_delete bucket length settings stored.storage_uri t).0 ≡ true
        → (w i : Text)
        → view bucket length settings (r2_delete bucket length settings stored.storage_uri t).1 w i
          ≡ set_cell (codes "w1") (codes "m-7") none (view bucket length settings t) w i)
unfolding r2_write sicurre.Quarantine.Objects.Segments.segments sicurre.Quarantine.Objects.r2_prefix
    sicurre.Prelude.Text.strip_chars r2_key safe_identifier sicurre.Quarantine.Objects.scheme
    sicurre.Quarantine.Objects.Segments.posix
r2_store_refines_example =
    r2_store_refines bucket length settings bucket-laws refl (codes "w1") (codes "m-7") payload
      empty_bucket stored refl

-- A path that climbs leads to the top of this disk.
abbrev collapsed : Text → Text
collapsed p = if has_infix (codes "/..") p then codes "/" else p

abbrev disk : FileSystem
disk = record {
  Files = Text → Option Payload;
  resolve = λ p s. collapsed p;
  make_parent = λ p s. (true, s);
  write_bytes = λ p b s. (true, λ q. if text_eq (collapsed p) q then some b else s q);
  chmod = λ p s. (true, s);
  read_bytes = λ p s. s (collapsed p);
  unlink = λ p s. (true, λ q. if text_eq (collapsed p) q then none else s q);
}

collapsed_idem : (p : Text) → collapsed (collapsed p) ≡ collapsed p
collapsed_idem p = elim (Bool-cases (has_infix (codes "/..") p)) [
  | inl e ↦ rw e refl
  | inr e ↦ rw (e, e) refl
]

disk-laws : FileLaws disk
disk-laws = record {
  resolve_idem = λ p s. collapsed_idem p;
  make_parent_resolves = λ p q s. refl;
  make_parent_keeps = λ p q s. refl;
  chmod_keeps = λ p q s. refl;
  write_elsewhere = λ p q b s h. rw (different (collapsed p) (collapsed q) h) refl;
  unlink_elsewhere = λ p q s h. rw (different (collapsed p) (collapsed q) h) refl;
}

abbrev climbing : Text
climbing = codes "/srv/q/../x"

abbrev files : Text → Option Payload
files _ = some payload

local_store_confined_example :
    ((w i : Text) (b : Payload)
      → disk.read_bytes climbing (local_write disk length (codes "/srv/q") w i b files).1
        ≡ disk.read_bytes climbing files)
    × ((uri : Text)
        → disk.read_bytes climbing (local_delete disk length (codes "/srv/q") uri files).1
          ≡ disk.read_bytes climbing files)
    × ((uri : Text) (p : Payload)
        → local_read disk length (codes "/srv/q") uri files ≡ some p
        → (path : Text) × (is_relative_to (codes "/srv/q") (disk.resolve path files) ≡ true)
          × (disk.read_bytes path files ≡ some p))
unfolding is_relative_to sicurre.Quarantine.Objects.Segments.parts
local_store_confined_example =
    local_store_confined disk length (codes "/srv/q") disk-laws climbing files refl
