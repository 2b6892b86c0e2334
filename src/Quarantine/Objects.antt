-- ===== src/Quarantine/Objects.antt =====
-- The custody stores of src/data_platform/services/quarantine_storage.py. The bucket's client, the
-- file system and the hash are outside: they are parameters, and any call of them may fail.
pub mod Segments
pub mod Keys
pub mod Refinement
pub mod Local
mod Tests
use sicurre.Prelude.{
  ℕ, Bool, true, false, not, ◌&&◌, ◌||◌, Option, none, some, List, [], ◌∷◌, ◌++◌, ◌==◌, leb,
  if◌then◌else◌,
}
use sicurre.Prelude.Lists.{length, take, all, any}
use sicurre.Prelude.Text.{
  Text, codes, text_eq, is_empty, starts_with, strip, lower, strip_chars, has_char, join,
}
use sicurre.Quarantine.Store.{QuarantineStore, QuarantineObject, Payload}
use Segments.{slash, parts, posix, path_join}

abbrev alphanumeric : ℕ → Bool
alphanumeric c = leb 65 c && leb c 90 || (leb 97 c && leb c 122 || leb 48 c && leb c 57)

abbrev pub id_char : ℕ → Bool
id_char c = alphanumeric c || (c == 95 || c == 45)

-- [A-Za-z0-9][A-Za-z0-9_-]{0,127}
unfoldable pub matches_id : Text → Bool
matches_id [] = false
matches_id (c ∷ s) = alphanumeric c && (all id_char s && leb (length s) 127)

unfoldable pub safe_identifier : Text → Option Text
unfolding matches_id
safe_identifier value = if matches_id value then some value else none

abbrev pub eml : Text → Text
eml item = item ++ codes ".eml"

-- A bucket's client: `put_object`, `get_object` with the body read, and `delete_object`.
pub record ObjectClient : Type 1 where
  pub Objects : Type 0
  pub put_object : Text → Text → Payload → Objects → Bool × Objects
  pub get_object : Text → Text → Objects → Option Payload
  pub delete_object : Text → Text → Objects → Bool × Objects

-- The settings of `R2QuarantineStore`, with `quarantine_r2_prefix` as it is configured.
pub record R2Settings : Type 0 where
  pub bucket : Text
  pub quarantine_r2_prefix : Text

unfoldable pub r2_prefix : R2Settings → Text
r2_prefix settings = strip_chars (λ c. c == slash) settings.quarantine_r2_prefix

-- `R2QuarantineStore._key`
unfoldable pub key_of : R2Settings → Option Text → Option Text → Option Text
key_of settings none item = none
key_of settings (some workspace) none = none
key_of settings (some workspace) (some item) =
    some (posix (path_join (path_join (r2_prefix settings) workspace) (eml item)))

unfoldable pub r2_key : R2Settings → Text → Text → Option Text
unfolding key_of
r2_key settings workspace item = key_of settings (safe_identifier workspace) (safe_identifier item)

abbrev pub texts_eq : List Text → List Text → Bool
texts_eq [] [] = true
texts_eq [] (_ ∷ _) = false
texts_eq (_ ∷ _) [] = false
texts_eq (a ∷ s) (b ∷ t) = text_eq a b && texts_eq s t

abbrev pub dots : Text → Bool
dots s = text_eq (codes "..") s

unfoldable pub scheme : R2Settings → Text
scheme settings = codes "r2://" ++ settings.bucket ++ codes "/"

-- `s.removeprefix(p)`, for an `s` that starts with `p`
abbrev pub drop_prefix : Text → Text → Text
drop_prefix [] s = s
drop_prefix (_ ∷ p) [] = []
drop_prefix (_ ∷ p) (_ ∷ s) = drop_prefix p s

unfoldable pub escapes : Text → Text → Bool
escapes prefix key =
    any dots (parts key) || not (texts_eq (take (length (parts prefix)) (parts key)) (parts prefix))

-- `R2QuarantineStore._parse_uri`
unfoldable pub parse_uri : R2Settings → Text → Option Text
unfolding scheme escapes
parse_uri settings uri =
    if not (starts_with (scheme settings) uri)
    then none
    else let key = drop_prefix (scheme settings) uri in
      if escapes (r2_prefix settings) key then none else some key

module _ (client : ObjectClient) (sha256 : Payload → ℕ) (settings : R2Settings) where
  open client use {Objects, put_object, get_object, delete_object}

  unfoldable written : Text → Payload → Bool × Objects → Option QuarantineObject × Objects
  written key payload (false, objects) = (none, objects)
  written key payload (true, objects) = (
    some (record {
      storage_uri = scheme settings ++ key;
      content_hash = sha256 payload;
      size_bytes = length payload;
    }),
    objects,
  )

  unfoldable put_at : Option Text → Payload → Objects → Option QuarantineObject × Objects
  unfolding written
  put_at none payload objects = (none, objects)
  put_at (some key) payload objects =
      written key payload (put_object settings.bucket key payload objects)

  -- `R2QuarantineStore.write`
  unfoldable pub r2_write : Text → Text → Payload → Objects → Option QuarantineObject × Objects
  unfolding put_at
  r2_write workspace item payload objects = put_at (r2_key settings workspace item) payload objects

  unfoldable get_at : Option Text → Objects → Option Payload
  get_at none objects = none
  get_at (some key) objects = get_object settings.bucket key objects

  unfoldable pub r2_read : Text → Objects → Option Payload
  unfolding get_at
  r2_read uri objects = get_at (parse_uri settings uri) objects

  unfoldable delete_at : Option Text → Objects → Bool × Objects
  delete_at none objects = (false, objects)
  delete_at (some key) objects = delete_object settings.bucket key objects

  unfoldable pub r2_delete : Text → Objects → Bool × Objects
  unfolding delete_at
  r2_delete uri objects = delete_at (parse_uri settings uri) objects

  -- The store that the routes are given; `name` is the text of an identifier.
  abbrev pub r2_store : (ℕ → Text) → QuarantineStore
  r2_store name = record {
    State = Objects;
    write = λ workspace item. r2_write (name workspace) (name item);
    read = r2_read;
    delete = r2_delete;
  }
