-- ===== src/Quarantine/Objects/Local.antt =====
-- `LocalQuarantineStore` of src/data_platform/services/quarantine_storage.py, and that it stays
-- inside its root. The file system is outside: `resolve` collapses `..` segments and follows links,
-- and any call may fail. `root_dir` is the root as the constructor resolved it.
use mathlib.Core.Path.{subst}
use mathlib.Core.Option.{some-injective, none-ne-some}
use mathlib.Core.Bool.{true≢false}
use sicurre.Prelude.{
  ℕ, ◌≡◌, ◌≢◌, refl, ap, sym, ◌∙◌, Bool, true, false, not, Option, none, some, ◌++◌, if◌then◌else◌,
  if_both, if_cases,
}
use sicurre.Prelude.Lists.{length, take}
use sicurre.Prelude.Text.{Text, codes, starts_with}
use sicurre.Quarantine.Store.{QuarantineObject, Payload}
use sicurre.Quarantine.Objects.{safe_identifier, eml, texts_eq, drop_prefix}
use sicurre.Quarantine.Objects.Segments.{parts, path_join}

pub record FileSystem : Type 1 where
  pub Files : Type 0
  pub resolve : Text → Files → Text
  pub make_parent : Text → Files → Bool × Files
  pub write_bytes : Text → Payload → Files → Bool × Files
  pub chmod : Text → Files → Bool × Files
  pub read_bytes : Text → Files → Option Payload
  pub unlink : Text → Files → Bool × Files

-- `candidate.is_relative_to(root)`
unfoldable pub is_relative_to : Text → Text → Bool
is_relative_to root candidate = texts_eq (take (length (parts root)) (parts candidate)) (parts root)

unfoldable pub file_scheme : Text
file_scheme = codes "file://"

module _ (fs : FileSystem) (sha256 : Payload → ℕ) (root_dir : Text) where
  open fs use {Files, resolve, make_parent, write_bytes, chmod, read_bytes, unlink}

  unfoldable confined : Text → Option Text
  confined candidate = if is_relative_to root_dir candidate then some candidate else none

  unfoldable path_of : Option Text → Option Text → Files → Option Text
  unfolding confined
  path_of none item files = none
  path_of (some workspace) none files = none
  path_of (some workspace) (some item) files =
      confined (resolve (path_join (path_join root_dir workspace) (eml item)) files)

  -- `_path`
  unfoldable pub local_path : Text → Text → Files → Option Text
  unfolding path_of
  local_path workspace item files = path_of (safe_identifier workspace) (safe_identifier item) files

  -- `_resolve_uri`
  unfoldable pub resolve_uri : Text → Files → Option Text
  unfolding confined
  resolve_uri uri files =
      if not (starts_with file_scheme uri)
      then none
      else confined (resolve (drop_prefix file_scheme uri) files)

  unfoldable permitted : Text → Payload → Bool × Files → Option QuarantineObject × Files
  permitted path payload (false, files) = (none, files)
  permitted path payload (true, files) = (
    some (record {
      storage_uri = file_scheme ++ resolve path files;
      content_hash = sha256 payload;
      size_bytes = length payload;
    }),
    files,
  )

  unfoldable contained : Text → Payload → Bool × Files → Option QuarantineObject × Files
  unfolding permitted
  contained path payload (false, files) = (none, files)
  contained path payload (true, files) = permitted path payload (chmod path files)

  unfoldable prepared : Text → Payload → Bool × Files → Option QuarantineObject × Files
  unfolding contained
  prepared path payload (false, files) = (none, files)
  prepared path payload (true, files) = contained path payload (write_bytes path payload files)

  unfoldable write_at : Option Text → Payload → Files → Option QuarantineObject × Files
  unfolding prepared
  write_at none payload files = (none, files)
  write_at (some path) payload files = prepared path payload (make_parent path files)

  unfoldable pub local_write : Text → Text → Payload → Files → Option QuarantineObject × Files
  unfolding write_at
  local_write workspace item payload files =
      write_at (local_path workspace item files) payload files

  unfoldable read_at : Option Text → Files → Option Payload
  read_at none files = none
  read_at (some path) files = read_bytes path files

  unfoldable pub local_read : Text → Files → Option Payload
  unfolding read_at
  local_read uri files = read_at (resolve_uri uri files) files

  unfoldable unlink_at : Option Text → Files → Bool × Files
  unlink_at none files = (false, files)
  unlink_at (some path) files = unlink path files

  unfoldable pub local_delete : Text → Files → Bool × Files
  unfolding unlink_at
  local_delete uri files = unlink_at (resolve_uri uri files) files

-- What the file system documents: a resolved path resolves to itself; a call changes the content of no
-- other file than the one that its path resolves to; and making a folder or setting permissions
-- changes the content of none, nor does a new folder change where a path leads.
pub record FileLaws (fs : FileSystem) : Type 0 where
  pub resolve_idem : (p : Text) (s : fs.Files) → fs.resolve (fs.resolve p s) s ≡ fs.resolve p s
  pub make_parent_resolves :
      (p q : Text) (s : fs.Files) → fs.resolve q (fs.make_parent p s).1 ≡ fs.resolve q s
  pub make_parent_keeps :
      (p q : Text) (s : fs.Files) → fs.read_bytes q (fs.make_parent p s).1 ≡ fs.read_bytes q s
  pub chmod_keeps :
      (p q : Text) (s : fs.Files) → fs.read_bytes q (fs.chmod p s).1 ≡ fs.read_bytes q s
  pub write_elsewhere :
      (p q : Text) (b : Payload) (s : fs.Files)
      → fs.resolve p s ≢ fs.resolve q s
      → fs.read_bytes q (fs.write_bytes p b s).1 ≡ fs.read_bytes q s
  pub unlink_elsewhere :
      (p q : Text) (s : fs.Files)
      → fs.resolve p s ≢ fs.resolve q s
      → fs.read_bytes q (fs.unlink p s).1 ≡ fs.read_bytes q s

module _ (fs : FileSystem) (sha256 : Payload → ℕ) (root_dir : Text) (laws : FileLaws fs) where
  open fs use {Files, resolve, make_parent, write_bytes, chmod, read_bytes, unlink}

  -- The file that a path leads to lies under the root.
  abbrev pub IsInside : Text → Files → Type 0
  IsInside path s = is_relative_to root_dir (resolve path s) ≡ true

  confined-IsInside :
      (x : Text) (s : Files) (path : Text)
      → confined fs sha256 root_dir (resolve x s) ≡ some path
      → IsInside path s
  unfolding confined
  confined-IsInside x s path =
      if_cases (λ o. o ≡ some path → IsInside path s) (is_relative_to root_dir (resolve x s))
        (λ h e.
          subst (λ c. IsInside c s) (some-injective (resolve x s) path e)
            (ap (is_relative_to root_dir) (laws.resolve_idem x s) ∙ h))
        (λ h e. absurd (none-ne-some _ e))

  path_of-IsInside :
      (w i : Option Text) (s : Files) (path : Text)
      → path_of fs sha256 root_dir w i s ≡ some path
      → IsInside path s
  unfolding path_of
  path_of-IsInside none i s path e = absurd cc
  path_of-IsInside (some w) none s path e = absurd cc
  path_of-IsInside (some w) (some i) s path e =
      confined-IsInside (path_join (path_join root_dir w) (eml i)) s path e

  resolve_uri-IsInside :
      (uri : Text) (s : Files) (path : Text)
      → resolve_uri fs sha256 root_dir uri s ≡ some path
      → IsInside path s
  unfolding resolve_uri
  resolve_uri-IsInside uri s path =
      if_both (λ o. o ≡ some path → IsInside path s) (not (starts_with file_scheme uri))
        (λ e. absurd (none-ne-some _ e)) (confined-IsInside (drop_prefix file_scheme uri) s path)

  -- A file outside of the root is another file than any inside.
  inside-elsewhere :
      (path q : Text) (s : Files)
      → is_relative_to root_dir (resolve q s) ≡ false
      → IsInside path s
      → resolve path s ≢ resolve q s
  inside-elsewhere path q s outside inside same =
      true≢false (sym inside ∙ ap (is_relative_to root_dir) same ∙ outside)

  read_at-IsInside :
      (path : Option Text) (s : Files) (b : Payload)
      → ((p : Text) → path ≡ some p → IsInside p s)
      → read_at fs sha256 root_dir path s ≡ some b
      → (p : Text) × IsInside p s × (read_bytes p s ≡ some b)
  unfolding read_at
  read_at-IsInside none s b inside e = absurd (none-ne-some _ e)
  read_at-IsInside (some p) s b inside e = (p, inside p refl, e)

  permitted-files :
      (path : Text) (b : Payload) (x : Bool × Files)
      → (permitted fs sha256 root_dir path b x).1 ≡ x.1
  unfolding permitted
  permitted-files path b (false, s) = refl
  permitted-files path b (true, s) = refl

  contained-keeps :
      (path q : Text) (b : Payload) (x : Bool × Files)
      → read_bytes q (contained fs sha256 root_dir path b x).1 ≡ read_bytes q x.1
  unfolding contained
  contained-keeps path q b (false, s) = refl
  contained-keeps path q b (true, s) =
      ap (read_bytes q) (permitted-files path b (chmod path s)) ∙ laws.chmod_keeps path q s

  prepared-keeps :
      (path q : Text) (b : Payload) (x : Bool × Files)
      → resolve path x.1 ≢ resolve q x.1
      → read_bytes q (prepared fs sha256 root_dir path b x).1 ≡ read_bytes q x.1
  unfolding prepared
  prepared-keeps path q b (false, s) other = refl
  prepared-keeps path q b (true, s) other =
      contained-keeps path q b (write_bytes path b s) ∙ laws.write_elsewhere path q b s other

  write_at-keeps :
      (path : Option Text) (q : Text) (b : Payload) (s : Files)
      → ((p : Text) → path ≡ some p → resolve p s ≢ resolve q s)
      → read_bytes q (write_at fs sha256 root_dir path b s).1 ≡ read_bytes q s
  unfolding write_at
  write_at-keeps none q b s other = refl
  write_at-keeps (some path) q b s other =
      prepared-keeps path q b (make_parent path s) (λ e.
        other path refl
          (sym (laws.make_parent_resolves path path s) ∙ e ∙ laws.make_parent_resolves path q s))
      ∙ laws.make_parent_keeps path q s

  unlink_at-keeps :
      (path : Option Text) (q : Text) (s : Files)
      → ((p : Text) → path ≡ some p → resolve p s ≢ resolve q s)
      → read_bytes q (unlink_at fs sha256 root_dir path s).1 ≡ read_bytes q s
  unfolding unlink_at
  unlink_at-keeps none q s other = refl
  unlink_at-keeps (some path) q s other = laws.unlink_elsewhere path q s (other path refl)

  -- On a file system that keeps its documented laws, the local store changes no file that lies,
  -- after `..` segments and links, outside of its root, whatever identifiers or URI it is given, and
  -- what it reads is the content of a file that lies inside.
  pub local_store_confined :
      (q : Text) (s : Files)
      → is_relative_to root_dir (resolve q s) ≡ false
      → ((workspace item : Text) (payload : Payload)
          → read_bytes q (local_write fs sha256 root_dir workspace item payload s).1
            ≡ read_bytes q s)
        × ((uri : Text) → read_bytes q (local_delete fs sha256 root_dir uri s).1 ≡ read_bytes q s)
        × ((uri : Text) (p : Payload)
            → local_read fs sha256 root_dir uri s ≡ some p
            → (path : Text) × (is_relative_to root_dir (resolve path s) ≡ true)
              × (read_bytes path s ≡ some p))
  unfolding local_write local_path local_delete local_read
  local_store_confined q s outside = (
    λ w i b. write_at-keeps _ q b s (λ p e.
        inside-elsewhere p q s outside
          (path_of-IsInside (safe_identifier w) (safe_identifier i) s p e)),
    λ uri.
        unlink_at-keeps _ q s
          (λ p e. inside-elsewhere p q s outside (resolve_uri-IsInside uri s p e)),
    λ uri b e.
        read_at-IsInside (resolve_uri fs sha256 root_dir uri s) s b (resolve_uri-IsInside uri s) e,
  )
