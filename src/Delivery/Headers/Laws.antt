-- ===== src/Delivery/Headers/Laws.antt =====
-- What the edits of a header list do to the fields of one name.
use sicurre.Prelude.{
  ◌+◌, ◌≡◌, refl, true, false, ◌&&◌, none, some, List, [], ◌∷◌, ◌++◌, arith, if◌then◌else◌, is_some,
}
use sicurre.Prelude.Lists.{any}
use sicurre.Prelude.Text.{Text, same_name, same_name-eq, same_name-join, lower-same_name}
use sicurre.Delivery.Headers.{
  Fields, occurrences, contains, get, remove, remove_all, is_transport, drop_transport, names,
}

pub occurrences-remove :
    (n m : Text) (fs : Fields)
    → occurrences m (remove n fs) ≡ (if same_name n m then 0 else occurrences m fs)
unfolding remove
occurrences-remove n m [] = ground arith
occurrences-remove n m ((k, v) ∷ fs) =
    ground (arith, occurrences-remove n m fs, same_name-eq k n m, same_name-join k n m)

pub occurrences-append :
    (m : Text) (fs gs : Fields) → occurrences m (fs ++ gs) ≡ occurrences m fs + occurrences m gs
occurrences-append m [] gs = omega arith
occurrences-append m ((k, v) ∷ fs) gs = omega (arith, occurrences-append m fs gs)

pub is_transport-same : (a b : Text) → same_name a b ≡ true → is_transport a ≡ is_transport b
unfolding is_transport
is_transport-same a b h = rw (lower-same_name a b h)

pub occurrences-drop_transport :
    (m : Text) (ns : List Text) (fs : Fields)
    → occurrences m (drop_transport ns fs)
      ≡ (if is_transport m && any (λ n. same_name n m) ns then 0 else occurrences m fs)
unfolding drop_transport
occurrences-drop_transport m [] fs = ground arith
occurrences-drop_transport m (n ∷ ns) fs = ground (
  arith,
  occurrences-drop_transport m ns (if is_transport n then remove n fs else fs),
  occurrences-remove n m fs,
  is_transport-same n m,
)

any-names :
    (m : Text) (fs : Fields) → any (λ n. same_name n m) (names fs) ≡ false → occurrences m fs ≡ 0
any-names m [] h = refl
any-names m ((k, v) ∷ fs) h = ground (arith, any-names m fs)

-- Dropping by the names that are there leaves no transport field.
pub drop_transport-names :
    (m : Text) (fs : Fields)
    → is_transport m ≡ true
    → occurrences m (drop_transport (names fs) fs) ≡ 0
drop_transport-names m fs h =
    ground (arith, occurrences-drop_transport m (names fs) fs, any-names m fs)

pub contains-eq-get : (m : Text) (fs : Fields) → contains m fs ≡ is_some (get m fs)
unfolding contains get
contains-eq-get m [] = refl
contains-eq-get m ((k, v) ∷ fs) = ground (arith, contains-eq-get m fs)

pub get-remove_ne :
    (n m : Text) (fs : Fields) → same_name n m ≡ false → get m (remove n fs) ≡ get m fs
unfolding get remove
get-remove_ne n m [] h = refl
get-remove_ne n m ((k, v) ∷ fs) h = ground (arith, get-remove_ne n m fs h, same_name-eq k n m)

pub get-remove_all :
    (m : Text) (ns : List Text) (fs : Fields)
    → any (λ n. same_name n m) ns ≡ false
    → get m (remove_all ns fs) ≡ get m fs
unfolding remove_all
get-remove_all m [] fs h = refl
get-remove_all m (n ∷ ns) fs h =
    ground (arith, get-remove_all m ns (remove n fs), get-remove_ne n m fs)

pub get-drop_transport :
    (m : Text) (ns : List Text) (fs : Fields)
    → is_transport m ≡ false
    → get m (drop_transport ns fs) ≡ get m fs
unfolding drop_transport
get-drop_transport m [] fs h = refl
get-drop_transport m (n ∷ ns) fs h = ground (
  arith,
  get-drop_transport m ns (if is_transport n then remove n fs else fs) h,
  get-remove_ne n m fs,
  is_transport-same n m,
)

-- A field that is added at the end is found only if there was none of its name.
pub get-add :
    (m name value : Text) (fs : Fields)
    → get m (fs ++ (name, value) ∷ [])
      ≡ (if contains m fs then get m fs else if same_name name m then some value else none)
unfolding get contains
get-add m name value [] = refl
get-add m name value ((k, v) ∷ fs) = ground (arith, get-add m name value fs)

pub occurrences-remove_all :
    (m : Text) (ns : List Text) (fs : Fields)
    → occurrences m (remove_all ns fs)
      ≡ (if any (λ n. same_name n m) ns then 0 else occurrences m fs)
unfolding remove_all
occurrences-remove_all m [] fs = ground arith
occurrences-remove_all m (n ∷ ns) fs =
    ground (arith, occurrences-remove_all m ns (remove n fs), occurrences-remove n m fs)

pub occurrences-add :
    (m name value : Text) (fs : Fields)
    → occurrences m (fs ++ (name, value) ∷ [])
      ≡ occurrences m fs + (if same_name name m then 1 else 0)
occurrences-add m name value fs = ground (arith, occurrences-append m fs ((name, value) ∷ []))
