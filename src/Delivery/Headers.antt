-- ===== src/Delivery/Headers.antt =====
-- `prepare_restoration_mime`, on the header fields of the parsed message: names and values in
-- order. Parsing and printing the message are outside, and so is `make_msgid`.
pub mod Laws
pub mod ReplyAddress
pub mod Restoration
use sicurre.Prelude.{
  ℕ, ◌+◌, ◌≡◌, refl, Bool, true, false, not, ◌&&◌, ◌||◌, Option, none, some, List, [], ◌∷◌, ◌++◌,
  map, arith, if◌then◌else◌, String,
}
use sicurre.Prelude.Lists.{any, all}
use sicurre.Prelude.Text.{Text, codes, text_eq, lower, strip, starts_with, same_name, is_empty}

abbrev pub Fields : Type 0
Fields = List (Text × Text)

-- How many fields have the name.
abbrev pub occurrences : Text → Fields → ℕ
occurrences name [] = 0
occurrences name ((n, v) ∷ fs) = (if same_name n name then 1 else 0) + occurrences name fs

-- `name in message`
unfoldable pub contains : Text → Fields → Bool
contains name [] = false
contains name ((n, v) ∷ fs) = same_name n name || contains name fs

-- `message.get(name)`: the first field of that name
unfoldable pub get : Text → Fields → Option Text
get name [] = none
get name ((n, v) ∷ fs) = if same_name n name then some v else get name fs

-- `while name in message: del message[name]`; one `del` takes every field of that name.
unfoldable pub remove : Text → Fields → Fields
remove name [] = []
remove name ((n, v) ∷ fs) = if same_name n name then remove name fs else (n, v) ∷ remove name fs

unfoldable pub remove_all : List Text → Fields → Fields
remove_all [] fs = fs
remove_all (n ∷ ns) fs = remove_all ns (remove n fs)

-- `message[name] = value` adds a field at the end.
abbrev pub add : String → Text → Fields → Fields
add name value fs = fs ++ (codes name, value) ∷ []

abbrev pub rewritten : List Text
rewritten =
    codes "From"
    ∷ codes "To"
    ∷ codes "DKIM-Signature"
    ∷ codes "ARC-Seal"
    ∷ codes "ARC-Message-Signature"
    ∷ codes "ARC-Authentication-Results"
    ∷ codes "Authentication-Results"
    ∷ []

-- A field of the original hop.
unfoldable pub is_transport : Text → Bool
is_transport name =
    let lowered = lower name in
    text_eq lowered (codes "received")
    || (text_eq lowered (codes "received-spf")
        || (text_eq lowered (codes "return-path")
            || (text_eq lowered (codes "delivered-to")
                || starts_with (codes "x-") lowered
                  && not (starts_with (codes "x-sicurre-") lowered))))

-- The loop over the names that the message had before it.
unfoldable pub drop_transport : List Text → Fields → Fields
drop_transport [] fs = fs
drop_transport (n ∷ ns) fs = drop_transport ns (if is_transport n then remove n fs else fs)

abbrev pub names : Fields → List Text
names [] = []
names ((n, _) ∷ fs) = n ∷ names fs

abbrev pub text_of : Option Text → Text
text_of none = codes ""
text_of (some v) = v

unfoldable pub with_original_id : Text → Fields → Fields
with_original_id original fs =
    if is_empty original then fs else add "X-Sicurre-Original-Message-ID" original fs

unfoldable pub with_reply_to : Text → Fields → Fields
with_reply_to original fs =
    if is_empty original
    then fs
    else add "X-Sicurre-Original-From" original
        (if contains (codes "Reply-To") fs then fs else add "Reply-To" original fs)

-- The fields that survive from the original message.
unfoldable pub local : Fields → Fields
local message = let cleaned = remove_all rewritten message in drop_transport (names cleaned) cleaned

unfoldable pub identified : Text → Fields → Fields
identified new_id fs =
    with_original_id (strip (text_of (get (codes "Message-ID") fs)))
      (add "Message-ID" new_id (remove (codes "Message-ID") fs))

unfoldable pub addressed : Text → Text → Fields → Fields
addressed sender recipient fs =
    add "To" recipient (add "From" (codes "Sicurre Restoration <" ++ sender ++ codes ">") fs)

unfoldable pub prepare_restoration : Text → Text → Text → Fields → Fields
prepare_restoration sender recipient new_id message =
    with_reply_to (strip (text_of (get (codes "From") message)))
      (addressed sender recipient (identified new_id (local message)))
