-- ===== src/Dns/Records.antt =====
-- Record strings: clean_str, has_usable_dkim, read_dns_state, merge_dmarc, withdraw_dmarc_reporting and
-- planned_change of src/data_platform/services/dns_records.py. A field that is missing is the empty
-- text.
pub mod Tags
pub mod Withdrawal
use sicurre.Prelude.{
  ℕ, suc, Bool, true, false, not, ◌&&◌, ◌||◌, Option, none, some, List, [], ◌∷◌, ◌++◌, ◌==◌,
  if◌then◌else◌, leb,
}
use sicurre.Prelude.Lists.{length, take}
use sicurre.Prelude.Text.{
  Text, codes, text_eq, is_empty, lower, strip, strip_chars, rstrip_chars, starts_with, has_infix,
  split_at, split, join,
}

abbrev drop_two : Text → Text
drop_two [] = []
drop_two (_ ∷ []) = []
drop_two (_ ∷ _ ∷ s) = s

-- s[:-1]
abbrev drop_last : Text → Text
drop_last [] = []
drop_last (c ∷ s) = elim s [ [] ↦ [] | _ ∷ _ ↦ c ∷ drop_last s ]

unfoldable pub unquote_bytes : Text → Text
unquote_bytes t =
    if starts_with (codes "b'") t || starts_with (codes "b\"") t then drop_last (drop_two t) else t

unfoldable pub clean_str : Text → Text
clean_str t = unquote_bytes (strip t)

abbrev is_base64 : ℕ → Bool
is_base64 c =
    leb 65 c && leb c 90
    || (leb 97 c && leb c 122 || (leb 48 c && leb c 57 || (c == 43 || (c == 47 || c == 61))))

-- The length of the longest front that passes.
abbrev run_length : (ℕ → Bool) → Text → ℕ
run_length p [] = 0
run_length p (c ∷ s) = if p c then suc (run_length p s) else 0

abbrev tail : Text → Text
tail [] = []
tail (_ ∷ t) = t

-- The match of p=([A-Za-z0-9+/=]*) that stands first.
unfoldable pub key_length : Text → ℕ
key_length [] = 0
key_length (c ∷ s) =
    if c == 112 && starts_with (codes "=") s then run_length is_base64 (tail s) else key_length s

unfoldable pub has_usable_dkim : Text → Bool
has_usable_dkim content =
    has_infix (codes "v=dkim1") (lower content) && leb 100 (key_length content)

pub record DnsRecord : Type 0 where
  pub type : Text
  pub name : Text
  pub content : Text

pub record DnsState : Type 0 where
  pub spf : Text
  pub dkim : Text
  pub dmarc : Text

abbrev is_dot : ℕ → Bool
is_dot c = c == 46

abbrev is_quote : ℕ → Bool
is_quote c = c == 34

abbrev host_of : Text → Text
host_of name = rstrip_chars is_dot (lower (clean_str name))

-- What one TXT record, whose name and content are cleaned, does to the records found so far.
unfoldable pub pick : Text → Text → Text → DnsState → DnsState
pick zone name content s =
    if text_eq name zone && starts_with (codes "v=spf1") (lower content)
    then record s { spf = content }
    else if has_infix (codes "._domainkey.") name || starts_with (codes "_domainkey.") name
    then (if has_usable_dkim content then record s { dkim = content } else s)
    else if text_eq name (codes "_dmarc." ++ zone)
    then record s { dmarc = content }
    else s

unfoldable pub read_record : Text → DnsRecord → DnsState → DnsState
unfolding pick
read_record zone r s =
    if text_eq r.type (codes "TXT")
    then pick zone (host_of r.name) (strip_chars is_quote (clean_str r.content)) s
    else s

unfoldable read_records : Text → List DnsRecord → DnsState → DnsState
read_records zone [] s = s
read_records zone (r ∷ rs) s = read_records zone rs (read_record zone r s)

unfoldable pub read_dns_state : List DnsRecord → Text → DnsState
unfolding read_records
read_dns_state rs zone_name =
    read_records (rstrip_chars is_dot (lower zone_name)) rs
      (record { spf = []; dkim = []; dmarc = [] })

abbrev starts_open : (ℕ → Bool) → Text → Bool
starts_open stop [] = false
starts_open stop (c ∷ _) = not (stop c)

abbrev is_semicolon : ℕ → Bool
is_semicolon c = c == 59

abbrev ends_uri : ℕ → Bool
ends_uri c = c == 59 || (c == 39 || c == 34)

abbrev behind : Text → Text → Text
behind [] s = s
behind (_ ∷ _) [] = []
behind (_ ∷ p) (_ ∷ s) = behind p s

-- re.sub(r"p=[^;]+", f"p={policy}", record); the flag is on inside of a match.
unfoldable pub set_policy : Text → Bool → Text → Text
set_policy policy matching [] = []
set_policy policy matching (c ∷ s) =
    let outside = set_policy policy false s in
    let within = set_policy policy true s in
    if matching && not (is_semicolon c)
    then within
    else if starts_with (codes "p=") (c ∷ s)
        && starts_open is_semicolon (behind (codes "p=") (c ∷ s))
    then codes "p=" ++ policy ++ within
    else c ∷ outside

abbrev reporting_uri : Text
reporting_uri = codes ",mailto:dmarc@sicurre.com"

-- re.sub(r"(rua=[^;'\"]+)", r"\1,mailto:dmarc@sicurre.com", record)
unfoldable pub add_reporting : Bool → Text → Text
add_reporting matching [] = if matching then reporting_uri else []
add_reporting matching (c ∷ s) =
    let outside = add_reporting false s in
    let within = add_reporting true s in
    if matching
    then (if ends_uri c then reporting_uri ++ c ∷ outside else c ∷ within)
    else if starts_with (codes "rua=") (c ∷ s)
        && starts_open ends_uri (behind (codes "rua=") (c ∷ s))
    then c ∷ within
    else c ∷ outside

abbrev pub sicurre_dmarc_mailbox : Text
sicurre_dmarc_mailbox = codes "dmarc@sicurre.com"

abbrev is_separator : ℕ → Bool
is_separator c = c == 59 || c == 32

unfoldable pub with_reporting : Text → Text
unfolding add_reporting
with_reporting rec =
    if has_infix (codes "rua=") rec
    then (if has_infix sicurre_dmarc_mailbox rec then rec else add_reporting false rec)
    else rstrip_chars is_separator rec ++ codes "; rua=mailto:dmarc@sicurre.com"

unfoldable pub merge_dmarc : Text → Text
unfolding with_reporting set_policy
merge_dmarc current =
    let cleaned = clean_str current in
    if is_empty cleaned
    then codes "v=DMARC1; p=reject; rua=mailto:dmarc@sicurre.com"
    else with_reporting (
        set_policy
          (if has_infix (codes "p=reject") cleaned then codes "reject" else codes "quarantine")
          false cleaned)

unfoldable pub mentions_sicurre : Text → Bool
mentions_sicurre t = has_infix sicurre_dmarc_mailbox (lower t)

-- Other people's addresses in one reporting tag.
unfoldable pub kept_uris : List Text → List Text
kept_uris [] = []
kept_uris (u ∷ us) =
    let rest = kept_uris us in
    let uri = strip u in if is_empty uri || mentions_sicurre uri then rest else uri ∷ rest

abbrev pub is_reporting : Text → Bool
is_reporting name =
    text_eq (lower (strip name)) (codes "rua") || text_eq (lower (strip name)) (codes "ruf")

abbrev pub reports : Option (Text × Text) → Bool
reports none = false
reports (some (name, _)) = is_reporting name

abbrev rewritten_tag : Text → List Text → List Text
rewritten_tag name [] = []
rewritten_tag name (u ∷ us) = (strip name ++ codes "=" ++ join (codes ",") (u ∷ us)) ∷ []

abbrev reporting_tag : Option (Text × Text) → List Text
reporting_tag none = []
reporting_tag (some (name, value)) = rewritten_tag name (kept_uris (split 44 value))

-- What stays of one tag.
unfoldable pub rebuilt_tag : Text → List Text
rebuilt_tag tag =
    if is_empty tag
    then []
    else if reports (split_at 61 tag)
    then reporting_tag (split_at 61 tag)
    else tag ∷ []

unfoldable pub rebuilt : List Text → List Text
unfolding rebuilt_tag
rebuilt [] = []
rebuilt (t ∷ ts) = rebuilt_tag (strip t) ++ rebuilt ts

unfoldable pub withdraw_dmarc_reporting : Text → Option Text
unfolding rebuilt
withdraw_dmarc_reporting current =
    let cleaned = clean_str current in
    if is_empty cleaned || not (mentions_sicurre cleaned)
    then none
    else some (join (codes "; ") (rebuilt (split 59 cleaned)))

pub data Change : Type 0 where
  add modify keep : Change

unfoldable pub planned_change : Text → Text → Change
planned_change current proposed =
    if is_empty (clean_str current)
    then add
    else if text_eq (clean_str current) (clean_str proposed)
    then keep
    else modify
