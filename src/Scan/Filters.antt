-- ===== src/Scan/Filters.antt =====
-- What scan_email of src/data_platform/api/routers/email_scan.py reads out of a message before it is
-- classified: the domain to name in an alert, mail that is not the customer's, Sicurre's own
-- notifications, and the workspace's rules.
pub mod Trust
use sicurre.Prelude.{
  ℕ, Bool, true, false, not, ◌&&◌, ◌||◌, Option, none, some, List, [], ◌∷◌, ◌++◌, if◌then◌else◌,
  ◌==◌, leb,
}
use sicurre.Prelude.Text.{
  Text, codes, text_eq, is_empty, or_else, lower, strip, strip_chars, rstrip_chars, starts_with,
  ends_with, has_char, split_at, rsplit_at, split, is_space,
}
use sicurre.Database.{SecurityRule, RuleType}

-- host.strip().lower() if at and local else ""
abbrev named_domain : Option (Text × Text) → Text
named_domain none = []
named_domain (some (local, host)) = if is_empty local then [] else lower (strip host)

unfoldable pub alert_domain : Text → Text → Text
alert_domain recipient zone_name =
    or_else (named_domain (rsplit_at 64 recipient))
      (or_else (lower (strip zone_name)) (codes "votre domaine"))

abbrev is_angle : ℕ → Bool
is_angle c = c == 60 || c == 62

abbrev is_dot : ℕ → Bool
is_dot c = c == 46

-- domain == zone or domain.endswith(f".{zone}")
unfoldable pub within_zone : Text → Text → Bool
within_zone zone domain = text_eq domain zone || ends_with (codes "." ++ zone) domain

abbrev leaves_zone : Text → Option (Text × Text) → Bool
leaves_zone zone none = false
leaves_zone zone (some (_, host)) = not (within_zone zone (rstrip_chars is_dot host))

unfoldable pub recipient_outside_zone : Text → Text → Bool
recipient_outside_zone recipient zone =
    if is_empty zone
    then false
    else leaves_zone zone (rsplit_at 64 (strip_chars is_angle (lower (strip recipient))))

-- The regular expression \bdkim=pass\b[^;]*\bheader\.d=mail\.sicurre\.com(?=[\s;]|$), on a text in
-- lower case. `before` is the character in front of the text.
abbrev is_word_char : ℕ → Bool
is_word_char c =
    leb 97 c && leb c 122 || (leb 65 c && leb c 90 || (leb 48 c && leb c 57 || c == 95))

-- (?=[\s;]|$)
abbrev ends_value : Text → Bool
ends_value [] = true
ends_value (c ∷ _) = c == 59 || is_space c

-- \b in front of a character that is no part of a word, or at the end
abbrev ends_word : Text → Bool
ends_word [] = true
ends_word (c ∷ _) = not (is_word_char c)

abbrev pub after : Text → Text → Option Text
after [] s = some s
after (_ ∷ _) [] = none
after (a ∷ p) (b ∷ s) = if a == b then after p s else none

abbrev holds : (Text → Bool) → Option Text → Bool
holds p none = false
holds p (some s) = p s

unfoldable pub names_sicurre : ℕ → Text → Bool
names_sicurre before [] = false
names_sicurre before (c ∷ s) =
    not (is_word_char before)
      && holds ends_value (after (codes "header.d=mail.sicurre.com") (c ∷ s))
    || not (c == 59) && names_sicurre c s

-- Behind dkim=pass, whose last letter is 115.
unfoldable pub passes : Text → Bool
unfolding names_sicurre
passes s = ends_word s && names_sicurre 115 s

unfoldable pub finds_dkim_pass : ℕ → Text → Bool
unfolding passes
finds_dkim_pass before [] = false
finds_dkim_pass before (c ∷ s) =
    not (is_word_char before) && holds passes (after (codes "dkim=pass") (c ∷ s))
    || finds_dkim_pass c s

-- The search starts at the front, where \b holds as behind a space.
abbrev pub dkim_pass : Text → Bool
dkim_pass value = finds_dkim_pass 32 (lower value)

-- .replace("\r\n", "\n")
unfoldable pub newlines : Text → Text
newlines [] = []
newlines (c ∷ s) =
    let rest = newlines s in if c == 13 && starts_with (codes "\n") s then rest else c ∷ rest

-- .split("\n\n", 1)[0]
unfoldable pub header_block : Text → Text
header_block [] = []
header_block (c ∷ s) =
    let rest = header_block s in if c == 10 && starts_with (codes "\n") s then [] else c ∷ rest

abbrev is_blank : ℕ → Bool
is_blank c = c == 32 || c == 9

abbrev starts_blank : Text → Bool
starts_blank [] = false
starts_blank (c ∷ _) = is_blank c

-- re.sub(r"\n[ \t]+", " ", block); the flag is on inside of a match.
unfoldable pub unfold_lines : Bool → Text → Text
unfold_lines folding [] = []
unfold_lines folding (c ∷ s) =
    let outside = unfold_lines false s in
    let within = unfold_lines true s in
    if folding && is_blank c
    then within
    else if c == 10 && starts_blank s
    then 32 ∷ within
    else c ∷ outside

-- The value of a header line that mx.cloudflare.net wrote its authentication results in.
unfoldable pub trusted_value : Text → Option Text
trusted_value line = elim (split_at 58 line) [
  | none ↦ none
  | some (name, value) ↦
      if text_eq (lower (strip name)) (codes "authentication-results")
        && starts_with (codes "mx.cloudflare.net") (lower (strip value))
      then some value
      else none
]

unfoldable pub first_trusted : List Text → Option Text
first_trusted [] = none
first_trusted (line ∷ lines) = elim (trusted_value line) [
  | none ↦ first_trusted lines
  | some value ↦ some value
]

abbrev pub header_lines : Text → List Text
header_lines raw = split 10 (unfold_lines false (header_block (newlines raw)))

unfoldable pub is_sicurre_notification : Text → Bool
unfolding first_trusted
is_sicurre_notification raw = holds dkim_pass (first_trusted (header_lines raw))

-- One rule of the workspace, on the sender in lower case.
unfoldable pub rule_matches : Text → Text → Bool
rule_matches sender pattern =
    if has_char 64 pattern
    then (if starts_with (codes "@") pattern
        then ends_with pattern sender
        else text_eq sender pattern)
    else ends_with (codes "@" ++ pattern) sender || text_eq sender pattern

-- The type of the first rule that matches.
unfoldable pub matched_rule : Text → List SecurityRule → Option RuleType
matched_rule sender [] = none
matched_rule sender (r ∷ rs) =
    if rule_matches sender (lower r.pattern) then some r.rule_type else matched_rule sender rs
