-- ===== src/Gateway/Routing.antt =====
-- enable_email_routing and the listing it decides by: Email Routing is never turned on over another
-- provider's MX records.
use sicurre.Prelude.{
  ℕ, Bool, true, false, not, ◌&&◌, ◌||◌, Option, none, some, List, [], ◌∷◌, ◌++◌, ◌==◌,
  if◌then◌else◌, ltb,
}
use sicurre.Prelude.Lists.{any}
use sicurre.Prelude.Text.{
  Text, codes, text_eq, is_empty, lower, strip, strip_chars, rstrip_chars, ends_with, has_infix,
}
use sicurre.Gateway.{
  Failure, api_error, provider_conflict, http_error, Answer, returned, failed, Done, ZoneRecord,
  enable_dns, Cloudflare, World, issue,
}
use sicurre.Gateway.Paging.{get_dns_records}
pub mod Takeover

unfoldable pub cloudflare_mx_suffix : Text
cloudflare_mx_suffix = codes "mx.cloudflare.net"

unfoldable pub is_cloudflare_mx : Text → Bool
unfolding cloudflare_mx_suffix
is_cloudflare_mx host =
    text_eq host cloudflare_mx_suffix || ends_with (46 ∷ cloudflare_mx_suffix) host

abbrev pub is_mx : ZoneRecord → Bool
is_mx r = text_eq r.entry.type (codes "MX")

unfoldable pub mx_host : ZoneRecord → Text
mx_host r = rstrip_chars (λ c. c == 46) (lower (strip_chars (λ c. c == 34) (strip r.entry.content)))

unfoldable pub mx_hosts : List ZoneRecord → List Text
unfolding mx_host
mx_hosts [] = []
mx_hosts (r ∷ rs) =
    let hosts = mx_hosts rs in
    if is_mx r && not (is_empty (mx_host r)) then mx_host r ∷ hosts else hosts

-- `sorted(set(hosts))`
text_less : Text → Text → Bool
text_less [] [] = false
text_less [] (_ ∷ _) = true
text_less (_ ∷ _) [] = false
text_less (a ∷ s) (b ∷ t) = ltb a b || (a == b && text_less s t)

insert_host : Text → List Text → List Text
insert_host h [] = h ∷ []
insert_host h (x ∷ xs) =
    let later = x ∷ insert_host h xs in
    if text_eq h x then x ∷ xs else if text_less h x then h ∷ x ∷ xs else later

unfoldable pub sorted_set : List Text → List Text
unfolding insert_host text_less
sorted_set [] = []
sorted_set (h ∷ hs) = insert_host h (sorted_set hs)

unfoldable pub already_enabled : Text → Bool
already_enabled message = has_infix (codes "already enabled") (lower message)

unfoldable pub activation_failed : Text → Text
activation_failed message =
    codes "Email Routing activation failed; Zone Settings:Edit is required: " ++ message

module _ (cf : Cloudflare) (zone_id : Text) where
  -- What becomes of Cloudflare's answer to the activation.
  unfoldable pub activated : Answer Text × World cf → Answer Done × World cf
  activated (returned _, w) = (returned tt, w)
  activated (failed (api_error code message), w) =
      if already_enabled message
      then (returned tt, w)
      else (failed (api_error code (activation_failed message)), w)
  activated (failed (provider_conflict hosts), w) = (failed (provider_conflict hosts), w)
  activated (failed http_error, w) = (failed http_error, w)

  unfoldable pub enable_unless : List Text → World cf → Answer Done × World cf
  unfolding activated
  enable_unless [] w = activated (issue cf (enable_dns zone_id) w)
  enable_unless (h ∷ hs) w =
      if any is_cloudflare_mx (h ∷ hs)
      then (returned tt, w)
      else (failed (provider_conflict (sorted_set (h ∷ hs))), w)

  unfoldable pub enable_for : Answer (List ZoneRecord) → World cf → Answer Done × World cf
  unfolding enable_unless
  enable_for (failed f) w = (failed f, w)
  enable_for (returned records) w = enable_unless (mx_hosts records) w

  unfoldable pub enable_email_routing : World cf → Answer Done × World cf
  unfolding enable_for
  enable_email_routing (s, log) = enable_for (get_dns_records cf zone_id s) (s, log)
