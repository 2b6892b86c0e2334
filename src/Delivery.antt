-- ===== src/Delivery.antt =====
-- src/data_platform/services/quarantine_delivery.py: the Cloudflare calls that deliver a released
-- message. Requests are made outside; a response is an argument, and `none` is an `httpx.HTTPError`.
pub mod Headers
pub mod Sender
mod Tests
use sicurre.Prelude.{
  ℕ, ◌+◌, ◌≡◌, refl, Bool, true, false, not, ◌&&◌, ◌||◌, Option, none, some, List, [], ◌∷◌, ◌++◌,
  map, arith, leb, ◌==◌, if◌then◌else◌, String,
}
use sicurre.Prelude.Lists.{find, any, take}
use sicurre.Prelude.Text.{Text, codes, text_eq, lower, strip, ends_with, is_empty}
use sicurre.Prelude.Json.{
  Json, null, obj, str, end, get, is_obj, is_true, truthy, iterate, str_or_empty, is_word, field_of,
  lowered_among, list_or_empty, object_or_empty, arr, nil,
}

pub record Response : Type 0 where
  pub status_code : ℕ
  pub json : Option Json

abbrev pub is_success : Response → Bool
is_success r = leb 200 r.status_code && leb r.status_code 299

abbrev pub denied : Response → Bool
denied r = r.status_code == 401 || r.status_code == 403

-- How a call ends: a value, a `QuarantineDeliveryError`, or another exception.
pub data Attempt {ℓ} (A : Type ℓ) : Type ℓ where
  done : A → Attempt A
  refused : Text → Text → Attempt A
  crashed : Attempt A

abbrev pub refuse {ℓ} : {A : Type ℓ} → String → String → Attempt A
refuse code message = refused (codes code) (codes message)

infixl 5 ◌>>=◌
abbrev pub ◌>>=◌ {ℓ κ} : {A : Type ℓ} {B : Type κ} → Attempt A → (A → Attempt B) → Attempt B
done a >>= f = f a
refused c m >>= f = refused c m
crashed >>= f = crashed

pub record DeliveryResult : Type 0 where
  pub message_id : Text
  pub recipient : Text
  pub queued : Bool

abbrev pub json_object : Response → Json
json_object r = elim r.json [ none ↦ obj end | some v ↦ object_or_empty v ]

module _ (print : Json → Text) where
  abbrev pub first_message : List Json → Text
  first_message [] = codes ""
  first_message (e ∷ _) =
      if is_obj e then strip (str_or_empty print (get "message" e)) else codes ""

  unfoldable pub cloudflare_error : Json → Text
  cloudflare_error payload =
      let message = first_message (list_or_empty (get "errors" payload)) in
      if is_empty message
      then codes "Cloudflare could not release the quarantined message."
      else take 240 message

  -- One rule's matchers: the first literal address on the zone.
  unfoldable pub literal_address : Text → List Json → Option Text
  literal_address suffix [] = none
  literal_address suffix (m ∷ ms) =
      let rest = literal_address suffix ms in
      let value = lower (str_or_empty print (get "value" m)) in
      if is_obj m && (is_word "literal" (get "type" m) && ends_with suffix value)
      then some value
      else rest

  -- `rule.get("matchers", [])`
  abbrev matchers_of : Json → Option (List Json)
  matchers_of rule = iterate (elim rule [
    | obj fs ↦ elim (field_of (codes "matchers") fs) [ none ↦ arr nil | some v ↦ v ]
    | _ ↦ null
  ])

  unfoldable pub rule_address : Text → Json → Attempt (Option Text)
  rule_address suffix rule =
      if is_obj rule && truthy (get "enabled" rule)
      then (elim (matchers_of rule) [ none ↦ crashed | some ms ↦ done (literal_address suffix ms) ])
      else done none

  unfoldable pub routing_sender : Text → List Json → Attempt (Option Text)
  routing_sender suffix [] = done none
  routing_sender suffix (rule ∷ rules) = elim (rule_address suffix rule) [
    | done none ↦ routing_sender suffix rules
    | done (some v) ↦ done (some v)
    | refused c m ↦ refused c m
    | crashed ↦ crashed
  ]

  -- The destination whose address is the recipient.
  abbrev pub is_destination : Text → Json → Bool
  is_destination recipient item =
      is_obj item && text_eq (lower (str_or_empty print (get "email" item))) (lower recipient)

  abbrev pub is_verified : Option Json → Bool
  is_verified none = false
  is_verified (some item) = truthy item && truthy (get "verified" item)

  abbrev pub sender_or_refuse : Option Text → Attempt Text
  sender_or_refuse none =
      refuse "email_routing_sender_required"
        "Configure an enabled literal Email Routing address on the connected domain before releasing messages."
  sender_or_refuse (some []) =
      refuse "email_routing_sender_required"
        "Configure an enabled literal Email Routing address on the connected domain before releasing messages."
  sender_or_refuse (some (c ∷ s)) = done (c ∷ s)

  -- Once both responses are there.
  unfoldable pub check_destination : Text → Text → Response → Response → Attempt Text
  check_destination zone_name recipient destinations rules =
      let payload = json_object destinations in
      let rules_payload = json_object rules in
      if denied destinations || denied rules
      then refuse "email_routing_permission_required"
          "Cloudflare denied access to Email Routing destinations. Confirm Email Routing Addresses: Read is scoped to this account."
      else if not (is_success destinations)
      then refused (codes "cloudflare_delivery_failed") (cloudflare_error payload)
      else if not
          (is_verified (find (is_destination recipient) (list_or_empty (get "result" payload))))
      then refuse "verified_destination_required"
          "Verify the connected destination address in Cloudflare Email Routing before releasing messages."
      else if not (is_success rules)
      then refused (codes "cloudflare_delivery_failed") (cloudflare_error rules_payload)
      else (routing_sender (b'@' ∷ lower zone_name) (list_or_empty (get "result" rules_payload))
          >>= sender_or_refuse)

  -- The second request is not made when the first fails; either failure ends the same way.
  unfoldable pub resolve_sending_address :
      Text → Text → Option Response → Option Response → Attempt Text
  resolve_sending_address zone_name recipient (some destinations) (some rules) =
      check_destination zone_name recipient destinations rules
  resolve_sending_address zone_name recipient _ _ =
      refuse "cloudflare_unreachable"
        "Cloudflare Email Routing destinations are temporarily unreachable."

  -- `{str(value).lower() for value in result.get(key, [])}` holds the address
  abbrev pub listed : String → Json → Text → Option Bool
  listed key result address = elim result [
    | obj fs ↦ elim (field_of (codes key) fs) [
      | none ↦ some false
      | some v ↦ elim (iterate v) [ none ↦ none | some vs ↦ some (lowered_among print address vs) ]
    ]
    | _ ↦ some false
  ]

  abbrev pub accepted : Text → Json → Option Bool → Option Bool → Attempt DeliveryResult
  accepted recipient result none q = crashed
  accepted recipient result (some d) none = crashed
  accepted recipient result (some d) (some q) =
      if d || q
      then done (record {
        message_id = str_or_empty print (get "message_id" result);
        recipient = recipient;
        queued = q;
      })
      else refuse "cloudflare_delivery_rejected"
          "Cloudflare did not accept the destination address for delivery."

  unfoldable pub send_raw_email : Text → Option Response → Attempt DeliveryResult
  send_raw_email recipient none =
      refuse "cloudflare_unreachable" "Cloudflare Email Service is temporarily unreachable."
  send_raw_email recipient (some response) =
      let payload = json_object response in
      let result = object_or_empty (get "result" payload) in
      if denied response
      then refuse "email_sending_permission_required"
          "Cloudflare denied delivery. Confirm Email Sending: Edit is scoped to the account and the recipient is a verified Email Routing destination."
      else if not (is_success response) || not (is_true (get "success" payload))
      then refused (codes "cloudflare_delivery_failed") (cloudflare_error payload)
      else accepted recipient result (listed "delivered" result (lower recipient))
          (listed "queued" result (lower recipient))
