-- ===== src/Delivery/Sender.antt =====
-- What a resolved sender and an accepted delivery guarantee.
use sicurre.Prelude.{
  ◌≡◌, refl, Bool, true, Option, none, some, List, [], ◌∷◌, arith, Bool-cases, inl, inr, ◌≤◌, ◌⊎◌,
}
use sicurre.Prelude.Lists.{find, length, length-take}
use sicurre.Prelude.Text.{Text, lower, ends_with, is_empty}
use sicurre.Prelude.Json.{Json, get, is_true, list_or_empty, object_or_empty}
use sicurre.Delivery.{
  Attempt, done, refused, crashed, Response, DeliveryResult, is_success, json_object, ◌>>=◌, listed,
  accepted, sender_or_refuse, first_message, cloudflare_error, literal_address, rule_address,
  routing_sender, check_destination, resolve_sending_address, send_raw_email, is_verified,
  is_destination,
}

module _ (print : Json → Text) where
  literal_address-ends :
      (suffix : Text) (ms : List Json) (v : Text)
      → literal_address print suffix ms ≡ some v
      → ends_with suffix v ≡ true
  unfolding literal_address
  literal_address-ends suffix [] v h = ground arith
  literal_address-ends suffix (m ∷ ms) v h = grind (arith, literal_address-ends suffix ms v)

  rule_address-ends :
      (suffix : Text) (rule : Json) (v : Text)
      → rule_address print suffix rule ≡ done (some v)
      → ends_with suffix v ≡ true
  unfolding rule_address
  rule_address-ends suffix rule v h = grind (arith, literal_address-ends)

  routing_sender-ends :
      (suffix : Text) (rules : List Json) (v : Text)
      → routing_sender print suffix rules ≡ done (some v)
      → ends_with suffix v ≡ true
  unfolding routing_sender
  routing_sender-ends suffix [] v h = ground arith
  routing_sender-ends suffix (r ∷ rs) v h =
      ground (arith, rule_address-ends suffix r v, routing_sender-ends suffix rs v)

  sender_or_refuse-ends :
      (suffix : Text) (a : Attempt (Option Text)) (v : Text)
      → ((w : Text) → a ≡ done (some w) → ends_with suffix w ≡ true)
      → (a >>= sender_or_refuse print) ≡ done v
      → ends_with suffix v ≡ true
  sender_or_refuse-ends suffix (done none) v ends h = cc
  sender_or_refuse-ends suffix (done (some [])) v ends h = cc
  sender_or_refuse-ends suffix (done (some (c ∷ s))) v ends h = ground (arith, ends (c ∷ s) refl)
  sender_or_refuse-ends suffix (refused c m) v ends h = cc
  sender_or_refuse-ends suffix crashed v ends h = cc

  check_destination_sound :
      (zone recipient : Text) (d r : Response) (v : Text)
      → check_destination print zone recipient d r ≡ done v
      → (is_success d ≡ true)
        × (is_success r ≡ true)
        × (is_verified print
              (find (is_destination print recipient) (list_or_empty (get "result" (json_object d))))
            ≡ true)
        × ((routing_sender print (b'@' ∷ lower zone) (list_or_empty (get "result" (json_object r)))
              >>= sender_or_refuse print)
            ≡ done v)
  unfolding check_destination
  check_destination_sound zone recipient d r v h = ground arith

  -- A sending address is returned only if both requests were answered with success, the recipient
  -- is a verified destination, and the address is on the connected zone.
  pub resolve_sending_address_sound :
      (zone recipient : Text) (destinations rules : Option Response) (v : Text)
      → resolve_sending_address print zone recipient destinations rules ≡ done v
      → (d r : Response) × (destinations ≡ some d)
        × (rules ≡ some r)
        × (is_success d ≡ true)
        × (is_success r ≡ true)
        × (is_verified print
              (find (is_destination print recipient) (list_or_empty (get "result" (json_object d))))
            ≡ true)
        × (ends_with (b'@' ∷ lower zone) v ≡ true)
  unfolding resolve_sending_address
  resolve_sending_address_sound zone recipient none rules v h = absurd (ground arith)
  resolve_sending_address_sound zone recipient (some d) none v h = absurd (ground arith)
  resolve_sending_address_sound zone recipient (some d) (some r) v h =
      let facts = check_destination_sound zone recipient d r v h in
      (
        d,
        r,
        refl,
        refl,
        facts.0,
        facts.1,
        facts.2,
        sender_or_refuse-ends (b'@' ∷ lower zone)
            (routing_sender print (b'@' ∷ lower zone)
              (list_or_empty (get "result" (json_object r))))
            v
            (routing_sender-ends (b'@' ∷ lower zone) (list_or_empty (get "result" (json_object r))))
            facts.3,
      )

  accepted_sound :
      (recipient : Text) (result : Json) (d q : Option Bool) (r : DeliveryResult)
      → accepted print recipient result d q ≡ done r
      → (r.recipient ≡ recipient) × ((d ≡ some true) ⊎ (r.queued ≡ true)) × (q ≡ some r.queued)
  accepted_sound recipient result none q r h = cc
  accepted_sound recipient result (some d) none r h = cc
  accepted_sound recipient result (some d) (some q) r h = ground arith

  send_raw_email-accepted :
      (recipient : Text) (p : Response) (r : DeliveryResult)
      → send_raw_email print recipient (some p) ≡ done r
      → (is_success p ≡ true)
        × (is_true (get "success" (json_object p)) ≡ true)
        × (accepted print recipient
              (object_or_empty (get "result" (json_object p)))
              (listed print "delivered"
                (object_or_empty (get "result" (json_object p)))
                (lower recipient))
              (listed print "queued"
                (object_or_empty (get "result" (json_object p)))
                (lower recipient))
            ≡ done r)
  unfolding send_raw_email
  send_raw_email-accepted recipient p r h = ground arith

  -- A delivery succeeds only if Cloudflare answered with success and lists the recipient as
  -- delivered or as queued; the result says which, and names the recipient that was asked for.
  pub send_raw_email_sound :
      (recipient : Text) (response : Option Response) (r : DeliveryResult)
      → send_raw_email print recipient response ≡ done r
      → (p : Response) × (response ≡ some p)
        × (is_success p ≡ true)
        × (is_true (get "success" (json_object p)) ≡ true)
        × (r.recipient ≡ recipient)
        × ((listed print "delivered"
                (object_or_empty (get "result" (json_object p)))
                (lower recipient)
              ≡ some true)
            ⊎ (r.queued ≡ true))
        × (listed print "queued" (object_or_empty (get "result" (json_object p))) (lower recipient)
            ≡ some r.queued)
  unfolding send_raw_email
  send_raw_email_sound recipient none r h = absurd (ground arith)
  send_raw_email_sound recipient (some p) r h =
      let facts = send_raw_email-accepted recipient p r h in
      let outcome =
        accepted_sound recipient (object_or_empty (get "result" (json_object p)))
          (listed print "delivered" (object_or_empty (get "result" (json_object p)))
            (lower recipient))
          (listed print "queued" (object_or_empty (get "result" (json_object p))) (lower recipient))
          r facts.2 in
      (p, refl, facts.0, facts.1, outcome.0, outcome.1, outcome.2)

  -- The text of a refusal fits its column, whatever Cloudflare answered.
  pub cloudflare_error_bound : (payload : Json) → length (cloudflare_error print payload) ≤ 240
  unfolding cloudflare_error
  cloudflare_error_bound payload =
      elim (Bool-cases (is_empty (first_message print (list_or_empty (get "errors" payload))))) [
        | inl e ↦ rw e (omega arith)
        | inr e ↦
            rw e (length-take 240 (first_message print (list_or_empty (get "errors" payload))))
      ]
