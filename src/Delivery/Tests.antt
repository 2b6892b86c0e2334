-- ===== src/Delivery/Tests.antt =====
-- Inputs that exercise the theorems of src/data_platform/services/quarantine_delivery.py.
use sicurre.Prelude.{◌≡◌, refl, true, Option, some, [], ◌∷◌}
use sicurre.Prelude.Lists.{find}
use sicurre.Prelude.Text.{Text, codes, lower, ends_with}
use sicurre.Prelude.Json.{Json, get, list_or_empty, bool, str, arr, obj, nil, cons, end, field}
use sicurre.Delivery.{
  Response, is_success, json_object, is_verified, is_destination, resolve_sending_address,
  check_destination, routing_sender, rule_address, literal_address,
}
use sicurre.Delivery.Sender.{resolve_sending_address_sound}
use sicurre.Delivery.Headers.{Fields, occurrences, is_transport, prepare_restoration}
use sicurre.Delivery.Headers.Restoration.{restoration_identity, restoration_drops_transport}

abbrev answer : Json → Option Response
answer v = some (record { status_code = 200; json = some v })

abbrev print : Json → Text
print _ = codes ""

abbrev verified : Json
verified = obj (
    field (codes "result")
      (arr (
        cons
          (obj (
            field (codes "email") (str (codes "Me@mail.fr"))
              (field (codes "verified") (bool true) end)))
          nil))
      end)

abbrev rules : Json
rules = obj (
    field (codes "result")
      (arr (
        cons
          (obj (
            field (codes "enabled") (bool true) (
              field (codes "matchers")
                (arr (
                  cons
                    (obj (
                      field (codes "type") (str (codes "literal"))
                        (field (codes "value") (str (codes "Contact@vinse.app")) end)))
                    nil))
                end)))
          nil))
      end)

resolve_sending_address_sound_example :
    (d r : Response) × (answer verified ≡ some d)
    × (answer rules ≡ some r)
    × (is_success d ≡ true)
    × (is_success r ≡ true)
    × (is_verified print (
          find
            (is_destination print (codes "me@mail.fr"))
            (list_or_empty (get "result" (json_object d))))
        ≡ true)
    × (ends_with (b'@' ∷ lower (codes "vinse.app")) (codes "contact@vinse.app") ≡ true)
unfolding resolve_sending_address check_destination routing_sender rule_address literal_address
    lower ends_with
resolve_sending_address_sound_example =
    resolve_sending_address_sound print (codes "vinse.app") (codes "me@mail.fr") (answer verified)
      (answer rules) (codes "contact@vinse.app") refl

-- A spam message with headers of its own hop, and two From fields.
abbrev original : Fields
original =
    (codes "Received", codes "from mx")
    ∷ (codes "DKIM-Signature", codes "v=1")
    ∷ (codes "From", codes "Bank <b@bank.fr> ")
    ∷ (codes "FROM", codes "other@x.fr")
    ∷ (codes "X-Mailer", codes "m")
    ∷ (codes "Message-ID", codes "<old@x>")
    ∷ []

restoration_identity_example :
    let sent =
      prepare_restoration (codes "c@vinse.app") (codes "me@mail.fr") (codes "<n@v>") original in
    (occurrences (codes "From") sent ≡ 1)
    × (occurrences (codes "To") sent ≡ 1)
    × (occurrences (codes "Message-ID") sent ≡ 1)
restoration_identity_example =
    restoration_identity (codes "c@vinse.app") (codes "me@mail.fr") (codes "<n@v>") original

restoration_drops_transport_example :
    occurrences
      (codes "X-MAILER")
      (prepare_restoration (codes "c@vinse.app") (codes "me@mail.fr") (codes "<n@v>") original)
    ≡ 0
unfolding is_transport lower
restoration_drops_transport_example =
    restoration_drops_transport (codes "c@vinse.app") (codes "me@mail.fr") (codes "<n@v>")
      (codes "X-MAILER") original refl
