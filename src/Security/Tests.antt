-- ===== src/Security/Tests.antt =====
-- Inputs that exercise the theorems of src/core/security.py.
use sicurre.Prelude.{◌≡◌, refl, true, false, none, some, []}
use sicurre.Prelude.Text.{Text, codes, lower, strip}
use sicurre.Prelude.Json.{Json, str, obj, field, end}
use sicurre.Security.{
  AuthenticatedPrincipal, Settings, Ask, require_authenticated_principal, require_session,
  extract_better_auth_session_cookie, first_cookie, validate_with_dev_token,
  validate_with_better_auth, read_session, read_body, principal_from_better_auth_payload,
  principal_of, principal, conclude_validation, extract_bearer_token,
}
use sicurre.Security.Access.{IsCredentialed, principal_is_vouched}

abbrev settings : Settings
settings = record {
  auth_enabled = true;
  better_auth_base_url = codes "http://auth";
  better_auth_cookie_name = codes "session";
  allow_dev_tokens = false;
  dev_bearer_tokens = [];
  internal_api_key = codes "key";
}

abbrev print : Json → Text
print _ = []

abbrev suffix : Text → Text
suffix t = t

abbrev body : Json
body = obj (field (codes "user") (obj (field (codes "id") (str (codes "u1")) end)) end)

abbrev ask : Ask
ask token cookie = some (record { status_code = 200; json = some body })

abbrev cookies : Text → Text
cookies _ = []

abbrev member : AuthenticatedPrincipal
member = record {
  subject = codes "u1";
  email = none;
  display_name = none;
  session_id = none;
  auth_provider = codes "better-auth";
}

principal_is_vouched_example :
    IsCredentialed print ask
      (some (codes "t"))
      (extract_better_auth_session_cookie cookies settings.better_auth_cookie_name)
      settings
      member
unfolding require_authenticated_principal require_session extract_better_auth_session_cookie
    first_cookie validate_with_dev_token validate_with_better_auth read_session read_body
    principal_from_better_auth_payload principal_of principal conclude_validation
principal_is_vouched_example =
    principal_is_vouched print suffix ask cookies settings (some (codes "t")) member refl refl

bearer_of : extract_bearer_token (some (codes "bearer  abc ")) ≡ some (codes "abc")
unfolding extract_bearer_token lower strip
bearer_of = refl
