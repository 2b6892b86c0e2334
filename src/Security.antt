-- ===== src/Security.antt =====
-- Who may call the API: src/core/security.py. The authentication service, the cookies of a request
-- and the hash of a development token are arguments.
pub mod Access
mod Tests
use sicurre.Prelude.{
  ℕ, Bool, true, false, not, ◌&&◌, ◌||◌, Option, none, some, List, [], ◌∷◌, ◌++◌, ◌==◌,
  if◌then◌else◌, ltb,
}
use sicurre.Prelude.Lists.{any, all}
use sicurre.Prelude.Text.{Text, codes, text_eq, is_empty, lower, strip, starts_with, split_at}
use sicurre.Prelude.Http.{Reply, ok, raised, reject}
use sicurre.Prelude.Json.{Json, null, str, obj, end, get, truthy, is_obj, str_of}
use sicurre.Delivery.{Response, is_success}

pub record AuthenticatedPrincipal : Type 0 where
  pub subject : Text
  pub email : Option Text
  pub display_name : Option Text
  pub session_id : Option Text
  pub auth_provider : Text

pub record Settings : Type 0 where
  pub auth_enabled : Bool
  pub better_auth_base_url : Text
  pub better_auth_cookie_name : Text
  pub allow_dev_tokens : Bool
  pub dev_bearer_tokens : List Text
  pub internal_api_key : Text

abbrev token_of : Option (Text × Text) → Option Text
token_of none = none
token_of (some (scheme, token)) =
    if not (text_eq (lower scheme) (codes "bearer")) || is_empty token
    then none
    else some (strip token)

unfoldable pub extract_bearer_token : Option Text → Option Text
extract_bearer_token none = none
extract_bearer_token (some header) = token_of (split_at 32 header)

abbrev secure_name : Text → Text
secure_name name = codes "__Secure-" ++ name

abbrev cookie_names : Text → List Text
cookie_names name =
    if starts_with (codes "__Secure-") name then name ∷ [] else secure_name name ∷ name ∷ []

unfoldable pub first_cookie : (Text → Text) → List Text → Option (Text × Text)
first_cookie cookies [] = none
first_cookie cookies (name ∷ names) =
    if is_empty (cookies name) then first_cookie cookies names else some (name, cookies name)

-- A cookie that is absent is the empty text.
unfoldable pub extract_better_auth_session_cookie : (Text → Text) → Text → Option (Text × Text)
unfolding first_cookie
extract_better_auth_session_cookie cookies name = first_cookie cookies (cookie_names name)

-- A principal, none, or an exception that no handler catches.
pub data Lookup : Type 0 where
  crashed absent : Lookup
  found : AuthenticatedPrincipal → Lookup

abbrev or_json : Json → Json → Json
or_json v w = if truthy v then v else w

abbrev data_of : Json → Json
data_of payload = if is_obj (get "data" payload) then get "data" payload else obj end

-- `none` is a value that the model refuses.
abbrev optional_text : Json → Option (Option Text)
optional_text null = some none
optional_text (str t) = some (some t)
optional_text _ = none

abbrev session_text : (Json → Text) → Json → Option Text
session_text print v = if truthy v then some (str_of print v) else none

unfoldable pub principal : Text → Option (Option Text) → Option (Option Text) → Option Text → Lookup
principal subject (some email) (some name) session = found (record {
  subject = subject;
  email = email;
  display_name = name;
  session_id = session;
  auth_provider = codes "better-auth";
})
principal subject _ _ session = crashed

unfoldable pub principal_of : (Json → Text) → Json → Json → Lookup
unfolding principal
principal_of print user session =
    let subject = or_json (get "id" user) (or_json (get "userId" session) (get "id" session)) in
    if not (is_obj user && is_obj session)
    then crashed
    else if not (truthy subject)
    then absent
    else principal (str_of print subject) (optional_text (get "email" user))
        (optional_text (or_json (get "name" user) (get "displayName" user)))
        (session_text print (get "id" session))

unfoldable pub principal_from_better_auth_payload : (Json → Text) → Json → Lookup
principal_from_better_auth_payload print payload =
    principal_of print
      (or_json (get "user" payload) (or_json (get "user" (data_of payload)) (obj end)))
      (or_json (get "session" payload) (or_json (get "session" (data_of payload)) (obj end)))

-- What the authentication service answers; `none` is an httpx.HTTPError, a timeout included.
abbrev pub Ask : Type 0
Ask = Option Text → Option (Text × Text) → Option Response

pub data Validation : Type 0 where
  unreachable : Validation
  looked : Lookup → Validation

unfoldable pub read_body : (Json → Text) → Option Json → Lookup
read_body print none = crashed
read_body print (some payload) =
    if is_obj payload then principal_from_better_auth_payload print payload else absent

unfoldable pub read_session : (Json → Text) → Option Response → Validation
unfolding read_body
read_session print none = unreachable
read_session print (some r) =
    if r.status_code == 401 || r.status_code == 403
    then looked absent
    else if not (is_success r)
    then unreachable
    else looked (read_body print r.json)

unfoldable pub validate_with_better_auth :
    (Json → Text) → Ask → Option Text → Option (Text × Text) → Settings → Validation
unfolding read_session
validate_with_better_auth print ask token cookie settings =
    if is_empty settings.better_auth_base_url
    then looked absent
    else read_session print (ask token cookie)

unfoldable pub validate_with_dev_token :
    (Text → Text) → Option Text → Settings → Option AuthenticatedPrincipal
validate_with_dev_token suffix none settings = none
validate_with_dev_token suffix (some token) settings =
    if not settings.allow_dev_tokens
    then none
    else if not (any (text_eq token) settings.dev_bearer_tokens)
    then none
    else some (record {
      subject = codes "dev:" ++ suffix token;
      email = none;
      display_name = none;
      session_id = none;
      auth_provider = codes "development";
    })

unfoldable pub conclude_validation : Validation → Reply AuthenticatedPrincipal
conclude_validation unreachable = reject 503 "Authentication service unavailable"
conclude_validation (looked crashed) = reject 500 "Internal Server Error"
conclude_validation (looked absent) = reject 401 "Invalid authentication token"
conclude_validation (looked (found p)) = ok p

unfoldable pub anonymous : AuthenticatedPrincipal
anonymous = record {
  subject = codes "anonymous-disabled-auth";
  email = none;
  display_name = none;
  session_id = none;
  auth_provider = codes "disabled";
}

abbrev pub is_none {ℓ} : {T : Type ℓ} → Option T → Bool
is_none none = true
is_none (some _) = false

-- One request: the token of its header and its cookies.
module _ (print : Json → Text) (suffix : Text → Text) (ask : Ask) (cookies : Text → Text)
    (settings : Settings) where
  unfoldable pub require_session :
      Option Text
      → Option (Text × Text)
      → Option AuthenticatedPrincipal
      → Reply AuthenticatedPrincipal
  unfolding conclude_validation
  require_session token cookie (some p) = ok p
  require_session token cookie none =
      if not settings.allow_dev_tokens && is_empty settings.better_auth_base_url
      then reject 503 "Authentication service unavailable"
      else conclude_validation (validate_with_better_auth print ask token cookie settings)

  unfoldable pub require_authenticated_principal : Option Text → Reply AuthenticatedPrincipal
  unfolding require_session
  require_authenticated_principal token =
      let cookie = extract_better_auth_session_cookie cookies settings.better_auth_cookie_name in
      if not settings.auth_enabled
      then ok anonymous
      else if is_none token && is_none cookie
      then reject 401 "Authentication required"
      else require_session token cookie (validate_with_dev_token suffix token settings)

abbrev pub is_ascii : Text → Bool
is_ascii = all (λ c. ltb c 128)

pub data Grant : Type 0 where
  granted : Grant

-- hmac.compare_digest, which takes only ASCII.
unfoldable pub compare_key : Text → Text → Reply Grant
compare_key key token =
    if is_empty token
    then reject 401 "Invalid internal API key"
    else if not (is_ascii token && is_ascii key)
    then reject 500 "Internal Server Error"
    else if text_eq token key
    then ok granted
    else reject 401 "Invalid internal API key"

unfoldable pub require_internal_key : Settings → Option Text → Reply Grant
unfolding compare_key
require_internal_key settings token =
    if is_empty settings.internal_api_key
    then reject 503 "Internal API not configured"
    else elim token [
      | none ↦ reject 401 "Invalid internal API key"
      | some t ↦ compare_key settings.internal_api_key t
    ]
