-- ===== src/Security/Access.antt =====
-- Who gets in, by src/core/security.py.
use sicurre.Prelude.{
  ◌≡◌, refl, ◌∙◌, ap, ◌↔◌, ◌⊎◌, Bool, true, false, not, ◌&&◌, ◌||◌, Option, none, some, if_both,
  if_cases, inl, inr, ◌==◌,
}
use sicurre.Prelude.Lists.{any}
use sicurre.Prelude.Text.{Text, text_eq, text_eq_refl, eq_of_text_eq, is_empty}
use sicurre.Prelude.Http.{Reply, ok}
use sicurre.Prelude.Json.{Json, is_obj}
use sicurre.Delivery.{Response, is_success}
use sicurre.Security.{
  AuthenticatedPrincipal, Settings, Lookup, crashed, absent, found, Validation, unreachable, looked,
  Ask, principal_from_better_auth_payload, read_body, read_session, validate_with_better_auth,
  validate_with_dev_token, conclude_validation, require_session, require_authenticated_principal,
  extract_better_auth_session_cookie, compare_key, require_internal_key, is_ascii, is_none, Grant,
  granted,
}

-- A development token that is allowed and known.
abbrev pub DevVouched : Settings → Option Text → Type 0
DevVouched settings token =
    (settings.allow_dev_tokens ≡ true)
    × ((t : Text) × (token ≡ some t) × (any (text_eq t) settings.dev_bearer_tokens ≡ true))

-- An answer of the authentication service that names the principal.
abbrev pub SessionVouched : (Json → Text) → Option Response → AuthenticatedPrincipal → Type 0
SessionVouched print answer p =
    (r : Response) × (payload : Json) × (answer ≡ some r)
    × (is_success r ≡ true)
    × (r.json ≡ some payload)
    × (principal_from_better_auth_payload print payload ≡ found p)

and-true : (a b : Bool) → (a && b) ≡ true → (a ≡ true) × (b ≡ true)
and-true true b h = (refl, h)
and-true false b h = absurd cc

ok-injective :
    {p q : AuthenticatedPrincipal} → Path (Reply AuthenticatedPrincipal) (ok p) (ok q) → p ≡ q
ok-injective e = cc

concluded :
    (v : Validation) (p : AuthenticatedPrincipal)
    → conclude_validation v ≡ ok p
    → v ≡ looked (found p)
unfolding conclude_validation
concluded unreachable p h = absurd cc
concluded (looked crashed) p h = absurd cc
concluded (looked absent) p h = absurd cc
concluded (looked (found q)) p h =
    ap (λ (x : AuthenticatedPrincipal). looked (found x)) (ok-injective h)

looked-injective : {a b : Lookup} → looked a ≡ looked b → a ≡ b
looked-injective e = cc

not-true {ℓ} : {P : Type ℓ} (b : Bool) → not b ≡ true → b ≡ true → P
not-true true h k = absurd cc
not-true false h k = absurd cc

not-false : (b : Bool) → not b ≡ false → b ≡ true
not-false true h = refl
not-false false h = absurd cc

read_body-found :
    (print : Json → Text) (json : Option Json) (p : AuthenticatedPrincipal)
    → read_body print json ≡ found p
    → (payload : Json) × (json ≡ some payload)
      × (principal_from_better_auth_payload print payload ≡ found p)
unfolding read_body
read_body-found print none p h = absurd cc
read_body-found print (some payload) p h = (
  payload,
  refl,
  if_both (λ (l : Lookup). l ≡ found p → principal_from_better_auth_payload print payload ≡ found p)
      (is_obj payload) (λ e. e) (λ e. absurd cc) h,
)

read_session-vouched :
    (print : Json → Text) (answer : Option Response) (p : AuthenticatedPrincipal)
    → read_session print answer ≡ looked (found p)
    → SessionVouched print answer p
unfolding read_session
read_session-vouched print none p h = absurd cc
read_session-vouched print (some r) p h =
    if_both (λ (v : Validation). v ≡ looked (found p) → SessionVouched print (some r) p)
      (r.status_code == 401 || r.status_code == 403) (λ e. absurd cc)
      (if_cases (λ (v : Validation). v ≡ looked (found p) → SessionVouched print (some r) p)
        (not (is_success r)) (λ t e. absurd cc)
        (λ t e.
          let (payload, j, f) = read_body-found print r.json p (looked-injective e) in
          (r, payload, refl, not-false (is_success r) t, j, f)))
      h

validate-vouched :
    (print : Json → Text) (ask : Ask) (token : Option Text) (cookie : Option (Text × Text))
    → (settings : Settings) (p : AuthenticatedPrincipal)
    → validate_with_better_auth print ask token cookie settings ≡ looked (found p)
    → SessionVouched print (ask token cookie) p
unfolding validate_with_better_auth
validate-vouched print ask token cookie settings p =
    if_both (λ (v : Validation). v ≡ looked (found p) → SessionVouched print (ask token cookie) p)
      (is_empty settings.better_auth_base_url) (λ e. absurd cc)
      (read_session-vouched print (ask token cookie) p)

dev-vouched :
    (suffix : Text → Text) (token : Option Text) (settings : Settings)
    → (o : Option AuthenticatedPrincipal) (p : AuthenticatedPrincipal)
    → validate_with_dev_token suffix token settings ≡ o
    → o ≡ some p
    → DevVouched settings token
unfolding validate_with_dev_token
dev-vouched suffix none settings o p h k = absurd cc
dev-vouched suffix (some t) settings o p h k =
    if_cases (λ (x : Option AuthenticatedPrincipal). x ≡ some p → DevVouched settings (some t))
      (not settings.allow_dev_tokens) (λ _ e. absurd cc)
      (λ a.
        if_cases (λ (x : Option AuthenticatedPrincipal). x ≡ some p → DevVouched settings (some t))
          (not (any (text_eq t) settings.dev_bearer_tokens)) (λ _ e. absurd cc)
          (λ b e. (
            not-false settings.allow_dev_tokens a,
            (t, refl, not-false (any (text_eq t) settings.dev_bearer_tokens) b),
          )))
      (h ∙ k)

abbrev pub IsCredentialed :
    (Json → Text)
    → Ask
    → Option Text
    → Option (Text × Text)
    → Settings
    → AuthenticatedPrincipal
    → Type 0
IsCredentialed print ask token cookie settings p =
    DevVouched settings token ⊎ SessionVouched print (ask token cookie) p

require_session-vouched :
    (print : Json → Text) (suffix : Text → Text) (ask : Ask) (cookies : Text → Text)
    → (settings : Settings) (token : Option Text) (cookie : Option (Text × Text))
    → (o : Option AuthenticatedPrincipal) (p : AuthenticatedPrincipal)
    → validate_with_dev_token suffix token settings ≡ o
    → require_session print suffix ask cookies settings token cookie o ≡ ok p
    → IsCredentialed print ask token cookie settings p
unfolding require_session
require_session-vouched print suffix ask cookies settings token cookie (some q) p h k =
    inl (dev-vouched suffix token settings (some q) q h refl)
require_session-vouched print suffix ask cookies settings token cookie none p h k =
    if_both
      (λ (x : Reply AuthenticatedPrincipal).
        x ≡ ok p → IsCredentialed print ask token cookie settings p)
      (not settings.allow_dev_tokens && is_empty settings.better_auth_base_url) (λ e. absurd cc)
      (λ e. inr (validate-vouched print ask token cookie settings p (concluded _ p e))) k

-- With authentication on, a request gets in only with a development token that is allowed and
-- known, or if the authentication service answered its token and cookie with success and named the
-- principal.
pub principal_is_vouched :
    (print : Json → Text) (suffix : Text → Text) (ask : Ask) (cookies : Text → Text)
    → (settings : Settings) (token : Option Text) (p : AuthenticatedPrincipal)
    → settings.auth_enabled ≡ true
    → require_authenticated_principal print suffix ask cookies settings token ≡ ok p
    → IsCredentialed print ask token
        (extract_better_auth_session_cookie cookies settings.better_auth_cookie_name)
        settings
        p
unfolding require_authenticated_principal
principal_is_vouched print suffix ask cookies settings token p enabled =
    let cookie = extract_better_auth_session_cookie cookies settings.better_auth_cookie_name in
    if_cases
      (λ (x : Reply AuthenticatedPrincipal).
        x ≡ ok p → IsCredentialed print ask token cookie settings p)
      (not settings.auth_enabled) (λ t e. not-true settings.auth_enabled t enabled)
      (λ _.
        if_both
          (λ (x : Reply AuthenticatedPrincipal).
            x ≡ ok p → IsCredentialed print ask token cookie settings p)
          (is_none token && is_none cookie) (λ e. absurd cc)
          (require_session-vouched print suffix ask cookies settings token cookie
            (validate_with_dev_token suffix token settings) p refl))

compare_key-opens :
    (key t : Text) → compare_key key t ≡ ok granted → (t ≡ key) × (is_ascii key ≡ true)
unfolding compare_key
compare_key-opens key t =
    if_both (λ (x : Reply Grant). x ≡ ok granted → (t ≡ key) × (is_ascii key ≡ true)) (is_empty t)
      (λ e. absurd cc)
      (if_cases (λ (x : Reply Grant). x ≡ ok granted → (t ≡ key) × (is_ascii key ≡ true))
        (not (is_ascii t && is_ascii key)) (λ _ e. absurd cc)
        (λ a.
          if_cases (λ (x : Reply Grant). x ≡ ok granted → (t ≡ key) × (is_ascii key ≡ true))
            (text_eq t key)
            (λ h _.
              (eq_of_text_eq t key h, (and-true (is_ascii t) (is_ascii key) (not-false _ a)).1))
            (λ _ e. absurd cc)))

key-opens :
    (settings : Settings) (token : Option Text)
    → require_internal_key settings token ≡ ok granted
    → (is_empty settings.internal_api_key ≡ false)
      × (token ≡ some settings.internal_api_key)
      × (is_ascii settings.internal_api_key ≡ true)
unfolding require_internal_key
key-opens settings none h = absurd (
    if_both (λ (x : Reply Grant). x ≡ ok granted → ⊥) (is_empty settings.internal_api_key) (λ e. cc)
      (λ e. cc) h)
key-opens settings (some t) h =
    let P = λ (x : Reply Grant).
      x ≡ ok granted
      → (is_empty settings.internal_api_key ≡ false)
        × (some t ≡ some settings.internal_api_key)
        × (is_ascii settings.internal_api_key ≡ true) in
    if_cases P (is_empty settings.internal_api_key) (λ _ e. absurd cc)
      (λ n e.
        let (same, ascii) = compare_key-opens settings.internal_api_key t e in
        (n, ap some same, ascii))
      h

-- The service-to-service routes open for exactly one credential: the configured key, which is not
-- empty and is ASCII.
pub internal_key_exact :
    (settings : Settings) (token : Option Text)
    → (require_internal_key settings token ≡ ok granted) ↔ (
        (is_empty settings.internal_api_key ≡ false)
        × (token ≡ some settings.internal_api_key)
        × (is_ascii settings.internal_api_key ≡ true))
unfolding require_internal_key compare_key
internal_key_exact settings token = (
  key-opens settings token,
  λ (n, e, a). rw (e, n, a, text_eq_refl settings.internal_api_key) refl,
)
