-- ===== src/Onboarding/Listing.antt =====
-- cloudflare_status and list_cloudflare_integrations: what the interface is told of a workspace's
-- domains.
use sicurre.Prelude.{
  ℕ, Bool, false, not, Option, none, some, List, [], ◌∷◌, map, if◌then◌else◌, ltb, ◌==◌,
}
use sicurre.Prelude.Table.{select}
use sicurre.Prelude.Text.{Text, is_empty}
use sicurre.Database.{Integration, IntegrationStatus}
use sicurre.Onboarding.{is_error}

pub record CloudflareIntegrationResponse : Type 0 where
  pub id : ℕ
  pub user_email : Text
  pub zone_name : Text
  pub destination_email : Text
  pub worker_name : Text
  pub status : IntegrationStatus
  pub token_configured : Bool
  pub error_message : Option Text
  pub created_at : ℕ
  pub updated_at : ℕ

-- ORDER BY created_at DESC
insert_row : Integration → List Integration → List Integration
insert_row r [] = r ∷ []
insert_row r (q ∷ qs) =
    let later = q ∷ insert_row r qs in if ltb r.created_at q.created_at then later else r ∷ q ∷ qs

unfoldable pub newest_first : List Integration → List Integration
unfolding insert_row
newest_first [] = []
newest_first (r ∷ rs) = insert_row r (newest_first rs)

abbrev is_set : Option Text → Bool
is_set none = false
is_set (some t) = not (is_empty t)

unfoldable pub shown : Integration → CloudflareIntegrationResponse
shown r = record {
  id = r.id;
  user_email = r.user_email;
  zone_name = r.zone_name;
  destination_email = r.destination_email;
  worker_name = r.worker_name;
  status = r.status;
  token_configured = is_set r.api_token;
  error_message = if is_error r.status then r.error_message else none;
  created_at = r.created_at;
  updated_at = r.updated_at;
}

abbrev pub of_workspace_row : ℕ → Integration → Bool
of_workspace_row workspace r = r.workspace_id == workspace

unfoldable pub list_cloudflare_integrations :
    ℕ → List Integration → List CloudflareIntegrationResponse
unfolding newest_first shown
list_cloudflare_integrations workspace rows =
    map shown (newest_first (select (of_workspace_row workspace) rows))

first_of : List Integration → Option CloudflareIntegrationResponse
first_of [] = none
first_of (r ∷ _) = some (shown r)

-- `none` is the answer `not_configured`.
unfoldable pub cloudflare_status : ℕ → List Integration → Option CloudflareIntegrationResponse
unfolding first_of newest_first shown
cloudflare_status workspace rows =
    first_of (newest_first (select (of_workspace_row workspace) rows))
