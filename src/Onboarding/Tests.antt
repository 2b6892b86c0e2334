-- ===== src/Onboarding/Tests.antt =====
-- Domains that are connected and disconnected on concrete tables.
use sicurre.Prelude.{◌≡◌, refl, true, false, none, some, [], ◌∷◌}
use sicurre.Prelude.Lists.{length, find}
use sicurre.Prelude.Text.{codes}
use sicurre.Database.{Db, Integration, AuthUser, active, provisioning}
use sicurre.Shield.Sync.{Provisioner, Fixes}
use sicurre.Quarantine.Store.{QuarantineStore}
use sicurre.Gateway.Sample.{zone, account}
use sicurre.Gateway.Sends.{Sends}
use sicurre.Onboarding.{CloudflareSetupRequest, BackgroundTask, Env, Site, has_id}
use sicurre.Onboarding.Setup.{resolve_api_token, setup_cloudflare}
use sicurre.Onboarding.Setup.Completion.{Carried, setup_ends_as_answered}
use sicurre.Onboarding.Background.{provision_connected_domain}
use sicurre.Onboarding.Background.Settled.{Settled, answer_of, provisioning_ends}
use sicurre.Onboarding.Teardown.{TeardownRequest, chosen, teardown_cloudflare}
use sicurre.Onboarding.Teardown.Outcome.{Ends, disconnected_only_after_teardown}
use sicurre.Onboarding.Teardown.Requests.{Disconnects, disconnection_spares_the_rest}
use sicurre.Onboarding.Erasure.{Member, Estate, erase_account}
use sicurre.Onboarding.Erasure.Outcome.{Erasure, erased_whole_or_kept}

abbrev row : Integration
row = record {
  id = 7;
  user_email = codes "me@vinse.app";
  workspace_id = 3;
  zone_id = zone;
  zone_name = codes "vinse.app";
  account_id = codes "acc";
  worker_name = codes "sicurre-gw-01234567";
  rule_id = codes "rule";
  destination_email = codes "me@mail.fr";
  api_token = some (codes "token");
  shared_secret_hash = 6;
  status = active;
  error_message = none;
  created_at = 1;
  updated_at = 1;
}

abbrev waiting : Integration
waiting = record row { id = 8; zone_name = codes "other.fr"; status = provisioning }

abbrev db : Db
db = record {
  integrations = row ∷ waiting ∷ [];
  quarantine = [];
  security_rules = [];
  feedback = [];
  events = [];
  alerts = [];
  preferences = [];
}

abbrev site : Site account
site = record { db = db; config = []; shield = []; dns_writes = []; gateway = (tt, []); tasks = [] }

abbrev dns : Provisioner
dns = record { get_zone = λ _. some zone; get_dns_records = λ _. some []; deploy = λ _. true }

abbrev env : Env
env = record {
  encrypt = λ t. t;
  decrypt = λ t. some t;
  secret = codes "s";
  sha256_text = length;
  ingest_key = [];
  scan_url = codes "https://api/v1/email/scan";
  protected_worker_names = [];
  new_id = 9;
  alert_id = 20;
  now = 30;
  ssl = none;
  sync_error = codes "refused";
}

abbrev user : AuthUser
user = record { id = 2; workspace_id = 3 }

abbrev no_fixes : Fixes
no_fixes = record { spf = false; dmarc = false }

abbrev task : BackgroundTask
task = record {
  api_token = codes "token";
  integration_id = 8;
  workspace_id = 3;
  zone_name = codes "other.fr";
  destination_email = codes "me@other.fr";
  fix = no_fixes;
}

abbrev setup : CloudflareSetupRequest
setup = record {
  cf_api_token = codes "token";
  zone_name = codes "new.fr";
  destination_email = codes "me@new.fr";
  fix = no_fixes;
}

abbrev removal : TeardownRequest
removal = record { integration_id = some 7; cf_api_token = [] }

provisioning_ends_example :
    (r : Integration) × (find
        (has_id 8)
        (provision_connected_domain account dns env task site).db.integrations
      ≡ some r)
    × Settled (answer_of account dns env task site) r
provisioning_ends_example = provisioning_ends account dns env task site waiting refl

setup_ends_as_answered_example :
    Carried account dns env setup user
      (codes "me@new.fr")
      (resolve_api_token env setup user.workspace_id site.config)
      site
      (setup_cloudflare account dns env setup user (codes "me@new.fr") site)
setup_ends_as_answered_example =
    setup_ends_as_answered account dns env setup user (codes "me@new.fr") site refl refl

disconnected_only_after_teardown_example :
    Ends account env 3 row site (teardown_cloudflare account env removal user site)
unfolding chosen
disconnected_only_after_teardown_example =
    disconnected_only_after_teardown account env removal user site row refl

disconnection_spares_the_rest_example :
    Sends account
      (Disconnects account env row db.integrations)
      (tt, [])
      (teardown_cloudflare account env removal user site).1.gateway
unfolding chosen
disconnection_spares_the_rest_example =
    disconnection_spares_the_rest account env removal user site row refl

abbrev no_copies : QuarantineStore
no_copies = record {
  State = Unit;
  write = λ _ _ _ s. (none, s);
  read = λ _ _. none;
  delete = λ _ s. (true, s);
}

abbrev member : Member
member = record { id = 2; email = codes "Me@vinse.app"; workspace_id = some 3 }

abbrev estate : Estate account no_copies
estate = record {
  site = record site { db = record db { integrations = row ∷ [] } };
  copies = tt;
  others = record {
    app_alert_read = 3 ∷ 4 ∷ [];
    app_domain_shield_history = [];
    app_dmarc_report_summary = 4 ∷ [];
    app_reported_email = [];
    app_support_request = 3 ∷ [];
    app_workspace_membership = 3 ∷ [];
    app_workspace = 3 ∷ 4 ∷ [];
  };
  identity = record {
    sessions = 2 ∷ 5 ∷ [];
    accounts = 2 ∷ [];
    verifications = codes "me@vinse.app" ∷ [];
    users = 2 ∷ 5 ∷ [];
  };
}

erased_whole_or_kept_example :
    Erasure account no_copies env member estate (erase_account account no_copies env member estate)
erased_whole_or_kept_example = erased_whole_or_kept account no_copies env member estate
