-- ===== src/Shield/Tests.antt =====
-- Inputs that exercise the theorems of src/data_platform/services/domain_shield_sync.py.
use sicurre.Prelude.{true, false, none, some, []}
use sicurre.Prelude.Lists.{All}
use sicurre.Prelude.Text.{codes}
use sicurre.Dns.Records.{DnsState}
use sicurre.Shield.Sync.{Fixes, Provisioner, sync_domain_shield_dns}
use sicurre.Shield.Sync.Consent.{IsConsented, sync_writes_only_fixes}

abbrev both : Fixes
both = record { spf = true; dmarc = true }

-- A zone whose writes are refused.
abbrev refusing : Provisioner
refusing = record {
  get_zone = λ _. some (codes "z");
  get_dns_records = λ _. some [];
  deploy = λ _. false;
}

abbrev accepting : Provisioner
accepting = record refusing { deploy = λ _. true }

sync_writes_only_fixes_example :
    All
      (IsConsented accepting both none (codes "vinse.app"))
      (sync_domain_shield_dns accepting 1 (codes "vinse.app") both (some 30) 9 none []).1.0
sync_writes_only_fixes_example =
    sync_writes_only_fixes accepting 1 (codes "vinse.app") both (some 30) 9 none []

abbrev unsigned : DnsState
unsigned = record { spf = codes "v=spf1 -all"; dkim = []; dmarc = [] }
