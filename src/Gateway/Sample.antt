-- ===== src/Gateway/Sample.antt =====
-- A zone in memory whose account accepts every write, for the tests.
use sicurre.Prelude.{◌+◌, ◌-◌, ◌*◌, ◌/◌, some, List, [], ◌∷◌}
use sicurre.Prelude.Lists.{length, take, drop}
use sicurre.Prelude.Text.{Text, codes}
use sicurre.Gateway.{returned, ZoneRecord, Rule, Cloudflare}

abbrev pub dmarc_record : ZoneRecord
dmarc_record = record {
  id = codes "r1";
  entry = record {
    type = codes "TXT";
    name = codes "_dmarc.vinse.app";
    content = codes "v=DMARC1; p=none";
  };
}

abbrev pub mx_record : ZoneRecord
mx_record = record {
  id = codes "r2";
  entry = record { type = codes "MX"; name = codes "vinse.app"; content = codes "mx1.mail.fr." };
}

abbrev pub records : List ZoneRecord
records = dmarc_record ∷ mx_record ∷ []

abbrev pub forward_rule : Rule
forward_rule = record {
  id = codes "old";
  matchers = record { type = codes "literal"; value = some (codes "Me@vinse.app") } ∷ [];
  actions = record { type = codes "forward"; value = codes "me@mail.fr" ∷ [] } ∷ [];
}

abbrev pub zone : Text
zone = codes "0123456789"

-- An account that accepts every write.
abbrev pub account : Cloudflare
account = record {
  State = Unit;
  zones = λ _ _. returned ((zone, codes "acc") ∷ []);
  dns_page = λ _ page _. returned (record {
    batch = some (take 100 (drop ((page - 1) * 100) records));
    total_pages = some ((length records + 99) / 100);
  });
  rules = λ _ _. returned (forward_rule ∷ []);
  addresses = λ _ _. returned [];
  catch_all = λ _ _. returned [];
  send = λ _ s. (returned (codes "new"), s);
}
