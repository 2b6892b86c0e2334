-- ===== src/Gateway.antt =====
-- The Cloudflare e-mail gateway of a connected domain:
-- src/data_platform/services/cloudflare_provisioner.py. Cloudflare itself is outside: `Cloudflare`
-- answers the reads and the writes, and every write request is kept in a log, in order.
pub mod Sends
pub mod Paging
pub mod Routing
pub mod Rules
pub mod Zone
pub mod Teardown
pub mod Provisioning
pub mod Sample
mod Tests
use sicurre.Prelude.{ℕ, Option, List, [], ◌∷◌, ◌++◌}
use sicurre.Prelude.Text.{Text}
use sicurre.Dns.Records.{DnsRecord}

-- What a call raises: `CloudflareAPIError` with its status code and message, its subclass for a
-- domain that another provider serves, or an error of the HTTP client.
pub data Failure : Type 0 where
  api_error : ℕ → Text → Failure
  provider_conflict : List Text → Failure
  http_error : Failure

pub data Answer {ℓ} (A : Type ℓ) : Type ℓ where
  returned : A → Answer A
  failed : Failure → Answer A

-- The answer of a call that returns nothing.
abbrev pub Done : Type 0
Done = Unit

pub record ZoneRecord : Type 0 where
  pub id : Text
  pub entry : DnsRecord

-- One page of a listing: `batch` is `none` when `result` is neither a list nor empty, `total_pages`
-- is `none` when there is no number of pages.
pub record Page : Type 0 where
  pub batch : Option (List ZoneRecord)
  pub total_pages : Option ℕ

-- `value` is `none` where a matcher has no such key.
pub record Matcher : Type 0 where
  pub type : Text
  pub value : Option Text

pub record RuleAction : Type 0 where
  pub type : Text
  pub value : List Text

pub record Rule : Type 0 where
  pub id : Text
  pub matchers : List Matcher
  pub actions : List RuleAction

pub record Address : Type 0 where
  pub email : Text
  pub tag : Text
  pub status : Text

pub record WorkerBinding : Type 0 where
  pub type : Text
  pub name : Text
  pub text : Text

-- The write requests.
pub data Command : Type 0 where
  enable_dns : Text → Command
  register_address : Text → Text → Command
  put_worker : Text → Text → List WorkerBinding → Command
  post_rule : Text → Matcher → RuleAction → Command
  remove_rule : Text → Text → Command
  remove_worker : Text → Text → Command
  put_record : Text → Text → DnsRecord → Command
  post_record : Text → DnsRecord → Command

-- The API; `send` answers with the identifier or tag of what was written, if it has one.
pub record Cloudflare : Type 1 where
  pub State : Type 0
  pub zones : Text → State → Answer (List (Text × Text))
  pub dns_page : Text → ℕ → State → Answer Page
  pub rules : Text → State → Answer (List Rule)
  pub addresses : Text → State → Answer (List Address)
  pub catch_all : Text → State → Answer (List RuleAction)
  pub send : Command → State → Answer Text × State

-- Each call stands behind the one before it, and a failure ends the sequence.
infixl 5 ◌>>=◌
abbrev pub ◌>>=◌ {ℓ κ μ} :
    {A : Type ℓ} {B : Type κ} {W : Type μ} → Answer A × W → (A → W → Answer B × W) → Answer B × W
(returned a, w) >>= f = f a w
(failed e, w) >>= f = (failed e, w)

module _ (cf : Cloudflare) where
  -- The API's state, and the write requests that were made.
  abbrev pub World : Type 0
  World = cf.State × List Command

  unfoldable pub issue : Command → World → Answer Text × World
  issue c (s, log) = ((cf.send c s).0, ((cf.send c s).1, log ++ (c ∷ [])))
