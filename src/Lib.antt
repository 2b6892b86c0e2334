-- ===== src/Lib.antt =====
-- Sicurre reads the mail of a customer's domain on its way in. A Cloudflare Email Worker posts
-- every message to the scan route; phishing is held in quarantine, the rest is delivered, and every
-- verdict goes into a journal. A member of the workspace can then release a held message, delete
-- it, or release it and trust its sender. This library models the Python code of that path, the
-- code that connects a domain through Cloudflare and disconnects it, the rewriting of its SPF and
-- DMARC records, the erasure of an account, the policy of notifications, the authentication of
-- requests, the cipher of credentials, the alerts of a domain, the probes of the health page and the
-- manager of monitoring exercises.
--
-- How the parts interact. The scan route (src/data_platform/api/routers/email_scan.py, Scan) finds
-- the integration by the hash of the Worker's secret, asks the rules of the workspace, then the
-- inference service, holds phishing as a row of app_quarantine_item, tells the workspace if the
-- notification policy (src/data_platform/services/notification_policy.py, Notification) allows it,
-- and upserts the journal. The Worker then uploads the original MIME (upload_quarantine_content,
-- Quarantine/Custody) into the object store (src/data_platform/services/quarantine_storage.py):
-- Quarantine/Store is the interface that the routes see, Quarantine/Objects the two stores that
-- implement it. The quarantine routes (src/data_platform/api/routers/quarantine.py,
-- Quarantine/Release and Quarantine/Removal) claim a row, restore the message and send it through
-- Cloudflare (src/data_platform/services/quarantine_delivery.py, Delivery). The retention job
-- (src/data_platform/services/quarantine_retention.py, Quarantine/Retention) scrubs what has
-- expired. Domain Shield (src/data_platform/services/domain_shield_sync.py, Shield) applies the
-- merges of src/data_platform/services/dns_records.py (Dns) to a zone and stores a grade. The
-- integration routes (src/data_platform/api/routers/integrations.py, Onboarding) write the row of a
-- domain, and the background task (src/data_platform/services/cloudflare_onboarding.py,
-- Onboarding/Background) has the provisioner (src/data_platform/services/cloudflare_provisioner.py,
-- Gateway) set the zone up; a disconnection undoes it, and the erasure of an account
-- (src/data_platform/services/account_erasure.py, Onboarding/Erasure) disconnects every domain
-- first.
--
-- Files and code. A function of the code keeps its name: scan_email, prepare_restoration_mime (as
-- prepare_restoration, on header fields), merge_spf, purge_expired_quarantine, sync_domain_shield_dns.
-- A long handler is cut where it branches, each piece a function by clauses that bears the name of what
-- it does.
--   Prelude             texts, lists, tables, parsed JSON and the result of a request
--   Database            the tables of src/db/models/app_runtime.py, and
--                       src/data_platform/api/workspace_scope.py
--   Delivery            Cloudflare's answers, the sending address and the raw delivery; Headers is
--                       prepare_restoration_mime
--   Quarantine/Item     the quarantine row and the statements on it
--   Quarantine/Release  _release_quarantine_item, step by step, with the store and the database
--   Quarantine/Removal  the list, delete and trust routes
--   Quarantine/Race     releases, deletions and purges of one message as steps of a relation; the reads
--                       and the writes of a release are separate steps
--   Quarantine/Custody  the upload of the original; Quarantine/Retention is the purge
--   Quarantine/Objects  R2QuarantineStore; Objects/Local is LocalQuarantineStore, Objects/Segments the
--                       PurePosixPath operations that the keys use
--   Scan/Filters        the tests on a message before it is classified, with the DKIM pattern
--   Scan/Decision       a rule or the answer of the inference service; Scan/Hold the quarantine step;
--                       Scan/Journal the audit table; Scan/Handler the route,
--                       Scan/Response its answers
--   Dns/Records         clean_str, read_dns_state, merge_dmarc, withdraw_dmarc_reporting; Dns/Spf is
--                       merge_spf
--   Shield/Sync         sync_domain_shield_dns
--   Notification        notification_is_allowed
--   Alerts              src/data_platform/api/routers/alerts.py: preferences and sender rules; the alert
--                       history is Alerts/History
--   Security            src/core/security.py
--   Probes              the classifier and application probes of
--                       src/data_platform/services/runtime_probes.py, and their roll-up
--   Exercise            src/core/operational_exercises.py
--   Cipher              src/core/secret_cipher.py
--   Gateway             the requests to Cloudflare and the sequence of calls; Gateway/Paging is
--                       get_dns_records, Gateway/Routing enable_email_routing, Gateway/Rules the
--                       addresses, the rules and the Worker, Gateway/Zone get_zone and
--                       deploy_dns_record, Gateway/Teardown and Gateway/Provisioning the two sequences
--   Onboarding          the routes' helpers; Onboarding/Setup, Onboarding/Background,
--                       Onboarding/Teardown, Onboarding/Listing and Onboarding/Erasure the handlers
-- Each Tests file runs the theorems and the code on concrete inputs.
--
-- State. A handler takes the tables (Db) and the object store's state and returns a reply with new
-- ones; a statement that fails is a field of the run that draws it. Identifiers, hashes and
-- instants are numbers, since they are only compared (0 is the hash of a row that has none); scores
-- are in millionths. A text is a list of code points; lower, strip and the patterns are those of
-- ASCII.
--
-- Cloudflare is a state of its own that answers reads and writes, each of which may fail; the write
-- requests that were made are kept in a log, in order. A provisioner's token is no part of a
-- request. In Onboarding the DNS sync talks to Cloudflare through the interface of Shield/Sync, and
-- the gateway through that of Gateway.
--
-- Loops are structural recursions on the list that the code iterates over, but for the pages of
-- get_dns_records, which run on fuel: fifty, the code's own limit, is enough for any answers.
--
-- Not modelled. What is not Python code of this repository is an argument: Cloudflare, the
-- inference service, the bucket and the file system, MIME parsing and printing, hashes, encryption,
-- time zones, int() and float(). So are three helpers of the repository: the decoding of MIME
-- headers and bodies, the masking of personal data and the context of a message. Logging, metrics,
-- rate limits, the latency budget and the probe of Cloudflare are left out, and so are the settings
-- that choose a store, the reading of an HTTP response into an answer, and the columns of a row that none of the modelled
-- code reads. Route handlers run one statement at a time, and only Quarantine/Race interleaves
-- them. The data platform (ingestion, normalisation, dataset publication), the administration
-- and threat routes, the React application, the auth service, migrations, scripts and
-- deployment files are outside of this library.
pub mod Prelude
pub mod Probes
pub mod Database
pub mod Delivery
pub mod Quarantine
pub mod Notification
pub mod Scan
pub mod Dns
pub mod Shield
pub mod Security
pub mod Exercise
pub mod Alerts
pub mod Cipher
pub mod Gateway
pub mod Onboarding
