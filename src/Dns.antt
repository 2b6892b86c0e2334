-- ===== src/Dns.antt =====
-- The records of a zone that Sicurre reads and rewrites: src/data_platform/services/dns_records.py.
pub mod Records
pub mod Spf
mod Tests
