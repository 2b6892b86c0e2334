-- ===== src/Shield.antt =====
-- The fixes that Domain Shield writes into a zone: src/data_platform/services/domain_shield_sync.py.
-- The provisioner and the certificate's lifetime are arguments.
pub mod Sync
mod Tests
