-- ===== src/Quarantine.antt =====
-- Held messages: their table, their custody, release, deletion and retention.
pub mod Item
pub mod Store
pub mod Objects
pub mod Release
pub mod Retention
pub mod Removal
pub mod Custody
pub mod Race
mod Tests
