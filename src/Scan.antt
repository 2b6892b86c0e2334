-- ===== src/Scan.antt =====
-- The scan of one message: src/data_platform/api/routers/email_scan.py
pub mod Filters
pub mod Journal
pub mod Decision
pub mod Hold
pub mod Response
pub mod Handler
mod Tests
