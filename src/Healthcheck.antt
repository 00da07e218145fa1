-- ===== src/Healthcheck.antt =====
-- modemproxy/services/healthcheck.py: the checks, what they repair, and when a report is sent.
pub mod Proxies
pub mod Site
pub mod Run
pub mod Quiet
