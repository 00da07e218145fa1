-- ===== src/Db.antt =====
-- modemproxy/db.py: the SQLite tables and the helpers that read and write them.
pub mod Rows
pub mod Modems
pub mod Ports
pub mod Sticky
pub mod Alerts
pub mod Keys
pub mod Customers
pub mod Rotation
pub mod Listing
