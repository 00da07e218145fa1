-- ===== src/Services.antt =====
-- modemproxy/services: quotas, subscriptions, fault scores, alerts and the customers' panel.
pub mod Rounds
pub mod Quota
pub mod Notify
pub mod Subscriptions
pub mod Autoreboot
pub mod Geoip
pub mod Customers
pub mod Vpn
pub mod Ttl
