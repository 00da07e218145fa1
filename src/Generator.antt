-- ===== src/Generator.antt =====
-- modemproxy/proxy/generator.py: ports, logins, proxy instances and the rotating pool.
pub mod Ports
pub mod Pool
pub mod Users
pub mod Sync
pub mod Proxy
