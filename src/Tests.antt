-- ===== src/Tests.antt =====
-- The development on small concrete installations: tests, and a run of each property.
mod Fixture
mod Db
mod Generator
mod Proxy
mod Services
mod Rounds
mod Panel
mod Bands
mod Manager
mod Web
mod Radio
mod Device
mod Rules
