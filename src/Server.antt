-- ===== src/Server.antt =====
-- pproxy/server/: choosing an upstream, cached authentication, UDP associations.
pub mod Schedule
pub mod Udp
pub mod Auth
