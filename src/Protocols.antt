-- ===== src/Protocols.antt =====
-- pproxy/protocols: the handshakes with clients and with upstream proxies.
pub mod Conn
pub mod Address
pub mod Users
pub mod Trojan
pub mod Ssr
pub mod Ota
pub mod Ss
pub mod Socks4
pub mod Socks5
pub mod Datagram
pub mod Http
pub mod Channel
pub mod Registry
