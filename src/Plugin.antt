-- ===== src/Plugin.antt =====
-- pproxy/plugin.py: the framing that the obfuscation plugins put around a cipher's bytes, and the
-- handshake of the TLS ticket plugin.
pub mod Frames
pub mod Simple
pub mod Deflate
pub mod Tls
pub mod Handshake
