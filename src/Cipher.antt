-- ===== src/Cipher.antt =====
-- pproxy/cipher.py: the keys, the AEAD packet stream and the stream adapter.
pub mod Aead
pub mod Adapter
pub mod Key
pub mod Packet
