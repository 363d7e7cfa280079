-- ===== src/Cipherpy.antt =====
-- pproxy/cipherpy.py: the ciphers in Python.
pub mod Keystream
pub mod Process
pub mod Gcm
pub mod ChaCha
pub mod Poly1305
pub mod Rc4
pub mod Feedback
pub mod Aes
pub mod Accepts
pub mod Sessions
pub mod Salsa20
pub mod Idea
pub mod Rc2
pub mod Seed
