-- ===== src/Tests.antt =====
-- Runs of the model at concrete inputs, a module for each part of the program.
mod WebSocket
mod Cipher
mod Server
mod Cipherpy
mod Udp
mod Adapter
mod Key
mod Protocols
mod Plugin
mod H2
mod Http
mod Channel
mod Seed
