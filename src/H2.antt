-- ===== src/H2.antt =====
-- pproxy/h2.py: one HTTP/2 connection over the library h2, whose events, flow-control windows and frame
-- size are arguments here.
pub mod Stream
pub mod Session
