-- ===== src/Stream.antt =====
-- What the stream adapters share: each keeps a buffer, appends what arrives, and takes complete
-- units off its front in a `while` loop. The adapters are values of `Decoder`.
pub mod Decoder
