-- ===== src/WebSocket.antt =====
-- pproxy/websocket.py: the class `WebSocketStream`. A method takes the object and returns it, or
-- the exception it raises beside the object as it was left. `os.urandom(4)` is the parameter
-- `urandom`, asked for its n-th answer. Calls of the wrapped `raw_write`, `on_message` and
-- `on_close` are recorded in the object, in order. `Session` holds what frames are handled with,
-- `WsStream` adds the input side.
pub mod Session
pub mod Frame
pub mod Reader
pub mod Laws
pub mod Chunks
pub mod Mask
pub mod LengthField
pub mod RoundTrip
pub mod Messages
pub mod Limits
pub mod Within
