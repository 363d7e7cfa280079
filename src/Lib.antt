-- ===== src/Lib.antt =====
-- A model of the core of pproxy, a tunnelling proxy that speaks many protocols over asyncio streams.
-- A connection's bytes pass through adapters: a cipher (pproxy/cipher.py, with the ciphers written
-- in Python in pproxy/cipherpy.py) and, for some protocols, WebSocket framing (pproxy/websocket.py);
-- the server chooses the remote for a request (pproxy/server/common.py) and keeps the associations of
-- UDP clients (pproxy/server/connections.py).
--
-- Base: bytes, bits, lists, dictionaries and Boolean tests that all parts share. `length`, `take` and
--   the like are over the native numbers.
-- Stream/Decoder: the loop `buffer.extend(data); while True: ...` that the adapters write, over an
--   abstract step, and the laws that a step owes it. WebSocket/Reader and Cipher/Aead are instances.
-- WebSocket: the class `WebSocketStream`. `Session` has its state and `_fail`, `Frame` has
--   `write_frame`, `_emit_message` and `_handle_frame`, `Reader` has `feed_data`, `attach` and
--   `patch_stream`; the other files are proofs.
-- Cipher/Aead: the packet stream of `AEADCipher`: `nonce`, `decrypt`, `encrypt`. The cipher is the
--   interface `Backend`, with the laws `IsBackend`.
-- Cipher/Key: the keys of `BaseCipher.__init__` and of `AEADCipher.setup_iv`.
-- Cipher/Adapter: `decrypt` and `write` of `StreamCipherAdapter`, without plugins, over sessions with
--   the laws `IsSession`.
-- Cipherpy: `Keystream` (`StreamCipher`), `Rc4`, `ChaCha`, `Salsa20`, `Idea`, `Rc2`, `Seed`, `Feedback` (CFB, CTR, OFB), `Process` (the
--   shape of an AEAD cipher), `Poly1305`, `Gcm` and `Aes`. ChaCha20-Poly1305 and AES-GCM implement
--   `Backend`; `Sessions` has the sessions of the adapter.
-- Server/Schedule: `schedule` and `match_rule`. Server/Auth: `AuthTable`. Server/Udp: the `udp_` methods, the callbacks of
--   `Protocol`, and the events in any order as the relation `Step`.
-- Protocols: pproxy/protocols/socks.py and address.py. `Conn` is a connection as a handshake sees it: the
--   bytes that its peer sends, those written to it, and the table of users; an action returns a value
--   or an exception, and the connection. `Address`, `Users`, `Trojan`, `Ssr`, `Ss`, `Socks4` and `Socks5`
--   have `guess`, `accept` and `connect`, `Ota` the patched reader, an instance of the decoder, and
--   the patched writer, `Datagram` the methods for UDP. `Http` is the request of pproxy/protocols/http.py,
--   with `netloc_split` of pproxy/config.py and, in `Http/Decode`, `bytes.decode`. `Conn/Reads` says what a read
--   takes from the input, so that a theorem can tie the user who is signed in to what the client sent.
-- Protocols/Channel: `BaseProtocol.channel` (pproxy/protocols/base.py) and `HTTP.http_channel`, as a run of the
--   turns of the loop. Protocols/Registry: `accept` of pproxy/protocols/registry.py. Cipher/Packet: `PacketCipher`.
-- Plugin: pproxy/plugin.py. `Frames` has what the closures `decrypt` and `encrypt` of `add_cipher` share,
--   `Simple`, `Deflate` and `Tls` the three framings, and `Handshake` the two sides of the hello of the
--   TLS ticket plugin, with the cache against replays.
-- H2: pproxy/h2.py. `Stream` has the writer and the job of a stream, whose turns may come in any order with
--   the calls of the writer (the relation `Reaches`), and `Session` the events of a connection.
-- Tests: test vectors and the theorems at concrete inputs.
--
-- A method takes the object's state and returns it, with the exception if it raises one. What the
-- code does to its surroundings (writes, messages, closed transports) is recorded in the state, in
-- order. `os.urandom`, `random.choice`, the digests of hashlib and hmac, the conversions of host names
-- (`Text`), and urllib, base64 and `int` (`Web`) are parameters; `read` gives as many bytes as have arrived, which is an argument. The decoding loops
-- run on fuel, twice the length of the buffer and one more for a header that is read, which is enough
-- since every round uses up bytes or a header; `encrypt` has fuel for one packet for each byte; the key schedule of
-- AES for one word for each byte; the derivation of a key for one digest for each byte; the pieces that
-- a plugin encrypts and the job of an HTTP/2 stream for one round for each byte, which is enough since a piece or a
-- chunk has one byte or more.
--
-- Not modelled: opening of sockets and the asyncio tasks, the remaining protocols
-- (the rest of pproxy/protocols/http.py, and others) and the handlers (pproxy/server/handlers.py), the chain of adapters on one reader and the cipher
-- factory (pproxy/cipher.py), the remaining block ciphers of pproxy/cipherpy.py, the HTTP preamble of
-- pproxy/plugin.py, the opening of connections in pproxy/h2.py, and the adapters around other third-party libraries (pproxy/quic.py, pproxy/ssh.py,
-- pproxy/tls.py). The command line and the administration pages are input and output.
pub mod Base
pub mod Stream
pub mod WebSocket
pub mod Cipher
pub mod Cipherpy
pub mod Server
pub mod Protocols
pub mod Plugin
pub mod H2
pub mod Tests
