-- ===== src/Plugin/Handshake.antt =====
-- pproxy/plugin.py: the handshake of `Tls1__2_Ticket_Auth_Plugin`, `init_server_data` (the side that
-- connects) and `init_client_data`. `mac` is `hmac.new(key, text, hashlib.sha1).digest()`, and what
-- `os.urandom` gives and the seconds of the clock are arguments.
pub mod Laws
pub mod Once
use python_proxy.Base.{
  ℕ, suc, ◌+◌, ◌-◌, ◌<◌, Bool, true, false, Option, none, some, List, [], ◌∷◌, ◌++◌, ◌&&◌, ltb,
  if◌then◌else◌, length, take, drop, get_elem?, Bytes, from_big, to_big,
}
use python_proxy.Cipherpy.Process.{equal_bytes}
use python_proxy.Protocols.Conn.{
  Error, protocol, index_error, overflow, Result, ok, err, Conn, Action, ◌>>=◌, ◌>>◌, pure,
  or_raise, require, write, read_exactly,
}
use python_proxy.Protocols.Address.{packstr}
use python_proxy.Protocols.Users.{is_among}

-- `CACHE.append` of a deque with `maxlen = 100`, its oldest entry first.
unfoldable pub remember : Bytes → List Bytes → List Bytes
remember cacheid cache =
    if ltb (length cache) 100 then cache ++ (cacheid ∷ []) else drop 1 (cache ++ (cacheid ∷ []))

-- `value[a:b]`.
abbrev pub slice : ℕ → ℕ → Bytes → Bytes
slice a b bytes = drop a (take b bytes)

-- `abs(a - b) < TIMESTAMP_TOLERANCE`.
abbrev pub near : ℕ → ℕ → Bool
near a b = ltb (a - b) 300 && ltb (b - a) 300

-- `ticket` is there in one of nine cases.
abbrev pub ticket_record : Option Bytes → Action Bytes
ticket_record none = pure []
ticket_record (some ticket) = do
  inner ← or_raise overflow (packstr 2 ticket)
  outer ← or_raise overflow (packstr 2 (4 ∷ 0 ∷ inner))
  pure (22 ∷ 3 ∷ 3 ∷ outer)

abbrev pub without_last_ten : Bytes → Bytes
without_last_ten bytes = take (length bytes - 10) bytes

-- The first lines of `init_client_data`, up to the header.
unfoldable pub read_hello : Action Bytes
read_hello = do
  front ← read_exactly 3
  require (equal_bytes front (22 ∷ 3 ∷ 1 ∷ [])) protocol
  size ← read_exactly 2
  read_exactly (from_big size)

abbrev pub finish_hello :
    (Bytes → Action (Unit {0}))
    → Conn
    → Result Bytes × List Bytes
    → (Result (Unit {0}) × Conn) × List Bytes
finish_hello answer c (ok sessionid, cache) = (answer sessionid c, cache)
finish_hello answer c (err e, cache) = ((err e, c), cache)

-- The extension of `init_server_data` that names the server.
abbrev pub server_name : Bytes → Action Bytes
server_name raddr = do
  name ← or_raise overflow (packstr 2 raddr)
  entry ← or_raise overflow (packstr 2 (0 ∷ name))
  or_raise overflow (packstr 2 entry)

unfoldable pub extensions : Bytes → Bytes → Action Bytes
extensions raddr ticket = do
  name ← server_name raddr
  session_ticket ← or_raise overflow (packstr 2 ticket)
  or_raise overflow (
      packstr 2 (
        (255 ∷ 1 ∷ 0 ∷ 1 ∷ 0 ∷ 0 ∷ 0 ∷ name)
        ++ ((0 ∷ 23 ∷ 0 ∷ 0 ∷ 0 ∷ 35 ∷ session_ticket)
            ++ (0 ∷ 13 ∷ 0 ∷ 22 ∷ 0 ∷ 20 ∷ 6 ∷ 1 ∷ 6 ∷ 3 ∷ 5 ∷ 1 ∷ 5 ∷ 3 ∷ 4 ∷ 1 ∷ 4 ∷ 3 ∷ 3 ∷ 1 ∷ 3
                ∷ 3 ∷ 2 ∷ 1 ∷ 2 ∷ 3 ∷ 0 ∷ 5 ∷ 0 ∷ 5 ∷ 1 ∷ 0 ∷ 0 ∷ 0 ∷ 0 ∷ 0 ∷ 18 ∷ 0 ∷ 0 ∷ 117 ∷ 80
                ∷ 0 ∷ 0 ∷ 0 ∷ 11 ∷ 0 ∷ 2 ∷ 1 ∷ 0 ∷ 0 ∷ 10 ∷ 0 ∷ 6 ∷ 0 ∷ 4 ∷ 0 ∷ 23 ∷ 0 ∷ 24 ∷ []))))

-- The cipher suites of the hello.
abbrev pub suites : Bytes
suites =
    0 ∷ 28 ∷ 192 ∷ 43 ∷ 192 ∷ 47 ∷ 204 ∷ 169 ∷ 204 ∷ 168 ∷ 204 ∷ 20 ∷ 204 ∷ 19 ∷ 192 ∷ 10 ∷ 192 ∷ 20
    ∷ 192 ∷ 9 ∷ 192 ∷ 19 ∷ 0 ∷ 156 ∷ 0 ∷ 53 ∷ 0 ∷ 47 ∷ 0 ∷ 10 ∷ 1 ∷ 0 ∷ []

module _ (mac : Bytes → Bytes → Bytes) (key : Bytes) where
  abbrev pub addhmac : Bytes → Bytes → Bytes
  addhmac sessionid bytes = bytes ++ take 10 (mac (key ++ sessionid) bytes)

  -- The checks behind the cache.
  abbrev pub verified : ℕ → Bytes → Bytes → Bool
  verified now sessionid header =
      equal_bytes (take 10 (mac (key ++ sessionid) (slice 6 28 header))) (slice 28 38 header)
      && near (from_big (slice 6 10 header)) now

  -- The identifier is put into the cache before the checksum is verified.
  abbrev pub check_fresh : ℕ → Bytes → Bytes → List Bytes → Result Bytes × List Bytes
  check_fresh now sessionid header cache =
      if is_among (slice 6 28 header) cache then (err protocol, cache) else (
        if verified now sessionid header then ok sessionid else err protocol,
        remember (slice 6 28 header) cache,
      )

  abbrev pub check_session : ℕ → Option ℕ → Bytes → List Bytes → Result Bytes × List Bytes
  check_session now none header cache = (err index_error, cache)
  check_session now (some size) header cache =
      check_fresh now (slice 39 (39 + size) header) header cache

  -- The checks of `init_client_data` on a header, with the cache of all connections.
  unfoldable pub check_hello : ℕ → Bytes → List Bytes → Result Bytes × List Bytes
  unfolding remember
  check_hello now header cache =
      if equal_bytes (take 2 header) (1 ∷ 0 ∷ []) && equal_bytes (slice 4 6 header) (3 ∷ 3 ∷ [])
      then check_session now (get_elem? header 38) header cache
      else (err protocol, cache)

  -- The last line of `init_client_data`.
  unfoldable pub reply_hello : ℕ → Bytes → Bytes → Option Bytes → Bytes → Action (Unit {0})
  reply_hello now sessionid random ticket finish = do
    time ← or_raise overflow (to_big 4 now)
    inner ← or_raise overflow (
        packstr 2 (
          (3 ∷ 3 ∷ addhmac sessionid (time ++ random))
          ++ (32 ∷ (sessionid ++ (192 ∷ 47 ∷ 0 ∷ 0 ∷ 5 ∷ 255 ∷ 1 ∷ 0 ∷ 1 ∷ 0 ∷ [])))))
    outer ← or_raise overflow (packstr 2 (2 ∷ 0 ∷ inner))
    middle ← ticket_record ticket
    last ← or_raise overflow (packstr 2 finish)
    write (
        addhmac sessionid (
          without_last_ten
            ((22 ∷ 3 ∷ 3 ∷ outer) ++ (middle ++ (20 ∷ 3 ∷ 3 ∷ 0 ∷ 1 ∷ 1 ∷ 22 ∷ 3 ∷ 3 ∷ last)))))

  abbrev pub use_hello :
      ℕ
      → (Bytes → Action (Unit {0}))
      → List Bytes
      → Result Bytes × Conn
      → (Result (Unit {0}) × Conn) × List Bytes
  use_hello now answer cache (ok header, c) = finish_hello answer c (check_hello now header cache)
  use_hello now answer cache (err e, c) = ((err e, c), cache)

  -- `init_client_data`: the header is read, and then checked and answered.
  unfoldable pub init_client_data :
      ℕ → Bytes → Option Bytes → Bytes → List Bytes → Conn → (Result (Unit {0}) × Conn) × List Bytes
  unfolding check_hello reply_hello read_hello
  init_client_data now random ticket finish cache c =
      use_hello now (λ sessionid. reply_hello now sessionid random ticket finish) cache
        (read_hello c)

  abbrev pub client_body : Bytes → Bytes → Bytes → Bytes → Bytes
  client_body time random sessionid tail =
      (3 ∷ 3 ∷ addhmac sessionid (time ++ random)) ++ (32 ∷ (sessionid ++ (suites ++ tail)))

  unfoldable pub send_hello : ℕ → Bytes → Bytes → Bytes → Action (Unit {0})
  send_hello now random sessionid tail = do
    time ← or_raise overflow (to_big 4 now)
    inner ← or_raise overflow (packstr 2 (client_body time random sessionid tail))
    outer ← or_raise overflow (packstr 2 (1 ∷ 0 ∷ inner))
    write (22 ∷ 3 ∷ 1 ∷ outer)

  -- `init_server_data`.
  unfoldable pub init_server_data : ℕ → Bytes → Bytes → Bytes → Bytes → Bytes → Action (Unit {0})
  unfolding extensions send_hello
  init_server_data now random sessionid raddr ticket finish = do
    tail ← extensions raddr ticket
    send_hello now random sessionid tail
    write (addhmac sessionid (20 ∷ 3 ∷ 3 ∷ 0 ∷ 1 ∷ 1 ∷ 22 ∷ 3 ∷ 3 ∷ 0 ∷ 32 ∷ finish))
