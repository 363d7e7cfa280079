-- ===== src/Protocols/Address.antt =====
-- pproxy/protocols/address.py, and `packstr` of socks.py. The texts of host names are the interface
-- `Text`: Python's `str.encode`, `bytes.decode` and the three `inet_` functions of its socket module.
pub mod Laws
pub mod Keeps
use python_proxy.Base.{
  ℕ, zero, suc, ◌+◌, ◌^◌, ◌<◌, ◌≡◌, ◌≤◌, Bool, Option, none, some, [], ◌∷◌, ◌++◌, ◌==◌, ◌||◌, ltb,
  if◌then◌else◌, length, take, drop, Bytes, from_big, to_big,
}
use python_proxy.Protocols.Conn.{
  Error, protocol, index_error, value_error, Action, ◌>>=◌, pure, raise, or_raise, first,
  read_exactly,
}

-- `none` is the exception of the function.
pub record Text (H : Type 0) : Type 0 where
  pub encode : H → Bytes
  pub decode : Bytes → Option H
  pub inet_ntoa : Bytes → Option H
  pub inet_ntop : Bytes → Option H
  pub inet_aton : H → Option Bytes

-- What the code relies on.
pub record IsText {H : Type 0} (text : Text H) : Type 0 where
  pub decodes : (h : H) → text.decode (text.encode h) ≡ some h
  pub dotted : (h : H) (ip : Bytes) → text.inet_aton h ≡ some ip → length ip ≡ 4

-- `packstr`: `none` is OverflowError.
abbrev pub behind : Bytes → Option Bytes → Option Bytes
behind value none = none
behind value (some size) = some (size ++ value)

unfoldable pub packstr : ℕ → Bytes → Option Bytes
packstr size value = behind value (to_big size (length value))

-- Bytes one after the other, where neither raised.
abbrev pub joined : Option Bytes → Option Bytes → Option Bytes
joined none q = none
joined (some p) none = none
joined (some p) (some q) = some (p ++ q)

module _ {H : Type 0} (text : Text H) where
  -- `packstr(host_name.encode()) + port.to_bytes(2, 'big')`.
  unfoldable pub target : H → ℕ → Option Bytes
  target host_name port = joined (packstr 1 (text.encode host_name)) (to_big 2 port)

  -- The last lines of `socks_address_stream`.
  abbrev pub with_port : Bytes → H → Action (H × ℕ × Bytes)
  with_port value host_name = do
    data_port ← read_exactly 2
    pure (host_name, from_big data_port, value ++ data_port)

  abbrev pub stream_domain : Action (H × ℕ × Bytes)
  stream_domain = do
    host_length ← read_exactly 1
    size ← first host_length
    host_data ← read_exactly size
    host_name ← or_raise value_error (text.decode host_data)
    with_port (host_length ++ host_data) host_name

  abbrev pub stream_fixed : ℕ → (Bytes → Option H) → Action (H × ℕ × Bytes)
  stream_fixed size name_of = do
    value ← read_exactly size
    host_name ← or_raise value_error (name_of value)
    with_port value host_name

  unfoldable pub socks_address_stream : ℕ → Action (H × ℕ × Bytes)
  socks_address_stream n =
      if n == 1 || n == 17
      then stream_fixed 4 text.inet_ntoa
      else if n == 3 || n == 19
      then stream_domain
      else if n == 4 || n == 20
      then stream_fixed 16 text.inet_ntop
      else raise protocol

  -- `socks_address`, on a datagram: `io.BytesIO.read` gives what is left where that is too short.
  abbrev pub domain : Bytes → Option H × Bytes
  domain [] = (none, [])
  domain (size ∷ bytes) = (text.decode (take size bytes), drop size bytes)

  abbrev pub port_behind : Option H × Bytes → Option (H × ℕ × Bytes)
  port_behind (none, bytes) = none
  port_behind (some host_name, bytes) = some (host_name, from_big (take 2 bytes), drop 2 bytes)

  unfoldable pub socks_address : ℕ → Bytes → Option (H × ℕ × Bytes)
  socks_address n bytes = port_behind (
      if n == 1
      then (text.inet_ntoa (take 4 bytes), drop 4 bytes)
      else if n == 3
      then domain bytes
      else (text.inet_ntop (take 16 bytes), drop 16 bytes))
