-- ===== src/Protocols/Datagram.antt =====
-- pproxy/protocols/socks.py: the `udp_` methods of `SS` and of `Socks5`, and `udp_accept` of
-- pproxy/protocols/registry.py. An exception is `failed`; `refused` is `None`.
pub mod RoundTrip
use python_proxy.Base.{
  ℕ, Bool, true, false, Option, none, some, List, [], ◌∷◌, ◌++◌, ◌==◌, ◌||◌, if◌then◌else◌, length,
  take, drop, Bytes, to_big,
}
use python_proxy.Cipherpy.Process.{equal_bytes}
use python_proxy.Protocols.Conn.{User, anyone, named}
use python_proxy.Protocols.Address.{Text, target, socks_address}
use python_proxy.Protocols.Users.{first_user, starts}

pub data Parsed (H : Type 0) : Type 0 where
  accepted : User → H → ℕ → Bytes → Parsed H
  refused failed : Parsed H

module _ {H : Type 0} (text : Text H) where
  abbrev pub accept_address : User → Option (H × ℕ × Bytes) → Parsed H
  accept_address user none = failed
  accept_address user (some (host_name, port, bytes)) = accepted user host_name port bytes

  -- From the byte of the kind on; the read of that byte fails at the end.
  abbrev pub accept_kind : User → Bytes → Parsed H
  accept_kind user [] = failed
  accept_kind user (n ∷ bytes) =
      if n == 1 || (n == 3 || n == 4)
      then accept_address user (socks_address text n bytes)
      else refused

  abbrev pub accept_user : Option Bytes → Bytes → Parsed H
  accept_user none bytes = refused
  accept_user (some user) bytes = accept_kind (named user) (drop (length user) bytes)

  -- `SS.udp_accept`.
  unfoldable pub ss_udp_accept : List Bytes → Bytes → Parsed H
  ss_udp_accept [] bytes = accept_kind anyone bytes
  ss_udp_accept (u ∷ users) bytes = accept_user (first_user (starts bytes) (u ∷ users)) bytes

  abbrev pub payload : Option (H × ℕ × Bytes) → Option Bytes
  payload none = none
  payload (some (host_name, port, bytes)) = some bytes

  -- `SS.udp_unpack`.
  unfoldable pub ss_udp_unpack : Bytes → Option Bytes
  ss_udp_unpack [] = none
  ss_udp_unpack (n ∷ bytes) = payload (socks_address text n bytes)

  abbrev pub addressed : Bytes → Option Bytes → Bytes → Option Bytes
  addressed front none bytes = none
  addressed front (some address) bytes = some (front ++ (3 ∷ (address ++ bytes)))

  -- `SS.udp_pack`: a host name that is no address, or a port that is too large, falls through.
  abbrev pub pack_domain : H → ℕ → Bytes → Option Bytes
  pack_domain host_name port bytes = addressed [] (target text host_name port) bytes

  abbrev pub pack_ip : Option Bytes → Option Bytes → Bytes → Option Bytes → Option Bytes
  pack_ip none port bytes other = other
  pack_ip (some ip) none bytes other = other
  pack_ip (some ip) (some port) bytes other = some (1 ∷ (ip ++ (port ++ bytes)))

  unfoldable pub ss_udp_pack : H → ℕ → Bytes → Option Bytes
  ss_udp_pack host_name port bytes =
      pack_ip (text.inet_aton host_name) (to_big 2 port) bytes (pack_domain host_name port bytes)

  -- `SS.udp_connect`.
  unfoldable pub ss_udp_connect : Bytes → H → ℕ → Bytes → Option Bytes
  ss_udp_connect rauth host_name port bytes = addressed rauth (target text host_name port) bytes

  -- `Socks5.udp_accept` and `Socks5.udp_connect`.
  unfoldable pub socks5_udp_accept : Bytes → Parsed H
  socks5_udp_accept bytes =
      if equal_bytes (take 3 bytes) (0 ∷ 0 ∷ 0 ∷ [])
      then accept_kind anyone (drop 3 bytes)
      else refused

  unfoldable pub socks5_udp_connect : H → ℕ → Bytes → Option Bytes
  socks5_udp_connect host_name port bytes =
      addressed (0 ∷ 0 ∷ 0 ∷ []) (target text host_name port) bytes
