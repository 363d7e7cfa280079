-- ===== src/Protocols/Datagram/RoundTrip.antt =====
-- A datagram for the proxy is read by the proxy, and its reply by the client.
use python_proxy.Base.{
  ℕ, ◌<◌, ◌≡◌, refl, ap, ◌∙◌, true, some, List, [], ◌∷◌, ◌++◌, length, Bytes, big, to_big-lt,
  from_big-big, length-big, take-append_self, drop-append_self, arith, inl, inr, Option-cases,
}
use python_proxy.Cipherpy.Process.{equal_bytes}
use python_proxy.Cipherpy.Process.Laws.{equal_bytes_refl}
use python_proxy.Protocols.Conn.{User, anyone, named}
use python_proxy.Protocols.Address.{Text, IsText, socks_address}
use python_proxy.Protocols.Address.Laws.{domain_bytes, target-lt, address-domain}
use python_proxy.Protocols.Users.{is_among, starts}
use python_proxy.Protocols.Users.Laws.{first_user-some}
use python_proxy.Protocols.Datagram.{
  accepted, accept_kind, accept_user, payload, ss_udp_accept, ss_udp_connect, ss_udp_pack,
  ss_udp_unpack, socks5_udp_accept, socks5_udp_connect,
}

module _ {H : Type 0} (text : Text H) (law : IsText text) where
  kind-domain :
      (user : User) (h : H) (port : ℕ) (bytes : Bytes)
      → port < 65536
      → accept_kind text user (3 ∷ (domain_bytes (text.encode h) port ++ bytes))
        ≡ accepted user h port bytes
  kind-domain user h port bytes fits = rw (address-domain text law h port bytes fits) refl

  -- What `udp_connect` of Socks5 makes of a payload, `udp_accept` takes apart again: the host name,
  -- the port and the payload, of any length.
  pub socks5_udp_accept-connect :
      (h : H) (port : ℕ) (bytes : Bytes)
      → length (text.encode h) < 256
      → port < 65536
      → (datagram : Bytes) × (socks5_udp_connect text h port bytes ≡ some datagram)
        × (socks5_udp_accept text datagram ≡ accepted anyone h port bytes)
  unfolding socks5_udp_connect socks5_udp_accept equal_bytes
  socks5_udp_accept-connect h port bytes small fits = (
    0 ∷ 0 ∷ 0 ∷ 3 ∷ (domain_bytes (text.encode h) port ++ bytes),
    rw (target-lt text h port small fits) refl,
    kind-domain anyone h port bytes fits,
  )

  -- What `udp_connect` of Shadowsocks makes of a payload for one of the users, `udp_accept` takes
  -- apart again: the user, the host name, the port and the payload. It wants that no other user's
  -- name begins that user's datagrams.
  pub ss_udp_accept-connect :
      (users : List Bytes) (rauth : Bytes) (h : H) (port : ℕ) (bytes : Bytes)
      → is_among rauth users ≡ true
      → ((u tail : Bytes) → is_among u users ≡ true → starts (rauth ++ tail) u ≡ true → u ≡ rauth)
      → length (text.encode h) < 256
      → port < 65536
      → (datagram : Bytes) × (ss_udp_connect text rauth h port bytes ≡ some datagram)
        × (ss_udp_accept text users datagram ≡ accepted (named rauth) h port bytes)
  unfolding ss_udp_connect ss_udp_accept is_among
  ss_udp_accept-connect [] rauth h port bytes among only small fits = absurd (cc)
  ss_udp_accept-connect (u ∷ us) rauth h port bytes among only small fits =
      let body = 3 ∷ (domain_bytes (text.encode h) port ++ bytes) in
      (
        rauth ++ body,
        rw (target-lt text h port small fits) refl,
        ap (λ o. accept_user text o (rauth ++ body))
              (first_user-some (starts (rauth ++ body)) rauth (u ∷ us) among
                (rw (take-append_self (length rauth) rauth body refl) (equal_bytes_refl rauth))
                (λ v m e. only v body m e))
            ∙ rw (drop-append_self (length rauth) rauth body refl)
                (kind-domain (named rauth) h port bytes fits),
      )

  address-ip :
      (ip : Bytes) (source : H) (port : ℕ) (bytes : Bytes)
      → length ip ≡ 4
      → text.inet_ntoa ip ≡ some source
      → port < 65536
      → socks_address text 1 (ip ++ (big 2 port ++ bytes)) ≡ some (source, port, bytes)
  unfolding socks_address
  address-ip ip source port bytes four name fits =
      rw
        (
          take-append_self 4 ip (big 2 port ++ bytes) four,
          drop-append_self 4 ip (big 2 port ++ bytes) four,
          name,
          take-append_self 2 (big 2 port) bytes (length-big 2 port),
          drop-append_self 2 (big 2 port) bytes (length-big 2 port),
        )
        (ap (λ (p : ℕ). some (source, p, bytes)) (from_big-big 2 port (omega (arith, fits))))

  -- `udp_unpack` gives back the payload of `udp_pack`, whether the host name is an address of IPv4 or
  -- not.
  pub ss_udp_unpack-pack :
      ((ip : Bytes) → length ip ≡ 4 → (source : H) × (text.inet_ntoa ip ≡ some source))
      → (h : H) (port : ℕ) (bytes : Bytes) → length (text.encode h) < 256
      → port < 65536
      → (datagram : Bytes) × (ss_udp_pack text h port bytes ≡ some datagram)
        × (ss_udp_unpack text datagram ≡ some bytes)
  unfolding ss_udp_pack ss_udp_unpack
  ss_udp_unpack-pack ntoa h port bytes small fits = elim (Option-cases (text.inet_aton h)) [
    | inl fails ↦ (
      3 ∷ (domain_bytes (text.encode h) port ++ bytes),
      rw (fails, target-lt text h port small fits) refl,
      ap (payload text) (address-domain text law h port bytes fits),
    )
    | inr (ip, e) ↦
        let four = law.dotted h ip e in
        let source = ntoa ip four in
        (
          1 ∷ (ip ++ (big 2 port ++ bytes)),
          rw (e, to_big-lt 2 port (omega (arith, fits))) refl,
          ap (payload text) (address-ip ip source.0 port bytes four source.1 fits),
        )
  ]
