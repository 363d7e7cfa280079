-- ===== src/Protocols/Address/Laws.antt =====
-- An address that was written is read back, from a stream and from a datagram.
use python_proxy.Base.{
  ℕ, ◌<◌, ◌≡◌, refl, ap, ap₂, ◌∙◌, some, [], ◌∷◌, ◌++◌, append_assoc, length, Bytes, from_big, big,
  to_big-lt, from_big-big, length-big, take-append_self, drop-append_self, arith,
}
use python_proxy.Server.Auth.{AuthTable}
use python_proxy.Protocols.Conn.{User, conn, ok, pure, read_exactly}
use python_proxy.Protocols.Conn.Laws.{continue-ok, read_exactly-append}
use python_proxy.Protocols.Address.{
  Text, IsText, packstr, joined, target, with_port, socks_address_stream, socks_address,
}

big_one : (n : ℕ) → n < 256 → big 1 n ≡ n ∷ []
unfolding big
big_one n h = ap (λ (m : ℕ). m ∷ []) (omega arith)

pub packstr-lt :
    (value : Bytes) → length value < 256 → packstr 1 value ≡ some (length value ∷ value)
unfolding packstr
packstr-lt value h =
    rw (to_big-lt 1 (length value) h) (ap (λ s. some (s ++ value)) (big_one (length value) h))

-- What a request holds behind the byte 3.
abbrev pub domain_bytes : Bytes → ℕ → Bytes
domain_bytes value port = length value ∷ (value ++ big 2 port)

module _ {H : Type 0} (text : Text H) where
  pub target-lt :
      (h : H) (port : ℕ)
      → length (text.encode h) < 256
      → port < 65536
      → target text h port ≡ some (domain_bytes (text.encode h) port)
  unfolding target
  target-lt h port small fits =
      ap₂ joined (packstr-lt (text.encode h) small) (to_big-lt 2 port (omega (arith, fits)))

  module _ (law : IsText text) where
    with_port-big :
        (value : Bytes) (h : H) (port : ℕ) (rest out : Bytes) (t : AuthTable User)
        → port < 65536
        → with_port text value h (conn (big 2 port ++ rest) out t)
          ≡ (ok (h, port, value ++ big 2 port), conn rest out t)
    with_port-big value h port rest out t fits =
        continue-ok (λ d. pure (h, from_big d, value ++ d))
          (read_exactly 2 (conn (big 2 port ++ rest) out t)) (big 2 port) (conn rest out t)
          (read_exactly-append 2 (big 2 port) rest out t (length-big 2 port))
        ∙ ap (λ (p : ℕ). (ok (h, p, value ++ big 2 port), conn rest out t))
            (from_big-big 2 port (omega (arith, fits)))

    pub stream-domain :
        (h : H) (port : ℕ) (rest out : Bytes) (t : AuthTable User)
        → port < 65536
        → socks_address_stream text 3 (conn (domain_bytes (text.encode h) port ++ rest) out t)
          ≡ (ok (h, port, domain_bytes (text.encode h) port), conn rest out t)
    unfolding socks_address_stream
    stream-domain h port rest out t fits =
        let v = text.encode h in
        rw
          (
            read_exactly-append 1 (length v ∷ []) ((v ++ big 2 port) ++ rest) out t refl,
            append_assoc v (big 2 port) rest,
            read_exactly-append (length v) v (big 2 port ++ rest) out t refl,
            law.decodes h,
          )
          (with_port-big (length v ∷ v) h port rest out t fits)

    pub address-domain :
        (h : H) (port : ℕ) (rest : Bytes)
        → port < 65536
        → socks_address text 3 (domain_bytes (text.encode h) port ++ rest) ≡ some (h, port, rest)
    unfolding socks_address
    address-domain h port rest fits =
        let v = text.encode h in
        rw
          (
            append_assoc v (big 2 port) rest,
            take-append_self (length v) v (big 2 port ++ rest) refl,
            drop-append_self (length v) v (big 2 port ++ rest) refl,
            law.decodes h,
            take-append_self 2 (big 2 port) rest (length-big 2 port),
            drop-append_self 2 (big 2 port) rest (length-big 2 port),
          )
          (ap (λ (p : ℕ). some (h, p, rest)) (from_big-big 2 port (omega (arith, fits))))
