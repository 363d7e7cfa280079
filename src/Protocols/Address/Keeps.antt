-- ===== src/Protocols/Address/Keeps.antt =====
-- Reading an address leaves the table of users alone.
use python_proxy.Base.{ℕ, Bool-cases, inl, inr, Option, ◌==◌, ◌||◌, ◌++◌, Bytes}
use python_proxy.Server.Auth.{AuthTable}
use python_proxy.Protocols.Conn.{User, Conn, or_raise, value_error, first, read_exactly}
use python_proxy.Protocols.Conn.Keeps.{
  After, Same, Same-continue, read_exactly-Same, first-Same, or_raise-Same,
}
use python_proxy.Protocols.Address.{
  Text, with_port, stream_domain, stream_fixed, socks_address_stream,
}

module _ {H : Type 0} (text : Text H) (T : AuthTable User → Type 0) where
  with_port-Same :
      (value : Bytes) (h : H) (c : Conn) → T c.table → After T (Same T) (with_port text value h c)
  with_port-Same value h c k =
      Same-continue T _ (read_exactly 2 c) (read_exactly-Same T 2 c k) (λ port c k. k)

  fixed-Same :
      (size : ℕ) (name_of : Bytes → Option H) (c : Conn)
      → T c.table
      → After T (Same T) (stream_fixed text size name_of c)
  fixed-Same size name_of c k =
      Same-continue T _ (read_exactly size c) (read_exactly-Same T size c k) (λ value c k.
        Same-continue T (with_port text value) (or_raise value_error (name_of value) c)
          (or_raise-Same T value_error (name_of value) c k) (with_port-Same value))

  domain-Same : (c : Conn) → T c.table → After T (Same T) (stream_domain text c)
  domain-Same c k = Same-continue T _ (read_exactly 1 c) (read_exactly-Same T 1 c k) (λ front c k.
      Same-continue T _ (first front c) (first-Same T front c k) (λ size c k.
        Same-continue T _ (read_exactly size c) (read_exactly-Same T size c k) (λ value c k.
          Same-continue T (with_port text (front ++ value))
            (or_raise value_error (text.decode value) c)
            (or_raise-Same T value_error (text.decode value) c k)
            (with_port-Same (front ++ value)))))

  pub address-Same :
      (n : ℕ) (c : Conn) → T c.table → After T (Same T) (socks_address_stream text n c)
  unfolding socks_address_stream
  address-Same n c k = elim (Bool-cases (n == 1 || n == 17)) [
    | inl e ↦ rw e (fixed-Same 4 text.inet_ntoa c k)
    | inr e ↦ rw e (elim (Bool-cases (n == 3 || n == 19)) [
      | inl e ↦ rw e (domain-Same c k)
      | inr e ↦ rw e (elim (Bool-cases (n == 4 || n == 20)) [
        | inl e ↦ rw e (fixed-Same 16 text.inet_ntop c k)
        | inr e ↦ rw e k
      ])
    ])
  ]
