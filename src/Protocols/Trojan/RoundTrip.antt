-- ===== src/Protocols/Trojan/RoundTrip.antt =====
-- What a Trojan client sends is recognised and read.
use python_proxy.Base.{
  ℕ, ◌<◌, ◌≤◌, ◌≡◌, refl, ap, true, List, [], ◌∷◌, ◌++◌, append_assoc, min, length, Bytes,
  take-append_self, drop-append_self, arith,
}
use python_proxy.Server.Auth.{AuthTable}
use python_proxy.Cipherpy.Process.{equal_bytes}
use python_proxy.Cipherpy.Process.Laws.{equal_bytes_refl, equal_bytes-eq}
use python_proxy.Protocols.Conn.{User, named, conn, ok, continue, read}
use python_proxy.Protocols.Conn.Laws.{read_exactly-append, read_byte-cons}
use python_proxy.Protocols.Address.{Text, IsText}
use python_proxy.Protocols.Address.Laws.{domain_bytes, target-lt, stream-domain}
use python_proxy.Protocols.Users.{is_among}
use python_proxy.Protocols.Users.Laws.{first_user-some}
use python_proxy.Protocols.Trojan.{
  crlf, name_found, trojan_user, trojan_guess, trojan_accept, trojan_connect,
}

-- The bytes of a request.
abbrev trojan_hello : (Bytes → Bytes) → Bytes → Bytes → ℕ → Bytes
trojan_hello digest rauth value port =
    digest rauth ++ (13 ∷ 10 ∷ 1 ∷ 3 ∷ (domain_bytes value port ++ crlf))

module _ (digest : Bytes → Bytes) {H : Type 0} (text : Text H) (law : IsText text) where
  accept_hello :
      (user : User) (h : H) (port : ℕ) (rest : Bytes) (t : AuthTable User)
      → port < 65536
      → trojan_accept digest text user
          (conn (13 ∷ 10 ∷ 1 ∷ 3 ∷ ((domain_bytes (text.encode h) port ++ crlf) ++ rest)) [] t)
        ≡ (ok (user, h, port), conn rest [] t)
  unfolding trojan_accept equal_bytes
  accept_hello user h port rest t fits =
      let v = domain_bytes (text.encode h) port in
      rw
        (
          read_exactly-append 2 crlf (1 ∷ 3 ∷ ((v ++ crlf) ++ rest)) [] t refl,
          read_byte-cons 1 (3 ∷ ((v ++ crlf) ++ rest)) [] t,
          read_byte-cons 3 ((v ++ crlf) ++ rest) [] t,
          append_assoc v crlf rest,
          stream-domain text law h port (crlf ++ rest) [] t fits,
          read_exactly-append 2 crlf rest [] t refl,
        )
        refl

  -- What `connect` writes for one of the users, `guess` and `accept` read back, up to the last byte:
  -- the user, the host name and the port. It wants a digest of 56 characters that no two users share,
  -- a host name of less than 256 bytes, and that the digest has arrived in one piece.
  pub trojan_accept-connect :
      (users : List Bytes) (rauth : Bytes) (h : H) (port arrived : ℕ) (rest : Bytes)
      (t : AuthTable User)
      → is_among rauth users ≡ true
      → ((u : Bytes) → is_among u users ≡ true → digest u ≡ digest rauth → u ≡ rauth)
      → length (digest rauth) ≡ 56
      → length (text.encode h) < 256
      → port < 65536
      → 56 ≤ arrived
      → (hello : Bytes) × (trojan_connect digest text rauth h port (conn [] [] t)
          ≡ (ok tt, conn [] hello t))
        × (continue
              (trojan_accept digest text)
              (trojan_guess digest arrived users (conn (hello ++ rest) [] t))
            ≡ (ok (named rauth, h, port), conn rest [] t))
  unfolding trojan_connect trojan_guess read is_among
  trojan_accept-connect users rauth h port arrived rest t among only size small fits enough =
      let hello = trojan_hello digest rauth (text.encode h) port in
      let back = 13 ∷ 10 ∷ 1 ∷ 3 ∷ ((domain_bytes (text.encode h) port ++ crlf) ++ rest) in
      let found : trojan_user digest (digest rauth) users ≡ named rauth =
        user_found users among only in
      let all : min arrived 56 ≡ 56 = omega (arith, enough) in
      (
        hello,
        rw (target-lt text h port small fits) refl,
        rw
            (
              all,
              append_assoc (digest rauth)
                  (13 ∷ 10 ∷ 1 ∷ 3 ∷ (domain_bytes (text.encode h) port ++ crlf)) rest,
              take-append_self 56 (digest rauth) back size,
              drop-append_self 56 (digest rauth) back size,
              found,
            )
            (accept_hello (named rauth) h port rest t fits),
      )
    where
      user_found :
          (users : List Bytes)
          → is_among rauth users ≡ true
          → ((u : Bytes) → is_among u users ≡ true → digest u ≡ digest rauth → u ≡ rauth)
          → trojan_user digest (digest rauth) users ≡ named rauth
      user_found [] a o = absurd (cc a)
      user_found (u ∷ us) a o = ap name_found (
          first_user-some (λ v. equal_bytes (digest v) (digest rauth)) rauth (u ∷ us) a
            (equal_bytes_refl (digest rauth))
            (λ v m e. o v m (equal_bytes-eq (digest v) (digest rauth) e)))
