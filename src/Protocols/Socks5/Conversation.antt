-- ===== src/Protocols/Socks5/Conversation.antt =====
-- `Socks5.connect` and `Socks5.accept` against each other: each reads what the other writes.
use python_proxy.Base.{
  ℕ, ◌+◌, ◌<◌, ◌≡◌, refl, sym, ap, ◌∙◌, true, false, Bool-cases, inl, inr, some, List, [], ◌∷◌,
  ◌++◌, ◌==◌, ◌||◌, append_assoc, append-nil, length, Bytes, big, length-append, length-big, arith,
}
use python_proxy.Server.Auth.{AuthTable, authed, no_user, set_authed}
use python_proxy.Cipherpy.Process.{equal_bytes}
use python_proxy.Protocols.Conn.{User, named, nobody, conn, ok}
use python_proxy.Protocols.Conn.Laws.{read_exactly-append, read_byte-cons}
use python_proxy.Protocols.Address.{Text, IsText}
use python_proxy.Protocols.Address.Laws.{domain_bytes, packstr-lt, target-lt, stream-domain}
use python_proxy.Protocols.Users.{is_among, has_byte}
use python_proxy.Protocols.Socks5.{
  login_name, split_once, split_cons, join_packed, list_of, socks5_authenticate, socks5_login,
  socks5_accept, socks5_connect,
}

split_once-login_name :
    (u p : Bytes) → has_byte 58 u ≡ false → split_once (login_name u p) ≡ (u, p ∷ [])
unfolding split_once has_byte
split_once-login_name [] p h = refl
split_once-login_name (b ∷ u) p h = elim (Bool-cases (b == 58)) [
  | inl e ↦ absurd (cc)
  | inr e ↦
      rw e
        (ap (split_cons b) (split_once-login_name u p (sym (ap (λ c. c || has_byte 58 u) e) ∙ h)))
]

-- The subnegotiation's bytes.
abbrev credentials : Bytes → Bytes → Bytes
credentials u p = 1 ∷ ((length u ∷ u) ++ (length p ∷ p))

module _ (u p : Bytes) (plain : has_byte 58 u ≡ false) (small_u : length u < 256)
    (small_p : length p < 256) where
  packed :
      join_packed (list_of (split_once (login_name u p))) ≡ some ((length u ∷ u) ++ (length p ∷ p))
  unfolding join_packed
  packed =
      rw (split_once-login_name u p plain, packstr-lt u small_u, packstr-lt p small_p)
        (ap (λ x. some ((length u ∷ u) ++ (length p ∷ x))) (append-nil p))

  authenticates :
      (b : ℕ) (rauth rest : Bytes) (t : AuthTable User)
      → b ∷ rauth ≡ login_name u p
      → socks5_authenticate (b ∷ rauth) (conn (5 ∷ 2 ∷ 1 ∷ 0 ∷ rest) [] t)
        ≡ (ok tt, conn rest (5 ∷ 1 ∷ 2 ∷ credentials u p) t)
  unfolding socks5_authenticate equal_bytes
  authenticates b rauth rest t e =
      let items : join_packed (list_of (split_once (b ∷ rauth)))
          ≡ some ((length u ∷ u) ++ (length p ∷ p)) =
        ap (λ x. join_packed (list_of (split_once x))) e ∙ packed in
      rw
        (
          read_exactly-append 2 (5 ∷ 2 ∷ []) (1 ∷ 0 ∷ rest) (5 ∷ 1 ∷ 2 ∷ []) t refl,
          items,
          read_exactly-append 2 (1 ∷ 0 ∷ []) rest (5 ∷ 1 ∷ 2 ∷ credentials u p) t refl,
        )
        refl

  authenticates_login :
      (rest : Bytes) (t : AuthTable User)
      → socks5_authenticate (login_name u p) (conn (5 ∷ 2 ∷ 1 ∷ 0 ∷ rest) [] t)
        ≡ (ok tt, conn rest (5 ∷ 1 ∷ 2 ∷ credentials u p) t)
  authenticates_login rest t = go u refl
    where
      go :
          (v : Bytes)
          → v ≡ u
          → socks5_authenticate (login_name v p) (conn (5 ∷ 2 ∷ 1 ∷ 0 ∷ rest) [] t)
            ≡ (ok tt, conn rest (5 ∷ 1 ∷ 2 ∷ credentials u p) t)
      go [] e = authenticates 58 p rest t (ap (λ v. login_name v p) e)
      go (b ∷ v) e = authenticates b (v ++ (58 ∷ p)) rest t (ap (λ v. login_name v p) e)

  credentials_bytes :
      (rest : Bytes) → credentials u p ++ rest ≡ 1 ∷ length u ∷ (u ++ (length p ∷ (p ++ rest)))
  credentials_bytes rest = ap (λ x. 1 ∷ length u ∷ x) (append_assoc u (length p ∷ p) rest)

  logs_in :
      (users : List Bytes) (rest : Bytes) (t : AuthTable User)
      → is_among (login_name u p) users ≡ true
      → socks5_login users nobody (2 ∷ []) (conn (credentials u p ++ rest) [] t)
        ≡ (ok (named (login_name u p)), conn rest (5 ∷ 2 ∷ 1 ∷ 0 ∷ []) t)
  unfolding socks5_login has_byte is_among
  logs_in [] rest t among = absurd (cc)
  logs_in (user ∷ us) rest t among =
      let written : Bytes = 5 ∷ 2 ∷ [] in
      rw
        (
          credentials_bytes rest,
          read_byte-cons 1 (length u ∷ (u ++ (length p ∷ (p ++ rest)))) written t,
          read_byte-cons (length u) (u ++ (length p ∷ (p ++ rest))) written t,
          read_exactly-append (length u) u (length p ∷ (p ++ rest)) written t refl,
          read_byte-cons (length p) (p ++ rest) written t,
          read_exactly-append (length p) p rest written t refl,
          among,
        )
        refl

  module _ {H : Type 0} (text : Text H) (law : IsText text) (h : H) (port : ℕ)
      (small : length (text.encode h) < 256) (fits : port < 65536) where
    abbrev asks : Bytes
    asks = (5 ∷ 1 ∷ 2 ∷ credentials u p) ++ (5 ∷ 1 ∷ 0 ∷ 3 ∷ domain_bytes (text.encode h) port)

    abbrev answers : Bytes
    answers = 5 ∷ 2 ∷ 1 ∷ 0 ∷ 5 ∷ 0 ∷ 0 ∷ 3 ∷ domain_bytes (text.encode h) port

    connects :
        (rest : Bytes) (t : AuthTable User)
        → socks5_connect text (login_name u p) h port (conn (answers ++ rest) [] t)
          ≡ (ok tt, conn rest asks t)
    unfolding socks5_connect equal_bytes
    connects rest t =
        let v = text.encode h in
        let size : length (v ++ big 2 port) ≡ length v + 2 =
          omega (arith, length-append v (big 2 port), length-big 2 port) in
        rw
          (
            authenticates_login (5 ∷ 0 ∷ 0 ∷ 3 ∷ (domain_bytes v port ++ rest)) t,
            target-lt text h port small fits,
            read_exactly-append 3 (5 ∷ 0 ∷ 0 ∷ []) (3 ∷ (domain_bytes v port ++ rest)) asks t refl,
            read_byte-cons 3 (domain_bytes v port ++ rest) asks t,
            read_byte-cons (length v) ((v ++ big 2 port) ++ rest) asks t,
            read_exactly-append (length v + 2) (v ++ big 2 port) rest asks t size,
          )
          refl

    -- What comes behind the version that `guess` took.
    abbrev asked_bytes : Bytes
    asked_bytes = 1 ∷ 2 ∷ (credentials u p ++ (5 ∷ 1 ∷ 0 ∷ 3 ∷ domain_bytes (text.encode h) port))

    accepts :
        (users : List Bytes) (asked granted : ℕ) (rest : Bytes) (t : AuthTable User)
        → is_among (login_name u p) users ≡ true
        → authed asked t ≡ no_user
        → socks5_accept text asked granted users (conn (asked_bytes ++ rest) [] t) ≡ (
          ok (named (login_name u p), h, port),
          conn rest answers (set_authed granted (named (login_name u p)) t),
        )
    unfolding socks5_accept is_among equal_bytes
    accepts [] asked granted rest t among fresh = absurd (cc)
    accepts (user ∷ us) asked granted rest t among fresh =
        let v = domain_bytes (text.encode h) port in
        let request = 5 ∷ 1 ∷ 0 ∷ 3 ∷ v in
        let front : Bytes = 5 ∷ 2 ∷ 1 ∷ 0 ∷ [] in
        let t' = set_authed granted (named (login_name u p)) t in
        let back = (request ++ rest) in
        rw
          (
            append_assoc (credentials u p) request rest,
            read_byte-cons 1 (2 ∷ (credentials u p ++ back)) [] t,
            read_exactly-append 1 (2 ∷ []) (credentials u p ++ back) [] t refl,
            fresh,
            logs_in (user ∷ us) back t among,
            read_exactly-append 3 (5 ∷ 1 ∷ 0 ∷ []) (3 ∷ (v ++ rest)) front t' refl,
            read_exactly-append 1 (3 ∷ []) (v ++ rest) front t' refl,
            stream-domain text law h port rest front t' fits,
          )
          refl

    -- A client that connects with a user's name and password, and a proxy that has them among its
    -- users and does not know the client yet: each reads what the other writes, up to the last byte.
    -- The proxy takes the login, the host name and the port, and signs the user in; the client's
    -- handshake succeeds. The name has no colon, and the name, the password and the host name have
    -- less than 256 bytes each.
    pub socks5_connect-accept :
        (users : List Bytes) (asked granted : ℕ) (rest more : Bytes) (t s : AuthTable User)
        → is_among (login_name u p) users ≡ true
        → authed asked t ≡ no_user
        → (sent : Bytes) × (replies : Bytes) × (socks5_connect text
              (login_name u p)
              h
              port
              (conn (replies ++ more) [] s)
            ≡ (ok tt, conn more (5 ∷ sent) s))
          × (socks5_accept text asked granted users (conn (sent ++ rest) [] t) ≡ (
            ok (named (login_name u p), h, port),
            conn rest replies (set_authed granted (named (login_name u p)) t),
          ))
    socks5_connect-accept users asked granted rest more t s among fresh =
        (asked_bytes, answers, connects more s, accepts users asked granted rest t among fresh)
