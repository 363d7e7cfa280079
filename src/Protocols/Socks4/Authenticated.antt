-- ===== src/Protocols/Socks4/Authenticated.antt =====
-- `Socks4.accept` serves nobody who is not known, where users are configured.
use python_proxy.Base.{
  ℕ, ◌≡◌, refl, sym, ap, ◌∙◌, inl, inr, false, Bool-cases, List, [], ◌∷◌, ◌++◌, length, Bytes,
  Option, none, some, from_big,
}
use python_proxy.Server.Auth.{AuthTable, set_authed}
use python_proxy.Cipherpy.Process.{equal_bytes}
use python_proxy.Cipherpy.Process.Laws.{equal_bytes-eq}
use python_proxy.Protocols.Conn.{
  User, named, truthy, protocol, value_error, Conn, continue, pure, or_raise,
}
use python_proxy.Protocols.Conn.Keeps.{After, After-continue, After-weaken}
use python_proxy.Protocols.Conn.Reads.{
  IsRead, IsFront, IsHeld, After-Was, read_exactly-IsRead, read_before-IsFront, require-IsTrue,
}
use python_proxy.Protocols.Address.{Text}
use python_proxy.Protocols.Users.{is_among, has_byte}
use python_proxy.Protocols.Users.Signed.{
  IsKnown, IsSigned, IsAsked, IsAnswered, ask_table-IsAsked, truthy-IsKnown,
}
use python_proxy.Protocols.Socks4.{socks4_login, socks4_accept}

-- The input is a request of SOCKS4 with this user identifier: behind the command stand the port, the
-- address and the identifier, up to the first zero byte.
abbrev pub IsUserid : Bytes → Bytes → Type 0
IsUserid input userid =
    (port ip rest : Bytes) × (input ≡ 1 ∷ (port ++ (ip ++ (userid ++ (0 ∷ rest)))))
    × (length port ≡ 2)
    × (length ip ≡ 4)
    × (has_byte 0 userid ≡ false)

whole_request :
    (c0 c1 c2 c3 c4 command port ip userid : Bytes)
    → c0 ≡ command ++ c1
    → command ≡ 1 ∷ []
    → c1 ≡ port ++ c2
    → c2 ≡ ip ++ c3
    → c3 ≡ userid ++ (0 ∷ c4)
    → c0 ≡ 1 ∷ (port ++ (ip ++ (userid ++ (0 ∷ c4))))
whole_request c0 c1 c2 c3 c4 command port ip userid a b d e f = rw (a, b, d, e, f) refl

module _ (u : Bytes) (us : List Bytes) (asked granted : ℕ) (t : AuthTable User)
    (Sent : Bytes → Type 0) where
  abbrev E : AuthTable User → Type 0
  E t' = t' ≡ t

  abbrev T : AuthTable User → Type 0
  T = IsSigned (u ∷ us) asked granted t Sent

  abbrev pub IsServed : {A : Type 0} → (A → User) → A → Conn → Type 0
  IsServed user_of a c =
      IsKnown (u ∷ us) asked granted t Sent (user_of a)
      × (c.table ≡ set_authed granted (user_of a) t)

  login-IsServed :
      (userid : Bytes) (user : User) (c : Conn)
      → Sent userid
      → IsAsked (u ∷ us) asked granted t Sent user c
      → After E (IsServed (λ a. a)) (socks4_login granted userid user (u ∷ us) c)
  login-IsServed userid user c s h = elim (Bool-cases (is_among userid (u ∷ us))) [
    | inl e ↦ rw e (inl (userid, refl, e, s), ap (set_authed granted (named userid)) h.1)
    | inr e ↦ rw e (elim (Bool-cases (truthy user)) [
      | inl f ↦ rw f (
        truthy-IsKnown (u ∷ us) asked granted t Sent user h.0 f,
        ap (set_authed granted user) h.1,
      )
      | inr f ↦ rw f h.1
    ])
  ]

  module _ {H : Type 0} (text : Text H) where
    abbrev S : User × H × ℕ → Conn → Type 0
    S = IsServed (λ a. a.0)

    named_host :
        (ip : Bytes) (port : ℕ) (login : User) (c : Conn)
        → IsServed (λ a. a) login c
        → After T S
            (continue (λ h. pure (login, h, port)) (or_raise value_error (text.inet_ntoa ip) c))
    named_host ip port login c k = go (text.inet_ntoa ip)
      where
        go :
            (o : Option H)
            → After T S (continue (λ h. pure (login, h, port)) (or_raise value_error o c))
        go none = inr (login, k.0, k.1)
        go (some h) = k

    serves :
        (c : Conn)
        → c.table ≡ t
        → ((userid : Bytes) → IsUserid c.input userid → Sent userid)
        → After T S (socks4_accept text asked granted (u ∷ us) c)
    unfolding socks4_accept
    serves c e sent =
        After-Was T (IsRead c 1) S _ _ c (inl e) (read_exactly-IsRead 1 c) (λ command c1 r1.
          After-Was T (IsHeld c1 (equal_bytes command (1 ∷ []))) S _ _ c1 (inl (r1.2 ∙ e))
            (require-IsTrue (equal_bytes command (1 ∷ [])) protocol c1)
            (λ done c2 r2.
              After-Was T (IsRead c2 2) S _ _ c2 (inl (r2.2 ∙ r1.2 ∙ e)) (read_exactly-IsRead 2 c2)
                (λ port c3 r3.
                  let e3 = r3.2 ∙ r2.2 ∙ r1.2 ∙ e in
                  After-Was T (IsRead c3 4) S _ _ c3 (inl e3) (read_exactly-IsRead 4 c3)
                    (λ ip c4 r4.
                      After-Was T (IsFront c4 0) S _ _ c4 (inl (r4.2 ∙ e3))
                        (read_before-IsFront 0 c4)
                        (λ userid c5 r5.
                          let whole =
                            whole_request c.input c1.input c3.input c4.input c5.input command port
                              ip userid r1.0 (equal_bytes-eq command (1 ∷ []) r2.0)
                              (sym r2.1 ∙ r3.0) r4.0 r5.0 in
                          let given = sent userid (port, ip, c5.input, whole, r3.1, r4.1, r5.1) in
                          After-continue T (IsAnswered (u ∷ us) asked granted t Sent c5) S _ _
                            (After-weaken E T (IsAnswered (u ∷ us) asked granted t Sent c5) _
                              (λ t'. inl)
                              (ask_table-IsAsked (u ∷ us) asked granted t Sent c5
                                (r5.2 ∙ r4.2 ∙ e3)))
                            (λ user c6 r6.
                              After-continue T (IsServed (λ a. a)) S _ _
                                (After-weaken E T (IsServed (λ a. a)) _ (λ t'. inl)
                                  (login-IsServed userid user c6 given r6.0))
                                (λ login c7 k. named_host ip (from_big port) login _ k)))))))

-- Where users are configured, `accept` returns only for one of them whose name is the user identifier of
-- the request, or for whom the table knew when it was asked, and it signs exactly that user in. Where it
-- raises, on whatever bytes, the table is as it was or such a user was signed in before the failure.
pub socks4_accept-IsServed :
    (u : Bytes) (us : List Bytes) (asked granted : ℕ) (t : AuthTable User) {H : Type 0}
    (text : Text H) (c : Conn)
    → c.table ≡ t
    → After
        (IsSigned (u ∷ us) asked granted t (IsUserid c.input))
        (IsServed u us asked granted t (IsUserid c.input) {A = User × H × ℕ} (λ a. a.0))
        (socks4_accept text asked granted (u ∷ us) c)
socks4_accept-IsServed u us asked granted t text c e =
    serves u us asked granted t (IsUserid c.input) text c e (λ userid h. h)
