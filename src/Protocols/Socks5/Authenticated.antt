-- ===== src/Protocols/Socks5/Authenticated.antt =====
-- `Socks5.accept` serves nobody who is not known, where users are configured.
use python_proxy.Base.{
  ℕ, ◌≡◌, refl, sym, ap, ◌∙◌, inl, inr, not, Bool-cases, List, [], ◌∷◌, ◌++◌, ◌==◌, ==_iff, ◌||◌,
  length, Bytes,
}
use python_proxy.Server.Auth.{AuthTable, set_authed}
use python_proxy.Cipherpy.Process.{equal_bytes}
use python_proxy.Protocols.Conn.{User, truthy, protocol, Conn}
use python_proxy.Protocols.Conn.Keeps.{
  After, After-continue, After-weaken, Same, read_exactly-Same, first-Same, require-Same,
}
use python_proxy.Protocols.Conn.Reads.{
  IsRead, IsTaken, IsHeld, After-Was, read_exactly-IsRead, read_byte-IsTaken, require-IsTrue,
}
use python_proxy.Protocols.Address.{Text}
use python_proxy.Protocols.Address.Keeps.{address-Same}
use python_proxy.Protocols.Users.{is_among, has_byte}
use python_proxy.Protocols.Users.Signed.{
  IsKnown, IsSigned, IsAsked, IsAnswered, ask_table-IsAsked, truthy-IsKnown,
}
use python_proxy.Protocols.Socks5.{
  login_name, socks5_password, socks5_negotiate, socks5_login, socks5_request, socks5_accept,
}

-- The subnegotiation of RFC 1929 with a name and a password, each behind its length.
abbrev pub subnegotiation : Bytes → Bytes → Bytes → Bytes
subnegotiation name password rest =
    1 ∷ length name ∷ (name ++ (length password ∷ (password ++ rest)))

-- The input has the methods, behind their number, and a subnegotiation whose name and password are the
-- two sides of the colon in `login`.
abbrev pub IsOffered : Bytes → Bytes → Type 0
IsOffered input login =
    (methods name password rest : Bytes) × (input
      ≡ length methods ∷ (methods ++ subnegotiation name password rest))
    × (login ≡ name ++ (58 ∷ password))

whole_subnegotiation :
    (version n m : ℕ) (c0 c1 c2 c3 c4 c5 name password : Bytes)
    → c0 ≡ version ∷ c1
    → version ≡ 1
    → c1 ≡ n ∷ c2
    → c2 ≡ name ++ c3
    → length name ≡ n
    → c3 ≡ m ∷ c4
    → c4 ≡ password ++ c5
    → length password ≡ m
    → c0 ≡ subnegotiation name password c5
whole_subnegotiation version n m c0 c1 c2 c3 c4 c5 name password a b d e f g h i =
    rw (a, b, d, e, sym f, g, h, sym i) refl

module _ (u : Bytes) (us : List Bytes) (asked granted : ℕ) (t : AuthTable User)
    (Sent : Bytes → Type 0) where
  abbrev E : AuthTable User → Type 0
  E t' = t' ≡ t

  abbrev IsProven : User → Conn → Type 0
  IsProven user c = IsKnown (u ∷ us) asked granted t Sent user × (c.table ≡ t)

  password-IsProven :
      (login : Bytes) (c : Conn)
      → c.table ≡ t
      → Sent login
      → After E IsProven (socks5_password (u ∷ us) login c)
  password-IsProven login c e s = elim (Bool-cases (is_among login (u ∷ us))) [
    | inl among ↦ rw among (inl (login, refl, among, s), e)
    | inr absent ↦ rw absent e
  ]

  -- Every subnegotiation at the front of the input counts as sent.
  abbrev Offers : Conn → Type 0
  Offers c =
      (name password rest : Bytes)
      → c.input ≡ subnegotiation name password rest
      → Sent (login_name name password)

  negotiate-IsProven :
      (c : Conn) → c.table ≡ t → Offers c → After E IsProven (socks5_negotiate (u ∷ us) c)
  negotiate-IsProven c e sent =
      After-Was E (IsTaken c) IsProven _ _ c e (read_byte-IsTaken _) (λ version c1 r1.
        After-Was E (IsHeld c1 (version == 1)) IsProven _ _ c1 (r1.1 ∙ e)
          (require-IsTrue (version == 1) protocol c1)
          (λ done c2 r2.
            let e2 = r2.2 ∙ r1.1 ∙ e in
            After-Was E (IsTaken c2) IsProven _ _ c2 e2 (read_byte-IsTaken c2) (λ n c3 r3.
              After-Was E (IsRead c3 n) IsProven _ _ c3 (r3.1 ∙ e2) (read_exactly-IsRead n c3)
                (λ name c4 r4.
                  let e4 = r4.2 ∙ r3.1 ∙ e2 in
                  After-Was E (IsTaken c4) IsProven _ _ c4 e4 (read_byte-IsTaken c4) (λ m c5 r5.
                    After-Was E (IsRead c5 m) IsProven _ _ c5 (r5.1 ∙ e4) (read_exactly-IsRead m c5)
                      (λ password c6 r6.
                        password-IsProven (login_name name password) c6 (r6.2 ∙ r5.1 ∙ e4) (
                          sent name password c6.input (
                            whole_subnegotiation version n m c.input c1.input c3.input c4.input
                              c5.input c6.input name password r1.0 ((==_iff version 1).0 r2.0)
                              (sym r2.1 ∙ r3.0) r4.0 r4.1 r5.0 r6.0 r6.1))))))))

  login-IsProven :
      (user : User) (methods : Bytes) (c : Conn)
      → IsAsked (u ∷ us) asked granted t Sent user c
      → Offers c
      → After E IsProven (socks5_login (u ∷ us) user methods c)
  unfolding socks5_login
  login-IsProven user methods c h sent =
      elim (Bool-cases (not (truthy user) || not (has_byte 0 methods))) [
        | inl e ↦ rw e (elim (Bool-cases (has_byte 2 methods)) [
          | inl f ↦ rw f (negotiate-IsProven c h.1 sent)
          | inr f ↦ rw f h.1
        ])
        | inr e ↦ rw e (elim (Bool-cases (truthy user)) [
          | inl f ↦ rw f (truthy-IsKnown (u ∷ us) asked granted t Sent user h.0 f, h.1)
          | inr f ↦ rw f h.1
        ])
      ]

  module _ {H : Type 0} (text : Text H) where
    abbrev pub IsServed : User × H × ℕ → Conn → Type 0
    IsServed a c = IsKnown (u ∷ us) asked granted t Sent a.0 × (c.table ≡ set_authed granted a.0 t)

    request-IsServed :
        (user : User) (c : Conn)
        → IsKnown (u ∷ us) asked granted t Sent user
        → c.table ≡ set_authed granted user t
        → After (IsSigned (u ∷ us) asked granted t Sent) IsServed (socks5_request text user c)
    request-IsServed user c k e =
        let T : AuthTable User → Type 0 = λ t'. t' ≡ set_authed granted user t in
        After-weaken T (IsSigned (u ∷ us) asked granted t Sent) IsServed _
          (λ t' f. inr (user, k, f))
          (After-continue T (Same T) IsServed _ _ (read_exactly-Same T 3 c e) (λ front c e.
            After-continue T (Same T) IsServed _ _
              (require-Same T (equal_bytes front (5 ∷ 1 ∷ 0 ∷ [])) protocol c e)
              (λ done c e.
                After-continue T (Same T) IsServed _ _ (read_exactly-Same T 1 c e) (λ header c e.
                  After-continue T (Same T) IsServed _ _ (first-Same T header c e) (λ n c e.
                    After-continue T (Same T) IsServed _ _ (address-Same text T n c e)
                      (λ address c e. (k, e)))))))

    serves :
        (c : Conn)
        → c.table ≡ t
        → ((login : Bytes) → IsOffered c.input login → Sent login)
        → After
            (IsSigned (u ∷ us) asked granted t Sent)
            IsServed
            (socks5_accept text asked granted (u ∷ us) c)
    unfolding socks5_accept
    serves c e sent =
        let T = IsSigned (u ∷ us) asked granted t Sent in
        After-Was T (IsTaken c) IsServed _ _ c (inl e) (read_byte-IsTaken c) (λ size c1 r1.
          After-Was T (IsRead c1 size) IsServed _ _ c1 (inl (r1.1 ∙ e))
            (read_exactly-IsRead size c1)
            (λ methods c2 r2.
              After-continue T (IsAnswered (u ∷ us) asked granted t Sent c2) IsServed _ _
                (After-weaken E T (IsAnswered (u ∷ us) asked granted t Sent c2) _ (λ t'. inl)
                  (ask_table-IsAsked (u ∷ us) asked granted t Sent c2 (r2.2 ∙ r1.1 ∙ e)))
                (λ user c3 r3.
                  After-continue T IsProven IsServed _ _
                    (After-weaken E T IsProven _ (λ t'. inl)
                      (login-IsProven user methods c3 r3.0 (λ name password rest f.
                        sent (login_name name password) (
                          methods,
                          name,
                          password,
                          rest,
                          rw (r1.0, r2.0, sym r2.1, sym r3.1 ∙ f) refl,
                          refl,
                        ))))
                    (λ login c4 known.
                      request-IsServed login _ known.0 (ap (set_authed granted login) known.1)))))

-- Where users are configured, `accept` returns only for one of them who has sent the name and the
-- password of the entry in a subnegotiation behind the methods, or for whom the table knew when it was
-- asked, and it signs exactly that user in. Where it raises, on whatever bytes, the table is as it was
-- or such a user was signed in before the failure.
pub socks5_accept-IsServed :
    (u : Bytes) (us : List Bytes) (asked granted : ℕ) (t : AuthTable User) {H : Type 0}
    (text : Text H) (c : Conn)
    → c.table ≡ t
    → After
        (IsSigned (u ∷ us) asked granted t (IsOffered c.input))
        (IsServed u us asked granted t (IsOffered c.input) text)
        (socks5_accept text asked granted (u ∷ us) c)
socks5_accept-IsServed u us asked granted t text c e =
    serves u us asked granted t (IsOffered c.input) text c e (λ login h. h)
