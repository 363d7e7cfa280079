-- ===== src/Protocols/Users/Signed.antt =====
-- Who may be signed in, and what a handshake may do to the table of users.
use python_proxy.Base.{ℕ, ◌≡◌, refl, sym, ap, ◌∙◌, ◌⊎◌, inl, inr, true, List, Bytes}
use python_proxy.Server.Auth.{AuthTable, Authed, known_user, no_user, authed, set_authed}
use python_proxy.Server.Auth as Auth
use python_proxy.Protocols.Conn.{User, named, nobody, truthy, Conn}
use python_proxy.Protocols.Conn.Keeps.{After}
use python_proxy.Protocols.Users.{is_among, ask_table}

module _ (users : List Bytes) (asked granted : ℕ) (t : AuthTable User) (Sent : Bytes → Type 0) where
  -- One of the users, by a name that the client has sent, or whom the table knew when it was asked.
  abbrev pub IsKnown : User → Type 0
  IsKnown user =
      ((name : Bytes) × (user ≡ named name) × (is_among name users ≡ true) × Sent name)
      ⊎ (authed asked t ≡ known_user user)

  -- The table is as it was, or somebody known was signed in.
  abbrev pub IsSigned : AuthTable User → Type 0
  IsSigned t' = (t' ≡ t) ⊎ ((user : User) × IsKnown user × (t' ≡ set_authed granted user t))

  abbrev pub IsAsked : User → Conn → Type 0
  IsAsked user c = ((user ≡ nobody) ⊎ (authed asked t ≡ known_user user)) × (c.table ≡ t)

  -- The table does not touch the input.
  abbrev pub IsAnswered : Conn → User → Conn → Type 0
  IsAnswered c user d = IsAsked user d × (d.input ≡ c.input)

  pub ask_table-IsAsked :
      (c : Conn) → c.table ≡ t → After (λ t'. t' ≡ t) (IsAnswered c) (ask_table asked c)
  ask_table-IsAsked c e = go (authed asked t) refl
    where
      go :
          (a : Authed User)
          → authed asked t ≡ a
          → After (λ t'. t' ≡ t) (IsAnswered c) (ask_table asked c)
      go (known_user user) f = rw (ap (authed asked) e ∙ f) ((inr f, e), refl)
      go no_user f = rw (ap (authed asked) e ∙ f) ((inl refl, e), refl)
      go Auth.key_error f = rw (ap (authed asked) e ∙ f) e

  -- Whoever the table named and who is somebody, is known.
  pub truthy-IsKnown :
      (user : User)
      → (user ≡ nobody) ⊎ (authed asked t ≡ known_user user)
      → truthy user ≡ true
      → IsKnown user
  truthy-IsKnown user (inl e) h = absurd (cc (sym (ap truthy e) ∙ h))
  truthy-IsKnown user (inr e) h = inr e
