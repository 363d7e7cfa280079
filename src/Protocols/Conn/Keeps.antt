-- ===== src/Protocols/Conn/Keeps.antt =====
-- What holds behind an action, and the actions that leave the table of users alone.
use python_proxy.Base.{
  ℕ, Bool, true, false, Bool-cases, Option, none, some, [], ◌∷◌, leb, length, inl, inr, Bytes,
}
use python_proxy.Server.Auth.{AuthTable}
use python_proxy.Protocols.Conn.{
  User, Error, Conn, Result, ok, err, Action, continue, first, require, or_raise, read_exactly,
}

-- `P` of the value and the connection where the action returns, `T` of the table where it raises.
abbrev pub After :
    {A : Type 0} → (AuthTable User → Type 0) → (A → Conn → Type 0) → Result A × Conn → Type 0
After T P (ok a, c) = P a c
After T P (err e, c) = T c.table

module _ {A B : Type 0} (T : AuthTable User → Type 0) where
  pub After-continue :
      (P : A → Conn → Type 0) (Q : B → Conn → Type 0) (f : A → Action B) (p : Result A × Conn)
      → After T P p
      → ((a : A) (c : Conn) → P a c → After T Q (f a c))
      → After T Q (continue f p)
  After-continue P Q f (ok a, c) h k = k a c h
  After-continue P Q f (err e, c) h k = h

pub After-weaken :
    {A : Type 0} (T U : AuthTable User → Type 0) (P : A → Conn → Type 0) (p : Result A × Conn)
    → ((t : AuthTable User) → T t → U t)
    → After T P p
    → After U P p
After-weaken T U P (ok a, c) weaker h = h
After-weaken T U P (err e, c) weaker h = weaker c.table h

module _ (T : AuthTable User → Type 0) where
  -- The postcondition of an action that leaves the table alone.
  abbrev pub Same : {A : Type 0} → A → Conn → Type 0
  Same a c = T c.table

  module _ {A B : Type 0} where
    -- The same, where both leave it alone.
    pub Same-continue :
        (f : A → Action B) (p : Result A × Conn)
        → After T Same p
        → ((a : A) (c : Conn) → T c.table → After T Same (f a c))
        → After T Same (continue f p)
    Same-continue f p h k = After-continue T Same Same f p h k

  pub read_exactly-Same : (n : ℕ) (c : Conn) → T c.table → After T Same (read_exactly n c)
  unfolding read_exactly
  read_exactly-Same n c h = elim (Bool-cases (leb n (length c.input))) [
    | inl e ↦ rw e h
    | inr e ↦ rw e h
  ]

  pub first-Same : (bytes : Bytes) (c : Conn) → T c.table → After T Same (first bytes c)
  first-Same [] c h = h
  first-Same (b ∷ bytes) c h = h

  pub require-Same : (b : Bool) (e : Error) (c : Conn) → T c.table → After T Same (require b e c)
  require-Same true e c h = h
  require-Same false e c h = h

  pub or_raise-Same :
      {A : Type 0} (e : Error) (o : Option A) (c : Conn) → T c.table → After T Same (or_raise e o c)
  or_raise-Same e none c h = h
  or_raise-Same e (some a) c h = h
