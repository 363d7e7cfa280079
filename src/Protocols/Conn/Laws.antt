-- ===== src/Protocols/Conn/Laws.antt =====
-- Reading what was written.
use python_proxy.Base.{
  ℕ, ◌≡◌, refl, ap, ◌++◌, [], ◌∷◌, length, take, Bytes, take-append_self, drop-append_self,
  length-append, le→leb, min, arith, take-append-drop,
}
use python_proxy.Server.Auth.{AuthTable}
use python_proxy.Protocols.Conn.{
  User, Conn, conn, Result, ok, Action, continue, ◌>>◌, first, rollback, read_exactly, read_byte,
  read,
}

module _ {A B : Type 0} (f : A → Action B) where
  pub continue-ok : (p : Result A × Conn) (a : A) (c : Conn) → p ≡ (ok a, c) → continue f p ≡ f a c
  continue-ok p a c e = ap (continue f) e

pub read_exactly-append :
    (n : ℕ) (a rest out : Bytes) (t : AuthTable User)
    → length a ≡ n
    → read_exactly n (conn (a ++ rest) out t) ≡ (ok a, conn rest out t)
unfolding read_exactly
read_exactly-append n a rest out t h =
    rw
      (
        le→leb n (length (a ++ rest)) (omega (arith, length-append a rest)),
        take-append_self n a rest h,
        drop-append_self n a rest h,
      )
      refl

pub read_byte-cons :
    (b : ℕ) (rest out : Bytes) (t : AuthTable User)
    → read_byte (conn (b ∷ rest) out t) ≡ (ok b, conn rest out t)
unfolding read_byte
read_byte-cons b rest out t =
    continue-ok first (read_exactly 1 (conn (b ∷ rest) out t)) (b ∷ []) (conn rest out t)
      (read_exactly-append 1 (b ∷ []) rest out t refl)

-- What `read` took comes back by `rollback`.
pub read-rollback :
    {A : Type 0} (arrived size : ℕ) (k : Bytes → Action A) (c : Conn)
    → continue (λ h. rollback h >> k h) (read arrived size c)
      ≡ k (take (min arrived size) c.input) c
unfolding read
read-rollback arrived size k c =
    ap (λ i. k (take (min arrived size) c.input) (record c { input = i }))
      (take-append-drop (min arrived size) c.input)
