-- ===== src/Protocols/Registry/First.antt =====
-- The protocol that `accept` chooses.
use python_proxy.Base.{ℕ, suc, ◌+◌, ◌≡◌, false, true, List, [], ◌∷◌, ◌++◌, length, ap, ◌∙◌, arith}
use python_proxy.Protocols.Conn.{User, truthy, ok, Conn}
use python_proxy.Protocols.Registry.{Proto, answer, accept_from, accept_stream}

module _ {R : Type 0} where
  -- Protocols that do not recognise the connection and leave it as it was.
  abbrev pub IsRefused : Conn → List (Proto R) → Type 0
  IsRefused c [] = Unit
  IsRefused c (p ∷ protos) =
      ((user : User) × (p.guess c ≡ (ok user, c)) × (truthy user ≡ false)) × IsRefused c protos

  from_lem :
      (i : ℕ) (before after : List (Proto R)) (p : Proto R) (user : User) (c d : Conn)
      → IsRefused c before
      → p.guess c ≡ (ok user, d)
      → truthy user ≡ true
      → accept_from i (before ++ (p ∷ after)) c ≡ answer (i + length before) (p.accept user) d
  unfolding accept_from
  from_lem i [] after p user c d r g t =
      rw g (rw t (ap (λ n. answer n (p.accept user) d) (omega arith)))
  from_lem i (q ∷ before) after p user c d ((u, e, f), r) g t = rw e (
      rw f (
        from_lem (suc i) before after p user c d r g t
        ∙ ap (λ n. answer n (p.accept user) d) (omega arith)))

  -- The first protocol that recognises the connection accepts it, where those before it leave the
  -- connection as it was.
  accept_stream-IsRefused :
      (before after : List (Proto R)) (p : Proto R) (user : User) (c d : Conn)
      → IsRefused c before
      → p.guess c ≡ (ok user, d)
      → truthy user ≡ true
      → accept_stream (before ++ (p ∷ after)) c ≡ answer (length before) (p.accept user) d
  unfolding accept_stream
  accept_stream-IsRefused before after p user c d r g t =
      from_lem 0 before after p user c d r g t ∙ ap (λ n. answer n (p.accept user) d) (omega arith)
