-- ===== src/Protocols/Registry.antt =====
-- `accept` of pproxy/protocols/registry.py. A protocol is its `guess` and its `accept`, and the padding of
-- a result with `None` is the type `R`.
pub mod First
use python_proxy.Base.{ℕ, suc, zero, List, [], ◌∷◌, if◌then◌else◌}
use python_proxy.Protocols.Conn.{
  Error, User, truthy, closed, protocol, authentication, incomplete, index_error, key_error,
  value_error, overflow, Action, Conn, Result, ok, err, ◌>>=◌, raise, pure,
}

pub record Proto (R : Type 0) : Type 0 where
  pub guess : Action User
  pub accept : User → Action R

-- What the `except` makes of an exception of `guess`: IncompleteReadError, ConnectionError and OSError
-- become ConnectionClosed.
abbrev pub guess_error : Error → Error
guess_error closed = closed
guess_error incomplete = closed
guess_error protocol = protocol
guess_error authentication = authentication
guess_error index_error = index_error
guess_error key_error = key_error
guess_error value_error = value_error
guess_error overflow = overflow

abbrev pub guarded : Result User × Conn → Result User × Conn
guarded (ok user, c) = (ok user, c)
guarded (err e, c) = (err (guess_error e), c)

module _ {R : Type 0} where
  -- The place of the protocol in the list comes with what its `accept` gives.
  abbrev pub answer : ℕ → Action R → Action (ℕ × R)
  answer i accepted = do ret ← accepted; pure (i, ret)

  unfoldable pub accept_from : ℕ → List (Proto R) → Action (ℕ × R)
  accept_from i [] = raise protocol
  accept_from i (p ∷ protos) =
      let rest = accept_from (suc i) protos in
      do user ← λ c. guarded (p.guess c); if truthy user then answer i (p.accept user) else rest

  unfoldable pub accept_stream : List (Proto R) → Action (ℕ × R)
  unfolding accept_from
  accept_stream protos = accept_from zero protos
