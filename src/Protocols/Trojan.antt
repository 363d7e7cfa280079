-- ===== src/Protocols/Trojan.antt =====
-- pproxy/protocols/socks.py: `Trojan`. `digest` is `hashlib.sha224(value).hexdigest().encode()`.
pub mod RoundTrip
use python_proxy.Base.{ℕ, Bool, Option, none, some, List, [], ◌∷◌, ◌++◌, ◌==◌, if◌then◌else◌, Bytes}
use python_proxy.Cipherpy.Process.{equal_bytes}
use python_proxy.Protocols.Conn.{
  User, nobody, anyone, named, closed, protocol, overflow, Action, ◌>>=◌, ◌>>◌, pure, or_raise,
  require, write, read, read_exactly, read_byte, rollback,
}
use python_proxy.Protocols.Address.{Text, target, socks_address_stream}
use python_proxy.Protocols.Users.{first_user}

abbrev pub crlf : Bytes
crlf = 13 ∷ 10 ∷ []

abbrev pub name_found : Option Bytes → User
name_found none = nobody
name_found (some user) = named user

module _ (digest : Bytes → Bytes) where
  abbrev pub trojan_user : Bytes → List Bytes → User
  trojan_user header [] = if equal_bytes (digest []) header then anyone else nobody
  trojan_user header (u ∷ users) =
      name_found (first_user (λ user. equal_bytes (digest user) header) (u ∷ users))

  abbrev pub keep_or_rollback : Bytes → User → Action User
  keep_or_rollback header nobody = rollback header >> pure nobody
  keep_or_rollback header user = pure user

  -- `Trojan.guess`.
  unfoldable pub trojan_guess : ℕ → List Bytes → Action User
  trojan_guess arrived users = do
    header ← read arrived 56
    keep_or_rollback header (trojan_user header users)

  module _ {H : Type 0} (text : Text H) where
    -- `Trojan.accept`.
    unfoldable pub trojan_accept : User → Action (User × H × ℕ)
    trojan_accept user = do
      front ← read_exactly 2
      require (equal_bytes front crlf) protocol
      command ← read_byte
      require (command == 1) closed
      n ← read_byte
      address ← socks_address_stream text n
      end ← read_exactly 2
      require (equal_bytes end crlf) protocol
      pure (user, address.0, address.1)

    -- `Trojan.connect`.
    unfoldable pub trojan_connect : Bytes → H → ℕ → Action (Unit {0})
    trojan_connect rauth host_name port = do
      request ← or_raise overflow (target text host_name port)
      write (digest rauth ++ (13 ∷ 10 ∷ 1 ∷ 3 ∷ (request ++ crlf)))
