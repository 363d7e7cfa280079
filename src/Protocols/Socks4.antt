-- ===== src/Protocols/Socks4.antt =====
-- pproxy/protocols/socks.py: `Socks4`.
pub mod Authenticated
use python_proxy.Base.{
  ℕ, Bool, true, false, Option, none, some, List, [], ◌∷◌, ◌++◌, ◌==◌, if◌then◌else◌, Bytes,
  from_big, to_big,
}
use python_proxy.Cipherpy.Process.{equal_bytes}
use python_proxy.Protocols.Conn.{
  User, nobody, anyone, named, truthy, protocol, authentication, value_error, overflow, Action,
  ◌>>=◌, ◌>>◌, pure, raise, or_raise, require, write, read, read_exactly, read_before, rollback,
}
use python_proxy.Protocols.Address.{Text}
use python_proxy.Protocols.Users.{nonempty, is_among, ask_table, sign_in}

-- `guess` of `Socks4` and of `Socks5`, at the byte of the version.
unfoldable pub socks_guess : ℕ → ℕ → Action User
socks_guess version arrived = read arrived 1 >>= λ header.
    if equal_bytes header (version ∷ []) then pure anyone else (rollback header >> pure nobody)

-- `if userid in users: ... elif not user: ...`.
abbrev pub socks4_user : Bytes → User → List Bytes → Action User
socks4_user userid user users =
    if is_among userid users
    then pure (named userid)
    else if truthy user
    then pure user
    else raise authentication

-- `if users: ...`.
abbrev pub socks4_login : ℕ → Bytes → User → List Bytes → Action User
socks4_login granted userid user [] = pure user
socks4_login granted userid user (u ∷ users) =
    socks4_user userid user (u ∷ users) >>= λ login. sign_in granted login >> pure login

module _ {H : Type 0} (text : Text H) where
  -- `Socks4.accept`; `asked` and `granted` are the times of the two calls of the table.
  unfoldable pub socks4_accept : ℕ → ℕ → List Bytes → Action (User × H × ℕ)
  socks4_accept asked granted users = do
    command ← read_exactly 1
    require (equal_bytes command (1 ∷ [])) protocol
    port ← read_exactly 2
    ip ← read_exactly 4
    userid ← read_before 0
    user ← ask_table asked
    login ← socks4_login granted userid user users
    write ((0 ∷ 90 ∷ port) ++ ip)
    host_name ← or_raise value_error (text.inet_ntoa ip)
    pure (login, host_name, from_big port)

  -- `Socks4.connect`, at the address that `getaddrinfo` found.
  unfoldable pub socks4_connect : Bytes → H → ℕ → Action (Unit {0})
  socks4_connect rauth found port = do
    ip ← or_raise value_error (text.inet_aton found)
    port_bytes ← or_raise overflow (to_big 2 port)
    write ((4 ∷ 1 ∷ port_bytes) ++ (ip ++ (rauth ++ (0 ∷ []))))
    reply ← read_exactly 2
    require (equal_bytes reply (0 ∷ 90 ∷ [])) protocol
    rest ← read_exactly 6
    pure tt
