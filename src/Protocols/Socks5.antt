-- ===== src/Protocols/Socks5.antt =====
-- pproxy/protocols/socks.py: `Socks5`.
pub mod Authenticated
pub mod Conversation
use python_proxy.Base.{
  ℕ, ◌+◌, Bool, true, false, not, Option, none, some, List, [], ◌∷◌, ◌++◌, ◌==◌, ◌&&◌, ◌||◌,
  if◌then◌else◌, Bytes,
}
use python_proxy.Cipherpy.Process.{equal_bytes}
use python_proxy.Protocols.Conn.{
  User, named, truthy, protocol, authentication, overflow, Action, ◌>>=◌, ◌>>◌, pure, raise,
  or_raise, first, require, write, read_exactly, read_byte,
}
use python_proxy.Protocols.Address.{Text, packstr, joined, target, socks_address_stream}
use python_proxy.Protocols.Users.{nonempty, is_among, has_byte, ask_table, sign_in_if}

-- The name and the password, `u + b':' + p`.
abbrev pub login_name : Bytes → Bytes → Bytes
login_name u p = u ++ (58 ∷ p)

abbrev pub socks5_password : List Bytes → Bytes → Action User
socks5_password users login =
    if is_among login users then write (1 ∷ 0 ∷ []) >> pure (named login) else raise authentication

-- The first branch: the subnegotiation of RFC 1929.
abbrev pub socks5_negotiate : List Bytes → Action User
socks5_negotiate users = do
  write (5 ∷ 2 ∷ [])
  version ← read_byte
  require (version == 1) protocol
  u_size ← read_byte
  u ← read_exactly u_size
  p_size ← read_byte
  p ← read_exactly p_size
  socks5_password users (login_name u p)

unfoldable pub socks5_login : List Bytes → User → Bytes → Action User
socks5_login users user methods =
    if nonempty users && (not (truthy user) || not (has_byte 0 methods))
    then if has_byte 2 methods then socks5_negotiate users else raise authentication
    else if nonempty users && not (truthy user)
    then raise authentication
    else write (5 ∷ 0 ∷ []) >> pure user

-- `rauth.split(b':', 1)`.
abbrev pub split_cons : ℕ → Bytes × List Bytes → Bytes × List Bytes
split_cons b (item, items) = (b ∷ item, items)

unfoldable pub split_once : Bytes → Bytes × List Bytes
split_once [] = ([], [])
split_once (b ∷ bytes) =
    let rest = split_once bytes in if b == 58 then ([], bytes ∷ []) else split_cons b rest

-- `b''.join(packstr(item) for item in ...)`.
unfoldable pub join_packed : List Bytes → Option Bytes
join_packed [] = some []
join_packed (item ∷ items) = joined (packstr 1 item) (join_packed items)

abbrev pub list_of : Bytes × List Bytes → List Bytes
list_of (item, items) = item ∷ items

unfoldable pub socks5_authenticate : Bytes → Action (Unit {0})
socks5_authenticate [] = do
  write (5 ∷ 1 ∷ 0 ∷ [])
  reply ← read_exactly 2
  require (equal_bytes reply (5 ∷ 0 ∷ [])) protocol
socks5_authenticate (b ∷ rauth) = do
  write (5 ∷ 1 ∷ 2 ∷ [])
  reply ← read_exactly 2
  require (equal_bytes reply (5 ∷ 2 ∷ [])) protocol
  items ← or_raise overflow (join_packed (list_of (split_once (b ∷ rauth))))
  write (1 ∷ items)
  answer ← read_exactly 2
  require (equal_bytes answer (1 ∷ 0 ∷ [])) protocol

-- The bytes behind the header of the reply.
abbrev pub rest_size : ℕ → Action ℕ
rest_size n =
    if n == 1 then pure 6 else if n == 4 then pure 18 else (read_byte >>= λ size. pure (size + 2))

module _ {H : Type 0} (text : Text H) where
  -- `Socks5.accept`, behind the byte that `guess` took.
  abbrev pub socks5_request : User → Action (User × H × ℕ)
  socks5_request login = do
    request ← read_exactly 3
    require (equal_bytes request (5 ∷ 1 ∷ 0 ∷ [])) protocol
    header ← read_exactly 1
    n ← first header
    address ← socks_address_stream text n
    write ((5 ∷ 0 ∷ 0 ∷ header) ++ address.2)
    pure (login, address.0, address.1)

  unfoldable pub socks5_accept : ℕ → ℕ → List Bytes → Action (User × H × ℕ)
  socks5_accept asked granted users = do
    size ← read_byte
    methods ← read_exactly size
    user ← ask_table asked
    login ← socks5_login users user methods
    sign_in_if (nonempty users) granted login
    socks5_request login

  -- `Socks5.connect`.
  unfoldable pub socks5_connect : Bytes → H → ℕ → Action (Unit {0})
  socks5_connect rauth host_name port = do
    socks5_authenticate rauth
    request ← or_raise overflow (target text host_name port)
    write (5 ∷ 1 ∷ 0 ∷ 3 ∷ request)
    reply ← read_exactly 3
    require (equal_bytes reply (5 ∷ 0 ∷ 0 ∷ [])) protocol
    n ← read_byte
    size ← rest_size n
    rest ← read_exactly size
    pure tt
