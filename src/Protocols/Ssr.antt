-- ===== src/Protocols/Ssr.antt =====
-- pproxy/protocols/socks.py: `SSR`.
pub mod RoundTrip
use python_proxy.Base.{
  ℕ, ◌+◌, Bool, Option, none, some, List, [], ◌∷◌, ◌++◌, ◌==◌, ◌||◌, ltb, if◌then◌else◌, length,
  Bytes,
}
use python_proxy.Protocols.Conn.{
  User, nobody, anyone, named, overflow, Action, ◌>>=◌, ◌>>◌, pure, or_raise, first, write, read,
  read_exactly, read_byte, rollback,
}
use python_proxy.Protocols.Address.{Text, target, socks_address_stream}
use python_proxy.Protocols.Users.{first_user, starts, has_byte}

-- `max(len(item) for item in users)`.
unfoldable pub longest : List Bytes → ℕ
longest [] = 0
longest (user ∷ users) = if ltb (longest users) (length user) then length user else longest users

abbrev pub consume : Option Bytes → Action User
consume none = pure nobody
consume (some user) = read_exactly (length user) >> pure (named user)

abbrev pub known_headers : Bytes
known_headers = 1 ∷ 3 ∷ 4 ∷ 17 ∷ 19 ∷ 20 ∷ []

abbrev pub is_header : ℕ → User
is_header n = if has_byte n known_headers then anyone else nobody

abbrev pub ssr_guess_user : List Bytes → Bytes → Action User
ssr_guess_user [] header = do n ← first header; pure (is_header n)
ssr_guess_user (u ∷ users) header = consume (first_user (starts header) (u ∷ users))

abbrev pub header_size : List Bytes → ℕ
header_size [] = 1
header_size (u ∷ users) = longest (u ∷ users)

-- `SSR.guess`.
unfoldable pub ssr_guess : ℕ → List Bytes → Action User
unfolding longest
ssr_guess arrived users =
    read arrived (header_size users) >>= λ header. rollback header >> ssr_guess_user users header

module _ {H : Type 0} (text : Text H) where
  -- `SSR.accept`.
  unfoldable pub ssr_accept : User → Action (User × H × ℕ)
  ssr_accept user = do
    n ← read_byte
    address ← socks_address_stream text n
    pure (user, address.0, address.1)

  -- `SSR.connect`.
  unfoldable pub ssr_connect : Bytes → H → ℕ → Action (Unit {0})
  ssr_connect rauth host_name port = do
    request ← or_raise overflow (target text host_name port)
    write (rauth ++ (3 ∷ request))
