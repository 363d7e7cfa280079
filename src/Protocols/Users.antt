-- ===== src/Protocols/Users.antt =====
-- Tests on the configured users and on bytes, as the protocols write them.
pub mod Laws
pub mod Signed
use python_proxy.Base.{
  ℕ, Bool, true, false, Option, none, some, List, [], ◌∷◌, ◌==◌, ◌||◌, ltb, if◌then◌else◌, length,
  take, Bytes,
}
use python_proxy.Cipherpy.Process.{equal_bytes}
use python_proxy.Protocols.Conn.{
  User, named, nobody, Error, Action, Conn, ok, err, key_error, pure, raise,
}
use python_proxy.Server.Auth.{Authed, known_user, no_user, authed, set_authed}
use python_proxy.Server.Auth as Auth

abbrev pub nonempty {ℓ} : {A : Type ℓ} → List A → Bool
nonempty [] = false
nonempty (x ∷ xs) = true

-- `value in users`.
unfoldable pub is_among : Bytes → List Bytes → Bool
is_among value [] = false
is_among value (user ∷ users) = equal_bytes value user || is_among value users

-- `byte in methods`.
unfoldable pub has_byte : ℕ → Bytes → Bool
has_byte b [] = false
has_byte b (x ∷ xs) = x == b || has_byte b xs

-- `next(filter(test, users), None)`.
unfoldable pub first_user : (Bytes → Bool) → List Bytes → Option Bytes
first_user test [] = none
first_user test (user ∷ users) = if test user then some user else first_user test users

-- `item == header[:len(item)]`.
abbrev pub starts : Bytes → Bytes → Bool
starts header item = equal_bytes item (take (length item) header)

-- `authtable.authed()` and `authtable.set_authed(user)` at a time.
abbrev pub answer : Authed User → Action User
answer (known_user user) = pure user
answer no_user = pure nobody
answer Auth.key_error = raise key_error

abbrev pub ask_table : ℕ → Action User
ask_table now c = answer (authed now c.table) c

abbrev pub sign_in : ℕ → User → Action (Unit {0})
sign_in now user c = (ok tt, record c { table = set_authed now user c.table })

-- `if users: authtable.set_authed(user)`.
abbrev pub sign_in_if : Bool → ℕ → User → Action (Unit {0})
sign_in_if true now user = sign_in now user
sign_in_if false now user = pure tt
