-- ===== src/Protocols/Conn.antt =====
-- One connection as a handshake sees it: pproxy/transport/streams.py over asyncio's streams, the
-- exceptions of pproxy/errors.py, and `require`. An action returns the connection after a raise too.
pub mod Laws
pub mod Keeps
pub mod Reads
use python_proxy.Base.{
  ℕ, ◌<◌, Bool, true, false, Option, none, some, List, [], ◌∷◌, ◌++◌, ◌==◌, leb, if◌then◌else◌,
  length, take, drop, Bytes, min,
}
use python_proxy.Server.Auth.{AuthTable}

-- `closed` is ConnectionClosed, `protocol` ProtocolError, `authentication` AuthenticationError.
-- `incomplete` is IncompleteReadError, and the time-out of a peer that sends nothing more.
pub data Error : Type 0 where
  closed protocol authentication incomplete index_error key_error value_error overflow : Error

pub data Result (A : Type 0) : Type 0 where
  ok : A → Result A
  err : Error → Result A

-- What `guess` gives, and what the table keeps: `None` or `False`, `True`, and a name.
pub data User : Type 0 where
  nobody anyone : User
  named : Bytes → User

-- `if user`.
abbrev pub truthy : User → Bool
truthy nobody = false
truthy anyone = true
truthy (named []) = false
truthy (named (b ∷ bytes)) = true

-- What the peer has sent and will send and nobody has read yet, what was written to it, and the
-- table of the users behind its address.
pub record Conn : Type 0 where
  pub input : Bytes
  pub output : Bytes
  pub table : AuthTable User

abbrev pub conn : Bytes → Bytes → AuthTable User → Conn
conn input output table = record { input = input; output = output; table = table }

abbrev pub Action : Type 0 → Type 0
Action A = Conn → Result A × Conn

infixl 5 ◌>>=◌ ◌>>◌
module _ {A B : Type 0} where
  abbrev pub continue : (A → Action B) → Result A × Conn → Result B × Conn
  continue f (ok a, c) = f a c
  continue f (err e, c) = (err e, c)

  abbrev pub ◌>>=◌ : Action A → (A → Action B) → Action B
  ◌>>=◌ m f c = continue f (m c)

  abbrev pub ◌>>◌ : Action A → Action B → Action B
  ◌>>◌ m k c = continue (λ a. k) (m c)

module _ {A : Type 0} where
  abbrev pub pure : A → Action A
  pure a c = (ok a, c)

  abbrev pub raise : Error → Action A
  raise e c = (err e, c)

  abbrev pub or_raise : Error → Option A → Action A
  or_raise e none = raise e
  or_raise e (some a) = pure a

abbrev pub require : Bool → Error → Action (Unit {0})
require true e = pure tt
require false e = raise e

abbrev pub write : Bytes → Action (Unit {0})
write bytes c = (ok tt, record c { output = c.output ++ bytes })

-- `transport.read_exactly`. What has come before the end of the stream is dropped by asyncio.
unfoldable pub read_exactly : ℕ → Action Bytes
read_exactly n c =
    if leb n (length c.input)
    then (ok (take n c.input), record c { input = drop n c.input })
    else (err incomplete, record c { input = [] })

-- `transport.read`: of the bytes that have arrived, and that is any number of them, `size` at most.
unfoldable pub read : ℕ → ℕ → Action Bytes
read arrived size c =
    (ok (take (min arrived size) c.input), record c { input = drop (min arrived size) c.input })

-- `transport.rollback`, and `transport.prepend`, which does nothing with no bytes.
abbrev pub rollback : Bytes → Action (Unit {0})
rollback bytes c = (ok tt, record c { input = bytes ++ c.input })

-- `transport.read_until` at one byte: what stands before the byte, and what behind it.
abbrev pub split_cons : ℕ → Option (Bytes × Bytes) → Option (Bytes × Bytes)
split_cons b none = none
split_cons b (some (front, rest)) = some (b ∷ front, rest)

unfoldable pub split_until : ℕ → Bytes → Option (Bytes × Bytes)
split_until mark [] = none
split_until mark (b ∷ bytes) =
    let rest = split_until mark bytes in if b == mark then some ([], bytes) else split_cons b rest

abbrev pub until_end : Option (Bytes × Bytes) → Action Bytes
until_end none c = (err incomplete, c)
until_end (some (front, rest)) c = (ok front, record c { input = rest })

-- `(await transport.read_until(reader, bytes([mark])))[:-1]`.
unfoldable pub read_before : ℕ → Action Bytes
unfolding split_until
read_before mark c = until_end (split_until mark c.input) c

-- `value[0]`.
abbrev pub first : Bytes → Action ℕ
first [] = raise index_error
first (b ∷ bytes) = pure b

-- `(await transport.read_exactly(reader, 1))[0]`.
unfoldable pub read_byte : Action ℕ
unfolding read_exactly
read_byte = read_exactly 1 >>= first
