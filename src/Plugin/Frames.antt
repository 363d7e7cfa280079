-- ===== src/Plugin/Frames.antt =====
-- What the framings share: the closure `decrypt` over `self.buf`, and the pieces of `encrypt`.
pub mod Laws
use python_proxy.Base.{
  ℕ, zero, suc, ◌+◌, ◌-◌, ◌<◌, Bool, true, false, Option, none, some, List, [], ◌∷◌, ◌++◌, ltb, min,
  if◌then◌else◌, length, take, drop, Bytes,
}
use python_proxy.Protocols.Conn.{Error}
use python_proxy.Stream.Decoder.{Round, Decoder}

-- `self.buf`, and `ret`, what the call has decoded so far.
pub record Framed : Type 0 where
  pub buf : Bytes
  pub ret : Bytes

abbrev pub framed : Bytes → Bytes → Framed
framed buf ret = record { buf = buf; ret = ret }

abbrev pub decoder : (Framed → Round Framed Error) → Decoder Framed Error
decoder step = record {
  step = step;
  extend = λ s bytes. framed (s.buf ++ bytes) s.ret;
  size = λ s. length s.buf;
}

-- The pieces of `encrypt`: `while len(s) > limit` one of the size that is drawn, and what is left,
-- unless that is nothing. `sizes` gives the size of each, and the fuel is the length of the text.
abbrev pub last_piece : Bytes → List Bytes
last_piece [] = []
last_piece (b ∷ bytes) = (b ∷ bytes) ∷ []

unfoldable pub pieces : ℕ → (ℕ → ℕ) → ℕ → ℕ → Bytes → List Bytes
pieces limit sizes i zero s = last_piece s
pieces limit sizes i (suc fuel) s =
    let rest = pieces limit sizes (suc i) fuel (drop (sizes i) s) in
    if ltb limit (length s) then take (sizes i) s ∷ rest else last_piece s

-- Each piece is packed, with what is random in the i-th packet: `none` is OverflowError.
abbrev pub joined_packets : Option Bytes → Option Bytes → Option Bytes
joined_packets none q = none
joined_packets (some p) none = none
joined_packets (some p) (some q) = some (p ++ q)

unfoldable pub pack_each : (ℕ → Bytes → Option Bytes) → ℕ → List Bytes → Option Bytes
pack_each pack i [] = some []
pack_each pack i (piece ∷ rest) = joined_packets (pack i piece) (pack_each pack (suc i) rest)
