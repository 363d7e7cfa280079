-- ===== src/Cipherpy/Keystream.antt =====
-- `StreamCipher`: a generator of key bytes, and `encrypt`, which is `decrypt` too.
pub mod Laws
use python_proxy.Base.{ℕ, [], ◌∷◌, bit_xor, Bytes}

-- `next(self.stream)`, on the state of a generator.
module _ {S : Type 0} (next : S → ℕ × S) where
  -- `encrypt`: the bytes, and the state of the generator behind them.
  unfoldable pub stream_encrypt : Bytes → S → Bytes × S
  stream_encrypt [] s = ([], s)
  stream_encrypt (i ∷ bytes) s =
      let rest = stream_encrypt bytes (next s).1 in (bit_xor i (next s).0 ∷ rest.0, rest.1)

-- A generator that yields the bytes of one block after another: the bytes still to come of the
-- block, and the state that the next block is made from. A block is never empty.
pub record Blocks (C : Type 0) : Type 0 where
  pub pending : Bytes
  pub core : C

module _ {C : Type 0} (refill : C → Bytes × C) where
  abbrev pub yield_from : Bytes → C → ℕ × Blocks C
  yield_from [] c = (0, record { pending = []; core = c })
  yield_from (b ∷ bytes) c = (b, record { pending = bytes; core = c })

  abbrev pub next_from : Bytes → C → ℕ × Blocks C
  next_from [] c = yield_from (refill c).0 (refill c).1
  next_from (b ∷ bytes) c = (b, record { pending = bytes; core = c })

  abbrev pub next_byte : Blocks C → ℕ × Blocks C
  next_byte s = next_from s.pending s.core
