-- ===== src/Cipher/Aead.antt =====
-- pproxy/cipher.py: the stream side of `AEADCipher`: `nonce`, `encrypt` and `decrypt`. The cipher of
-- the crypto library is the parameter `Backend`; whatever exception it raises is `none`.
pub mod Nonce
pub mod Chunks
pub mod Decrypt
pub mod RoundTrip
use python_proxy.Base.{
  ℕ, zero, suc, ◌+◌, ◌-◌, ◌*◌, ◌^◌, ◌≡◌, ◌≤◌, Option, none, some, [], ◌∷◌, ◌++◌, bit_and, ltb, leb,
  if◌then◌else◌, length, take, drop, from_big, big, to_little, Bytes, IsBytes,
}
use python_proxy.Stream.Decoder.{Round, wait, again, fail, Outcome, returned, Decoder, feed}

pub record Backend : Type 0 where
  pub nonce_length : ℕ
  pub tag_length : ℕ
  -- `encrypt_and_digest` and `decrypt_and_verify` at a nonce
  pub seal : Bytes → Bytes → Option (Bytes × Bytes)
  pub unseal : Bytes → Bytes → Bytes → Option Bytes

-- `PACKET_LIMIT`.
abbrev pub packet_limit : ℕ
packet_limit = 16 * 1024 - 1

abbrev pub chunk_of : Option (Bytes × Bytes) → Bytes
chunk_of none = []
chunk_of (some (chunk, tag)) = chunk

abbrev pub tag_of : Option (Bytes × Bytes) → Bytes
tag_of none = []
tag_of (some (chunk, tag)) = tag

-- A sealed text has the length of the text, its tag has the tag's length, and both are accepted at
-- the nonce that they were made with.
pub record IsSealed (b : Backend) (nonce text : Bytes) : Type 0 where
  pub succeeds : b.seal nonce text ≡ some (chunk_of (b.seal nonce text), tag_of (b.seal nonce text))
  pub text_length : length (chunk_of (b.seal nonce text)) ≡ length text
  pub tags : length (tag_of (b.seal nonce text)) ≡ b.tag_length
  pub opens : b.unseal nonce (chunk_of (b.seal nonce text)) (tag_of (b.seal nonce text)) ≡ some text

-- What a backend documents: at a nonce of its length, every text of a packet is sealed.
pub record IsBackend (b : Backend) : Type 0 where
  pub seals :
      (nonce text : Bytes)
      → length nonce ≡ b.nonce_length
      → IsBytes nonce
      → length text ≤ packet_limit
      → IsSealed b nonce text

-- The property `nonce`: the bytes, or an OverflowError, and the counter that is left.
abbrev pub nonce_bytes : ℕ → ℕ → Option Bytes
nonce_bytes nonce_length counter = to_little nonce_length counter

unfoldable pub next_counter : ℕ → ℕ → ℕ
next_counter nonce_length counter = bit_and (counter + 1) (2 ^ nonce_length - 1)

-- `_nonce`, `_buffer`, `_declen`, and the local `ret` of `decrypt`.
pub record AeadStream : Type 0 where
  pub counter : ℕ
  pub buffer : Bytes
  pub declen : Option ℕ
  pub ret : Bytes

-- `ProtocolError('invalid AEAD packet')`.
pub data AeadError : Type 0 where
  invalid_packet : AeadError

-- The handler of every exception in `decrypt`.
abbrev pub discard : AeadStream → Round AeadStream AeadError
discard s = fail invalid_packet (record s { buffer = []; declen = none })

module _ (b : Backend) where
  open b use {nonce_length, tag_length, seal, unseal}

  abbrev pub advance : AeadStream → AeadStream
  advance s = record s { counter = next_counter nonce_length s.counter }

  abbrev pub unseal_at : Option Bytes → Bytes → Bytes → Option Bytes
  unseal_at none chunk tag = none
  unseal_at (some nonce) chunk tag = unseal nonce chunk tag

  -- `decrypt_and_verify` on the first `n` bytes of the buffer and the tag behind them.
  unfoldable pub open_front : ℕ → AeadStream → Option Bytes
  open_front n s =
      unseal_at (nonce_bytes nonce_length s.counter) (take n s.buffer)
        (take tag_length (drop n s.buffer))

  abbrev pub moved : Option Bytes → AeadStream → AeadStream
  moved none s = s
  moved (some nonce) s = advance s

  -- If drawing the nonce raised, the counter stays; else it moves on, also if the packet is
  -- refused.
  unfoldable pub drawn : AeadStream → AeadStream
  drawn s = moved (nonce_bytes nonce_length s.counter) s

  abbrev pub length_opened : AeadStream → Option Bytes → Round AeadStream AeadError
  length_opened s none = discard (drawn s)
  length_opened s (some field) =
      if leb (from_big field) packet_limit
      then again (record (drawn s) {
        declen = some (from_big field);
        buffer = drop (2 + tag_length) s.buffer;
      })
      else discard (drawn s)

  abbrev pub body_opened : ℕ → AeadStream → Option Bytes → Round AeadStream AeadError
  body_opened n s none = discard (drawn s)
  body_opened n s (some text) = again (record (drawn s) {
    declen = none;
    buffer = drop (n + tag_length) s.buffer;
    ret = s.ret ++ text;
  })

  abbrev pub step_at : Option ℕ → AeadStream → Round AeadStream AeadError
  step_at none s =
      if ltb (length s.buffer) (2 + tag_length) then wait s else length_opened s (open_front 2 s)
  step_at (some n) s =
      if ltb (length s.buffer) (n + tag_length) then wait s else body_opened n s (open_front n s)

  -- One round of the `while 1` of `decrypt`.
  unfoldable pub step : AeadStream → Round AeadStream AeadError
  step s = step_at s.declen s

  abbrev pub reader : Decoder AeadStream AeadError
  reader = record {
    step = step;
    extend = λ s bytes. record s { buffer = s.buffer ++ bytes };
    size = λ s. 2 * length s.buffer + (elim s.declen [ none ↦ 0 | some n ↦ 1 ]);
  }

  -- `decrypt`: what it returns is the field `ret` of the state in which it returns.
  unfoldable pub decrypt : AeadStream → Bytes → Outcome AeadStream AeadError
  decrypt s bytes = feed reader (record s { ret = [] }) bytes

  abbrev pub joined : Option (Bytes × Bytes) → ℕ → Option (Bytes × ℕ)
  joined none counter = none
  joined (some (chunk, tag)) counter = some (chunk ++ tag, next_counter nonce_length counter)

  abbrev pub seal_at : Option Bytes → Bytes → ℕ → Option (Bytes × ℕ)
  seal_at none text counter = none
  seal_at (some nonce) text counter = joined (seal nonce text) counter

  -- `encrypt_and_digest` with the next nonce: the chunk and its tag, and the counter.
  unfoldable pub seal_next : ℕ → Bytes → Option (Bytes × ℕ)
  seal_next counter text = seal_at (nonce_bytes nonce_length counter) text counter

  -- What comes behind bytes that are there already.
  abbrev pub behind : Bytes → Option (Bytes × ℕ) → Option (Bytes × ℕ)
  behind head none = none
  behind head (some (rest, counter)) = some (head ++ rest, counter)

  abbrev pub then_seal : Bytes → Option (Bytes × ℕ) → Option (Bytes × ℕ)
  then_seal body none = none
  then_seal body (some (head, counter)) = behind head (seal_next counter body)

  -- One round of the `for` of `encrypt`: a packet of a length field and a body.
  unfoldable pub seal_packet : ℕ → Bytes → Option (Bytes × ℕ)
  seal_packet counter body = then_seal body (seal_next counter (big 2 (length body)))

  abbrev pub then_packets : (ℕ → Option (Bytes × ℕ)) → Option (Bytes × ℕ) → Option (Bytes × ℕ)
  then_packets go none = none
  then_packets go (some (packet, counter)) = behind packet (go counter)

  -- The `for` over the rest of the data, with fuel.
  unfoldable pub seal_packets : ℕ → Bytes → ℕ → Option (Bytes × ℕ)
  seal_packets fuel [] counter = some ([], counter)
  seal_packets zero (x ∷ xs) counter = none
  seal_packets (suc fuel) (x ∷ xs) counter =
      then_packets (seal_packets fuel (drop packet_limit (x ∷ xs)))
        (seal_packet counter (take packet_limit (x ∷ xs)))

  -- `encrypt`.
  unfoldable pub encrypt : ℕ → Bytes → Option (Bytes × ℕ)
  unfolding seal_packets
  encrypt counter text = seal_packets (length text) text counter
