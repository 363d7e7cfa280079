-- ===== src/Cipherpy/Feedback.antt =====
-- `CFBCipher` in bytes, `CTRCipher` and `OFBCipher`, over the block primitive `encrypt`.
pub mod Laws
use python_proxy.Base.{
  ℕ, ◌+◌, ◌-◌, ◌*◌, ◌^◌, Bool, true, false, Option, none, some, List, [], ◌∷◌, ◌++◌, bit_xor, leb,
  if◌then◌else◌, take, drop, Bytes,
}

-- The generator `core`: its `next_iv`, what is left of the segment, and whether it has started.
pub record Feedback : Type 0 where
  pub next_iv : Bytes
  pub segment : Bytes
  pub started : Bool

-- A segment is as the classes of the program have it: one byte, or as many as `encrypt` gives. Of a
-- segment of none, or of more than a block, the source makes an endless loop or an IndexError.
module _ (encrypt : Bytes → Bytes) (segment_byte : ℕ) where
  abbrev pub yield_segment : Bytes → Bytes → ℕ × Feedback
  yield_segment next_iv [] = (0, record { next_iv = next_iv; segment = []; started = true })
  yield_segment next_iv (k ∷ ks) = (k, record { next_iv = next_iv; segment = ks; started = true })

  -- The top of the `while`: a segment is made of the old `next_iv`.
  abbrev pub new_segment : Bytes → ℕ × Feedback
  new_segment next_iv =
      yield_segment (drop segment_byte next_iv) (take segment_byte (encrypt next_iv))

  abbrev pub resume : Bytes → Bytes → ℕ × Feedback
  resume next_iv [] = new_segment next_iv
  resume next_iv (k ∷ ks) = yield_segment next_iv (k ∷ ks)

  -- What was sent is appended where the generator stands.
  abbrev pub sent : Bytes → Option ℕ → Bytes
  sent next_iv none = next_iv
  sent next_iv (some last) = next_iv ++ last ∷ []

  -- `self.stream.send(self.last)`.
  unfoldable pub send : Option ℕ → Feedback → ℕ × Feedback
  send last s = if s.started then resume (sent s.next_iv last) s.segment else new_segment s.next_iv

  pub record Cfb : Type 0 where
    pub stream : Feedback
    pub last : Option ℕ

  -- `setup`.
  abbrev pub cfb_start : Bytes → Cfb
  cfb_start iv = record {
    stream = record { next_iv = iv; segment = []; started = false };
    last = none;
  }

  -- `process`, where `inv` holds for decryption.
  unfoldable pub cfb_process : Bool → Bytes → Cfb → Bytes × Cfb
  cfb_process inv [] s = ([], s)
  cfb_process inv (i ∷ bytes) s =
      let k = send s.last s.stream in
      let j = bit_xor i k.0 in
      let rest =
        cfb_process inv bytes (record { stream = k.1; last = some (if inv then i else j) }) in
      (j ∷ rest.0, rest.1)

-- The counter of CTR mode, of IV_LENGTH bytes, and the data of OFB mode: a block, and what the next
-- block is made from.
unfoldable pub ctr_refill : (ℕ → Bytes) → ℕ → ℕ → Bytes × ℕ
ctr_refill encrypt iv_length next_iv =
    (encrypt next_iv, if leb (2 ^ (iv_length * 8) - 1) next_iv then 0 else next_iv + 1)

unfoldable pub ofb_refill : (Bytes → Bytes) → Bytes → Bytes × Bytes
ofb_refill encrypt block = (encrypt block, encrypt block)
