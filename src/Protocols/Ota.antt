-- ===== src/Protocols/Ota.antt =====
-- pproxy/protocols/socks.py: `SS.patch_ota_reader` and `SS.patch_ota_writer`. `mac` is
-- `hmac.new(key, text, hashlib.sha1).digest()`.
pub mod Laws
pub mod RoundTrip
use python_proxy.Base.{
  ℕ, suc, ◌+◌, ◌<◌, Bool, true, false, Option, none, some, List, [], ◌∷◌, ◌++◌, ltb, if◌then◌else◌,
  length, take, drop, Bytes, from_big, to_big,
}
use python_proxy.Cipherpy.Process.{equal_bytes}
use python_proxy.Protocols.Conn.{Error, protocol, overflow, Result, ok, err}
use python_proxy.Stream.Decoder.{Round, wait, again, fail, Decoder}

-- The variables of the closure `decrypt`: `ret` is what the call has decoded so far.
pub record Ota : Type 0 where
  pub chunk_id : ℕ
  pub data_len : Option ℕ
  pub buffer : Bytes
  pub ret : Bytes

abbrev pub ota_start : ℕ → Bytes → Ota
ota_start chunk_id ret = record { chunk_id = chunk_id; data_len = none; buffer = []; ret = ret }

abbrev pub read_length : Ota → Ota
read_length s = record s { data_len = some (from_big (take 2 s.buffer)); buffer = drop 2 s.buffer }

abbrev pub take_chunk : ℕ → Ota → Ota
take_chunk n s = record s {
  chunk_id = suc s.chunk_id;
  data_len = none;
  buffer = drop (10 + n) s.buffer;
  ret = s.ret ++ take n (drop 10 s.buffer);
}

-- What `write` gives to the writer below.
abbrev pub with_length : Bytes → Option Bytes → Option Bytes → Result Bytes
with_length text none size = err overflow
with_length text (some sum) none = err overflow
with_length text (some sum) (some size) = ok (size ++ (sum ++ text))

-- The number is counted up once the checksum is there, also where the length then overflows.
abbrev pub count_up : Option Bytes → ℕ → ℕ
count_up none chunk_id = chunk_id
count_up (some sum) chunk_id = suc chunk_id

abbrev pub before : Bytes → Result Bytes × ℕ → Result Bytes × ℕ
before front (ok bytes, n) = (ok (front ++ bytes), n)
before front (err e, n) = (err e, n)

abbrev pub next_write : (ℕ → Result Bytes × ℕ) → Result Bytes × ℕ → Result Bytes × ℕ
next_write rest (ok bytes, n) = before bytes (rest n)
next_write rest (err e, n) = (err e, n)

module _ (mac : Bytes → Bytes → Bytes) (iv : Bytes) where
  -- The first ten bytes of the digest of a chunk: `none` is OverflowError.
  abbrev pub keyed : Bytes → Option Bytes → Option Bytes
  keyed payload none = none
  keyed payload (some id) = some (take 10 (mac (iv ++ id) payload))

  unfoldable pub checksum : ℕ → Bytes → Option Bytes
  checksum chunk_id payload = keyed payload (to_big 4 chunk_id)

  abbrev pub verify : Option Bytes → ℕ → Ota → Round Ota Error
  verify none n s = fail overflow s
  verify (some expected) n s =
      if equal_bytes (take 10 s.buffer) expected then again (take_chunk n s) else fail protocol s

  abbrev pub ota_chunk : Option ℕ → Ota → Round Ota Error
  ota_chunk none s = if ltb (length s.buffer) 2 then wait s else again (read_length s)
  ota_chunk (some n) s =
      if ltb (length s.buffer) (10 + n)
      then wait s
      else verify (checksum s.chunk_id (take n (drop 10 s.buffer))) n s

  unfoldable pub ota_step : Ota → Round Ota Error
  unfolding checksum
  ota_step s = ota_chunk s.data_len s

  abbrev pub ota_decoder : Decoder Ota Error
  ota_decoder = record {
    step = ota_step;
    extend = λ s bytes. record s { buffer = s.buffer ++ bytes };
    size = λ s. length s.buffer;
  }

  -- `write`: the bytes for the writer below, and the next `chunk_id`.
  unfoldable pub ota_write : Bytes → ℕ → Result Bytes × ℕ
  ota_write [] chunk_id = (ok [], chunk_id)
  ota_write (b ∷ bytes) chunk_id = (
    with_length (b ∷ bytes) (checksum chunk_id (b ∷ bytes)) (to_big 2 (length (b ∷ bytes))),
    count_up (checksum chunk_id (b ∷ bytes)) chunk_id,
  )

  -- Several calls, up to the first that raises.
  unfoldable pub ota_write_each : List Bytes → ℕ → Result Bytes × ℕ
  unfolding ota_write
  ota_write_each [] chunk_id = (ok [], chunk_id)
  ota_write_each (m ∷ ms) chunk_id = next_write (ota_write_each ms) (ota_write m chunk_id)
