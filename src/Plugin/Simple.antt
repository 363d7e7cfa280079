-- ===== src/Plugin/Simple.antt =====
-- pproxy/plugin.py: `Verify_Simple_Plugin`, with the CRC-32 of binascii. `noise i` is `rnd_data` of the
-- i-th packet.
pub mod Laws
use python_proxy.Base.{
  ℕ, zero, suc, ◌+◌, ◌-◌, ◌/◌, ◌%◌, ◌<◌, Bool, Option, none, some, List, [], ◌∷◌, ◌++◌, ◌==◌, ltb,
  if◌then◌else◌, bit_xor, length, take, drop, get_elem?, Bytes, from_big, from_little, little,
  to_big,
}
use python_proxy.Protocols.Conn.{Error, protocol, index_error}
use python_proxy.Stream.Decoder.{Round, wait, again, fail}
use python_proxy.Plugin.Frames.{Framed, framed, pieces, pack_each}

-- `binascii.crc32`: its register is shifted right by one bit at a time.
abbrev pub crc_bits : ℕ → ℕ → ℕ
crc_bits zero c = c
crc_bits (suc n) c = crc_bits n (if c % 2 == 1 then bit_xor (c / 2) 0xedb8_8320 else c / 2)

unfoldable pub crc_register : ℕ → Bytes → ℕ
crc_register c [] = c
crc_register c (b ∷ bytes) = crc_register (crc_bits 8 (bit_xor c b)) bytes

unfoldable pub crc32 : Bytes → ℕ
unfolding crc_register
crc32 bytes = bit_xor (crc_register 0xffff_ffff bytes) 0xffff_ffff

-- `(-1 - binascii.crc32(data)) & 0xffffffff`.
unfoldable pub inverted : Bytes → ℕ
unfolding crc32
inverted bytes = 0xffff_ffff - crc32 bytes

-- Where the slice `[:l-4]` of n bytes ends: below zero it is counted from the end.
abbrev pub slice_end : ℕ → ℕ → ℕ
slice_end l n = if ltb l 4 then n - (4 - l) else l - 4

-- One round of `decrypt`: `del self.buf[:l]` drops nothing where the length field is 0.
abbrev pub take_packet : ℕ → ℕ → ℕ → Framed → Round Framed Error
take_packet l stop skip s =
    if from_little (drop stop (take l s.buf)) == inverted (take stop s.buf)
    then again (framed (drop l s.buf) (s.ret ++ drop (2 + skip) (take stop s.buf)))
    else fail protocol s

abbrev pub verify : ℕ → Option ℕ → Framed → Round Framed Error
verify l none s = fail index_error s
verify l (some skip) s = take_packet l (slice_end l (length s.buf)) skip s

unfoldable pub simple_step : Framed → Round Framed Error
unfolding inverted
simple_step s =
    if ltb (length s.buf) 2
    then wait s
    else let l = from_big (take 2 s.buf) in
      if ltb (length s.buf) l then wait s else verify l (get_elem? s.buf 2) s

-- `pack`.
abbrev pub padded : Bytes → Bytes → Bytes
padded rnd_data s = suc (length rnd_data) ∷ (rnd_data ++ s)

abbrev pub with_crc : Bytes → Bytes
with_crc bytes = bytes ++ little 4 (inverted bytes)

abbrev pub behind_length : Bytes → Option Bytes → Option Bytes
behind_length body none = none
behind_length body (some size) = some (with_crc (size ++ body))

unfoldable pub simple_pack : (ℕ → Bytes) → ℕ → Bytes → Option Bytes
unfolding inverted
simple_pack noise i s =
    behind_length (padded (noise i) s) (to_big 2 (length (padded (noise i) s) + 6))

-- `encrypt`.
unfoldable pub simple_encrypt : (ℕ → Bytes) → Bytes → Option Bytes
unfolding simple_pack
simple_encrypt noise s = pack_each (simple_pack noise) 0 (pieces 8100 (λ i. 8100) 0 (length s) s)
