-- ===== src/WebSocket/Mask.antt =====
-- `xor_mask_bytes` keeps the length and undoes itself; the bits of the first bytes of a frame.
use python_proxy.Base.{
  ℕ, suc, ◌+◌, ◌%◌, ◌<◌, ◌≡◌, refl, ap, ap₂, Bool, true, false, ◌&&◌, not, some, [], ◌∷◌, bit_and,
  bit_or, ◌==◌, length, get_or, Bytes, arith, bit_xor_cancel, table, table_entry,
}
use python_proxy.WebSocket.Frame.{mask_from, xor_mask_bytes}
use python_proxy.WebSocket.Reader.{unmask, marker, is_set}

length-mask_from : (i : ℕ) (bs key : Bytes) → length (mask_from i bs key) ≡ length bs
unfolding mask_from
length-mask_from i [] key = refl
length-mask_from i (b ∷ bs) key = ap suc (length-mask_from (i + 1) bs key)

mask_from-mask_from : (i : ℕ) (bs key : Bytes) → mask_from i (mask_from i bs key) key ≡ bs
unfolding mask_from
mask_from-mask_from i [] key = refl
mask_from-mask_from i (b ∷ bs) key =
    ap₂ ◌∷◌ (bit_xor_cancel b (get_or key (i % 4) 0)) (mask_from-mask_from (i + 1) bs key)

pub length-xor_mask_bytes : (bs key : Bytes) → length (xor_mask_bytes bs key) ≡ length bs
unfolding xor_mask_bytes
length-xor_mask_bytes bs key = length-mask_from 0 bs key

-- Masking a payload twice with one key gives the payload back, whatever the key.
pub xor_mask_bytes_twice : (bs key : Bytes) → xor_mask_bytes (xor_mask_bytes bs key) key ≡ bs
unfolding xor_mask_bytes
xor_mask_bytes_twice bs key = mask_from-mask_from 0 bs key

pub unmask-xor_mask_bytes :
    (bs key : Bytes) → 0 < length key → unmask (some key) (xor_mask_bytes bs key) ≡ bs
unfolding unmask
unmask-xor_mask_bytes bs [] h = absurd (omega arith)
unmask-xor_mask_bytes bs (k ∷ ks) h = xor_mask_bytes_twice bs (k ∷ ks)

-- The bits of a second byte below 128, with and without the mask flag.
abbrev second_bits : ℕ → Bool
second_bits n =
    (bit_and (bit_or n 0x80) 0x7f == n)
    && is_set (bit_or n 0x80) 0x80
    && (bit_and n 0x7f == n)
    && not (is_set n 0x80)

second_table : table second_bits 0 128 ≡ true
unfolding table
second_table = refl

pub marker_masked : (n : ℕ) → n < 128 → marker (bit_or n 0x80) ≡ n
marker_masked n h = ground (arith, table_entry second_bits 128 n second_table h)

pub marker_plain : (n : ℕ) → n < 128 → marker n ≡ n
marker_plain n h = ground (arith, table_entry second_bits 128 n second_table h)

pub flag_masked : (n : ℕ) → n < 128 → is_set (bit_or n 0x80) 0x80 ≡ true
flag_masked n h = ground (arith, table_entry second_bits 128 n second_table h)

pub flag_plain : (n : ℕ) → n < 128 → is_set n 0x80 ≡ false
flag_plain n h = ground (arith, table_entry second_bits 128 n second_table h)
