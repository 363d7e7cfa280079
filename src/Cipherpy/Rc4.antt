-- ===== src/Cipherpy/Rc4.antt =====
-- `RC4_Cipher.core`: the key schedule and the generator. A key has KEY_LENGTH bytes.
pub mod Permutation
use python_proxy.Base.{ℕ, zero, suc, ◌+◌, ◌%◌, List, [], ◌∷◌, bit_and, get_or, set, Bytes}

-- `data[x], data[y] = data[y], data[x]`.
unfoldable pub swap : List ℕ → ℕ → ℕ → List ℕ
swap table x y = set (set table x (get_or table y 0)) y (get_or table x 0)

-- `list(range(...))`.
unfoldable pub range_from : ℕ → ℕ → List ℕ
range_from start zero = []
range_from start (suc count) = start ∷ range_from (suc start) count

-- The `for` of the key schedule, from `x` on.
unfoldable pub key_schedule : Bytes → ℕ → ℕ → ℕ → List ℕ → List ℕ
key_schedule key zero x y table = table
key_schedule key (suc count) x y table =
    let y' = bit_and (get_or key (x % 16) 0 + get_or table x 0 + y) 0xff in
    key_schedule key count (x + 1) y' (swap table x y')

pub record Rc4 : Type 0 where
  pub table : List ℕ
  pub x : ℕ
  pub y : ℕ

unfoldable pub rc4_start : Bytes → Rc4
rc4_start key = record { table = key_schedule key 256 0 0 (range_from 0 256); x = 0; y = 0 }

-- One round of the `while`, up to its `yield`.
unfoldable pub rc4_next : Rc4 → ℕ × Rc4
rc4_next s =
    let x = bit_and (s.x + 1) 0xff in
    let y = bit_and (s.y + get_or s.table x 0) 0xff in
    let table = swap s.table x y in
    (
      get_or table (bit_and (get_or table x 0 + get_or table y 0) 0xff) 0,
      record { table = table; x = x; y = y },
    )
