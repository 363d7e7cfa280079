-- ===== src/Cipherpy/Gcm/Bounds.antt =====
-- The numbers of GCM stay below 2 ^ 128.
use python_proxy.Base.{
  ℕ, zero, suc, ◌+◌, ◌*◌, ◌/◌, ◌^◌, ◌<◌, Bool, true, false, List, [], ◌∷◌, bit_and, bit_xor,
  bit_xor-lt, ◌==◌, if◌then◌else◌, All, Bytes, arith,
}
use python_proxy.Cipherpy.Gcm.{halved, key_table, multh_from, multh, ghash}

abbrev pub Word : ℕ → Type 0
Word x = x < 2 ^ 128

choose-Word : (b : Bool) (x y : ℕ) → Word x → Word y → Word (if b then x else y)
choose-Word true x y p q = p
choose-Word false x y p q = q

halved-Word : (x : ℕ) → Word x → Word (halved x)
unfolding halved
halved-Word x h =
    choose-Word (bit_and x 1 == 0) (x / 2) (bit_xor (x / 2) (0xe1 * 2 ^ 120)) (omega arith)
      (bit_xor-lt 128 (x / 2) (0xe1 * 2 ^ 120) (omega arith) (omega arith))

pub key_table-Word :
    (n x : ℕ) (hkey : List ℕ) → Word x → All Word hkey → All Word (key_table n x hkey)
unfolding key_table
key_table-Word zero x hkey h k = k
key_table-Word (suc n) x hkey h k = key_table-Word n (halved x) (x ∷ hkey) (halved-Word x h) (h, k)

multh_from-Word :
    (i : ℕ) (hkey : List ℕ) (y z : ℕ) → All Word hkey → Word z → Word (multh_from i hkey y z)
unfolding multh_from
multh_from-Word i [] y z h k = k
multh_from-Word i (x ∷ hs) y z h k =
    multh_from-Word (i + 1) hs y _ h.1
      (choose-Word (bit_and y (2 ^ i) == 0) z (bit_xor z x) k (bit_xor-lt 128 z x k h.0))

pub ghash-Word : (hkey : List ℕ) (d : Bytes) → All Word hkey → Word (ghash hkey d)
unfolding ghash multh
ghash-Word hkey d h = multh_from-Word 0 hkey _ 0 h (omega arith)
