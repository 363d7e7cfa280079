-- ===== src/Cipherpy/Salsa20.antt =====
-- `Salsa20_Cipher.core`. The words are Python's integers, as in ChaCha20.
use python_proxy.Base.{
  ℕ, ◌+◌, Option, List, [], ◌∷◌, ◌++◌, bit_xor, ◌==◌, ◌-◌, if◌then◌else◌, length, take, drop,
  replicate, get_or, set, Bytes,
}
use python_proxy.Cipherpy.Keystream.{Blocks, next_byte}
use python_proxy.Cipherpy.ChaCha.{Order, repeated, rol, unpack, pack, sum_words}

abbrev order_of : ℕ → ℕ → ℕ → ℕ → Order
order_of a b c d = record { a = a; b = b; c = c; d = d }

-- `ORDERS_SALSA20`.
abbrev pub orders_salsa20 : List Order
orders_salsa20 = repeated 10 (
    order_of 4 0 12 8
    ∷ order_of 9 5 1 13
    ∷ order_of 14 10 6 2
    ∷ order_of 3 15 11 7
    ∷ order_of 1 0 3 2
    ∷ order_of 6 5 4 7
    ∷ order_of 11 10 9 8
    ∷ order_of 12 15 14 13
    ∷ [])

-- `H[i] ^= ROL(H[j]+H[k], n)`.
unfoldable pub mix_word : ℕ → ℕ → ℕ → ℕ → List ℕ → List ℕ
mix_word i j k n h = set h i (bit_xor (get_or h i 0) (rol (get_or h j 0 + get_or h k 0) n))

unfoldable pub salsa_quarter : Order → List ℕ → List ℕ
unfolding mix_word
salsa_quarter o h =
    mix_word o.b o.c o.d 18
      (mix_word o.c o.d o.a 13 (mix_word o.d o.a o.b 9 (mix_word o.a o.b o.c 7 h)))

unfoldable pub salsa_quarters : List Order → List ℕ → List ℕ
unfolding salsa_quarter
salsa_quarters [] h = h
salsa_quarters (o ∷ os) h = salsa_quarters os (salsa_quarter o h)

-- One round of the `while`: a block, and `data` for the next one.
unfoldable pub salsa_refill : List ℕ → Bytes × List ℕ
unfolding salsa_quarters
salsa_refill words = (
  pack (sum_words (salsa_quarters orders_salsa20 words) words),
  if get_or words 8 0 == 0xffffffff
      then set (set words 8 0) 9 (get_or words 9 0 + 1)
      else set words 8 (get_or words 8 0 + 1),
)

abbrev pub left_justified : Bytes → Bytes
left_justified iv = iv ++ replicate (16 - length iv) 0

-- `data` at the start.
unfoldable pub salsa_start : Bytes → Bytes → Option (List ℕ)
salsa_start key iv = unpack 16 (
    (b'e' ∷ b'x' ∷ b'p' ∷ b'a' ∷ take 16 key)
    ++ ((b'n' ∷ b'd' ∷ b' ' ∷ b'3' ∷ left_justified iv)
        ++ ((b'2' ∷ b'-' ∷ b'b' ∷ b'y' ∷ drop 16 key) ++ (b't' ∷ b'e' ∷ b' ' ∷ b'k' ∷ []))))

unfoldable pub salsa_next : Blocks (List ℕ) → ℕ × Blocks (List ℕ)
unfolding salsa_refill
salsa_next s = next_byte salsa_refill s
