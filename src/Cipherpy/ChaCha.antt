-- ===== src/Cipherpy/ChaCha.antt =====
-- `ROL`, `ChaCha20_round`, and the generators of `ChaCha20_Cipher` and `XChaCha20_Cipher`. The words
-- of a round are Python's integers: the additions do not wrap.
pub mod Reference
pub mod Counter
pub mod Start
use python_proxy.Base.{
  ℕ, zero, suc, ◌+◌, ◌-◌, ◌*◌, ◌/◌, ◌^◌, Option, none, some, List, [], ◌∷◌, ◌++◌, bit_and, bit_or,
  bit_xor, ◌==◌, if◌then◌else◌, length, take, drop, replicate, get_or, set, from_little, little,
  to_little, Bytes,
}
use python_proxy.Cipherpy.Keystream.{Blocks, next_byte, stream_encrypt}

unfoldable pub rol : ℕ → ℕ → ℕ
rol a b = bit_or (bit_and (a * 2 ^ b) 0xffffffff) (bit_and a 0xffffffff / 2 ^ (32 - b))

pub record Order : Type 0 where
  pub a : ℕ
  pub b : ℕ
  pub c : ℕ
  pub d : ℕ

abbrev order : ℕ → ℕ → ℕ → ℕ → Order
order a b c d = record { a = a; b = b; c = c; d = d }

abbrev pub repeated : ℕ → List Order → List Order
repeated zero xs = []
repeated (suc n) xs = xs ++ repeated n xs

-- `ORDERS_CHACHA20`.
abbrev pub orders_chacha20 : List Order
orders_chacha20 = repeated 10 (
    order 0 4 8 12
    ∷ order 1 5 9 13
    ∷ order 2 6 10 14
    ∷ order 3 7 11 15
    ∷ order 0 5 10 15
    ∷ order 1 6 11 12
    ∷ order 2 7 8 13
    ∷ order 3 4 9 14
    ∷ [])

-- `H[i] += H[j]`, and `H[i] = ROL(H[i]^H[j], n)`.
unfoldable pub add_word : ℕ → ℕ → List ℕ → List ℕ
add_word i j h = set h i (get_or h i 0 + get_or h j 0)

unfoldable pub rotate_word : ℕ → ℕ → ℕ → List ℕ → List ℕ
rotate_word i j n h = set h i (rol (bit_xor (get_or h i 0) (get_or h j 0)) n)

unfoldable pub quarter : Order → List ℕ → List ℕ
quarter o h = rotate_word o.b o.c 7 (
    add_word o.c o.d (
      rotate_word o.d o.a 8 (
        add_word o.a o.b (
          rotate_word o.b o.c 12
            (add_word o.c o.d (rotate_word o.d o.a 16 (add_word o.a o.b h)))))))

unfoldable pub quarters : List Order → List ℕ → List ℕ
quarters [] h = h
quarters (o ∷ os) h = quarters os (quarter o h)

unfoldable pub chacha20_round : List ℕ → List ℕ
chacha20_round h = quarters orders_chacha20 h

-- `struct.unpack` and `struct.pack` of little-endian words.
unfoldable pub words : ℕ → Bytes → List ℕ
words zero bytes = []
words (suc n) bytes = from_little (take 4 bytes) ∷ words n (drop 4 bytes)

unfoldable pub unpack : ℕ → Bytes → Option (List ℕ)
unpack n bytes = if length bytes == 4 * n then some (words n bytes) else none

unfoldable pub pack : List ℕ → Bytes
pack [] = []
pack (w ∷ ws) = little 4 w ++ pack ws

-- `a+b&0xffffffff` along two lists.
unfoldable pub sum_words : List ℕ → List ℕ → List ℕ
sum_words [] bs = []
sum_words (a ∷ as_) [] = []
sum_words (a ∷ as_) (b ∷ bs) = bit_and (a + b) 0xffffffff ∷ sum_words as_ bs

unfoldable pub chacha_block : List ℕ → Bytes
chacha_block words_ = pack (sum_words (chacha20_round words_) words_)

-- `data[12:14] = ...`.
unfoldable pub next_block : List ℕ → List ℕ
next_block words_ =
    if get_or words_ 12 0 == 0xffffffff
    then set (set words_ 12 0) 13 (get_or words_ 13 0 + 1)
    else set words_ 12 (get_or words_ 12 0 + 1)

abbrev pub chacha_refill : List ℕ → Bytes × List ℕ
chacha_refill words_ = (chacha_block words_, next_block words_)

abbrev pub constant : Bytes
constant =
    b'e' ∷ b'x' ∷ b'p' ∷ b'a' ∷ b'n' ∷ b'd' ∷ b' ' ∷ b'3' ∷ b'2' ∷ b'-' ∷ b'b' ∷ b'y' ∷ b't' ∷ b'e'
    ∷ b' ' ∷ b'k' ∷ []

abbrev pub right_justified : Bytes → Bytes
right_justified iv = replicate (12 - length iv) 0 ++ iv

abbrev pub unpack_with : Bytes → Bytes → Option Bytes → Option (List ℕ)
unpack_with key iv none = none
unpack_with key iv (some counter) = unpack 16 (constant ++ key ++ counter ++ right_justified iv)

-- `data` at the start of `core`; `none` is an error of `to_bytes` or of `struct`.
unfoldable pub chacha_start : Bytes → ℕ → Bytes → Option (List ℕ)
chacha_start key counter iv = unpack_with key iv (to_little 4 counter)

-- The key that `XChaCha20_Cipher.core` derives.
abbrev pub masked : List ℕ → List ℕ
masked [] = []
masked (w ∷ ws) = bit_and w 0xffffffff ∷ masked ws

abbrev pub inner_key : List ℕ → Bytes
inner_key h = pack (masked (take 4 h ++ drop 12 h))

abbrev pub start_inner : ℕ → Bytes → Option (List ℕ) → Option (List ℕ)
start_inner counter iv none = none
start_inner counter iv (some h) = chacha_start (inner_key (chacha20_round h)) counter iv

unfoldable pub xchacha_start : Bytes → ℕ → Bytes → Option (List ℕ)
xchacha_start key counter iv =
    start_inner counter (drop 16 iv) (unpack 16 (constant ++ key ++ take 16 iv))

-- A session that has been set up encrypts bytes.
abbrev pub session : List ℕ → Blocks (List ℕ)
session words_ = record { pending = []; core = words_ }

abbrev pub encrypt_from : Bytes → Option (List ℕ) → Option Bytes
encrypt_from s none = none
encrypt_from s (some words_) = some (stream_encrypt (next_byte chacha_refill) s (session words_)).0
