-- ===== src/Tests/Cipherpy.antt =====
-- Runs of pproxy/cipherpy.py: published test vectors, and the theorems at concrete keys.
use python_proxy.Base.{
  ℕ, zero, suc, ◌*◌, ◌<◌, ◌≤◌, ◌≡◌, ◌↔◌, ◌⊎◌, inl, refl, Option, none, some, List, [], ◌∷◌, map,
  replicate, Bytes, IsBytes, arith, big, from_big,
}
use python_proxy.Cipher.Aead.{IsBackend}
use python_proxy.Cipherpy.ChaCha.{rol, add_word, rotate_word, quarter, chacha_block}
use python_proxy.Cipherpy.ChaCha.Reference.{
  wrap, sum_32, inner_blocks, serialize, chacha_block-wraps,
}
use python_proxy.Cipherpy.Poly1305.{chacha_poly, xchacha_poly}
use python_proxy.Cipherpy.Poly1305.Laws.{chacha_poly-IsBackend}
use python_proxy.Cipherpy.Gcm.{gcm_setup, gcm_backend}
use python_proxy.Cipherpy.Aes.{
  g1, g2, g3, rcon, shift, rounds_of, schedule_word, xor_back, extend_key, expand_key, round_keys,
  aes_new, aes_round, last_round, aes_rounds, aes_block, aes_encrypt,
}
use python_proxy.Cipherpy.Aes.Block.{aes_gcm-IsBackend}
use python_proxy.Cipherpy.Accepts.{chacha_poly-accepts_iff}
use python_proxy.Cipherpy.Rc4.{range_from}
use python_proxy.Cipherpy.Rc2.{
  rc2_byte, rc2_extend, rc2_middle, rc2_back, little_words, rc2_key, rc2_turn, rc2_run, rc2_encrypt,
}
use python_proxy.Cipherpy.Idea.{
  idea_product, big_words, subkeys, idea_key, idea_round, idea_rounds, idea_encrypt,
}
use python_proxy.Cipherpy.Idea.Product.{idea_number, idea_word, idea_product-eq_iff}

abbrev short_key : Bytes
short_key = replicate 16 7

abbrev long_key : Bytes
long_key = replicate 32 7

abbrev nonce : Bytes
nonce = replicate 12 1

abbrev text : Bytes
text = b't' ∷ b'e' ∷ b'x' ∷ b't' ∷ []

-- FIPS 197, appendix B.
abbrev counted : Bytes
counted = 0 ∷ 1 ∷ 2 ∷ 3 ∷ 4 ∷ 5 ∷ 6 ∷ 7 ∷ 8 ∷ 9 ∷ 10 ∷ 11 ∷ 12 ∷ 13 ∷ 14 ∷ 15 ∷ []

encrypted : Option (List Bytes) → Bytes → Bytes
encrypted none block = []
encrypted (some ekey) block = aes_block ekey block

fips_197 :
    encrypted (aes_new counted) (map (λ b. b * 17) counted)
    ≡ 0x69 ∷ 0xc4 ∷ 0xe0 ∷ 0xd8 ∷ 0x6a ∷ 0x7b ∷ 0x04 ∷ 0x30 ∷ 0xd8 ∷ 0xcd ∷ 0xb7 ∷ 0x80 ∷ 0x70
      ∷ 0xb4 ∷ 0xc5 ∷ 0x5a ∷ []
unfolding encrypted g1 g2 g3 rcon shift rounds_of schedule_word xor_back extend_key expand_key
    round_keys aes_new aes_round last_round aes_rounds aes_block
fips_197 = refl

-- RFC 8439, section 2.1.1: a quarter round.
quarter_2_1_1 :
    map wrap (
      quarter
        (record { a = 0; b = 1; c = 2; d = 3 })
        (0x11111111 ∷ 0x01020304 ∷ 0x9b8d6f43 ∷ 0x01234567 ∷ []))
    ≡ 0xea2a92f4 ∷ 0xcb1cf8ce ∷ 0x4581472e ∷ 0x5881c4bb ∷ []
unfolding quarter add_word rotate_word rol
quarter_2_1_1 = refl

chacha_block-wraps_example :
    chacha_block (replicate 16 0xffffffff)
    ≡ serialize (
        sum_32
          (inner_blocks 10 (map wrap (replicate 16 0xffffffff)))
          (map wrap (replicate 16 0xffffffff)))
chacha_block-wraps_example = chacha_block-wraps (replicate 16 0xffffffff)

chacha_poly-IsBackend_example : IsBackend (chacha_poly long_key) × IsBackend (xchacha_poly long_key)
chacha_poly-IsBackend_example = chacha_poly-IsBackend long_key refl

chacha_poly-accepts_iff_example :
    ((chacha_poly long_key).unseal nonce text short_key ≡ some text)
    ↔ ((chacha_poly long_key).seal nonce text ≡ some (text, short_key))
chacha_poly-accepts_iff_example =
    chacha_poly-accepts_iff long_key nonce text short_key text refl refl

short_key-IsBytes : IsBytes short_key
short_key-IsBytes = go 16
  where
    go : (n : ℕ) → IsBytes (replicate n 7)
    go zero = tt
    go (suc n) = (omega arith, go n)

nonce-IsBytes : IsBytes nonce
nonce-IsBytes = go 12
  where
    go : (n : ℕ) → IsBytes (replicate n 1)
    go zero = tt
    go (suc n) = (omega arith, go n)

aes_gcm-IsBackend_example :
    (ekey : List Bytes) × (hkey : List ℕ) × (aes_new short_key ≡ some ekey)
    × (gcm_setup (aes_encrypt ekey) ≡ some hkey)
    × IsBackend (gcm_backend (aes_encrypt ekey) hkey)
aes_gcm-IsBackend_example = aes_gcm-IsBackend short_key short_key-IsBytes (inl refl)

abbrev short_ekey : List Bytes
short_ekey = aes_gcm-IsBackend_example.0

-- The words 1 to 8 as the key of IDEA, and 0 to 3 as the text. The published result is 11FB ED2B 0198
-- 6DE5: a subkey of the seventh round is zero.
abbrev words_1_8 : Bytes
words_1_8 = 0 ∷ 1 ∷ 0 ∷ 2 ∷ 0 ∷ 3 ∷ 0 ∷ 4 ∷ 0 ∷ 5 ∷ 0 ∷ 6 ∷ 0 ∷ 7 ∷ 0 ∷ 8 ∷ []

idea_vector :
    idea_encrypt (idea_key words_1_8) (0 ∷ 0 ∷ 0 ∷ 1 ∷ 0 ∷ 2 ∷ 0 ∷ 3 ∷ [])
    ≡ 0xd7 ∷ 0xfb ∷ 0x58 ∷ 0x16 ∷ 0x21 ∷ 0xbc ∷ 0xb3 ∷ 0xaa ∷ []
unfolding idea_product big_words subkeys idea_key idea_round idea_rounds idea_encrypt big from_big
idea_vector = refl

idea_product-eq_iff_example :
    (idea_product 2 40000 ≡ idea_word (idea_number 2 * idea_number 40000)) ↔ ((0 < 40000) ⊎ (2 ≤ 1))
idea_product-eq_iff_example = idea_product-eq_iff 2 40000 (omega arith) (omega arith)

-- RFC 2268, section 5: a key of 8 bytes.
rc2_vector :
    rc2_encrypt
      (rc2_key (0x30 ∷ 0 ∷ 0 ∷ 0 ∷ 0 ∷ 0 ∷ 0 ∷ 0 ∷ []))
      (0x10 ∷ 0 ∷ 0 ∷ 0 ∷ 0 ∷ 0 ∷ 0 ∷ 0x01 ∷ [])
    ≡ 0x30 ∷ 0x64 ∷ 0x9e ∷ 0xdf ∷ 0x9b ∷ 0xe7 ∷ 0xd2 ∷ 0xc2 ∷ []
unfolding rc2_byte rc2_extend rc2_middle rc2_back little_words rc2_key rc2_turn rc2_run rc2_encrypt
    range_from
rc2_vector = refl
