-- ===== src/Cipherpy/Poly1305.antt =====
-- `poly1305`, and `ChaCha20_IETF_POLY1305_Cipher` with its XChaCha20 variant, as instances of
-- Cipherpy/Process. Python's `cipher_encrypt(nonce, s, counter)` is `cipher_encrypt` here.
pub mod Laws
use python_proxy.Base.{
  ℕ, zero, suc, ◌+◌, ◌-◌, ◌*◌, ◌/◌, ◌%◌, ◌^◌, Option, none, some, List, [], ◌∷◌, ◌++◌, bit_and,
  length, take, drop, replicate, from_little, little, to_little, Bytes,
}
use python_proxy.Cipher.Aead.{Backend}
use python_proxy.Cipherpy.Process.{process_backend}
use python_proxy.Cipherpy.ChaCha.{chacha_start, xchacha_start, encrypt_from}

-- The `for` over blocks of 16 bytes.
unfoldable pub poly_from : ℕ → ℕ → Bytes → ℕ → ℕ
poly_from r zero mac_data acc = acc
poly_from r (suc count) mac_data acc =
    poly_from r count (drop 16 mac_data)
      (r * (acc + from_little (take 16 mac_data ++ 1 ∷ [])) % (2 ^ 130 - 5))

abbrev pub poly_key : Bytes → ℕ
poly_key otk = bit_and (from_little (take 16 otk)) 0x0ffffffc0ffffffc0ffffffc0fffffff

abbrev pub poly_tag : Bytes → Bytes → Bytes
poly_tag otk mac_data = little 16 (
    bit_and
      (poly_from (poly_key otk) ((length mac_data + 15) / 16) mac_data 0
        + from_little (drop 16 otk))
      (2 ^ 128 - 1))

abbrev pub poly_with : Bytes → Bytes → Option Bytes → Option Bytes
poly_with otk ciphertext none = none
poly_with otk ciphertext (some size) =
    some (poly_tag otk (ciphertext ++ replicate ((16 - length ciphertext % 16) % 16 + 8) 0 ++ size))

abbrev pub poly_keyed : Bytes → Option Bytes → Option Bytes
poly_keyed ciphertext none = none
poly_keyed ciphertext (some otk) = poly_with otk ciphertext (to_little 8 (length ciphertext))

module _ (start : ℕ → Bytes → Option (List ℕ)) where
  unfoldable pub cipher_encrypt : Bytes → Bytes → ℕ → Option Bytes
  cipher_encrypt nonce s counter = encrypt_from s (start counter nonce)

  unfoldable pub poly1305 : Bytes → Bytes → Option Bytes
  poly1305 nonce ciphertext = poly_keyed ciphertext (cipher_encrypt nonce (replicate 32 0) 0)

  abbrev pub encrypt_packet : Bytes → Bytes → Option Bytes
  encrypt_packet nonce s = cipher_encrypt nonce s 1

-- The two ciphers, with a key.
abbrev pub chacha_poly : Bytes → Backend
chacha_poly key =
    process_backend (encrypt_packet (chacha_start key)) (poly1305 (chacha_start key)) 12 16

abbrev pub xchacha_poly : Bytes → Backend
xchacha_poly key =
    process_backend (encrypt_packet (xchacha_start key)) (poly1305 (xchacha_start key)) 28 16
