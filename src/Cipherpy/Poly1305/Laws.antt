-- ===== src/Cipherpy/Poly1305/Laws.antt =====
-- ChaCha20-Poly1305 and XChaCha20-Poly1305 are AEAD backends.
use python_proxy.Base.{
  ℕ, ◌+◌, ◌-◌, ◌/◌, bit_and, drop, from_little, ◌%◌, ◌^◌, ◌≤◌, ◌≡◌, ap, ◌∙◌, Option, some, List,
  ◌++◌, length, replicate, little, length-little, to_little-lt, Bytes, arith,
}
use python_proxy.Cipher.Aead.{IsBackend, packet_limit}
use python_proxy.Cipherpy.Keystream.{stream_encrypt, next_byte}
use python_proxy.Cipherpy.Keystream.Laws.{length-stream_encrypt, stream_encrypt_twice}
use python_proxy.Cipherpy.Process.{IsCrypt, IsMac}
use python_proxy.Cipherpy.Process.Laws.{process-IsBackend}
use python_proxy.Cipherpy.ChaCha.{chacha_start, xchacha_start, chacha_refill, session, encrypt_from}
use python_proxy.Cipherpy.ChaCha.Start.{Starts, chacha_start-Starts, xchacha_start-Starts}
use python_proxy.Cipherpy.Poly1305.{
  poly_with, poly_keyed, poly_tag, poly_key, poly_from, cipher_encrypt, poly1305, encrypt_packet,
  chacha_poly, xchacha_poly,
}

length-poly_tag : (otk mac_data : Bytes) → length (poly_tag otk mac_data) ≡ 16
length-poly_tag otk mac_data = length-little 16 (
    bit_and
      (poly_from (poly_key otk) ((length mac_data + 15) / 16) mac_data 0
        + from_little (drop 16 otk))
      (2 ^ 128 - 1))

module _ (start : ℕ → Bytes → Option (List ℕ)) where
  abbrev crypted : Bytes → List ℕ → Bytes
  crypted s words_ = (stream_encrypt (next_byte chacha_refill) s (session words_)).0

  cipher_encrypt_at :
      (nonce s : Bytes) (counter : ℕ) (t : Starts start counter nonce)
      → cipher_encrypt start nonce s counter ≡ some (crypted s t.state)
  unfolding cipher_encrypt
  cipher_encrypt_at nonce s counter t = ap (encrypt_from s) t.begins

  pub encrypt_packet-IsCrypt :
      (nonce s : Bytes)
      → Starts start 1 nonce
      → IsCrypt (encrypt_packet start) (poly1305 start) nonce s
  encrypt_packet-IsCrypt nonce s t = record {
    result = crypted s t.state;
    succeeds = cipher_encrypt_at nonce s 1 t;
    size = length-stream_encrypt (next_byte chacha_refill) s (session t.state);
    undone =
        cipher_encrypt_at nonce (crypted s t.state) 1 t
        ∙ ap (λ (p : Bytes × _). some p.0)
            (stream_encrypt_twice (next_byte chacha_refill) s (session t.state));
  }

  poly1305-IsMac :
      (nonce s : Bytes)
      → Starts start 0 nonce
      → length s ≤ packet_limit
      → IsMac (encrypt_packet start) (poly1305 start) 16 nonce s
  poly1305-IsMac nonce s t fits =
      let otk : Bytes = crypted (replicate 32 0) t.state in
      let size : Bytes = little 8 (length s) in
      record {
        tag = poly_tag otk (s ++ replicate ((16 - length s % 16) % 16 + 8) 0 ++ size);
        computes =
            unfold poly1305 in
            ap (poly_keyed s) (cipher_encrypt_at nonce (replicate 32 0) 0 t)
            ∙ ap (poly_with otk s) (to_little-lt 8 (length s) (omega (arith, fits)));
        size = length-poly_tag otk (s ++ replicate ((16 - length s % 16) % 16 + 8) 0 ++ size);
      }

-- With a key of 32 bytes, ChaCha20-Poly1305 seals every text of a packet without an exception, in a
-- chunk of its length and a tag of 16 bytes, and opens what it sealed; and so does
-- XChaCha20-Poly1305, at nonces of 28 bytes.
pub chacha_poly-IsBackend :
    (key : Bytes) → length key ≡ 32 → IsBackend (chacha_poly key) × IsBackend (xchacha_poly key)
chacha_poly-IsBackend key e = (
  process-IsBackend (encrypt_packet (chacha_start key)) (poly1305 (chacha_start key)) 12 16
      (λ nonce s f bytes.
        encrypt_packet-IsCrypt (chacha_start key) nonce s
          (chacha_start-Starts key nonce 1 e f (omega arith)))
      (λ nonce s f bytes fits.
        poly1305-IsMac (chacha_start key) nonce s
          (chacha_start-Starts key nonce 0 e f (omega arith)) fits),
  process-IsBackend (encrypt_packet (xchacha_start key)) (poly1305 (xchacha_start key)) 28 16
      (λ nonce s f bytes.
        encrypt_packet-IsCrypt (xchacha_start key) nonce s
          (xchacha_start-Starts key nonce 1 e f (omega arith)))
      (λ nonce s f bytes fits.
        poly1305-IsMac (xchacha_start key) nonce s
          (xchacha_start-Starts key nonce 0 e f (omega arith)) fits),
)
