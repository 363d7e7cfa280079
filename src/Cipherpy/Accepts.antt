-- ===== src/Cipherpy/Accepts.antt =====
-- The two AEAD ciphers accept exactly what they seal.
use python_proxy.Base.{ℕ, ◌≡◌, ◌↔◌, ◌⊎◌, subst, some, List, Bytes, IsBytes, length, arith}
use python_proxy.Cipherpy.Process.Laws.{process_tagged-process_iff}
use python_proxy.Cipherpy.ChaCha.{chacha_start}
use python_proxy.Cipherpy.ChaCha.Start.{chacha_start-Starts}
use python_proxy.Cipherpy.Poly1305.{encrypt_packet, poly1305, chacha_poly}
use python_proxy.Cipherpy.Poly1305.Laws.{encrypt_packet-IsCrypt}
use python_proxy.Cipherpy.Gcm.{IsBlock, gcm_crypt, gcm_mac, gcm_backend}
use python_proxy.Cipherpy.Gcm.Bounds.{Word}
use python_proxy.Cipherpy.Gcm.Laws.{gcm_crypt-IsCrypt}
use python_proxy.Cipherpy.Aes.{aes_new, aes_encrypt}
use python_proxy.Cipherpy.Aes.Block.{Expanded, aes_new-Expanded}

-- Under a key of 32 bytes and a nonce of 12, ChaCha20-Poly1305 accepts a chunk with a tag as a text
-- exactly when sealing the text gives this chunk and this tag.
pub chacha_poly-accepts_iff :
    (key nonce chunk tag plain : Bytes)
    → length key ≡ 32
    → length nonce ≡ 12
    → ((chacha_poly key).unseal nonce chunk tag ≡ some plain)
      ↔ ((chacha_poly key).seal nonce plain ≡ some (chunk, tag))
chacha_poly-accepts_iff key nonce chunk tag plain e f =
    process_tagged-process_iff (encrypt_packet (chacha_start key)) (poly1305 (chacha_start key))
      nonce chunk tag plain
      (λ s.
        encrypt_packet-IsCrypt (chacha_start key) nonce s
          (chacha_start-Starts key nonce 1 e f (omega arith)))

blocks_of :
    (key : Bytes) (ekey : List Bytes)
    → Expanded key
    → aes_new key ≡ some ekey
    → (n : ℕ) → Word n
    → IsBlock (aes_encrypt ekey) n
blocks_of key ekey a e =
    subst (λ (k : List Bytes). (n : ℕ) → Word n → IsBlock (aes_encrypt k) n) {x = a.ekey} {y = ekey}
      (cc (e, a.made)) a.blocks

-- Under the expansion of a key of 16, 24 or 32 bytes, with any table `hkey` and a nonce of 12 bytes,
-- AES-GCM accepts a chunk with a tag as a text exactly when sealing the text gives this chunk and
-- this tag.
pub aes_gcm-accepts_iff :
    (key : Bytes) (ekey : List Bytes) (hkey : List ℕ) (nonce chunk tag plain : Bytes)
    → IsBytes key
    → (length key ≡ 16) ⊎ ((length key ≡ 24) ⊎ (length key ≡ 32))
    → aes_new key ≡ some ekey
    → length nonce ≡ 12
    → IsBytes nonce
    → ((gcm_backend (aes_encrypt ekey) hkey).unseal nonce chunk tag ≡ some plain)
      ↔ ((gcm_backend (aes_encrypt ekey) hkey).seal nonce plain ≡ some (chunk, tag))
aes_gcm-accepts_iff key ekey hkey nonce chunk tag plain h sizes e f bytes =
    process_tagged-process_iff (gcm_crypt (aes_encrypt ekey)) (gcm_mac (aes_encrypt ekey) hkey)
      nonce chunk tag plain
      (λ s.
        gcm_crypt-IsCrypt (aes_encrypt ekey) (blocks_of key ekey (aes_new-Expanded key h sizes) e)
          hkey nonce s f bytes)
