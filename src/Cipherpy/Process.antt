-- ===== src/Cipherpy/Process.antt =====
-- `process` of `ChaCha20_IETF_POLY1305_Cipher` and of `GCMCipher`: the tag is taken of the encrypted
-- text, and checked before that is decrypted. The encryption at a nonce and the tag are parameters
-- here, that the two ciphers fill; `none` is an exception.
pub mod Laws
use python_proxy.Base.{
  ℕ, ◌≡◌, ◌≤◌, ◌↔◌, refl, sym, ap, ap₂, ◌∙◌, Bool, true, false, Option, none, some, [], ◌∷◌, ◌==◌,
  ◌&&◌, ==_iff, Bytes, IsBytes, length, arith,
}
use python_proxy.Cipher.Aead.{Backend, IsBackend, IsSealed, packet_limit}

-- `==` on bytes.
unfoldable pub equal_bytes : Bytes → Bytes → Bool
equal_bytes [] [] = true
equal_bytes [] (b ∷ bs) = false
equal_bytes (a ∷ as_) [] = false
equal_bytes (a ∷ as_) (b ∷ bs) = a == b && equal_bytes as_ bs

-- `require`.
abbrev pub require : Bool → Option Bytes → Option Bytes
require true o = o
require false o = none

module _ (crypt : Bytes → Bytes → Option Bytes) (mac : Bytes → Bytes → Option Bytes) where
  abbrev pub with_tag : Bytes → Option Bytes → Option (Bytes × Bytes)
  with_tag coded none = none
  with_tag coded (some tag) = some (coded, tag)

  abbrev pub tagged : Bytes → Option Bytes → Option (Bytes × Bytes)
  tagged nonce none = none
  tagged nonce (some coded) = with_tag coded (mac nonce coded)

  unfoldable pub process : Bytes → Bytes → Option (Bytes × Bytes)
  process nonce s = tagged nonce (crypt nonce s)

  abbrev pub checked : Option Bytes → Bytes → Option Bytes → Option Bytes
  checked none tag plain = none
  checked (some expected) tag plain = require (equal_bytes tag expected) plain

  unfoldable pub process_tagged : Bytes → Bytes → Bytes → Option Bytes
  process_tagged nonce s tag = checked (mac nonce s) tag (crypt nonce s)

  abbrev pub process_backend : ℕ → ℕ → Backend
  process_backend nonce_length tag_length = record {
    nonce_length = nonce_length;
    tag_length = tag_length;
    seal = process;
    unseal = process_tagged;
  }

  -- What an encryption owes: it undoes itself at its nonce, and keeps the length.
  pub record IsCrypt (nonce s : Bytes) : Type 0 where
    pub result : Bytes
    pub succeeds : crypt nonce s ≡ some result
    pub size : length result ≡ length s
    pub undone : crypt nonce result ≡ some s

  pub record IsMac (tag_length : ℕ) (nonce s : Bytes) : Type 0 where
    pub tag : Bytes
    pub computes : mac nonce s ≡ some tag
    pub size : length tag ≡ tag_length
