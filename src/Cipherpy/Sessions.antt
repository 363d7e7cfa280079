-- ===== src/Cipherpy/Sessions.antt =====
-- The stream ciphers, and CFB mode, are sessions of the stream adapter.
use python_proxy.Base.{ℕ, refl}
use python_proxy.Cipher.Adapter.{IsSession}
use python_proxy.Cipherpy.Keystream.{stream_encrypt}
use python_proxy.Cipherpy.Keystream.Laws.{stream_encrypt_twice, stream_encrypt-append}

pub stream_encrypt-IsSession :
    {S : Type 0} (next : S → ℕ × S) → IsSession (stream_encrypt next) (stream_encrypt next)
stream_encrypt-IsSession next = record {
  encrypts = stream_encrypt-append next;
  decrypts = stream_encrypt-append next;
  encrypts_nothing = λ s. unfold stream_encrypt in refl;
  undoes = stream_encrypt_twice next;
}
