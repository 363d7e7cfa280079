-- ===== src/Cipher/Packet.antt =====
-- `PacketCipher` of pproxy/cipher.py, over sessions with the laws `IsSession`. `random` is what `setup_iv`
-- draws where it is given no IV.
use python_proxy.Base.{
  ℕ, ◌≡◌, ◌++◌, length, take, drop, Bytes, ap, ap₂, ◌∙◌, take-append_self, drop-append_self,
}
use python_proxy.Cipher.Adapter.{IsSession}

module _ {S : Type 0} (ivlen : ℕ) (start : Bytes → S)
    (encrypt decrypt : Bytes → S → Bytes × S) where
  unfoldable pub packet_decrypt : Bytes → Bytes
  packet_decrypt bytes = (decrypt (drop ivlen bytes) (start (take ivlen bytes))).0

  unfoldable pub packet_encrypt : Bytes → Bytes → Bytes
  packet_encrypt random bytes = random ++ (encrypt bytes (start random)).0

  -- A packet is decrypted to what was encrypted, whatever packets were lost before it.
  packet_decrypt-packet_encrypt :
      IsSession encrypt decrypt
      → (random bytes : Bytes) → length random ≡ ivlen
      → packet_decrypt (packet_encrypt random bytes) ≡ bytes
  unfolding packet_decrypt packet_encrypt
  packet_decrypt-packet_encrypt law random bytes h =
      let sent = (encrypt bytes (start random)).0 in
      ap₂ (λ a b. (decrypt a (start b)).0) (drop-append_self ivlen random sent h)
        (take-append_self ivlen random sent h)
      ∙ ap (λ p. p.0) (law.undoes bytes (start random))
