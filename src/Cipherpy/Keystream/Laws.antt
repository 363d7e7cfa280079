-- ===== src/Cipherpy/Keystream/Laws.antt =====
-- Two ends of a stream cipher that start alike stay alike.
use python_proxy.Base.{
  ℕ, suc, ◌≡◌, refl, ap, ap₂, [], ◌∷◌, ◌++◌, bit_xor, bit_xor_cancel, Bytes, length,
}
use python_proxy.Cipherpy.Keystream.{stream_encrypt}

module _ {S : Type 0} (next : S → ℕ × S) where
  pub length-stream_encrypt :
      (bytes : Bytes) (s : S) → length (stream_encrypt next bytes s).0 ≡ length bytes
  unfolding stream_encrypt
  length-stream_encrypt [] s = refl
  length-stream_encrypt (b ∷ bytes) s = ap suc (length-stream_encrypt bytes (next s).1)

  -- Whatever the generator, the receiving end that starts in the state of the sending one gets the
  -- bytes back and is left in the state of the sending one.
  pub stream_encrypt_twice :
      (bytes : Bytes) (s : S)
      → stream_encrypt next (stream_encrypt next bytes s).0 s
        ≡ (bytes, (stream_encrypt next bytes s).1)
  unfolding stream_encrypt
  stream_encrypt_twice [] s = refl
  stream_encrypt_twice (b ∷ bytes) s =
      ap₂ (λ (x : ℕ) (p : Bytes × S). (x ∷ p.0, p.1)) (bit_xor_cancel b (next s).0)
        (stream_encrypt_twice bytes (next s).1)

  -- Bytes encrypted in two calls come out as in one.
  pub stream_encrypt-append :
      (a b : Bytes) (s : S)
      → stream_encrypt next (a ++ b) s ≡ (
          let front = stream_encrypt next a s in
          let back = stream_encrypt next b front.1 in (front.0 ++ back.0, back.1))
  unfolding stream_encrypt
  stream_encrypt-append [] b s = refl
  stream_encrypt-append (x ∷ a) b s =
      ap (λ (p : Bytes × S). (bit_xor x (next s).0 ∷ p.0, p.1))
        (stream_encrypt-append a b (next s).1)
