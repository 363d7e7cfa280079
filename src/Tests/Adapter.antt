-- ===== src/Tests/Adapter.antt =====
-- Runs of the stream adapter, with RC4 as the session.
use python_proxy.Base.{
  ◌≡◌, refl, ap, ◌∙◌, List, [], ◌∷◌, ◌++◌, append-nil, take, drop, take-append-drop, replicate, map,
  bit_xor, Bytes, arith,
}
use python_proxy.Cipher.Adapter.{fresh, write_each, decrypt_each}
use python_proxy.Cipher.Adapter.Cuts.{join}
use python_proxy.Cipher.Adapter.Wire.{decrypt_each-write_each}
use python_proxy.Cipher.Adapter.NoIv.{anew, adapter-restarts}
use python_proxy.Cipherpy.Keystream.{stream_encrypt}
use python_proxy.Cipherpy.Rc4.{Rc4, rc4_start, rc4_next}
use python_proxy.Cipherpy.Sessions.{stream_encrypt-IsSession}

-- A session whose key is made of the IV.
abbrev begin : Bytes → Rc4
begin iv = rc4_start (iv ++ replicate 14 7)

abbrev rc4 : Bytes → Rc4 → Bytes × Rc4
rc4 = stream_encrypt rc4_next

abbrev rc4_joined : List Bytes → Bytes
rc4_joined = join 2 begin rc4 rc4 (stream_encrypt-IsSession rc4_next) (omega arith)

abbrev hello : Bytes
hello = b'h' ∷ b'e' ∷ b'l' ∷ b'l' ∷ b'o' ∷ []

abbrev wire : Bytes
wire = (write_each 2 begin rc4 rc4 (5 ∷ 6 ∷ []) (hello ∷ hello ∷ []) (fresh 2 begin rc4 rc4)).0

-- The wire cut within the IV.
abbrev cut : List Bytes
cut = take 1 wire ∷ drop 1 wire ∷ []

cut_whole : rc4_joined cut ≡ wire
cut_whole = ap (λ z. take 1 wire ++ z) (append-nil (drop 1 wire)) ∙ take-append-drop 1 wire

decrypt_each-write_each_example :
    (decrypt_each 2 begin rc4 rc4 cut (fresh 2 begin rc4 rc4)).0 ≡ rc4_joined (hello ∷ hello ∷ [])
decrypt_each-write_each_example =
    decrypt_each-write_each 2 begin rc4 rc4 (stream_encrypt-IsSession rc4_next) (omega arith)
      (5 ∷ 6 ∷ []) hello (hello ∷ []) cut refl cut_whole

adapter-restarts_example :
    ((write_each 0 begin rc4 rc4 [] (hello ∷ hello ∷ []) (fresh 0 begin rc4 rc4)).0
      ≡ anew begin rc4 rc4 (λ s. unfold stream_encrypt in refl) rc4 (hello ∷ hello ∷ []))
    × ((decrypt_each 0 begin rc4 rc4 (hello ∷ []) (fresh 0 begin rc4 rc4)).0
        ≡ anew begin rc4 rc4 (λ s. unfold stream_encrypt in refl) rc4 (hello ∷ []))
adapter-restarts_example =
    adapter-restarts begin rc4 rc4 (λ s. unfold stream_encrypt in refl) (hello ∷ hello ∷ [])
      (hello ∷ [])

abbrev complement : Bytes → Bytes
complement block = map (λ b. bit_xor b 0xff) block
