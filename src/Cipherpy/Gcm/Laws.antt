-- ===== src/Cipherpy/Gcm/Laws.antt =====
-- `GCMCipher` is an AEAD backend, with any block primitive of 16 bytes.
use python_proxy.Base.{
  ℕ, zero, suc, ◌+◌, ◌-◌, ◌*◌, ◌/◌, ◌^◌, ◌≤◌, ◌<◌, ◌≡◌, refl, ap, ap₂, subst, ◌∙◌, Option, some,
  List, [], ◌∷◌, ◌++◌, bit_and, bit_or, bit_or-lt, bit_xor, bit_xor-lt, bit_xor_cancel,
  bit_and-ones, length, length-append, length-big, from_big, from_big-lt, big, to_big-lt, All,
  Bytes, IsBytes, arith,
}
use python_proxy.Cipher.Aead.{IsBackend}
use python_proxy.Cipherpy.Process.{IsCrypt, IsMac}
use python_proxy.Cipherpy.Process.Laws.{process-IsBackend}
use python_proxy.Cipherpy.Gcm.{
  key_table, ghash, xor_zip, table_of, gcm_setup, shifted_nonce, counter_blocks, gcm_crypt, mac_of,
  gcm_mac, gcm_backend, IsBlock,
}
use python_proxy.Cipherpy.Gcm.Bounds.{Word, key_table-Word, ghash-Word}

pub length-xor_zip : (bs ks : Bytes) → length bs ≤ length ks → length (xor_zip bs ks) ≡ length bs
unfolding xor_zip
length-xor_zip [] ks h = refl
length-xor_zip (b ∷ bs) [] h = absurd (omega arith)
length-xor_zip (b ∷ bs) (k ∷ ks) h = ap suc (length-xor_zip bs ks (omega arith))

pub xor_zip_twice : (bs ks : Bytes) → length bs ≤ length ks → xor_zip (xor_zip bs ks) ks ≡ bs
unfolding xor_zip
xor_zip_twice [] ks h = refl
xor_zip_twice (b ∷ bs) [] h = absurd (omega arith)
xor_zip_twice (b ∷ bs) (k ∷ ks) h = ap₂ ◌∷◌ (bit_xor_cancel b k) (xor_zip_twice bs ks (omega arith))

module _ (encrypt : ℕ → Option Bytes) (blocks : (n : ℕ) → Word n → IsBlock encrypt n) where
  -- The key bytes for a text.
  record HasBlocks (count i z : ℕ) : Type 0 where
    pub bytes : Bytes
    pub succeeds : counter_blocks encrypt count i z ≡ some bytes
    pub size : length bytes ≡ 16 * count

  counter-Word : (i z : ℕ) → Word z → Word (bit_or z (bit_and (i + 2) (2 ^ 32 - 1)))
  counter-Word i z h =
      bit_or-lt 128 z (bit_and (i + 2) (2 ^ 32 - 1)) h (omega (arith, bit_and-ones 32 (i + 2)))

  counter_blocks-suc :
      (count i z : ℕ) (front rest : Bytes)
      → encrypt (bit_or z (bit_and (i + 2) (2 ^ 32 - 1))) ≡ some front
      → counter_blocks encrypt count (i + 1) z ≡ some rest
      → counter_blocks encrypt (suc count) i z ≡ some (front ++ rest)
  unfolding counter_blocks
  counter_blocks-suc count i z front rest e f = rw (e, f) refl

  has_blocks : (count i z : ℕ) → Word z → HasBlocks count i z
  has_blocks zero i z h = record {
    bytes = [];
    succeeds = unfold counter_blocks in refl;
    size = omega arith;
  }
  has_blocks (suc count) i z h =
      let rest = has_blocks count (i + 1) z h in
      let front = blocks (bit_or z (bit_and (i + 2) (2 ^ 32 - 1))) (counter-Word i z h) in
      record {
        bytes = front.block ++ rest.bytes;
        succeeds = counter_blocks-suc count i z front.block rest.bytes front.succeeds rest.succeeds;
        size = omega (arith, length-append front.block rest.bytes, front.size, rest.size);
      }

  nonce-Word :
      (nonce : Bytes) → length nonce ≡ 12 → IsBytes nonce → Word (shifted_nonce encrypt nonce)
  nonce-Word nonce e h =
      let bound : from_big nonce < 256 ^ 12 =
        subst (λ (n : ℕ). from_big nonce < 256 ^ n) e (from_big-lt nonce h) in
      omega (arith, bound)

  gcm_crypt_at :
      (nonce s ks : Bytes) (n : ℕ)
      → length s ≡ n
      → counter_blocks encrypt ((n + 15) / 16) 0 (shifted_nonce encrypt nonce) ≡ some ks
      → gcm_crypt encrypt nonce s ≡ some (xor_zip s ks)
  unfolding gcm_crypt
  gcm_crypt_at nonce s ks n e f = rw (e, f) refl

  pub gcm_crypt-IsCrypt :
      (hkey : List ℕ) (nonce s : Bytes)
      → length nonce ≡ 12
      → IsBytes nonce
      → IsCrypt (gcm_crypt encrypt) (gcm_mac encrypt hkey) nonce s
  gcm_crypt-IsCrypt hkey nonce s e bytes =
      let ks =
        has_blocks ((length s + 15) / 16) 0 (shifted_nonce encrypt nonce)
          (nonce-Word nonce e bytes) in
      let enough : length s ≤ length ks.bytes = omega (arith, ks.size) in
      record {
        result = xor_zip s ks.bytes;
        succeeds = gcm_crypt_at nonce s ks.bytes (length s) refl ks.succeeds;
        size = length-xor_zip s ks.bytes enough;
        undone =
            gcm_crypt_at nonce (xor_zip s ks.bytes) ks.bytes (length s)
              (length-xor_zip s ks.bytes enough) ks.succeeds
            ∙ ap some (xor_zip_twice s ks.bytes enough);
      }

  block-Word : (n : ℕ) (b : IsBlock encrypt n) → Word (from_big b.block)
  block-Word n b =
      let bound : from_big b.block < 256 ^ 16 =
        subst (λ (n : ℕ). from_big b.block < 256 ^ n) b.size (from_big-lt b.block b.bytes) in
      omega (arith, bound)

  gcm_mac-IsMac :
      (hkey : List ℕ) (nonce s : Bytes)
      → All Word hkey
      → length nonce ≡ 12
      → IsBytes nonce
      → IsMac (gcm_crypt encrypt) (gcm_mac encrypt hkey) 16 nonce s
  gcm_mac-IsMac hkey nonce s words e bytes =
      let b =
        blocks (bit_or (shifted_nonce encrypt nonce) 1) (
          bit_or-lt 128 (shifted_nonce encrypt nonce) 1 (nonce-Word nonce e bytes) (omega arith)) in
      let n = bit_xor (ghash hkey s) (from_big b.block) in
      let small = bit_xor-lt 128 _ _ (ghash-Word hkey s words) (block-Word _ b) in
      record {
        tag = big 16 n;
        computes =
            unfold gcm_mac in
            ap (mac_of encrypt hkey 16 s) b.succeeds ∙ to_big-lt 16 n (omega (arith, small));
        size = length-big 16 n;
      }

  setup_table :
      (hkey : List ℕ) (o : Option Bytes)
      → table_of encrypt o ≡ some hkey
      → (block : Bytes) → o ≡ some block
      → hkey ≡ key_table 128 (from_big block) []
  setup_table hkey o e block f = cc

  -- With a block primitive that gives 16 bytes for every number of 128 bits, `setup` succeeds, and
  -- the cipher that it sets up is an AEAD backend: it seals every text of a packet without an
  -- exception, in a chunk of the text's length and a tag of 16 bytes, and opens what it sealed.
  pub gcm-IsBackend :
      (hkey : List ℕ) × (gcm_setup encrypt ≡ some hkey) × IsBackend (gcm_backend encrypt hkey)
  gcm-IsBackend =
      let zero_block = blocks 0 (omega arith) in
      let hkey = key_table 128 (from_big zero_block.block) [] in
      let words = key_table-Word 128 (from_big zero_block.block) [] (block-Word 0 zero_block) tt in
      (
        hkey,
        unfold gcm_setup in ap (table_of encrypt) zero_block.succeeds,
        process-IsBackend (gcm_crypt encrypt) (gcm_mac encrypt hkey) 12 16
            (λ nonce s e bytes. gcm_crypt-IsCrypt hkey nonce s e bytes)
            (λ nonce s e bytes fits. gcm_mac-IsMac hkey nonce s words e bytes),
      )
