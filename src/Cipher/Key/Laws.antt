-- ===== src/Cipher/Key/Laws.antt =====
-- The lengths of derived keys, and what the cache gives.
use python_proxy.Base.{
  ℕ, zero, suc, ◌+◌, ◌-◌, ◌*◌, ◌/◌, ◌≤◌, ◌<◌, ◌≡◌, refl, ap, ◌∙◌, Bool, true, false, none, some,
  Option, List, [], ◌∷◌, ◌++◌, ltb, ltb_false→le, lt→ltb, ◌&&◌, if◌then◌else◌, length,
  length-append, length-take, Bytes, arith,
}
use python_proxy.Cipher.Key.{
  key_blocks, derive_key, cached, key_from, base_key, after_uses, subkey, expand_blocks,
  session_key,
}
use python_proxy.Cipherpy.Process.{equal_bytes}
use python_proxy.Cipherpy.Process.Laws.{equal_bytes_refl, equal_bytes-eq}

module _ (md5 : Bytes → Bytes) (digests : (x : Bytes) → length (md5 x) ≡ 16) where
  key_blocks-enough :
      (key_length fuel : ℕ) (key last joined : Bytes)
      → key_length ≤ length joined + fuel
      → key_length ≤ length (key_blocks md5 key_length fuel key last joined)
  unfolding key_blocks
  key_blocks-enough key_length zero key last joined h = omega (arith, h)
  key_blocks-enough key_length (suc fuel) key last joined h =
      go (ltb (length joined) key_length) refl (
        key_blocks-enough key_length fuel key (md5 (last ++ key)) (joined ++ md5 (last ++ key))
          (omega (arith, length-append joined (md5 (last ++ key)), digests (last ++ key), h)))
    where
      go :
          (b : Bool)
          → ltb (length joined) key_length ≡ b
          → key_length
            ≤ length (
                key_blocks md5 key_length fuel key
                  (md5 (last ++ key))
                  (joined ++ md5 (last ++ key)))
          → key_length
            ≤ length (
                if b
                then key_blocks md5 key_length fuel key
                    (md5 (last ++ key))
                    (joined ++ md5 (last ++ key))
                else joined)
      go true e ih = ih
      go false e ih = ltb_false→le _ _ e

  length-derive_key :
      (key_length : ℕ) (key : Bytes) → length (derive_key md5 key_length key) ≡ key_length
  unfolding derive_key
  length-derive_key key_length key = omega (
    arith,
    length-take key_length (key_blocks md5 key_length key_length key [] []),
    key_blocks-enough key_length key_length key [] [] (omega arith),
  )

  -- What the cache has for a password, it keeps through any use of it.
  base_key-keeps :
      (n : ℕ) (setup_key : Bool) (other key v : Bytes) (cache : List (Bytes × Bytes))
      → cached md5 key cache ≡ some v
      → cached md5 key (base_key md5 n setup_key other cache).1 ≡ some v
  unfolding base_key
  base_key-keeps n setup_key other key v cache e = go (ltb 0 n && setup_key)
    where
      added :
          (b : Bool)
          → equal_bytes other key ≡ b
          → cached md5 other cache ≡ none
          → (if b then some (derive_key md5 n other) else cached md5 key cache) ≡ some v
      added false f m = e
      added true f m = absurd (cc (ap (λ k. cached md5 k cache) (equal_bytes-eq other key f)))

      looked :
          (o : Option Bytes)
          → cached md5 other cache ≡ o
          → cached md5 key (key_from md5 n other cache o).1 ≡ some v
      looked (some found) f = e
      looked none f = added (equal_bytes other key) refl f

      go :
          (b : Bool)
          → cached md5 key
              (if b then key_from md5 n other cache (cached md5 other cache) else (other, cache)).1
            ≡ some v
      go true = looked (cached md5 other cache) refl
      go false = e

  after_uses-keeps :
      (uses : List (ℕ × Bool × Bytes)) (key v : Bytes) (cache : List (Bytes × Bytes))
      → cached md5 key cache ≡ some v
      → cached md5 key (after_uses md5 uses cache) ≡ some v
  unfolding after_uses
  after_uses-keeps [] key v cache e = e
  after_uses-keeps ((n, setup_key, other) ∷ uses) key v cache e =
      after_uses-keeps uses key v (base_key md5 n setup_key other cache).1
        (base_key-keeps n setup_key other key v cache e)

  cached-base_key :
      (n : ℕ) (key v : Bytes) (cache : List (Bytes × Bytes))
      → 0 < n
      → cached md5 key cache ≡ some v
      → base_key md5 n true key cache ≡ (v, cache)
  unfolding base_key
  cached-base_key n key v cache h e = rw (lt→ltb 0 n h, e) refl

  first-base_key :
      (n : ℕ) (key : Bytes)
      → 0 < n
      → base_key md5 n true key [] ≡ (derive_key md5 n key, (key, derive_key md5 n key) ∷ [])
  unfolding base_key
  first-base_key n key h = rw (lt→ltb 0 n h) refl

  -- With a digest of 16 bytes and an empty cache: a cipher class with a KEY_LENGTH above 0 that is the
  -- first to be used with a password gets a key of its KEY_LENGTH; and after any further uses of the
  -- ciphers, with this or other passwords, a class with a KEY_LENGTH above 0 gets the same key with
  -- this password, whatever its KEY_LENGTH.
  pub base_key-length :
      (first later : ℕ) (key : Bytes) (uses : List (ℕ × Bool × Bytes))
      → 0 < first
      → 0 < later
      → (let p = base_key md5 first true key [] in
          (length p.0 ≡ first) × ((base_key md5 later true key (after_uses md5 uses p.1)).0 ≡ p.0))
  base_key-length first later key uses h k =
      let v = derive_key md5 first key in
      let cache : List (Bytes × Bytes) = (key, v) ∷ [] in
      let found : cached md5 key cache ≡ some v = rw (equal_bytes_refl key) refl in
      rw (first-base_key first key h) (
        length-derive_key first key,
        ap (λ p. p.0)
            (cached-base_key later key v (after_uses md5 uses cache) k
              (after_uses-keeps uses key v cache found)),
      )

module _ (hmac : Bytes → Bytes → Bytes) (digests : (k x : Bytes) → length (hmac k x) ≡ 20) where
  length-expand_blocks :
      (randkey : Bytes) (count counter : ℕ) (output_block okm : Bytes)
      → length (expand_blocks hmac randkey count counter output_block okm) ≡ length okm + 20 * count
  unfolding expand_blocks
  length-expand_blocks randkey zero counter output_block okm = omega arith
  length-expand_blocks randkey (suc count) counter output_block okm =
      let input : Bytes = output_block ++ subkey hmac ++ (counter + 1) ∷ [] in
      let block : Bytes = hmac randkey input in
      omega (
        arith,
        length-expand_blocks randkey count (counter + 1) block (okm ++ block),
        length-append okm block,
        digests randkey input,
      )

  -- With an HMAC of 20 bytes, the session key of an AEAD cipher has exactly its KEY_LENGTH, at every
  -- IV.
  pub length-session_key :
      (key_length : ℕ) (key iv : Bytes) → length (session_key hmac key_length key iv) ≡ key_length
  unfolding session_key
  length-session_key key_length key iv =
      let randkey : Bytes = hmac iv key in
      let count = (key_length + length randkey - 1) / length randkey in
      let enough : key_length ≤ 20 * ((key_length + 20 - 1) / 20) = omega arith in
      length-take key_length (expand_blocks hmac randkey count 0 [] [])
      ∙ omega (
        arith,
        length-expand_blocks randkey count 0 [] [],
        enough,
        ap (λ (n : ℕ). (key_length + n - 1) / n) (digests iv key),
      )
