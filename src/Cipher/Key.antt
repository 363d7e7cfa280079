-- ===== src/Cipher/Key.antt =====
-- pproxy/cipher.py: `BaseCipher.__init__`, which derives a key and keeps it in `CACHE`, and the
-- derivation in `AEADCipher.setup_iv`. `hashlib.md5` and `hmac.new(..., sha1)` are parameters.
pub mod Laws
use python_proxy.Base.{
  ℕ, zero, suc, ◌+◌, ◌-◌, ◌/◌, ◌≡◌, Bool, true, false, Option, none, some, List, [], ◌∷◌, ◌++◌,
  ◌&&◌, ltb, if◌then◌else◌, length, take, Bytes,
}
use python_proxy.Cipherpy.Process.{equal_bytes}

module _ (md5 : Bytes → Bytes) where
  -- The `while` over `keybuf`, with its last entry and what its entries join to, and with fuel.
  unfoldable pub key_blocks : ℕ → ℕ → Bytes → Bytes → Bytes → Bytes
  key_blocks key_length zero key last joined = joined
  key_blocks key_length (suc fuel) key last joined =
      let block = md5 (last ++ key) in
      let rest = key_blocks key_length fuel key block (joined ++ block) in
      if ltb (length joined) key_length then rest else joined

  unfoldable pub derive_key : ℕ → Bytes → Bytes
  derive_key key_length key = take key_length (key_blocks key_length key_length key [] [])

  -- `CACHE`, by the password behind `key`.
  abbrev pub cached : Bytes → List (Bytes × Bytes) → Option Bytes
  cached key [] = none
  cached key (e ∷ cache) = if equal_bytes e.0 key then some e.1 else cached key cache

  -- The key of the cipher, and the cache.
  abbrev pub key_from :
      ℕ → Bytes → List (Bytes × Bytes) → Option Bytes → Bytes × List (Bytes × Bytes)
  key_from key_length key cache (some found) = (found, cache)
  key_from key_length key cache none =
      (derive_key key_length key, (key, derive_key key_length key) ∷ cache)

  unfoldable pub base_key : ℕ → Bool → Bytes → List (Bytes × Bytes) → Bytes × List (Bytes × Bytes)
  base_key key_length setup_key key cache =
      if ltb 0 key_length && setup_key
      then key_from key_length key cache (cached key cache)
      else (key, cache)

  -- Any uses of the ciphers in their order: the KEY_LENGTH, `setup_key` and the password of each.
  unfoldable pub after_uses : List (ℕ × Bool × Bytes) → List (Bytes × Bytes) → List (Bytes × Bytes)
  unfolding base_key
  after_uses [] cache = cache
  after_uses ((n, setup_key, key) ∷ uses) cache = after_uses uses (base_key n setup_key key cache).1

module _ (hmac : Bytes → Bytes → Bytes) where
  abbrev pub subkey : Bytes
  subkey = b's' ∷ b's' ∷ b'-' ∷ b's' ∷ b'u' ∷ b'b' ∷ b'k' ∷ b'e' ∷ b'y' ∷ []

  -- The `for` over the blocks, from `counter` on.
  unfoldable pub expand_blocks : Bytes → ℕ → ℕ → Bytes → Bytes → Bytes
  expand_blocks randkey zero counter output_block okm = okm
  expand_blocks randkey (suc count) counter output_block okm =
      let block = hmac randkey (output_block ++ subkey ++ (counter + 1) ∷ []) in
      expand_blocks randkey count (counter + 1) block (okm ++ block)

  -- The session key at an IV.
  unfoldable pub session_key : ℕ → Bytes → Bytes → Bytes
  session_key key_length key iv =
      let randkey = hmac iv key in
      take key_length
        (expand_blocks randkey ((key_length + length randkey - 1) / length randkey) 0 [] [])
