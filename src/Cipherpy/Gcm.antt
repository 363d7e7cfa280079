-- ===== src/Cipherpy/Gcm.antt =====
-- `GCMCipher`: `setup`, and `process` as an instance of Cipherpy/Process. The block primitive of
-- `CIPHER.new(key)`, on a number, is the parameter `encrypt`; `none` is an exception.
pub mod Bounds
pub mod Laws
use python_proxy.Base.{
  ℕ, zero, suc, ◌+◌, ◌-◌, ◌*◌, ◌/◌, ◌%◌, ◌^◌, ◌≡◌, ◌<◌, Option, none, some, List, [], ◌∷◌, ◌++◌,
  bit_and, bit_or, bit_xor, ◌==◌, if◌then◌else◌, length, take, drop, replicate, from_big, to_big,
  Bytes, IsBytes,
}
use python_proxy.Cipher.Aead.{Backend}
use python_proxy.Cipherpy.Process.{process_backend}

-- One doubling of `x` in `setup`.
unfoldable pub halved : ℕ → ℕ
halved x = if bit_and x 1 == 0 then x / 2 else bit_xor (x / 2) (0xe1 * 2 ^ 120)

-- The loop of `setup`, which inserts each `x` at the front of `hkey`.
unfoldable pub key_table : ℕ → ℕ → List ℕ → List ℕ
key_table zero x hkey = hkey
key_table (suc n) x hkey = key_table n (halved x) (x ∷ hkey)

-- `multh`: `index` counts the bits of `y`, with the entries of `hkey` along it.
unfoldable pub multh_from : ℕ → List ℕ → ℕ → ℕ → ℕ
multh_from index [] y z = z
multh_from index (h ∷ hs) y z =
    multh_from (index + 1) hs y (if bit_and y (2 ^ index) == 0 then z else bit_xor z h)

unfoldable pub multh : List ℕ → ℕ → ℕ
multh hkey y = multh_from 0 hkey y 0

-- The `for` of `ghash`, over blocks of 16 bytes.
unfoldable pub ghash_from : List ℕ → ℕ → Bytes → ℕ → ℕ
ghash_from hkey zero dt z = z
ghash_from hkey (suc count) dt z =
    ghash_from hkey count (drop 16 dt) (multh hkey (bit_xor z (from_big (take 16 dt))))

abbrev pub padded : Bytes → Bytes
padded d = d ++ replicate ((16 - length d % 16) % 16) 0

unfoldable pub ghash : List ℕ → Bytes → ℕ
ghash hkey d =
    multh hkey
      (bit_xor (ghash_from hkey ((length (padded d) + 15) / 16) (padded d) 0) (length d * 8))

-- Bytes against the key bytes at the same places, as far as there are bytes.
unfoldable pub xor_zip : Bytes → Bytes → Bytes
xor_zip [] ks = []
xor_zip (b ∷ bs) [] = []
xor_zip (b ∷ bs) (k ∷ ks) = bit_xor b k ∷ xor_zip bs ks

module _ (encrypt : ℕ → Option Bytes) where
  abbrev pub table_of : Option Bytes → Option (List ℕ)
  table_of none = none
  table_of (some block) = some (key_table 128 (from_big block) [])

  -- `setup`: the table `hkey`.
  unfoldable pub gcm_setup : Option (List ℕ)
  gcm_setup = table_of (encrypt 0)

  abbrev pub shifted_nonce : Bytes → ℕ
  shifted_nonce nonce = from_big nonce * 2 ^ 32

  abbrev pub append_blocks : Option Bytes → Option Bytes → Option Bytes
  append_blocks none rest = none
  append_blocks (some block) none = none
  append_blocks (some block) (some rest) = some (block ++ rest)

  -- The encrypted counters `i + 2`, from `i` on; each is a block of 16 bytes.
  unfoldable pub counter_blocks : ℕ → ℕ → ℕ → Option Bytes
  counter_blocks zero i z = some []
  counter_blocks (suc count) i z =
      append_blocks (encrypt (bit_or z (bit_and (i + 2) (2 ^ 32 - 1))))
        (counter_blocks count (i + 1) z)

  abbrev pub xor_all : Bytes → Option Bytes → Option Bytes
  xor_all s none = none
  xor_all s (some ks) = some (xor_zip s ks)

  -- `ret` of `process`.
  unfoldable pub gcm_crypt : Bytes → Bytes → Option Bytes
  gcm_crypt nonce s = xor_all s (counter_blocks ((length s + 15) / 16) 0 (shifted_nonce nonce))

  abbrev pub mac_of : List ℕ → ℕ → Bytes → Option Bytes → Option Bytes
  mac_of hkey tag_length s none = none
  mac_of hkey tag_length s (some block) =
      to_big tag_length (bit_xor (ghash hkey s) (from_big block))

  -- `(ghash(s)^h).to_bytes(TAG_LENGTH, 'big')`.
  unfoldable pub gcm_mac : List ℕ → Bytes → Bytes → Option Bytes
  gcm_mac hkey nonce s = mac_of hkey 16 s (encrypt (bit_or (shifted_nonce nonce) 1))

  abbrev pub gcm_backend : List ℕ → Backend
  gcm_backend hkey = process_backend gcm_crypt (gcm_mac hkey) 12 16

  -- What a block primitive owes: a block of 16 bytes for every number of 128 bits.
  pub record IsBlock (n : ℕ) : Type 0 where
    pub block : Bytes
    pub succeeds : encrypt n ≡ some block
    pub size : length block ≡ 16
    pub bytes : IsBytes block
