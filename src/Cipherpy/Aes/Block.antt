-- ===== src/Cipherpy/Aes/Block.antt =====
-- AES is a block primitive of 16 bytes, and GCM with it an AEAD backend.
use python_proxy.Base.{
  ℕ, zero, suc, ◌+◌, ◌*◌, ◌≡◌, ◌⊎◌, inl, inr, refl, ap, subst, ◌∙◌, some, List, [], ◌∷◌, bit_xor,
  bit_xor-lt, get_or, length, take, drop, to_big-lt, big, All, Bytes, IsBytes, arith,
}
use python_proxy.Cipher.Aead.{IsBackend}
use python_proxy.Cipherpy.Aes.{
  g1, shift, positions, rounds_of, expand_key, round_keys, keys_of, aes_new, aes_round, last_round,
  aes_rounds, aes_block, block_of, aes_encrypt,
}
use python_proxy.Base.ByteLists.{get_or-IsBytes, map-IsBytes, take-IsBytes, drop-IsBytes}
use python_proxy.Cipherpy.Aes.Schedule.{g1-IsBytes, expand_key-IsBytes}
use python_proxy.Cipherpy.Gcm.{IsBlock, gcm_setup, gcm_backend}
use python_proxy.Cipherpy.Gcm.Bounds.{Word}
use python_proxy.Cipherpy.Gcm.Laws.{gcm-IsBackend}

round_keys-IsBytes : (n : ℕ) (ekey : Bytes) → IsBytes ekey → All IsBytes (round_keys n ekey)
unfolding round_keys
round_keys-IsBytes zero ekey h = tt
round_keys-IsBytes (suc n) ekey h =
    (take-IsBytes 16 ekey h, round_keys-IsBytes n (drop 16 ekey) (drop-IsBytes 16 ekey h))

last_round-IsBytes : (key s : Bytes) → IsBytes key → IsBytes (last_round key s)
unfolding last_round
last_round-IsBytes key s h =
    map-IsBytes (λ j. bit_xor (get_or g1 (get_or s (shift j 0) 0) 0) (get_or key j 0)) positions
      (λ j.
        bit_xor-lt 8 _ _ (get_or-IsBytes g1 (get_or s (shift j 0) 0) g1-IsBytes)
          (get_or-IsBytes key j h))

length-last_round : (key s : Bytes) → length (last_round key s) ≡ 16
unfolding last_round
length-last_round key s = refl

-- A block of 16 bytes.
abbrev IsWhole : Bytes → Type 0
IsWhole block = (length block ≡ 16) × IsBytes block

aes_rounds-IsWhole :
    (key : Bytes) (keys : List Bytes) (s : Bytes)
    → All IsBytes (key ∷ keys)
    → IsWhole (aes_rounds (key ∷ keys) s)
unfolding aes_rounds
aes_rounds-IsWhole key [] s h = (length-last_round key s, last_round-IsBytes key s h.0)
aes_rounds-IsWhole key (next ∷ keys) s h = aes_rounds-IsWhole next keys (aes_round key s) h.1

aes_block-IsWhole :
    (first next : Bytes) (keys : List Bytes) (block : Bytes)
    → All IsBytes (next ∷ keys)
    → IsWhole (aes_block (first ∷ next ∷ keys) block)
unfolding aes_block
aes_block-IsWhole first next keys block h = aes_rounds-IsWhole next keys _ h

scheduled-IsWhole :
    (nbr : ℕ) (whole block : Bytes)
    → IsBytes whole
    → IsWhole (aes_block (round_keys (suc nbr + 1) whole) block)
scheduled-IsWhole nbr whole block h =
    subst (λ (n : ℕ). IsWhole (aes_block (round_keys n whole) block)) {x = suc (suc nbr)}
      {y = suc nbr + 1} (omega arith)
      (unfold round_keys in
        aes_block-IsWhole (take 16 whole) (take 16 (drop 16 whole))
          (round_keys nbr (drop 16 (drop 16 whole))) block
          (
            take-IsBytes 16 (drop 16 whole) (drop-IsBytes 16 whole h),
            round_keys-IsBytes nbr (drop 16 (drop 16 whole))
                (drop-IsBytes 16 (drop 16 whole) (drop-IsBytes 16 whole h)),
          ))

-- What `AES(key)` gives.
pub record Expanded (key : Bytes) : Type 0 where
  pub ekey : List Bytes
  pub made : aes_new key ≡ some ekey
  pub blocks : (n : ℕ) → Word n → IsBlock (aes_encrypt ekey) n

with_rounds :
    (key : Bytes) (nbr : ℕ) → rounds_of (length key) ≡ some (suc nbr) → IsBytes key → Expanded key
with_rounds key nbr e h =
    let limit = 16 * (suc nbr + 1) in
    let whole = expand_key (length key) limit limit key in
    let bytes = expand_key-IsBytes (length key) limit limit key h in
    record {
      ekey = round_keys (suc nbr + 1) whole;
      made = unfold aes_new in ap (keys_of key) e;
      blocks = λ n w. encrypts whole bytes n w;
    }
  where
    encrypts :
        (whole : Bytes)
        → IsBytes whole
        → (n : ℕ) → Word n
        → IsBlock (aes_encrypt (round_keys (suc nbr + 1) whole)) n
    encrypts whole bytes n w =
        let k = scheduled-IsWhole nbr whole (big 16 n) bytes in
        record {
          block = aes_block (round_keys (suc nbr + 1) whole) (big 16 n);
          succeeds =
              unfold aes_encrypt in
              ap (block_of (round_keys (suc nbr + 1) whole)) (to_big-lt 16 n (omega (arith, w)));
          size = k.0;
          bytes = k.1;
        }

rounds_16 : rounds_of 16 ≡ some 10
unfolding rounds_of
rounds_16 = refl

rounds_24 : rounds_of 24 ≡ some 12
unfolding rounds_of
rounds_24 = refl

rounds_32 : rounds_of 32 ≡ some 14
unfolding rounds_of
rounds_32 = refl

pub aes_new-Expanded :
    (key : Bytes)
    → IsBytes key
    → (length key ≡ 16) ⊎ ((length key ≡ 24) ⊎ (length key ≡ 32))
    → Expanded key
aes_new-Expanded key h (inl e) = with_rounds key 9 (ap rounds_of e ∙ rounds_16) h
aes_new-Expanded key h (inr (inl e)) = with_rounds key 11 (ap rounds_of e ∙ rounds_24) h
aes_new-Expanded key h (inr (inr e)) = with_rounds key 13 (ap rounds_of e ∙ rounds_32) h

-- With every key of 16, 24 or 32 bytes, AES expands the key, GCM over it sets up, and seals every
-- text of a packet without an exception, in a chunk of its length and a tag of 16 bytes, and opens
-- what it sealed.
pub aes_gcm-IsBackend :
    (key : Bytes)
    → IsBytes key
    → (length key ≡ 16) ⊎ ((length key ≡ 24) ⊎ (length key ≡ 32))
    → (ekey : List Bytes) × (hkey : List ℕ) × (aes_new key ≡ some ekey)
      × (gcm_setup (aes_encrypt ekey) ≡ some hkey)
      × IsBackend (gcm_backend (aes_encrypt ekey) hkey)
aes_gcm-IsBackend key h sizes =
    let a = aes_new-Expanded key h sizes in
    let g = gcm-IsBackend (aes_encrypt a.ekey) a.blocks in (a.ekey, g.0, a.made, g.1, g.2)
