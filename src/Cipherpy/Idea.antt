-- ===== src/Cipherpy/Idea.antt =====
-- `IDEA`: the key schedule and the encryption of a block. Some sums are not cut to 16 bits where the
-- source does not cut them.
pub mod Product
use python_proxy.Base.{
  ℕ, zero, suc, ◌+◌, ◌-◌, ◌*◌, ◌/◌, ◌%◌, ◌^◌, List, [], ◌∷◌, ◌++◌, bit_and, bit_or, bit_xor, ltb,
  ◌==◌, if◌then◌else◌, length, take, drop, get_or, Bytes, big, from_big, map,
}

-- `M`. `1-b` and `1-a` are cut to 16 bits.
unfoldable pub idea_product : ℕ → ℕ → ℕ
idea_product a b =
    if a == 0
    then (65537 - b) % 65536
    else (a * b - a * b / 65536 + (if ltb (a * b % 65536) (a * b / 65536) then 1 else 0)) % 65536

-- `struct.unpack('>8H', key)`, and `'>4H'`.
unfoldable pub big_words : ℕ → Bytes → List ℕ
big_words zero bytes = []
big_words (suc n) bytes = from_big (take 2 bytes) ∷ big_words n (drop 2 bytes)

-- The `for` of `__init__`, from `i` on.
abbrev pub next_subkey : ℕ → List ℕ → ℕ
next_subkey i e =
    bit_or (get_or e (bit_or (bit_and (i - 8) 0xf8) (bit_and (i + 1) 0x7)) 0 % 128 * 512)
      (get_or e (bit_or (bit_and (i - 8) 0xf8) (bit_and (i + 2) 0x7)) 0 / 128)

unfoldable pub subkeys : ℕ → ℕ → List ℕ → List ℕ
subkeys zero i e = e
subkeys (suc n) i e = subkeys n (suc i) (e ++ (next_subkey i e ∷ []))

unfoldable pub idea_key : Bytes → List ℕ
unfolding big_words subkeys
idea_key key = subkeys 44 8 (big_words 8 key)

pub record Block : Type 0 where
  pub s0 : ℕ
  pub s1 : ℕ
  pub s2 : ℕ
  pub s3 : ℕ

-- A round with its six subkeys, which begin at `k`.
unfoldable pub idea_round : List ℕ → ℕ → Block → Block
unfolding idea_product
idea_round e k s =
    let t0 = idea_product s.s0 (get_or e k 0) in
    let o1 = s.s1 + get_or e (k + 1) 0 in
    let o2 = (s.s2 + get_or e (k + 2) 0) % 65536 in
    let t3 = idea_product s.s3 (get_or e (k + 3) 0) in
    let t2 = idea_product (bit_xor o2 t0) (get_or e (k + 4) 0) in
    let t1 = idea_product ((bit_xor o1 t3 + t2) % 65536) (get_or e (k + 5) 0) in
    record {
      s0 = bit_xor t0 t1;
      s1 = bit_xor t1 o2;
      s2 = bit_xor (t2 + t1) o1;
      s3 = bit_xor t3 ((t2 + t1) % 65536);
    }

unfoldable pub idea_rounds : ℕ → ℕ → List ℕ → Block → Block
unfolding idea_round
idea_rounds zero k e s = s
idea_rounds (suc n) k e s = idea_rounds n (k + 6) e (idea_round e k s)

-- The last lines of `encrypt`, with the subkeys from 48 on.
abbrev pub idea_output : List ℕ → Block → Bytes
idea_output e s =
    big 2 (idea_product s.s0 (get_or e 48 0))
    ++ (big 2 ((s.s2 + get_or e 49 0) % 65536)
        ++ (big 2 ((s.s1 + get_or e 50 0) % 65536) ++ big 2 (idea_product s.s3 (get_or e 51 0))))

unfoldable pub idea_encrypt : List ℕ → Bytes → Bytes
unfolding idea_rounds big_words idea_product
idea_encrypt e s =
    let w = big_words 4 s in
    idea_output e (
      idea_rounds 8 0 e
        (record { s0 = get_or w 0 0; s1 = get_or w 1 0; s2 = get_or w 2 0; s3 = get_or w 3 0 }))
