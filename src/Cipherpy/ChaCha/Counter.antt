-- ===== src/Cipherpy/ChaCha/Counter.antt =====
-- The block counter in the words 12 and 13 of a ChaCha20 state.
use python_proxy.Base.{
  ℕ, zero, suc, ◌+◌, ◌*◌, ◌^◌, ◌<◌, ◌≡◌, refl, subst, ◌∙◌, Bool, true, false, List, ◌==◌, ==_iff,
  if◌then◌else◌, length, length-set, get_or, set, get_or-set_same, get_or-set_other, arith,
}
use python_proxy.Cipherpy.ChaCha.{next_block}

abbrev pub block_counter : List ℕ → ℕ
block_counter h = get_or h 12 0 + 2 ^ 32 * get_or h 13 0

-- The state that block `n` is made from.
pub after_blocks : ℕ → List ℕ → List ℕ
after_blocks zero h = h
after_blocks (suc n) h = next_block (after_blocks n h)

record IsCounted (h : List ℕ) (count : ℕ) : Type 0 where
  pub size : length h ≡ 16
  pub low : get_or h 12 0 < 2 ^ 32
  pub value : block_counter h ≡ count

next_block-IsCounted :
    (h : List ℕ) (count : ℕ) → IsCounted h count → IsCounted (next_block h) (count + 1)
unfolding next_block
next_block-IsCounted h count c = go (get_or h 12 0 == 0xffffffff) refl
  where
    go :
        (b : Bool)
        → (get_or h 12 0 == 0xffffffff) ≡ b
        → IsCounted
            (if b then set (set h 12 0) 13 (get_or h 13 0 + 1) else set h 12 (get_or h 12 0 + 1))
            (count + 1)
    go true e =
        let at_limit = (==_iff (get_or h 12 0) 0xffffffff).0 e in
        let low : get_or (set (set h 12 0) 13 (get_or h 13 0 + 1)) 12 0 ≡ 0 =
          get_or-set_other (set h 12 0) 13 12 (get_or h 13 0 + 1) 0 (λ k. omega arith)
          ∙ get_or-set_same h 12 0 0 (omega (arith, c.size)) in
        let high : get_or (set (set h 12 0) 13 (get_or h 13 0 + 1)) 13 0 ≡ get_or h 13 0 + 1 =
          get_or-set_same (set h 12 0) 13 (get_or h 13 0 + 1) 0
            (omega (arith, length-set h 12 0, c.size)) in
        record {
          size = length-set (set h 12 0) 13 _ ∙ length-set h 12 0 ∙ c.size;
          low = omega (arith, low);
          value = omega (arith, low, high, at_limit, c.value);
        }
    go false e =
        let low : get_or (set h 12 (get_or h 12 0 + 1)) 12 0 ≡ get_or h 12 0 + 1 =
          get_or-set_same h 12 (get_or h 12 0 + 1) 0 (omega (arith, c.size)) in
        let high : get_or (set h 12 (get_or h 12 0 + 1)) 13 0 ≡ get_or h 13 0 =
          get_or-set_other h 12 13 (get_or h 12 0 + 1) 0 (λ k. omega arith) in
        record {
          size = length-set h 12 _ ∙ c.size;
          low = ground (arith, low, c.low, e);
          value = omega (arith, low, high, c.value);
        }

after_blocks-IsCounted :
    (n : ℕ) (h : List ℕ)
    → length h ≡ 16
    → get_or h 12 0 < 2 ^ 32
    → IsCounted (after_blocks n h) (block_counter h + n)
unfolding after_blocks
after_blocks-IsCounted zero h e k = record { size = e; low = k; value = omega arith }
after_blocks-IsCounted (suc n) h e k =
    subst (IsCounted (next_block (after_blocks n h))) (omega arith) (
      next_block-IsCounted (after_blocks n h) (block_counter h + n)
        (after_blocks-IsCounted n h e k))

-- From a state of 16 words whose word 12 is a 32-bit word, the two words of the counter, read as one
-- number, go up by one with each block, across the carry into word 13, and word 12 stays a 32-bit
-- word: no two blocks of a session are made at one value.
pub after_blocks-block_counter :
    (n : ℕ) (h : List ℕ)
    → length h ≡ 16
    → get_or h 12 0 < 2 ^ 32
    → (block_counter (after_blocks n h) ≡ block_counter h + n)
      × (get_or (after_blocks n h) 12 0 < 2 ^ 32)
after_blocks-block_counter n h e k = let c = after_blocks-IsCounted n h e k in (c.value, c.low)
