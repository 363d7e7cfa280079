-- ===== src/Cipherpy/Feedback/Laws.antt =====
-- CFB mode decrypts what it encrypts, and the counter of CTR mode goes round.
use python_proxy.Base.{
  ℕ, zero, suc, ◌+◌, ◌-◌, ◌*◌, ◌%◌, ◌^◌, ◌<◌, ◌≡◌, refl, sym, ap, ap₂, ◌∙◌, Bool, true, false, some,
  [], ◌∷◌, bit_xor, bit_xor_cancel, leb, if◌then◌else◌, Bytes, arith,
}
use python_proxy.Cipherpy.Feedback.{send, Cfb, cfb_process, ctr_refill}
use native.Mathlib.Nat.{one-le-pow, mod-lt, mod_self, mod-eq_of_lt, mod-add-mod}

module _ (encrypt : Bytes → Bytes) (segment_byte : ℕ) where
  -- Whatever the block primitive and the size of a segment, decrypting what was encrypted from one
  -- and the same state gives the bytes back, and leaves both ends in one state: the feedback of
  -- both is the encrypted text.
  pub cfb_process_twice :
      (bytes : Bytes) (s : Cfb encrypt segment_byte)
      → cfb_process encrypt segment_byte true (cfb_process encrypt segment_byte false bytes s).0 s
        ≡ (bytes, (cfb_process encrypt segment_byte false bytes s).1)
  unfolding cfb_process
  cfb_process_twice [] s = refl
  cfb_process_twice (i ∷ bytes) s =
      let k = send encrypt segment_byte s.last s.stream in
      ap₂ (λ (x : ℕ) (p : Bytes × Cfb encrypt segment_byte). (x ∷ p.0, p.1)) (bit_xor_cancel i k.0)
        (cfb_process_twice bytes (record { stream = k.1; last = some (bit_xor i k.0) }))

module _ (encrypt : ℕ → Bytes) (iv_length : ℕ) where
  -- The counter that block `n` is made from.
  pub counter_at : ℕ → ℕ → ℕ
  counter_at zero c = c
  counter_at (suc n) c = (ctr_refill encrypt iv_length (counter_at n c)).1

  next_counter_mod : (c m : ℕ) → c < m → (if leb (m - 1) c then 0 else c + 1) ≡ (c + 1) % m
  next_counter_mod c m h = go (leb (m - 1) c) refl
    where
      go : (b : Bool) → leb (m - 1) c ≡ b → (if b then 0 else c + 1) ≡ (c + 1) % m
      go true e =
          let full : c + 1 ≡ m = ground (arith, e, h) in
          sym (ap (λ (x : ℕ). x % m) full ∙ mod_self m)
      go false e = sym (mod-eq_of_lt (ground (arith, e, h)))

  -- From a counter that fits, block `n` is made from the counter plus `n`, modulo the number of
  -- counters: the addition carries through the whole block and wraps.
  pub counter_at_lem :
      (n c : ℕ) → c < 2 ^ (iv_length * 8) → counter_at n c ≡ (c + n) % 2 ^ (iv_length * 8)
  unfolding counter_at ctr_refill
  counter_at_lem zero c h =
      sym (ap (λ (x : ℕ). x % 2 ^ (iv_length * 8)) (omega arith) ∙ mod-eq_of_lt h)
  counter_at_lem (suc n) c h =
      let m : ℕ = 2 ^ (iv_length * 8) in
      let pos : 0 < m = one-le-pow (iv_length * 8) 2 (omega arith) in
      let e : counter_at n c ≡ (c + n) % m = counter_at_lem n c h in
      next_counter_mod (counter_at n c) m (omega (arith, e, mod-lt (c + n) pos))
      ∙ ap (λ (x : ℕ). (x + 1) % m) e
      ∙ mod-add-mod (c + n) m 1
      ∙ ap (λ (x : ℕ). x % m) (omega arith)
