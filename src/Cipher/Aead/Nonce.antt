-- ===== src/Cipher/Aead/Nonce.antt =====
-- The sequence of nonces that the property `nonce` gives, from a fresh session on.
use native.Mathlib.Nat.{pow-suc, one-le-pow, mod-add-mod, mod-lt}
use python_proxy.Base.{
  ℕ, zero, suc, ◌+◌, ◌%◌, ◌^◌, ◌≤◌, ◌<◌, ◌≡◌, ◌↔◌, ap, sym, ◌∙◌, Option, none, some, arith, Bytes,
  bit_and-ones, little, from_little, from_little-little, to_little-lt,
}
use python_proxy.Cipher.Aead.{nonce_bytes, next_counter}

-- `_nonce` after `i` nonces have been drawn.
pub counter_after : ℕ → ℕ → ℕ
counter_after nonce_length zero = 0
counter_after nonce_length (suc i) = next_counter nonce_length (counter_after nonce_length i)

-- The nonce that is drawn then. `encrypt` draws two for each packet.
unfoldable pub nonce_of : ℕ → ℕ → Option Bytes
nonce_of nonce_length i = nonce_bytes nonce_length (counter_after nonce_length i)

pub next_counter_lem : (k c : ℕ) → next_counter k c ≡ (c + 1) % 2 ^ k
unfolding next_counter
next_counter_lem k c = bit_and-ones k (c + 1)

counter_after_lem : (k i : ℕ) → counter_after k i ≡ i % 2 ^ k
unfolding counter_after
counter_after_lem k zero = omega arith
counter_after_lem k (suc i) =
    next_counter_lem k (counter_after k i)
    ∙ ap (λ c. (c + 1) % 2 ^ k) (counter_after_lem k i)
    ∙ mod-add-mod i (2 ^ k) 1
    ∙ ap (λ (c : ℕ). c % 2 ^ k) (omega arith)

pub pow_two-le : (k : ℕ) → 2 ^ k ≤ 256 ^ k
pow_two-le zero = omega arith
pow_two-le (suc k) = omega (arith, pow-suc 2 k, pow-suc 256 k, pow_two-le k)

pub mod_fits : (k i : ℕ) → i % 2 ^ k < 256 ^ k
mod_fits k i = omega (arith, pow_two-le k, mod-lt i (one-le-pow k 2 (omega arith)))

nonce_of_lem : (k i : ℕ) → nonce_of k i ≡ some (little k (i % 2 ^ k))
unfolding nonce_of
nonce_of_lem k i = rw (counter_after_lem k i) (to_little-lt k (i % 2 ^ k) (mod_fits k i))

some-little :
    (k a b : ℕ)
    → a < 256 ^ k
    → b < 256 ^ k
    → ◌≡◌ {A = Option Bytes} (some (little k a)) (some (little k b))
    → a ≡ b
some-little k a b p q e =
    sym (from_little-little k a p)
    ∙ ap (λ (o : Option Bytes). elim o [ none ↦ 0 | some x ↦ from_little x ]) e
    ∙ from_little-little k b q

-- Two of the nonces that are drawn in a session, one after the other from its start, are equal exactly
-- when their places agree modulo 2 ^ NONCE_LENGTH.
pub nonce_of-eq_iff :
    (nonce_length i j : ℕ)
    → (nonce_of nonce_length i ≡ nonce_of nonce_length j)
      ↔ (i % 2 ^ nonce_length ≡ j % 2 ^ nonce_length)
nonce_of-eq_iff k i j = (
  λ e.
      some-little k (i % 2 ^ k) (j % 2 ^ k) (mod_fits k i) (mod_fits k j)
        (sym (nonce_of_lem k i) ∙ e ∙ nonce_of_lem k j),
  λ e. nonce_of_lem k i ∙ ap (λ c. some (little k c)) e ∙ sym (nonce_of_lem k j),
)
