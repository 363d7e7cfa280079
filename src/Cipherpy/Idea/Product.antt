-- ===== src/Cipherpy/Idea/Product.antt =====
-- The product of IDEA against multiplication modulo 65537, where 0 stands for 65536.
use python_proxy.Base.{
  ℕ, zero, suc, ◌+◌, ◌-◌, ◌*◌, ◌/◌, ◌%◌, ◌<◌, ◌≤◌, ◌≡◌, ◌↔◌, ◌⊎◌, ◌==◌, if◌then◌else◌, refl, ltb,
  arith, Bool-cases, inl, inr, ltb→lt, ltb_false→le, ap, ◌∙◌,
}
use python_proxy.Cipherpy.Idea.{idea_product}

-- The number that a word stands for, and the word of a number.
abbrev pub idea_number : ℕ → ℕ
idea_number w = if w == 0 then 65536 else w

abbrev pub idea_word : ℕ → ℕ
idea_word n = n % 65537 % 65536

product_lt : (a b : ℕ) → a < 65536 → b < 65536 → a * b < 65536 * 65536
product_lt a b h k = grind arith

folds :
    (p : ℕ)
    → p < 65536 * 65536
    → (p - p / 65536 + (if ltb (p % 65536) (p / 65536) then 1 else 0)) % 65536 ≡ p % 65537 % 65536
folds p h = elim (Bool-cases (ltb (p % 65536) (p / 65536))) [
  | inl e ↦ let less = ltb→lt _ _ e in rw e (omega (arith, less, h))
  | inr e ↦ let more = ltb_false→le _ _ e in rw e (omega (arith, more, h))
]

number_suc : (n : ℕ) → idea_number (suc n) ≡ suc n
number_suc n = ground arith

number_zero : idea_number 0 ≡ 65536
number_zero = refl

times_zero : (n : ℕ) → n * 0 ≡ 0
times_zero n = omega arith

-- The branch for `a` not zero, and for `a` zero.
product_suc :
    (a b : ℕ)
    → idea_product (suc a) b
      ≡ (suc a * b
          - suc a * b / 65536
          + (if ltb (suc a * b % 65536) (suc a * b / 65536) then 1 else 0))
        % 65536
unfolding idea_product
product_suc a b = ground arith

product_zero : (b : ℕ) → idea_product 0 b ≡ (65537 - b) % 65536
unfolding idea_product
product_zero b = refl

fits_zero :
    (a : ℕ)
    → suc a < 65536
    → (0 ≡ idea_word (idea_number (suc a) * idea_number 0)) ↔ ((0 < 0) ⊎ (suc a ≤ 1))
fits_zero a h =
    rw (number_suc a) (by_word (suc a * idea_number 0) (ap (λ n. suc a * n) number_zero))
  where
    by_word : (n : ℕ) → n ≡ suc a * 65536 → (0 ≡ idea_word n) ↔ ((0 < 0) ⊎ (suc a ≤ 1))
    by_word n e = (
      λ z. inr (omega (arith, e, z, h)),
      λ c. elim c [ inl lt ↦ absurd (omega (arith, lt)) | inr le ↦ omega (arith, e, le) ],
    )

-- For words below 65536, the product is the word of the product of their numbers modulo 65537 exactly
-- when `b` is positive or `a` is at most 1.
pub idea_product-eq_iff :
    (a b : ℕ)
    → a < 65536
    → b < 65536
    → (idea_product a b ≡ idea_word (idea_number a * idea_number b)) ↔ ((0 < b) ⊎ (a ≤ 1))
idea_product-eq_iff zero zero h k = (λ e. inr (omega arith), λ c. product_zero 0)
idea_product-eq_iff zero (suc b) h k =
    (λ e. inr (omega arith), λ c. product_zero (suc b) ∙ rw (number_suc b) (omega (arith, k)))
idea_product-eq_iff (suc a) zero h k = rw zero_product (fits_zero a h)
  where
    zero_product : idea_product (suc a) 0 ≡ 0
    zero_product = product_suc a 0 ∙ rw (times_zero (suc a)) refl
idea_product-eq_iff (suc a) (suc b) h k = (
  λ e. inl (omega arith),
  λ c.
      product_suc a (suc b)
      ∙ folds (suc a * suc b) (product_lt (suc a) (suc b) h k)
      ∙ rw (number_suc a) (rw (number_suc b) refl),
)
