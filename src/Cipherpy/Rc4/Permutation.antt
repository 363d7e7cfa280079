-- ===== src/Cipherpy/Rc4/Permutation.antt =====
-- The table of RC4 stays a permutation of the bytes.
use python_proxy.Base.{ℕ, zero, suc, ◌+◌, ◌<◌, ◌≡◌, List, [], ◌∷◌, ◌==◌, if◌then◌else◌, length}
use python_proxy.Cipherpy.Rc4.{Rc4, rc4_next}

abbrev pub hit : ℕ → ℕ → ℕ
hit v w = if v == w then 1 else 0

-- How often a value stands in a list.
abbrev pub occurrences : ℕ → List ℕ → ℕ
occurrences v [] = 0
occurrences v (w ∷ ws) = hit v w + occurrences v ws

-- Each byte stands in the table once.
pub record IsPermutation (table : List ℕ) : Type 0 where
  pub size : length table ≡ 256
  pub once : (v : ℕ) → v < 256 → occurrences v table ≡ 1

-- After any number of bytes.
pub after_bytes : ℕ → Rc4 → Rc4
after_bytes zero s = s
after_bytes (suc n) s = (rc4_next (after_bytes n s)).1

pub record IsRc4 (s : Rc4) : Type 0 where
  pub permutation : IsPermutation s.table
  pub x_byte : s.x < 256
  pub y_byte : s.y < 256
