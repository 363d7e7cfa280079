-- ===== src/Base/Codec.antt =====
-- Python's bytes as lists of numbers below 256: `int.to_bytes`, `int.from_bytes`, `os.urandom`.
use Prim.Native.Nat.{ℕ, zero, suc, ◌+◌, ◌*◌, ◌/◌, ◌%◌, ◌^◌, ◌<◌, ◌≤◌}
use mathlib.Core.Path.{◌≡◌, refl, ap, ◌∙◌}
use mathlib.Core.Option.{Option, none, some}
use mathlib.Core.List.{List, [], ◌∷◌, reverse, reverse_aux, reverse-reverse}
use native.Mathlib.Nat.{pow-suc}
use native.Mathlib.Omega.{arith}
use python_proxy.Base.Tests.{ltb, if◌then◌else◌, lt→ltb, ltb→lt, le→ltb, Bool-cases}
use mathlib.Core.Logic.{inl, inr}
use python_proxy.Base.Lists.{length, All}

abbrev pub Bytes : Type 0
Bytes = List ℕ

abbrev pub IsBytes : Bytes → Type 0
IsBytes = All (λ b. b < 256)

-- `int.from_bytes(value, 'little')`, and `'big'`.
abbrev pub from_little : Bytes → ℕ
from_little [] = 0
from_little (b ∷ bs) = b + 256 * from_little bs

unfoldable pub from_big : Bytes → ℕ
from_big bs = from_little (reverse bs)

-- The low `size` bytes of a number, lowest first.
abbrev pub little : ℕ → ℕ → Bytes
little zero v = []
little (suc size) v = v % 256 ∷ little size (v / 256)

unfoldable pub big : ℕ → ℕ → Bytes
big size v = reverse (little size v)

-- `v.to_bytes(size, 'big')`: `none` is its OverflowError.
unfoldable pub to_big : ℕ → ℕ → Option Bytes
to_big size v = if ltb v (256 ^ size) then some (big size v) else none

unfoldable pub to_little : ℕ → ℕ → Option Bytes
to_little size v = if ltb v (256 ^ size) then some (little size v) else none

pub length-little : (size v : ℕ) → length (little size v) ≡ size
length-little zero v = refl
length-little (suc size) v = ap suc (length-little size (v / 256))

length-reverse_aux {ℓ} :
    {A : Type ℓ} (xs ys : List A) → length (reverse_aux xs ys) ≡ length xs + length ys
length-reverse_aux [] ys = omega arith
length-reverse_aux (x ∷ xs) ys = omega (arith, length-reverse_aux xs (x ∷ ys))

pub length-reverse {ℓ} : {A : Type ℓ} (xs : List A) → length (reverse xs) ≡ length xs
length-reverse xs = omega (arith, length-reverse_aux xs [])

pub length-big : (size v : ℕ) → length (big size v) ≡ size
unfolding big
length-big size v = length-reverse (little size v) ∙ length-little size v

pub from_little-little : (size v : ℕ) → v < 256 ^ size → from_little (little size v) ≡ v
from_little-little zero v h = omega arith
from_little-little (suc size) v h =
    omega
      (arith, pow-suc 256 size, from_little-little size (v / 256) (omega (arith, pow-suc 256 size)))

-- Decoding undoes encoding on every number that fits.
pub from_big-big : (size v : ℕ) → v < 256 ^ size → from_big (big size v) ≡ v
unfolding from_big big
from_big-big size v h = rw (reverse-reverse (little size v)) (from_little-little size v h)

pub to_big-lt : (size v : ℕ) → v < 256 ^ size → to_big size v ≡ some (big size v)
unfolding to_big
to_big-lt size v h = rw (lt→ltb _ _ h)

pub to_big-le : (size v : ℕ) → 256 ^ size ≤ v → to_big size v ≡ none
unfolding to_big
to_big-le size v h = rw (le→ltb _ _ h) refl

pub to_little-lt : (size v : ℕ) → v < 256 ^ size → to_little size v ≡ some (little size v)
unfolding to_little
to_little-lt size v h = rw (lt→ltb _ _ h)

pub little-IsBytes : (size v : ℕ) → IsBytes (little size v)
little-IsBytes zero v = tt
little-IsBytes (suc size) v = (omega arith, little-IsBytes size (v / 256))

pub from_little-lt : (bs : Bytes) → IsBytes bs → from_little bs < 256 ^ length bs
from_little-lt [] h = omega arith
from_little-lt (b ∷ bs) h = omega (arith, pow-suc 256 (length bs), from_little-lt bs h.1, h.0)

reverse_aux-IsBytes : (xs ys : Bytes) → IsBytes xs → IsBytes ys → IsBytes (reverse_aux xs ys)
reverse_aux-IsBytes [] ys h k = k
reverse_aux-IsBytes (x ∷ xs) ys h k = reverse_aux-IsBytes xs (x ∷ ys) h.1 (h.0, k)

pub from_big-lt : (bs : Bytes) → IsBytes bs → from_big bs < 256 ^ length bs
unfolding from_big
from_big-lt bs h =
    rw (← length-reverse bs) (from_little-lt (reverse bs) (reverse_aux-IsBytes bs [] h tt))

pub big-IsBytes : (size v : ℕ) → IsBytes (big size v)
unfolding big
big-IsBytes size v = reverse_aux-IsBytes (little size v) [] (little-IsBytes size v) tt

-- Only what fits is encoded.
pub to_big-some :
    (size v : ℕ) (x : Bytes) → to_big size v ≡ some x → (v < 256 ^ size) × (x ≡ big size v)
unfolding to_big
to_big-some size v x e = elim (Bool-cases (ltb v (256 ^ size))) [
  | inl fits ↦ (ltb→lt _ _ fits, cc)
  | inr over ↦ absurd (cc)
]
