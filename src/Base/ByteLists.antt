-- ===== src/Base/ByteLists.antt =====
-- Lists of bytes stay lists of bytes.
use Prim.Native.Nat.{ℕ, zero, suc, ◌<◌}
use mathlib.Core.Path.{◌≡◌}
use mathlib.Core.Bool.{Bool, true, false, ◌&&◌}
use mathlib.Core.List.{List, [], ◌∷◌, ◌++◌, map}
use native.Mathlib.Omega.{arith}
use python_proxy.Base.Tests.{ltb, if◌then◌else◌}
use python_proxy.Base.Lists.{take, drop, get_or}
use python_proxy.Base.Codec.{Bytes, IsBytes}

-- A literal list is checked by evaluation.
abbrev pub all_bytes : Bytes → Bool
all_bytes [] = true
all_bytes (b ∷ bs) = ltb b 256 && all_bytes bs

pub all_bytes-IsBytes : (bs : Bytes) → all_bytes bs ≡ true → IsBytes bs
all_bytes-IsBytes [] h = tt
all_bytes-IsBytes (b ∷ bs) h = (ground arith, all_bytes-IsBytes bs (ground arith))

pub get_or-IsBytes : (bs : Bytes) (i : ℕ) → IsBytes bs → get_or bs i 0 < 256
get_or-IsBytes [] i h = omega arith
get_or-IsBytes (b ∷ bs) zero h = h.0
get_or-IsBytes (b ∷ bs) (suc i) h = get_or-IsBytes bs i h.1

pub map-IsBytes : (f : ℕ → ℕ) (xs : List ℕ) → ((x : ℕ) → f x < 256) → IsBytes (map f xs)
map-IsBytes f [] h = tt
map-IsBytes f (x ∷ xs) h = (h x, map-IsBytes f xs h)

pub append-IsBytes : (a b : Bytes) → IsBytes a → IsBytes b → IsBytes (a ++ b)
append-IsBytes [] b h k = k
append-IsBytes (x ∷ a) b h k = (h.0, append-IsBytes a b h.1 k)

pub take-IsBytes : (n : ℕ) (bs : Bytes) → IsBytes bs → IsBytes (take n bs)
take-IsBytes zero bs h = tt
take-IsBytes (suc n) [] h = tt
take-IsBytes (suc n) (b ∷ bs) h = (h.0, take-IsBytes n bs h.1)

pub drop-IsBytes : (n : ℕ) (bs : Bytes) → IsBytes bs → IsBytes (drop n bs)
drop-IsBytes zero bs h = h
drop-IsBytes (suc n) [] h = tt
drop-IsBytes (suc n) (b ∷ bs) h = drop-IsBytes n bs h.1

pub choose-IsBytes : (b : Bool) (x y : Bytes) → IsBytes x → IsBytes y → IsBytes (if b then x else y)
choose-IsBytes true x y h k = h
choose-IsBytes false x y h k = k
