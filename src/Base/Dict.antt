-- ===== src/Base/Dict.antt =====
-- Python's dictionaries, by numbers: pairs in the order of insertion.
pub mod Laws
pub mod Put
use Prim.Native.Nat.{ℕ, zero, suc, ◌+◌, ◌≤◌}
use mathlib.Core.Path.{◌≡◌, refl, sym, ap, ◌∙◌}
use mathlib.Core.Logic.{inl, inr}
use mathlib.Core.Bool.{Bool, true, false}
use mathlib.Core.Option.{Option, none, some}
use mathlib.Core.List.{List, [], ◌∷◌, ◌++◌}
use native.Mathlib.Omega.{arith}
use python_proxy.Base.Tests.{◌==◌, ==_iff, if◌then◌else◌, Bool-cases}
use python_proxy.Base.Lists.{length}

abbrev pub Dict : Type 0 → Type 0
Dict V = List (ℕ × V)

module _ {V : Type 0} where
  abbrev pub find : ℕ → Dict V → Option V
  find k [] = none
  find k (e ∷ d) = if e.0 == k then some e.1 else find k d

  abbrev pub put : ℕ → V → Dict V → Dict V
  put k v [] = (k, v) ∷ []
  put k v (e ∷ d) = if e.0 == k then (k, v) ∷ d else e ∷ put k v d

  abbrev pub remove : ℕ → Dict V → Dict V
  remove k [] = []
  remove k (e ∷ d) = if e.0 == k then remove k d else e ∷ remove k d

  -- No key stands twice.
  abbrev pub Unique : Dict V → Type 0
  Unique [] = Unit
  Unique (e ∷ d) = (find e.0 d ≡ none) × Unique d
