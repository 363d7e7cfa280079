-- ===== src/Base/Dict/Put.antt =====
-- Putting a value keeps keys apart, and counts.
use Prim.Native.Nat.{ℕ, suc}
use mathlib.Core.Path.{◌≡◌, refl, sym, ap, ◌∙◌}
use mathlib.Core.Logic.{inl, inr}
use mathlib.Core.Bool.{Bool, true, false}
use mathlib.Core.Option.{none, some}
use mathlib.Core.List.{[], ◌∷◌}
use python_proxy.Base.Tests.{◌==◌, ==_iff, if◌then◌else◌, Bool-cases}
use python_proxy.Base.Lists.{length}
use python_proxy.Base.Dict.{Dict, find, put, Unique}
use python_proxy.Base.Dict.Laws.{find-put}

flip_false : (j k : ℕ) → (j == k) ≡ false → (k == j) ≡ false
flip_false j k h = elim (Bool-cases (k == j)) [
  | inl e ↦
      let same : k ≡ j = (==_iff k j).0 e in
      let back : (j == k) ≡ true = (==_iff j k).1 (sym same) in cc
  | inr e ↦ e
]

module _ {V : Type 0} where
  pub length-put_present :
      (k : ℕ) (v w : V) (d : Dict V) → find k d ≡ some w → length (put k v d) ≡ length d
  length-put_present k v w [] h = absurd (cc)
  length-put_present k v w (e ∷ d) h = go (e.0 == k) h (length-put_present k v w d)
    where
      go :
          (b : Bool)
          → (if b then some e.1 else find k d) ≡ some w
          → (find k d ≡ some w → length (put k v d) ≡ length d)
          → length (if b then (k, v) ∷ d else e ∷ put k v d) ≡ suc (length d)
      go true f ih = refl
      go false f ih = ap suc (ih f)

  pub length-put_absent :
      (k : ℕ) (v : V) (d : Dict V) → find k d ≡ none → length (put k v d) ≡ suc (length d)
  length-put_absent k v [] h = refl
  length-put_absent k v (e ∷ d) h = go (e.0 == k) h (length-put_absent k v d)
    where
      go :
          (b : Bool)
          → (if b then some e.1 else find k d) ≡ none
          → (find k d ≡ none → length (put k v d) ≡ suc (length d))
          → length (if b then (k, v) ∷ d else e ∷ put k v d) ≡ suc (suc (length d))
      go true f ih = absurd (cc)
      go false f ih = ap suc (ih f)

  pub put-Unique : (k : ℕ) (v : V) (d : Dict V) → Unique d → Unique (put k v d)
  put-Unique k v [] u = (refl, tt)
  put-Unique k v (e ∷ d) u = go (e.0 == k) refl (put-Unique k v d u.1)
    where
      go :
          (b : Bool)
          → (e.0 == k) ≡ b
          → Unique (put k v d)
          → Unique (if b then (k, v) ∷ d else e ∷ put k v d)
      go true f ih =
          let same : e.0 ≡ k = (==_iff e.0 k).0 f in
          (ap (λ (j : ℕ). find j d) (sym same) ∙ u.0, u.1)
      go false f ih = (
        find-put k e.0 v d ∙ ap (λ b. if b then some v else find e.0 d) (flip_false e.0 k f) ∙ u.0,
        ih,
      )
