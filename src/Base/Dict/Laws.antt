-- ===== src/Base/Dict/Laws.antt =====
-- What `find` gives after a change, and how a change acts on length and uniqueness.
use Prim.Native.Nat.{ℕ, suc, ◌+◌, ◌≤◌}
use mathlib.Core.Path.{◌≡◌, refl, sym, ap, ◌∙◌}
use mathlib.Core.Bool.{Bool, true, false}
use mathlib.Core.Option.{Option, none, some}
use mathlib.Core.List.{[], ◌∷◌, ◌++◌}
use native.Mathlib.Omega.{arith}
use python_proxy.Base.Tests.{◌==◌, ==_iff, if◌then◌else◌}
use python_proxy.Base.Lists.{length}
use python_proxy.Base.Dict.{Dict, find, put, remove, Unique}

-- Two keys that are equal, or not.
keys-eq : (a b c : ℕ) → (a == b) ≡ true → (b == c) ≡ true → (a == c) ≡ true
keys-eq a b c p q = (==_iff a c).1 ((==_iff a b).0 p ∙ (==_iff b c).0 q)

keys-back : (a b c : ℕ) → (a == b) ≡ true → (a == c) ≡ true → (b == c) ≡ true
keys-back a b c p q = (==_iff b c).1 (sym ((==_iff a b).0 p) ∙ (==_iff a c).0 q)

keys-both : (a b c : ℕ) → (a == c) ≡ true → (b == c) ≡ true → (a == b) ≡ true
keys-both a b c p q = (==_iff a b).1 ((==_iff a c).0 p ∙ sym ((==_iff b c).0 q))

module _ {V : Type 0} where
  find-put_at :
      (k j : ℕ) (v : V) (e : ℕ × V) (d : Dict V)
      → find j (put k v d) ≡ (if k == j then some v else find j d)
      → (b : Bool) → (e.0 == k) ≡ b
      → (a : Bool) → (k == j) ≡ a
      → (c : Bool) → (e.0 == j) ≡ c
      → find j (if b then (k, v) ∷ d else e ∷ put k v d)
        ≡ (if a then some v else (if c then some e.1 else find j d))
  find-put_at k j v e d ih true p true q c r = rw q refl
  find-put_at k j v e d ih true p false q true r = absurd (cc (keys-back e.0 k j p r, q))
  find-put_at k j v e d ih true p false q false r = rw q refl
  find-put_at k j v e d ih false p true q true r = absurd (cc (keys-both e.0 k j r q, p))
  find-put_at k j v e d ih false p true q false r = rw r (ih ∙ rw q refl)
  find-put_at k j v e d ih false p false q true r = rw r refl
  find-put_at k j v e d ih false p false q false r = rw r (ih ∙ rw q refl)

  pub find-put :
      (k j : ℕ) (v : V) (d : Dict V) → find j (put k v d) ≡ (if k == j then some v else find j d)
  find-put k j v [] = refl
  find-put k j v (e ∷ d) =
      find-put_at k j v e d (find-put k j v d) (e.0 == k) refl (k == j) refl (e.0 == j) refl

  none_either : (c : Bool) → ◌≡◌ {A = Option V} none (if c then none else none)
  none_either true = refl
  none_either false = refl

  find-remove_at :
      (k j : ℕ) (e : ℕ × V) (d : Dict V)
      → find j (remove k d) ≡ (if k == j then none else find j d)
      → (b : Bool) → (e.0 == k) ≡ b
      → (a : Bool) → (k == j) ≡ a
      → (c : Bool) → (e.0 == j) ≡ c
      → find j (if b then remove k d else e ∷ remove k d)
        ≡ (if a then none else (if c then some e.1 else find j d))
  find-remove_at k j e d ih true p true q c r = ih ∙ rw q refl
  find-remove_at k j e d ih true p false q true r = absurd (cc (keys-back e.0 k j p r, q))
  find-remove_at k j e d ih true p false q false r = ih ∙ rw q refl
  find-remove_at k j e d ih false p true q true r = absurd (cc (keys-both e.0 k j r q, p))
  find-remove_at k j e d ih false p true q false r = rw r (ih ∙ rw q refl)
  find-remove_at k j e d ih false p false q true r = rw r refl
  find-remove_at k j e d ih false p false q false r = rw r (ih ∙ rw q refl)

  pub find-remove :
      (k j : ℕ) (d : Dict V) → find j (remove k d) ≡ (if k == j then none else find j d)
  find-remove k j [] = none_either (k == j)
  find-remove k j (e ∷ d) =
      find-remove_at k j e d (find-remove k j d) (e.0 == k) refl (k == j) refl (e.0 == j) refl

  -- Removing never lengthens, and removes one entry of a dictionary that has the key.
  pub length-remove_le : (k : ℕ) (d : Dict V) → length (remove k d) ≤ length d
  length-remove_le k [] = omega arith
  length-remove_le k (e ∷ d) = go (e.0 == k) (length-remove_le k d)
    where
      go :
          (b : Bool)
          → length (remove k d) ≤ length d
          → length (if b then remove k d else e ∷ remove k d) ≤ suc (length d)
      go true h = omega (arith, h)
      go false h = omega (arith, h)

  pub remove-absent : (k : ℕ) (d : Dict V) → find k d ≡ none → remove k d ≡ d
  remove-absent k [] h = refl
  remove-absent k (e ∷ d) h = go (e.0 == k) h (remove-absent k d)
    where
      go :
          (b : Bool)
          → (if b then some e.1 else find k d) ≡ none
          → (find k d ≡ none → remove k d ≡ d)
          → (if b then remove k d else e ∷ remove k d) ≡ e ∷ d
      go true h ih = absurd (cc)
      go false h ih = ap (λ z. e ∷ z) (ih h)

  pub length-remove :
      (k : ℕ) (v : V) (d : Dict V)
      → Unique d
      → find k d ≡ some v
      → length (remove k d) + 1 ≡ length d
  length-remove k v [] u h = absurd (cc)
  length-remove k v (e ∷ d) u h = go (e.0 == k) refl h (length-remove k v d u.1)
    where
      go :
          (b : Bool)
          → (e.0 == k) ≡ b
          → (if b then some e.1 else find k d) ≡ some v
          → (find k d ≡ some v → length (remove k d) + 1 ≡ length d)
          → length (if b then remove k d else e ∷ remove k d) + 1 ≡ suc (length d)
      go true p h ih =
          let same : e.0 ≡ k = (==_iff e.0 k).0 p in
          let gone : find k d ≡ none = ap (λ (x : ℕ). find x d) (sym same) ∙ u.0 in
          omega (arith, ap length (remove-absent k d gone))
      go false p h ih = omega (arith, ih h)

  pub remove-Unique : (k : ℕ) (d : Dict V) → Unique d → Unique (remove k d)
  remove-Unique k [] u = tt
  remove-Unique k (e ∷ d) u = go (e.0 == k) (remove-Unique k d u.1)
    where
      kept : (a : Bool) → find e.0 d ≡ none → (if a then none else find e.0 d) ≡ none
      kept true h = refl
      kept false h = h

      go : (b : Bool) → Unique (remove k d) → Unique (if b then remove k d else e ∷ remove k d)
      go true h = h
      go false h = (find-remove k e.0 d ∙ kept (k == e.0) u.0, h)

  pub find-snoc :
      (k j : ℕ) (v : V) (d : Dict V)
      → find k d ≡ none
      → find j (d ++ (k, v) ∷ []) ≡ (if k == j then some v else find j d)
  find-snoc k j v [] h = refl
  find-snoc k j v (e ∷ d) h = go (e.0 == k) refl h (find-snoc k j v d)
    where
      inner :
          (e.0 == k) ≡ false
          → find j (d ++ (k, v) ∷ []) ≡ (if k == j then some v else find j d)
          → (c : Bool) → (e.0 == j) ≡ c
          → (a : Bool) → (k == j) ≡ a
          → (if c then some e.1 else find j (d ++ (k, v) ∷ []))
            ≡ (if a then some v else (if c then some e.1 else find j d))
      inner p ih true r true q = absurd (cc (keys-both e.0 k j r q, p))
      inner p ih true r false q = refl
      inner p ih false r true q = ih ∙ rw q refl
      inner p ih false r false q = ih ∙ rw q refl

      go :
          (b : Bool)
          → (e.0 == k) ≡ b
          → (if b then some e.1 else find k d) ≡ none
          → (find k d ≡ none → find j (d ++ (k, v) ∷ []) ≡ (if k == j then some v else find j d))
          → find j (e ∷ d ++ (k, v) ∷ []) ≡ (if k == j then some v else find j (e ∷ d))
      go true p h ih = absurd (cc)
      go false p h ih = inner p (ih h) (e.0 == j) refl (k == j) refl

  pub snoc-Unique :
      (k : ℕ) (v : V) (d : Dict V) → Unique d → find k d ≡ none → Unique (d ++ (k, v) ∷ [])
  snoc-Unique k v [] u h = (refl, tt)
  snoc-Unique k v (e ∷ d) u h = go (e.0 == k) refl h (snoc-Unique k v d u.1)
    where
      other :
          (a : Bool)
          → (e.0 == k) ≡ false
          → (k == e.0) ≡ a
          → (if a then some v else find e.0 d) ≡ none
      other true p q = absurd (cc ((==_iff e.0 k).1 (sym ((==_iff k e.0).0 q)), p))
      other false p q = u.0

      go :
          (b : Bool)
          → (e.0 == k) ≡ b
          → (if b then some e.1 else find k d) ≡ none
          → (find k d ≡ none → Unique (d ++ (k, v) ∷ []))
          → Unique (e ∷ d ++ (k, v) ∷ [])
      go true p h ih = absurd (cc)
      go false p h ih = (find-snoc k e.0 v d h ∙ other (k == e.0) p refl, ih h)

  pub remove-put : (k : ℕ) (v : V) (d : Dict V) → remove k (put k v d) ≡ remove k d
  remove-put k v [] = rw ((==_iff k k).1 refl) refl
  remove-put k v (e ∷ d) = go (e.0 == k) refl (remove-put k v d)
    where
      go :
          (b : Bool)
          → (e.0 == k) ≡ b
          → remove k (put k v d) ≡ remove k d
          → remove k (if b then (k, v) ∷ d else e ∷ put k v d)
            ≡ (if b then remove k d else e ∷ remove k d)
      go true p ih = rw ((==_iff k k).1 refl) refl
      go false p ih = rw p (ap (λ z. e ∷ z) ih)
