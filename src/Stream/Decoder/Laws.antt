-- ===== src/Stream/Decoder/Laws.antt =====
-- Termination of the loop, and independence of how the input is cut into chunks.
use python_proxy.Base.{ℕ, zero, suc, ◌<◌, ◌≡◌, refl, sym, ◌∙◌, ◌≢◌, ◌++◌, Bytes, arith}
use python_proxy.Stream.Decoder.{
  Round, wait, again, fail, Outcome, returned, raised, exhausted, Decoder, IsStream, loop, run,
  feed,
}

module _ {S E : Type 0} (d : Decoder S E) where
  pub loop-wait : (n : ℕ) (s t : S) → d.step s ≡ wait t → loop d (suc n) s ≡ returned t
  unfolding loop
  loop-wait n s t e = rw (e, loop)

  pub loop-again : (n : ℕ) (s t : S) → d.step s ≡ again t → loop d (suc n) s ≡ loop d n t
  unfolding loop
  loop-again n s t e = rw (e, loop)

  pub loop-fail : (n : ℕ) (s t : S) (x : E) → d.step s ≡ fail x t → loop d (suc n) s ≡ raised x t
  unfolding loop
  loop-fail n s t x e = rw (e, loop)

module _ {S E : Type 0} (d : Decoder S E) (law : IsStream d) where
  -- Any fuel above the size gives the same end.
  fuel_enough : (n m : ℕ) (s : S) → d.size s < n → d.size s < m → loop d n s ≡ loop d m s
  fuel_enough zero m s h k = absurd (omega arith)
  fuel_enough (suc n) zero s h k = absurd (omega arith)
  fuel_enough (suc n) (suc m) s h k = go (d.step s) refl (λ t. fuel_enough n m t)
    where
      go :
          (r : Round S E)
          → d.step s ≡ r
          → ((t : S) → d.size t < n → d.size t < m → loop d n t ≡ loop d m t)
          → loop d (suc n) s ≡ loop d (suc m) s
      go (wait t) e ih = loop-wait d n s t e ∙ sym (loop-wait d m s t e)
      go (fail x t) e ih = loop-fail d n s t x e ∙ sym (loop-fail d m s t x e)
      go (again t) e ih =
          let less : d.size t < d.size s = law.shrinks s t e in
          loop-again d n s t e ∙ ih t (omega arith) (omega arith) ∙ sym (loop-again d m s t e)

  pub loop-eq-run : (n : ℕ) (s : S) → d.size s < n → loop d n s ≡ run d s
  unfolding run
  loop-eq-run n s h = fuel_enough n (suc (d.size s)) s h (omega arith)

  loop-ne-exhausted : (n : ℕ) (s : S) → d.size s < n → loop d n s ≢ exhausted
  loop-ne-exhausted zero s h = absurd (omega arith)
  loop-ne-exhausted (suc n) s h = go (d.step s) refl (λ t. loop-ne-exhausted n t)
    where
      go :
          (r : Round S E)
          → d.step s ≡ r
          → ((t : S) → d.size t < n → loop d n t ≢ exhausted)
          → loop d (suc n) s ≢ exhausted
      go (wait t) e ih bad = cc (loop-wait d n s t e)
      go (fail x t) e ih bad = cc (loop-fail d n s t x e)
      go (again t) e ih bad =
          let less : d.size t < d.size s = law.shrinks s t e in
          ih t (omega arith) (sym (loop-again d n s t e) ∙ bad)

  -- The loop ends: it returns or it raises.
  pub run-ne-exhausted : (s : S) → run d s ≢ exhausted
  unfolding run
  run-ne-exhausted s = loop-ne-exhausted (suc (d.size s)) s (omega arith)

  pub run-again : (s t : S) → d.step s ≡ again t → run d s ≡ run d t
  unfolding run
  run-again s t e =
      let less : d.size t < d.size s = law.shrinks s t e in
      loop-again d (d.size s) s t e ∙ loop-eq-run (d.size s) t less

  pub run-wait : (s t : S) → d.step s ≡ wait t → run d s ≡ returned t
  unfolding run
  run-wait s t e = loop-wait d (d.size s) s t e

  pub run-fail : (s t : S) (x : E) → d.step s ≡ fail x t → run d s ≡ raised x t
  unfolding run
  run-fail s t x e = loop-fail d (d.size s) s t x e

  run_cong : (s t : S) → d.step s ≡ d.step t → run d s ≡ run d t
  run_cong s t e = go (d.step t) refl
    where
      go : (r : Round S E) → d.step t ≡ r → run d s ≡ run d t
      go (wait u) h = run-wait s u (e ∙ h) ∙ sym (run-wait t u h)
      go (fail x u) h = run-fail s u x (e ∙ h) ∙ sym (run-fail t u x h)
      go (again u) h = run-again s u (e ∙ h) ∙ sym (run-again t u h)

  loop-extend :
      (n : ℕ) (s t : S) (b : Bytes)
      → d.size s < n
      → loop d n s ≡ returned t
      → run d (d.extend s b) ≡ run d (d.extend t b)
  loop-extend zero s t b h e = absurd (omega arith)
  loop-extend (suc n) s t b h e = go (d.step s) refl (λ u. loop-extend n u t b)
    where
      go :
          (r : Round S E)
          → d.step s ≡ r
          → ((u : S)
              → d.size u < n
              → loop d n u ≡ returned t
              → run d (d.extend u b) ≡ run d (d.extend t b))
          → run d (d.extend s b) ≡ run d (d.extend t b)
      go (wait u) p ih =
          let same : u ≡ t = cc (loop-wait d n s u p) in
          rw (← same) (run_cong (d.extend s b) (d.extend u b) (law.waits s u b p))
      go (fail x u) p ih = absurd (cc (loop-fail d n s u x p))
      go (again u) p ih =
          let less : d.size u < d.size s = law.shrinks s u p in
          run-again (d.extend s b) (d.extend u b) (law.goes_on s u b p)
          ∙ ih u (omega arith) (sym (loop-again d n s u p) ∙ e)

  -- Two chunks, one after the other, leave what the bytes in one piece leave.
  pub feed-append :
      (s t : S) (a b : Bytes) → feed d s a ≡ returned t → feed d s (a ++ b) ≡ feed d t b
  unfolding feed run
  feed-append s t a b e =
      rw (← law.extends s a b)
        (loop-extend (suc (d.size (d.extend s a))) (d.extend s a) t b (omega arith) e)

-- What holds of the state in each case of a round, and of the loop's end.
abbrev pub RoundAll {ℓ} : {S E : Type 0} → (S → Type ℓ) → (E → S → Type ℓ) → Round S E → Type ℓ
RoundAll P F (wait t) = P t
RoundAll P F (again t) = P t
RoundAll P F (fail e t) = F e t

abbrev pub EndsIn : {S E : Type 0} → (S → Type 0) → (E → S → Type 0) → Outcome S E → Type 0
EndsIn P F (returned t) = P t
EndsIn P F (raised e t) = F e t
EndsIn P F exhausted = ⊥

-- The same where the fuel may run out.
abbrev Reaches : {S E : Type 0} → (S → Type 0) → (E → S → Type 0) → Outcome S E → Type 0
Reaches P F (returned t) = P t
Reaches P F (raised e t) = F e t
Reaches P F exhausted = Unit

Reaches-EndsIn :
    {S E : Type 0} (P : S → Type 0) (F : E → S → Type 0) (o : Outcome S E)
    → Reaches P F o
    → o ≢ exhausted
    → EndsIn P F o
Reaches-EndsIn P F (returned t) h k = h
Reaches-EndsIn P F (raised e t) h k = h
Reaches-EndsIn P F exhausted h k = absurd (k refl)

module _ {S E : Type 0} (d : Decoder S E) (law : IsStream d) (P : S → Type 0) (F : E → S → Type 0)
    (keeps : (s : S) → P s → RoundAll P F (d.step s)) where
  loop-Reaches : (n : ℕ) (s : S) → P s → Reaches P F (loop d n s)
  unfolding loop
  loop-Reaches zero s h = tt
  loop-Reaches (suc n) s h = go (d.step s) (keeps s h) (λ t. loop-Reaches n t)
    where
      go :
          (r : Round S E)
          → RoundAll P F r
          → ((t : S) → P t → Reaches P F (loop d n t))
          → Reaches P F (elim r as (λ _. Outcome S E) [
            | wait t ↦ returned t
            | again t ↦ loop d n t
            | fail e t ↦ raised e t
          ])
      go (wait t) k ih = k
      go (again t) k ih = ih t k
      go (fail e t) k ih = k

  -- An invariant of the rounds holds when the loop returns, and what they raise with holds when it
  -- raises.
  pub run-EndsIn : (s : S) → P s → EndsIn P F (run d s)
  run-EndsIn s h =
      Reaches-EndsIn P F (run d s) (unfold run in loop-Reaches (suc (d.size s)) s h)
        (run-ne-exhausted d law s)
