-- ===== src/Stream/Decoder/Maps.antt =====
-- A change of the state that every round passes on, such as what has been put out before.
use python_proxy.Base.{ℕ, zero, suc, ◌≡◌, refl, sym, ap, ◌∙◌}
use python_proxy.Stream.Decoder.{
  Round, wait, again, fail, Outcome, returned, raised, exhausted, Decoder, loop, run,
}
use python_proxy.Stream.Decoder.Laws.{loop-wait, loop-again, loop-fail}

abbrev pub map_round : {S E : Type 0} → (S → S) → Round S E → Round S E
map_round f (wait t) = wait (f t)
map_round f (again t) = again (f t)
map_round f (fail e t) = fail e (f t)

abbrev pub map_outcome : {S E : Type 0} → (S → S) → Outcome S E → Outcome S E
map_outcome f (returned t) = returned (f t)
map_outcome f (raised e t) = raised e (f t)
map_outcome f exhausted = exhausted

module _ {S E : Type 0} (d : Decoder S E) (f : S → S)
    (passes : (s : S) → d.step (f s) ≡ map_round f (d.step s)) where
  loop-map : (n : ℕ) (s : S) → loop d n (f s) ≡ map_outcome f (loop d n s)
  loop-map zero s = unfold loop in refl
  loop-map (suc n) s = go (d.step s) refl (λ t. loop-map n t)
    where
      go :
          (r : Round S E)
          → d.step s ≡ r
          → ((t : S) → loop d n (f t) ≡ map_outcome f (loop d n t))
          → loop d (suc n) (f s) ≡ map_outcome f (loop d (suc n) s)
      go (wait t) e ih =
          loop-wait d n (f s) (f t) (passes s ∙ ap (map_round f) e)
          ∙ ap (map_outcome f) (sym (loop-wait d n s t e))
      go (fail x t) e ih =
          loop-fail d n (f s) (f t) x (passes s ∙ ap (map_round f) e)
          ∙ ap (map_outcome f) (sym (loop-fail d n s t x e))
      go (again t) e ih =
          loop-again d n (f s) (f t) (passes s ∙ ap (map_round f) e)
          ∙ ih t
          ∙ ap (map_outcome f) (sym (loop-again d n s t e))

  pub run-map : (s : S) → d.size (f s) ≡ d.size s → run d (f s) ≡ map_outcome f (run d s)
  unfolding run
  run-map s e = rw e (loop-map (suc (d.size s)) s)
