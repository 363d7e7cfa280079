-- ===== src/Server/Schedule/RoundRobin.antt =====
-- Round robin takes its remotes in turn.
use python_proxy.Base.{
  ℕ, zero, suc, ◌≡◌, refl, sym, ap, ◌∙◌, true, Option, some, List, [], ◌∷◌, ◌++◌, append_assoc,
  append-nil, length, All, Bytes,
}
use python_proxy.Server.Schedule.{
  Remote, rr, Choice, chosen, unknown_algorithm, filter_cond, rotate_from, schedule,
}

-- The remotes that a number of calls chooses, and the list that is left.
pub record Turns : Type 0 where
  pub picks : List (Option Remote)
  pub remotes : List Remote

module _ (random : ℕ → ℕ) (host : Bytes) (port : ℕ) where
  abbrev add_pick : Choice → Turns → Turns
  add_pick (chosen o) t = record t { picks = o ∷ t.picks }
  add_pick unknown_algorithm t = t

  pub turns : ℕ → List Remote → Turns
  turns zero rs = record { picks = []; remotes = rs }
  turns (suc n) rs =
      let s = schedule random rs rr host port in add_pick s.choice (turns n s.remotes)

  abbrev pub some_each : List Remote → List (Option Remote)
  some_each [] = []
  some_each (r ∷ rs) = some r ∷ some_each rs

  turns-append :
      (xs ys : List Remote)
      → All (λ r. filter_cond host port r ≡ true) xs
      → turns (length xs) (xs ++ ys) ≡ record { picks = some_each xs; remotes = ys ++ xs }
  unfolding turns schedule rotate_from
  turns-append [] ys h = rw (append-nil ys) refl
  turns-append (x ∷ xs) ys h =
      rw
        (
          h.0,
          append_assoc xs ys (x ∷ []),
          turns-append xs (ys ++ x ∷ []) h.1,
          append_assoc ys (x ∷ []) xs,
        )
        refl

  -- While all remotes are alive and match, as many calls as there are remotes choose each once, in
  -- the order of the list, and leave the list as it was.
  pub turns-each :
      (rs : List Remote)
      → All (λ r. filter_cond host port r ≡ true) rs
      → turns (length rs) rs ≡ record { picks = some_each rs; remotes = rs }
  turns-each rs h = ap (turns (length rs)) (sym (append-nil rs)) ∙ turns-append rs [] h
