-- ===== src/Server/Schedule/Eligible.antt =====
-- What `schedule` chooses: an eligible remote of the list, a least busy one, or none.
use python_proxy.Base.{
  ℕ, ◌≤◌, ◌≡◌, refl, ap, ◌⊎◌, Bool, true, false, Option, none, some, List, [], ◌∷◌, ◌++◌,
  append_assoc, append-nil, ◌∙◌, if◌then◌else◌, ltb, All, arith, subst, ltb→lt, ltb_false→le, Bytes,
}
use python_proxy.Server.Schedule.{
  Remote, fa, rr, rc, lc, Choice, chosen, unknown_algorithm, Scheduled, filter_cond, first_match,
  matches, rotate_from, least_from, least, schedule,
}

abbrev pub Elem : {A : Type 0} → A → List A → Type 0
Elem a [] = ⊥
Elem a (x ∷ xs) = (a ≡ x) ⊎ Elem a xs

module _ (cond : Remote → Bool) where
  -- A choice is in the list and eligible.
  abbrev pub Good : List Remote → Option Remote → Type 0
  Good rs none = Unit
  Good rs (some r) = Elem r rs × (cond r ≡ true)

  -- With nothing eligible there is nothing to choose from.
  abbrev pub NoneEligible : List Remote → Type 0
  NoneEligible rs = All (λ r. cond r ≡ false) rs

  matches-none : (rs : List Remote) → NoneEligible rs → matches cond rs ≡ []
  unfolding matches
  matches-none [] h = refl
  matches-none (r ∷ rs) h = rw h.0 (matches-none rs h.1)

  first_match-none : (rs : List Remote) → NoneEligible rs → first_match cond rs ≡ none
  unfolding first_match
  first_match-none [] h = refl
  first_match-none (r ∷ rs) h = rw h.0 (first_match-none rs h.1)

  rotate_from-none :
      (seen rs : List Remote)
      → NoneEligible rs
      → rotate_from cond seen rs ≡ record { choice = unknown_algorithm; remotes = seen ++ rs }
  unfolding rotate_from
  rotate_from-none seen [] h = rw (append-nil seen) refl
  rotate_from-none seen (r ∷ rs) h = rw h.0 (
      rotate_from-none (seen ++ r ∷ []) rs h.1
      ∙ ap (λ z. record { choice = unknown_algorithm; remotes = z })
          (append_assoc seen (r ∷ []) rs))

  -- The choice of a Scheduled, where there is one.
  abbrev pub option_of : Choice → Option Remote
  option_of (chosen o) = o
  option_of unknown_algorithm = none

least_from-le :
    (best : Remote) (rs : List Remote) → (least_from best rs).connections ≤ best.connections
unfolding least_from
least_from-le best [] = omega arith
least_from-le best (r ∷ rs) =
    go (ltb r.connections best.connections) refl (least_from-le r rs) (least_from-le best rs)
  where
    go :
        (b : Bool)
        → ltb r.connections best.connections ≡ b
        → (least_from r rs).connections ≤ r.connections
        → (least_from best rs).connections ≤ best.connections
        → (least_from (if b then r else best) rs).connections ≤ best.connections
    go true e k h = omega (arith, k, ltb→lt _ _ e)
    go false e k h = h

least_from-All :
    (best : Remote) (rs : List Remote)
    → All (λ (r : Remote). (least_from best rs).connections ≤ r.connections) rs
unfolding least_from
least_from-All best [] = tt
least_from-All best (r ∷ rs) =
    go (ltb r.connections best.connections) refl (least_from-All r rs) (least_from-All best rs)
  where
    go :
        (b : Bool)
        → ltb r.connections best.connections ≡ b
        → All (λ (x : Remote). (least_from r rs).connections ≤ x.connections) rs
        → All (λ (x : Remote). (least_from best rs).connections ≤ x.connections) rs
        → All
            (λ (x : Remote). (least_from (if b then r else best) rs).connections ≤ x.connections)
            (r ∷ rs)
    go true e k h = (least_from-le r rs, k)
    go false e k h = (omega (arith, least_from-le best rs, ltb_false→le _ _ e), h)

module _ (random : ℕ → ℕ) (rserver : List Remote) (host : Bytes) (port : ℕ) where
  abbrev cond : Remote → Bool
  cond = filter_cond host port

  -- With no remote alive and matching, the other three algorithms choose none, and round robin
  -- raises the error of an unknown algorithm.
  pub schedule-none :
      NoneEligible (filter_cond host port) rserver
      → ((schedule random rserver fa host port).choice ≡ chosen none)
        × ((schedule random rserver rc host port).choice ≡ chosen none)
        × ((schedule random rserver lc host port).choice ≡ chosen none)
        × ((schedule random rserver rr host port).choice ≡ unknown_algorithm)
  unfolding schedule
  schedule-none h = (
    ap chosen (first_match-none cond rserver h),
    rw (matches-none cond rserver h) refl,
    rw (matches-none cond rserver h) (unfold least in refl),
    ap (λ (s : Scheduled). s.choice) (rotate_from-none cond [] rserver h),
  )

  -- A remote that 'lc' chooses has no more connections than any that is alive and matches.
  pub schedule-lc-le :
      (r : Remote)
      → (schedule random rserver lc host port).choice ≡ chosen (some r)
      → All (λ x. r.connections ≤ x.connections) (matches (filter_cond host port) rserver)
  unfolding schedule least
  schedule-lc-le r e = go (matches cond rserver) (cc e)
    where
      go : (rs : List Remote) → least rs ≡ some r → All (λ x. r.connections ≤ x.connections) rs
      go [] k = absurd (cc)
      go (x ∷ xs) k =
          let same : least_from x xs ≡ r = cc in
          subst (λ (y : Remote). All (λ z. y.connections ≤ z.connections) (x ∷ xs)) same
            (least_from-le x xs, least_from-All x xs)
