-- ===== src/Plugin/Handshake/Laws.antt =====
-- A hello is taken once: the checks pass it when it is fresh, and refuse it as long as the cache holds
-- its identifier.
use python_proxy.Base.{
  ℕ, zero, suc, ◌+◌, ◌<◌, ◌≡◌, refl, sym, ap, ◌∙◌, Bool, true, false, Bool-cases, inl, inr, some,
  List, [], ◌∷◌, ◌++◌, append_assoc, ltb, ltb_false→le, if◌then◌else◌, length, take, drop,
  get_elem?, Bytes, length-append, take-append_self, drop-append_self, drop-append, arith,
}
use python_proxy.Protocols.Users.{is_among}
use python_proxy.Protocols.Users.Laws.{is_among-head, is_among-tail}
use python_proxy.Plugin.Handshake.{remember, slice}

-- The identifiers of hellos that come one after the other.
abbrev pub remember_all : List Bytes → List Bytes → List Bytes
remember_all [] cache = cache
remember_all (id ∷ ids) cache = remember_all ids (remember id cache)

abbrev pub Holds : Bytes → ℕ → List Bytes → Type 0
Holds id k cache =
    (front : List Bytes) × (behind : List Bytes) × (cache ≡ front ++ (id ∷ behind))
    × (length behind ≡ k)

pub remember-Holds : (id : Bytes) (cache : List Bytes) → Holds id 0 (remember id cache)
unfolding remember
remember-Holds id cache = elim (Bool-cases (ltb (length cache) 100)) [
  | inl e ↦ (cache, [], rw e refl, refl)
  | inr e ↦
      let full = ltb_false→le _ _ e in
      (drop 1 cache, [], rw e (drop-append 1 cache (id ∷ []) (omega (arith, full))), refl)
]

next-Holds :
    (id new : Bytes) (k : ℕ) (cache : List Bytes)
    → k < 99
    → Holds id k cache
    → Holds id (suc k) (remember new cache)
unfolding remember
next-Holds id new k cache low (front, behind, e, size) = go front (ltb (length cache) 100) refl e
  where
    last : length (behind ++ (new ∷ [])) ≡ suc k
    last = omega (arith, length-append behind (new ∷ []), size)

    go :
        (front : List Bytes) (b : Bool)
        → ltb (length cache) 100 ≡ b
        → cache ≡ front ++ (id ∷ behind)
        → Holds id (suc k) (if b then cache ++ (new ∷ []) else drop 1 (cache ++ (new ∷ [])))
    go front true h e =
        (front, behind ++ (new ∷ []), rw e (append_assoc front (id ∷ behind) (new ∷ [])), last)
    go [] false h e =
        let full = ltb_false→le _ _ h in
        let all : length cache ≡ suc (length behind) = ap length e in
        absurd (omega (arith, full, all, size))
    go (x ∷ front) false h e =
        (front, behind ++ (new ∷ []), rw e (append_assoc front (id ∷ behind) (new ∷ [])), last)

Holds-is_among :
    (id : Bytes) (k : ℕ) (cache : List Bytes) → Holds id k cache → is_among id cache ≡ true
Holds-is_among id k cache (front, behind, e, size) = rw e (go front)
  where
    go : (front : List Bytes) → is_among id (front ++ (id ∷ behind)) ≡ true
    go [] = is_among-head id behind
    go (x ∷ front) = is_among-tail id x (front ++ (id ∷ behind)) (go front)

-- The identifier is still there while less than 100 others have come.
pub among_all :
    (id : Bytes) (ids : List Bytes) (k : ℕ) (cache : List Bytes)
    → k + length ids < 100
    → Holds id k cache
    → is_among id (remember_all ids cache) ≡ true
among_all id [] k cache low h = Holds-is_among id k cache h
among_all id (new ∷ ids) k cache low h =
    among_all id ids (suc k) (remember new cache) (omega (arith, low))
      (next-Holds id new k cache (omega (arith, low)) h)

slice_at :
    (a m b : Bytes) (i j : ℕ) → length a ≡ i → i + length m ≡ j → slice i j (a ++ (m ++ b)) ≡ m
slice_at a m b i j h k =
    ap (λ x. drop i (take j x)) (sym (append_assoc a m b))
    ∙ ap (drop i) (take-append_self j (a ++ m) b (omega (arith, length-append a m, h, k)))
    ∙ drop-append_self i a m h

elem_at : (a b : Bytes) (x i : ℕ) → length a ≡ i → get_elem? (a ++ (x ∷ b)) i ≡ some x
elem_at [] b x zero h = refl
elem_at [] b x (suc i) h = absurd (omega (arith, h))
elem_at (y ∷ a) b x zero h = absurd (omega (arith, h))
elem_at (y ∷ a) b x (suc i) h = elem_at a b x i (omega (arith, h))

-- The layout of a header.
module _ (front time random sum session more : Bytes) (size_front : length front ≡ 4)
    (size_time : length time ≡ 4) (size_random : length random ≡ 18) (size_sum : length sum ≡ 10)
    (size_session : length session ≡ 32) where
  abbrev pub rest : Bytes
  rest = sum ++ (32 ∷ (session ++ more))

  abbrev pub layout : Bytes
  layout = front ++ (3 ∷ 3 ∷ (time ++ (random ++ rest)))

  abbrev start : Bytes
  start = front ++ (3 ∷ 3 ∷ [])

  size_start : length start ≡ 6
  size_start = omega (arith, length-append front (3 ∷ 3 ∷ []), size_front)

  size_id : length (time ++ random) ≡ 22
  size_id = omega (arith, length-append time random, size_time, size_random)

  from_start : layout ≡ start ++ (time ++ (random ++ rest))
  from_start = sym (append_assoc front (3 ∷ 3 ∷ []) (time ++ (random ++ rest)))

  from_id : layout ≡ start ++ ((time ++ random) ++ rest)
  from_id = from_start ∙ ap (λ x. start ++ x) (sym (append_assoc time random rest))

  from_rest : layout ≡ (start ++ (time ++ random)) ++ rest
  from_rest = from_id ∙ sym (append_assoc start (time ++ random) rest)

  size_before : length (start ++ (time ++ random)) ≡ 28
  size_before = omega (arith, length-append start (time ++ random), size_start, size_id)

  from_session : layout ≡ ((start ++ (time ++ random)) ++ sum) ++ (32 ∷ (session ++ more))
  from_session =
      from_rest ∙ sym (append_assoc (start ++ (time ++ random)) sum (32 ∷ (session ++ more)))

  size_sums : length ((start ++ (time ++ random)) ++ sum) ≡ 38
  size_sums = omega (arith, length-append (start ++ (time ++ random)) sum, size_before, size_sum)

  pub version_at : slice 4 6 layout ≡ 3 ∷ 3 ∷ []
  version_at = slice_at front (3 ∷ 3 ∷ []) (time ++ (random ++ rest)) 4 6 size_front (omega arith)

  pub time_at : slice 6 10 layout ≡ time
  time_at =
      ap (slice 6 10) from_start
      ∙ slice_at start time (random ++ rest) 6 10 size_start (omega (arith, size_time))

  pub id_at : slice 6 28 layout ≡ time ++ random
  id_at =
      ap (slice 6 28) from_id
      ∙ slice_at start (time ++ random) rest 6 28 size_start (omega (arith, size_id))

  pub sum_at : slice 28 38 layout ≡ sum
  sum_at =
      ap (slice 28 38) from_rest
      ∙ slice_at (start ++ (time ++ random)) sum (32 ∷ (session ++ more)) 28 38 size_before
          (omega (arith, size_sum))

  pub length_at : get_elem? layout 38 ≡ some 32
  length_at =
      ap (λ x. get_elem? x 38) from_session
      ∙ elem_at ((start ++ (time ++ random)) ++ sum) (session ++ more) 32 38 size_sums

  pub session_at : slice 39 (39 + 32) layout ≡ session
  session_at =
      let before = (start ++ (time ++ random)) ++ sum in
      ap (slice 39 71) (from_session ∙ sym (append_assoc before (32 ∷ []) (session ++ more)))
      ∙ slice_at (before ++ (32 ∷ [])) session more 39 71
          (omega (arith, length-append before (32 ∷ []), size_sums)) (omega (arith, size_session))
