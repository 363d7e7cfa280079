-- ===== src/Cipherpy/Aes/Schedule.antt =====
-- The key schedule of AES: bytes, and as many as the rounds need.
use python_proxy.Base.{
  ℕ, zero, suc, ◌+◌, ◌-◌, ◌*◌, ◌/◌, ◌%◌, ◌<◌, ◌≤◌, ◌≡◌, refl, ap, ◌∙◌, Bool, true, false, [], ◌∷◌,
  ◌++◌, ◌==◌, ==_iff, ◌&&◌, ◌⊎◌, inl, inr, Option, some, none, bit_xor-lt, ltb, ltb→lt,
  ltb_false→le, if◌then◌else◌, length, length-append, length-drop, length-take, length-map, take,
  drop, get_or, Bytes, IsBytes, arith,
}
use python_proxy.Base.ByteLists.{
  all_bytes-IsBytes, get_or-IsBytes, map-IsBytes, append-IsBytes, drop-IsBytes, choose-IsBytes,
}
use python_proxy.Cipherpy.Aes.{
  g1, rcon, substituted, xor_first, rotated, schedule_word, xor_back, extend_key, expand_key,
  rounds_of,
}

pub g1-IsBytes : IsBytes g1
g1-IsBytes = all_bytes-IsBytes g1 (unfold g1 in refl)

rcon-IsBytes : IsBytes rcon
rcon-IsBytes = all_bytes-IsBytes rcon (unfold rcon in refl)

substituted-IsBytes : (t : Bytes) → IsBytes (substituted t)
substituted-IsBytes t = map-IsBytes (λ i. get_or g1 i 0) t (λ i. get_or-IsBytes g1 i g1-IsBytes)

xor_first-IsBytes : (r : ℕ) (t : Bytes) → r < 256 → IsBytes t → IsBytes (xor_first r t)
xor_first-IsBytes r [] h k = tt
xor_first-IsBytes r (b ∷ t) h k = (bit_xor-lt 8 b r k.0 h, k.1)

schedule_word-IsBytes : (size n : ℕ) (t : Bytes) → IsBytes t → IsBytes (schedule_word size n t)
unfolding schedule_word
schedule_word-IsBytes size n t h =
    choose-IsBytes (size == 32 && n % size == 16) (substituted (rotated size n t))
      (rotated size n t) (substituted-IsBytes (rotated size n t))
      (choose-IsBytes (n % size == 0) _ t
        (xor_first-IsBytes (get_or rcon (n / size % 51) 0) _
          (get_or-IsBytes rcon (n / size % 51) rcon-IsBytes)
          (substituted-IsBytes (drop 1 t ++ take 1 t)))
        h)

xor_back-IsBytes :
    (ekey : Bytes) (i : ℕ) (t : Bytes) → IsBytes ekey → IsBytes t → IsBytes (xor_back ekey i t)
unfolding xor_back
xor_back-IsBytes ekey i [] h k = tt
xor_back-IsBytes ekey i (m ∷ t) h k = (
  bit_xor-lt 8 m (get_or ekey i 0) k.0 (get_or-IsBytes ekey i h),
  xor_back-IsBytes ekey (i + 1) t h k.1,
)

extend_key-IsBytes : (size : ℕ) (ekey : Bytes) → IsBytes ekey → IsBytes (extend_key size ekey)
unfolding extend_key
extend_key-IsBytes size ekey h =
    let n = length ekey in
    let t = schedule_word size n (drop (n - 4) ekey) in
    append-IsBytes ekey (xor_back ekey (n - size) t) h (
      xor_back-IsBytes ekey (n - size) t h
        (schedule_word-IsBytes size n (drop (n - 4) ekey) (drop-IsBytes (n - 4) ekey h)))

pub expand_key-IsBytes :
    (size limit fuel : ℕ) (ekey : Bytes) → IsBytes ekey → IsBytes (expand_key size limit fuel ekey)
unfolding expand_key
expand_key-IsBytes size limit zero ekey h = h
expand_key-IsBytes size limit (suc fuel) ekey h =
    choose-IsBytes (ltb (length ekey) limit) _ ekey
      (expand_key-IsBytes size limit fuel (extend_key size ekey) (extend_key-IsBytes size ekey h)) h

length-choose :
    (b : Bool) (x y : Bytes) (n : ℕ) → length x ≡ n → length y ≡ n → length (if b then x else y) ≡ n
length-choose true x y n e f = e
length-choose false x y n e f = f

length-xor_first : (r : ℕ) (t : Bytes) → length (xor_first r t) ≡ length t
length-xor_first r [] = refl
length-xor_first r (b ∷ t) = refl

length-substituted : (t : Bytes) → length (substituted t) ≡ length t
length-substituted t = length-map t (λ i. get_or g1 i 0)

length-rotated : (size n : ℕ) (t : Bytes) → length t ≡ 4 → length (rotated size n t) ≡ 4
length-rotated size n t e =
    length-choose (n % size == 0) _ t 4
      (length-xor_first _ (substituted (drop 1 t ++ take 1 t))
        ∙ length-substituted (drop 1 t ++ take 1 t)
        ∙ omega (arith, e, length-append (drop 1 t) (take 1 t), length-drop 1 t, length-take 1 t))
      e

length-schedule_word : (size n : ℕ) (t : Bytes) → length t ≡ 4 → length (schedule_word size n t) ≡ 4
unfolding schedule_word
length-schedule_word size n t e =
    length-choose (size == 32 && n % size == 16) (substituted (rotated size n t)) (rotated size n t)
      4 (length-substituted (rotated size n t) ∙ length-rotated size n t e)
      (length-rotated size n t e)

length-xor_back : (ekey : Bytes) (i : ℕ) (t : Bytes) → length (xor_back ekey i t) ≡ length t
unfolding xor_back
length-xor_back ekey i [] = refl
length-xor_back ekey i (m ∷ t) = ap suc (length-xor_back ekey (i + 1) t)

length-extend_key :
    (size : ℕ) (ekey : Bytes) → 4 ≤ length ekey → length (extend_key size ekey) ≡ length ekey + 4
unfolding extend_key
length-extend_key size ekey h =
    let n = length ekey in
    let t = schedule_word size n (drop (n - 4) ekey) in
    let four : length (drop (n - 4) ekey) ≡ 4 = omega (arith, length-drop (n - 4) ekey) in
    omega (
      arith,
      length-append ekey (xor_back ekey (n - size) t),
      length-xor_back ekey (n - size) t,
      length-schedule_word size n (drop (n - 4) ekey) four,
    )

length-expand_key_at :
    (size fuel missing limit : ℕ) (ekey : Bytes)
    → 4 ≤ length ekey
    → missing ≤ fuel
    → length ekey + 4 * missing ≡ limit
    → length (expand_key size limit fuel ekey) ≡ limit
unfolding expand_key
length-expand_key_at size zero missing limit ekey h k e = omega (arith, e, k)
length-expand_key_at size (suc fuel) zero limit ekey h k e = full (ltb (length ekey) limit) refl
  where
    full :
        (b : Bool)
        → ltb (length ekey) limit ≡ b
        → length (if b then expand_key size limit fuel (extend_key size ekey) else ekey) ≡ limit
    full true f = absurd (omega (arith, e, ltb→lt _ _ f))
    full false f = omega (arith, e)
length-expand_key_at size (suc fuel) (suc missing) limit ekey h k e =
    longer (ltb (length ekey) limit) refl (
      length-expand_key_at size fuel missing limit (extend_key size ekey)
        (omega (arith, length-extend_key size ekey h)) (omega arith)
        (omega (arith, length-extend_key size ekey h, e)))
  where
    longer :
        (b : Bool)
        → ltb (length ekey) limit ≡ b
        → length (expand_key size limit fuel (extend_key size ekey)) ≡ limit
        → length (if b then expand_key size limit fuel (extend_key size ekey) else ekey) ≡ limit
    longer true f ih = ih
    longer false f ih = absurd (omega (arith, e, ltb_false→le _ _ f))

-- Four times the words that a key lacks, and its length.
lacks : ℕ → ℕ → ℕ
lacks nbr size = 4 * (nbr + 1) - size / 4

choose-some :
    (b : Bool) (m nbr : ℕ) (o : Option ℕ)
    → (if b then some m else o) ≡ some nbr
    → ((b ≡ true) × (m ≡ nbr)) ⊎ (o ≡ some nbr)
choose-some true m nbr o e = inl (refl, cc)
choose-some false m nbr o e = inr e

rounds_of-fits :
    (size nbr : ℕ)
    → rounds_of size ≡ some nbr
    → (4 ≤ size) × (size + 4 * lacks nbr size ≡ 16 * (nbr + 1))
unfolding rounds_of lacks
rounds_of-fits size nbr e = elim (choose-some (size == 16) 10 nbr _ e) [
  | inl h ↦ at size 16 10 nbr h.0 h.1 (omega arith) (omega arith)
  | inr f ↦ elim (choose-some (size == 24) 12 nbr _ f) [
    | inl h ↦ at size 24 12 nbr h.0 h.1 (omega arith) (omega arith)
    | inr g ↦ elim (choose-some (size == 32) 14 nbr none g) [
      | inl h ↦ at size 32 14 nbr h.0 h.1 (omega arith) (omega arith)
      | inr k ↦ absurd (cc)
    ]
  ]
]
  where
    at :
        (size n m nbr : ℕ)
        → (size == n) ≡ true
        → m ≡ nbr
        → 4 ≤ n
        → n + 4 * (4 * (m + 1) - n / 4) ≡ 16 * (m + 1)
        → (4 ≤ size) × (size + 4 * (4 * (nbr + 1) - size / 4) ≡ 16 * (nbr + 1))
    at size n m nbr h e four k =
        let same : size ≡ n = (==_iff size n).0 h in (omega (arith, same), rw same (rw (← e) k))

-- The `while` of the schedule ends, for every key whose size has a number of rounds, with exactly
-- one round key of 16 bytes more than there are rounds.
pub length-expand_key :
    (key : Bytes) (nbr : ℕ)
    → rounds_of (length key) ≡ some nbr
    → length (expand_key (length key) (16 * (nbr + 1)) (16 * (nbr + 1)) key) ≡ 16 * (nbr + 1)
length-expand_key key nbr e =
    let fits = rounds_of-fits (length key) nbr e in
    length-expand_key_at (length key) (16 * (nbr + 1)) (lacks nbr (length key)) (16 * (nbr + 1)) key
      fits.0 (omega (arith, fits.1)) fits.1
