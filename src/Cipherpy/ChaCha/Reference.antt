-- ===== src/Cipherpy/ChaCha/Reference.antt =====
-- The ChaCha20 rounds on 32-bit words, as RFC 8439 defines them, and the code's agreement with them.
use python_proxy.Base.{
  ℕ, zero, suc, ◌+◌, ◌-◌, ◌*◌, ◌/◌, ◌%◌, ◌^◌, ◌<◌, ◌≡◌, refl, sym, ap, ap₂, ◌∙◌, List, [], ◌∷◌, map,
  Bytes, bit_and-ones, bit_or, bit_or-lt, bit_xor, bit_xor-mod, get_or, set, arith,
}
use python_proxy.Cipherpy.ChaCha.{
  rol, Order, add_word, rotate_word, quarter, quarters, orders_chacha20, chacha20_round, pack,
  sum_words, chacha_block,
}
use native.Mathlib.Nat.{mod-eq_of_lt, mul-suc}

abbrev pub wrap : ℕ → ℕ
wrap x = x % 2 ^ 32

pub rotate_left : ℕ → ℕ → ℕ
rotate_left x n = bit_or (x * 2 ^ n % 2 ^ 32) (x / 2 ^ (32 - n))

pub add_32 : ℕ → ℕ → List ℕ → List ℕ
add_32 i j h = set h i ((get_or h i 0 + get_or h j 0) % 2 ^ 32)

pub rotate_32 : ℕ → ℕ → ℕ → List ℕ → List ℕ
rotate_32 i j n h = set h i (rotate_left (bit_xor (get_or h i 0) (get_or h j 0)) n)

-- `QUARTERROUND(a, b, c, d)` of section 2.2 on the words of the state.
pub quarter_round : ℕ → ℕ → ℕ → ℕ → List ℕ → List ℕ
quarter_round a b c d h =
    let h1 = rotate_32 d a 16 (add_32 a b h) in
    let h2 = rotate_32 b c 12 (add_32 c d h1) in
    let h3 = rotate_32 d a 8 (add_32 a b h2) in rotate_32 b c 7 (add_32 c d h3)

-- `inner_block` of section 2.3: a round on the columns and one on the diagonals.
pub columns : List ℕ → List ℕ
columns h =
    let h1 = quarter_round 0 4 8 12 h in
    let h2 = quarter_round 1 5 9 13 h1 in
    let h3 = quarter_round 2 6 10 14 h2 in quarter_round 3 7 11 15 h3

pub diagonals : List ℕ → List ℕ
diagonals h =
    let h1 = quarter_round 0 5 10 15 h in
    let h2 = quarter_round 1 6 11 12 h1 in
    let h3 = quarter_round 2 7 8 13 h2 in quarter_round 3 4 9 14 h3

pub inner_blocks : ℕ → List ℕ → List ℕ
inner_blocks zero h = h
inner_blocks (suc n) h = inner_blocks n (diagonals (columns h))

-- The words in little-endian order, four bytes each.
pub serialize : List ℕ → Bytes
serialize [] = []
serialize (w ∷ ws) = w % 256 ∷ w / 2 ^ 8 % 256 ∷ w / 2 ^ 16 % 256 ∷ w / 2 ^ 24 % 256 ∷ serialize ws

map-set : (h : List ℕ) (i v : ℕ) → map wrap (set h i v) ≡ set (map wrap h) i (wrap v)
map-set [] i v = refl
map-set (x ∷ h) zero v = refl
map-set (x ∷ h) (suc i) v = ap (λ t. wrap x ∷ t) (map-set h i v)

get_or-map : (h : List ℕ) (i : ℕ) → get_or (map wrap h) i 0 ≡ wrap (get_or h i 0)
get_or-map [] i = omega arith
get_or-map (x ∷ h) zero = refl
get_or-map (x ∷ h) (suc i) = get_or-map h i

wrap-add : (x y : ℕ) → wrap (x + y) ≡ (wrap x + wrap y) % 2 ^ 32
wrap-add x y = omega arith

add_word-map : (i j : ℕ) (h : List ℕ) → map wrap (add_word i j h) ≡ add_32 i j (map wrap h)
unfolding add_word add_32
add_word-map i j h =
    map-set h i (get_or h i 0 + get_or h j 0)
    ∙ ap (set (map wrap h) i) (
        wrap-add (get_or h i 0) (get_or h j 0)
        ∙ ap₂ (λ (x : ℕ) (y : ℕ). (x + y) % 2 ^ 32) (sym (get_or-map h i)) (sym (get_or-map h j)))

wrap-mul : (x p : ℕ) → x * p % 2 ^ 32 ≡ wrap x * p % 2 ^ 32
wrap-mul x zero = omega arith
wrap-mul x (suc p) = omega (arith, wrap-mul x p, mul-suc x p, mul-suc (wrap x) p)

rol-wrap : (x n : ℕ) → rol x n ≡ rotate_left (wrap x) n
unfolding rol rotate_left
rol-wrap x n =
    ap₂ bit_or (bit_and-ones 32 (x * 2 ^ n) ∙ wrap-mul x (2 ^ n))
      (ap (λ (y : ℕ). y / 2 ^ (32 - n)) (bit_and-ones 32 x))

rotate_left-lt : (x n : ℕ) → x < 2 ^ 32 → rotate_left x n < 2 ^ 32
unfolding rotate_left
rotate_left-lt x n h =
    bit_or-lt 32 (x * 2 ^ n % 2 ^ 32) (x / 2 ^ (32 - n)) (omega arith) (grind arith)

rotate_word-map :
    (i j n : ℕ) (h : List ℕ) → map wrap (rotate_word i j n h) ≡ rotate_32 i j n (map wrap h)
unfolding rotate_word rotate_32
rotate_word-map i j n h =
    let x = bit_xor (get_or h i 0) (get_or h j 0) in
    let small = rotate_left-lt (wrap x) n (omega arith) in
    map-set h i (rol x n)
    ∙ ap (set (map wrap h) i) (
        ap wrap (rol-wrap x n)
        ∙ mod-eq_of_lt small
        ∙ ap (λ (y : ℕ). rotate_left y n)
            (bit_xor-mod 32 (get_or h i 0) (get_or h j 0)
              ∙ ap₂ bit_xor (sym (get_or-map h i)) (sym (get_or-map h j))))

quarter-map :
    (o : Order) (h : List ℕ) → map wrap (quarter o h) ≡ quarter_round o.a o.b o.c o.d (map wrap h)
unfolding quarter quarter_round
quarter-map o h = simp (rotate_word-map, add_word-map) refl

-- The quarter rounds of a list of orders.
quarter_rounds : List Order → List ℕ → List ℕ
quarter_rounds [] h = h
quarter_rounds (o ∷ os) h = quarter_rounds os (quarter_round o.a o.b o.c o.d h)

quarters-map :
    (os : List Order) (h : List ℕ) → map wrap (quarters os h) ≡ quarter_rounds os (map wrap h)
unfolding quarters quarter_rounds
quarters-map [] h = refl
quarters-map (o ∷ os) h = quarters-map os (quarter o h) ∙ ap (quarter_rounds os) (quarter-map o h)

-- The orders of the code are ten inner blocks.
orders-inner_blocks : (h : List ℕ) → quarter_rounds orders_chacha20 h ≡ inner_blocks 10 h
unfolding quarter_rounds columns diagonals inner_blocks
orders-inner_blocks h = refl

-- The rounds on integers that never wrap are, word for word, the rounds on 32-bit words.
pub chacha20_round-wraps : (h : List ℕ) → map wrap (chacha20_round h) ≡ inner_blocks 10 (map wrap h)
unfolding chacha20_round
chacha20_round-wraps h = quarters-map orders_chacha20 h ∙ orders-inner_blocks (map wrap h)

pack-serialize : (ws : List ℕ) → pack ws ≡ serialize ws
unfolding pack serialize
pack-serialize [] = refl
pack-serialize (w ∷ ws) =
    let d2 : w / 256 / 256 ≡ w / 2 ^ 16 = omega arith in
    let d3 : w / 256 / 256 / 256 ≡ w / 2 ^ 24 = omega arith in rw (d3, d2, pack-serialize ws) refl

pub sum_32 : List ℕ → List ℕ → List ℕ
sum_32 [] bs = []
sum_32 (a ∷ as_) [] = []
sum_32 (a ∷ as_) (b ∷ bs) = (a + b) % 2 ^ 32 ∷ sum_32 as_ bs

sum_words-wraps : (as_ bs : List ℕ) → sum_words as_ bs ≡ sum_32 (map wrap as_) (map wrap bs)
unfolding sum_words sum_32
sum_words-wraps [] bs = refl
sum_words-wraps (a ∷ as_) [] = refl
sum_words-wraps (a ∷ as_) (b ∷ bs) =
    ap₂ ◌∷◌ (bit_and-ones 32 (a + b) ∙ omega arith) (sum_words-wraps as_ bs)

-- Every key block is the block that RFC 8439 defines on the 32-bit words of the state, with its ten
-- pairs of rounds, the sum with the state and the serialization, also where the block counter has
-- grown beyond a word.
pub chacha_block-wraps :
    (h : List ℕ) → chacha_block h ≡ serialize (sum_32 (inner_blocks 10 (map wrap h)) (map wrap h))
unfolding chacha_block
chacha_block-wraps h =
    pack-serialize (sum_words (chacha20_round h) h)
    ∙ ap serialize (
        sum_words-wraps (chacha20_round h) h
        ∙ ap (λ z. sum_32 z (map wrap h)) (chacha20_round-wraps h))
