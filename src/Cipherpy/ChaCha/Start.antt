-- ===== src/Cipherpy/ChaCha/Start.antt =====
-- With a key of 32 bytes and an IV of its length, a ChaCha20 session starts.
use python_proxy.Base.{
  ℕ, zero, suc, ◌+◌, ◌-◌, ◌*◌, ◌^◌, ◌<◌, ◌≤◌, ◌≡◌, refl, ap, ◌∙◌, Option, some, List, [], ◌∷◌, ◌++◌,
  ==_iff, length, length-append, length-replicate, length-little, length-take, length-drop, take,
  drop, replicate, little, to_little-lt, Bytes, arith,
}
use python_proxy.Cipherpy.ChaCha.{
  Order, add_word, rotate_word, quarter, quarters, orders_chacha20, chacha20_round, words, unpack,
  pack, constant, right_justified, unpack_with, chacha_start, masked, inner_key, start_inner,
  xchacha_start,
}
use python_proxy.Base.{length-set}

unpack-length :
    (n : ℕ) (bytes : Bytes) → length bytes ≡ 4 * n → unpack n bytes ≡ some (words n bytes)
unfolding unpack
unpack-length n bytes e = rw ((==_iff (length bytes) (4 * n)).1 e) refl

length-right_justified : (iv : Bytes) → length iv ≤ 12 → length (right_justified iv) ≡ 12
length-right_justified iv f =
    let pad : Bytes = replicate (12 - length iv) 0 in
    length-append pad iv
    ∙ ap (λ (n : ℕ). n + length iv) (length-replicate {A = ℕ} (12 - length iv) 0)
    ∙ omega arith

length-three : (a b c : Bytes) → length (a ++ b ++ c) ≡ length a + length b + length c
length-three a b c = omega (arith, length-append (a ++ b) c, length-append a b)

unpack_with-length :
    (key iv counter : Bytes)
    → length key ≡ 32
    → length iv ≤ 12
    → length counter ≡ 4
    → unpack_with key iv (some counter)
      ≡ some (words 16 (constant ++ key ++ counter ++ right_justified iv))
unpack_with-length key iv counter e f g =
    unpack-length 16 (constant ++ key ++ counter ++ right_justified iv) (
      omega (
        arith,
        e,
        g,
        length-three (constant ++ key) counter (right_justified iv),
        length-append constant key,
        length-right_justified iv f,
      ))

pub chacha_start-some :
    (key iv : Bytes) (counter : ℕ)
    → length key ≡ 32
    → length iv ≤ 12
    → counter < 2 ^ 32
    → chacha_start key counter iv
      ≡ some (words 16 (constant ++ key ++ little 4 counter ++ right_justified iv))
unfolding chacha_start
chacha_start-some key iv counter e f h =
    ap (unpack_with key iv) (to_little-lt 4 counter (omega (arith, h)))
    ∙ unpack_with-length key iv (little 4 counter) e f (length-little 4 counter)

length-quarter : (o : Order) (h : List ℕ) → length (quarter o h) ≡ length h
unfolding quarter add_word rotate_word
length-quarter o h = simp length-set refl

length-quarters : (os : List Order) (h : List ℕ) → length (quarters os h) ≡ length h
unfolding quarters
length-quarters [] h = refl
length-quarters (o ∷ os) h = length-quarters os (quarter o h) ∙ length-quarter o h

length-words : (n : ℕ) (bytes : Bytes) → length (words n bytes) ≡ n
unfolding words
length-words zero bytes = refl
length-words (suc n) bytes = ap suc (length-words n (drop 4 bytes))

length-pack : (ws : List ℕ) → length (pack ws) ≡ 4 * length ws
unfolding pack
length-pack [] = omega arith
length-pack (w ∷ ws) =
    omega (arith, length-append (little 4 w) (pack ws), length-little 4 w, length-pack ws)

length-masked : (ws : List ℕ) → length (masked ws) ≡ length ws
length-masked [] = refl
length-masked (w ∷ ws) = ap suc (length-masked ws)

length-inner_key : (h : List ℕ) → length h ≡ 16 → length (inner_key h) ≡ 32
length-inner_key h e = omega (
  arith,
  length-pack (masked (take 4 h ++ drop 12 h)),
  length-masked (take 4 h ++ drop 12 h),
  length-append (take 4 h) (drop 12 h),
  length-take 4 h,
  length-drop 12 h,
)

-- What a start owes at a nonce.
pub record Starts (start : ℕ → Bytes → Option (List ℕ)) (counter : ℕ) (nonce : Bytes) : Type 0 where
  pub state : List ℕ
  pub begins : start counter nonce ≡ some state

pub chacha_start-Starts :
    (key nonce : Bytes) (counter : ℕ)
    → length key ≡ 32
    → length nonce ≡ 12
    → counter < 2 ^ 32
    → Starts (chacha_start key) counter nonce
chacha_start-Starts key nonce counter e f h = record {
  state = words 16 (constant ++ key ++ little 4 counter ++ right_justified nonce);
  begins = chacha_start-some key nonce counter e (omega arith) h;
}

pub xchacha_start-Starts :
    (key nonce : Bytes) (counter : ℕ)
    → length key ≡ 32
    → length nonce ≡ 28
    → counter < 2 ^ 32
    → Starts (xchacha_start key) counter nonce
unfolding xchacha_start chacha20_round
xchacha_start-Starts key nonce counter e f h =
    let front : List ℕ = words 16 (constant ++ key ++ take 16 nonce) in
    let outer : unpack 16 (constant ++ key ++ take 16 nonce) ≡ some front =
      unpack-length 16 (constant ++ key ++ take 16 nonce)
        (omega (arith, length-three constant key (take 16 nonce), length-take 16 nonce)) in
    let rounds : List ℕ = chacha20_round front in
    let inner : Bytes = inner_key rounds in
    record {
      state = words 16 (constant ++ inner ++ little 4 counter ++ right_justified (drop 16 nonce));
      begins =
          ap (start_inner counter (drop 16 nonce)) outer
          ∙ chacha_start-some inner (drop 16 nonce) counter
              (length-inner_key rounds (
                length-quarters orders_chacha20 front
                ∙ length-words 16 (constant ++ key ++ take 16 nonce)))
              (omega (arith, length-drop 16 nonce)) h;
    }
