-- ===== src/Plugin/Simple/Laws.antt =====
-- What the plugin packs, it decodes; and the bytes that it never gets past.
use python_proxy.Base.{
  ℕ, zero, suc, ◌+◌, ◌-◌, ◌^◌, ◌<◌, ◌≤◌, ◌≡◌, refl, sym, ap, ◌∙◌, Option, none, some, [], ◌∷◌, ◌++◌,
  append_assoc, ==_iff, le→ltb, length, take, drop, get_elem?, Bytes, from_big, from_little, little,
  to_big, big, to_big-some, from_big-big, from_little-little, length-big, length-little,
  length-append, take-append_self, drop-append_self, arith, to_big-lt,
}
use python_proxy.Stream.Decoder.{again, returned, exhausted, loop, feed}
use python_proxy.Stream.Decoder.Laws.{loop-again}
use python_proxy.Plugin.Frames.{framed, decoder, pieces}
use python_proxy.Plugin.Frames.Laws.{
  join-pieces, IsPiece, pieces-IsPiece, pack_each-some, feed-pack_each,
}
use python_proxy.Plugin.Simple.{
  inverted, simple_step, padded, with_crc, behind_length, simple_pack, simple_encrypt,
}

stays :
    (skip : ℕ) (tail ret : Bytes)
    → inverted (take (length tail - 1) (0 ∷ 0 ∷ skip ∷ tail)) ≡ 0
    → simple_step (framed (0 ∷ 0 ∷ skip ∷ tail) ret)
      ≡ again (
          framed
            (0 ∷ 0 ∷ skip ∷ tail)
            (ret ++ drop (2 + skip) (take (length tail - 1) (0 ∷ 0 ∷ skip ∷ tail))))
unfolding simple_step from_big
stays skip tail ret h =
    let buf = 0 ∷ 0 ∷ skip ∷ tail in
    let e : length buf - 4 ≡ length tail - 1 = omega arith in
    let nothing : drop (length tail - 1) [] ≡ [] = drop_nothing (length tail - 1) in
    rw (le→ltb (length buf) 2 (omega arith), le→ltb (length buf) 0 (omega arith), e, h, nothing)
      refl
  where
    drop_nothing : (n : ℕ) → ◌≡◌ {A = Bytes} (drop n []) []
    drop_nothing zero = refl
    drop_nothing (suc n) = refl

-- From a buffer that begins with a length field of 0, and where the register of the CRC over all but
-- the last four bytes is 0, the loop of `decrypt` never ends, whatever the fuel.
pub simple_step-exhausted :
    (n skip : ℕ) (tail ret : Bytes)
    → inverted (take (length tail - 1) (0 ∷ 0 ∷ skip ∷ tail)) ≡ 0
    → loop (decoder simple_step) n (framed (0 ∷ 0 ∷ skip ∷ tail) ret) ≡ exhausted
unfolding loop
simple_step-exhausted zero skip tail ret h = refl
simple_step-exhausted (suc n) skip tail ret h =
    loop-again (decoder simple_step) n _ _ (stays skip tail ret h)
    ∙ simple_step-exhausted n skip tail _ h

-- A round, from the fields that it reads.
reads_packet :
    (buf ret front x piece : Bytes) (l skip : ℕ)
    → 2 ≤ length buf
    → from_big (take 2 buf) ≡ l
    → l ≤ length buf
    → get_elem? buf 2 ≡ some skip
    → 4 ≤ l
    → take (l - 4) buf ≡ front
    → from_little (drop (l - 4) (take l buf)) ≡ inverted front
    → drop l buf ≡ x
    → drop (2 + skip) front ≡ piece
    → simple_step (framed buf ret) ≡ again (framed x (ret ++ piece))
unfolding simple_step
reads_packet buf ret front x piece l skip two field whole third four begin crc end body =
    rw
      (
        le→ltb (length buf) 2 two,
        field,
        le→ltb (length buf) l whole,
        third,
        le→ltb l 4 four,
        begin,
        crc,
        (==_iff (inverted front) (inverted front)).1 refl,
        end,
        body,
      )
      refl

inverted-lt : (bytes : Bytes) → inverted bytes < 256 ^ 4
unfolding inverted
inverted-lt bytes = omega arith

third_of :
    (size : Bytes) (b : ℕ) (bytes : Bytes)
    → length size ≡ 2
    → get_elem? (size ++ (b ∷ bytes)) 2 ≡ some b
third_of [] b bytes h = absurd (omega arith)
third_of (x ∷ []) b bytes h = absurd (omega arith)
third_of (x ∷ y ∷ []) b bytes h = refl
third_of (x ∷ y ∷ z ∷ size) b bytes h = absurd (omega arith)

-- The fields of a packet in front of other bytes.
eats_fields :
    (piece rnd x ret : Bytes)
    → length (padded rnd piece) + 6 < 65536
    → simple_step
        (framed (with_crc (big 2 (length (padded rnd piece) + 6) ++ padded rnd piece) ++ x) ret)
      ≡ again (framed x (ret ++ piece))
eats_fields piece rnd x ret fits =
    let body = padded rnd piece in
    let l = length body + 6 in
    let size = big 2 l in
    let front = size ++ body in
    let crc = little 4 (inverted front) in
    let buf = (front ++ crc) ++ x in
    let two : length size ≡ 2 = length-big 2 l in
    let four : length crc ≡ 4 = length-little 4 (inverted front) in
    let short : length front ≡ l - 4 = omega (arith, length-append size body, two) in
    let full : length (front ++ crc) ≡ l = omega (arith, length-append front crc, four, short) in
    let all : length buf ≡ l + length x =
      length-append (front ++ crc) x ∙ ap (λ (m : ℕ). m + length x) full in
    let split : buf ≡ size ++ (body ++ (crc ++ x)) =
      append_assoc front crc x ∙ append_assoc size body (crc ++ x) in
    let skipped : length (size ++ (suc (length rnd) ∷ rnd)) ≡ 2 + suc (length rnd) =
      omega (arith, length-append size (suc (length rnd) ∷ rnd), two) in
    reads_packet buf ret front x piece l (suc (length rnd)) (omega (arith, all))
      (ap (λ b. from_big (take 2 b)) split
        ∙ ap from_big (take-append_self 2 size (body ++ (crc ++ x)) two)
        ∙ from_big-big 2 l (omega (arith, fits)))
      (omega (arith, all))
      (ap (λ b. get_elem? b 2) split
        ∙ third_of size (suc (length rnd)) ((rnd ++ piece) ++ (crc ++ x)) two)
      (omega arith)
      (ap (take (l - 4)) (append_assoc front crc x)
        ∙ take-append_self (l - 4) front (crc ++ x) short)
      (ap (λ b. from_little (drop (l - 4) b)) (take-append_self l (front ++ crc) x full)
        ∙ ap from_little (drop-append_self (l - 4) front crc short)
        ∙ from_little-little 4 (inverted front) (inverted-lt front))
      (drop-append_self l (front ++ crc) x full)
      (ap (drop (2 + suc (length rnd))) (sym (append_assoc size (suc (length rnd) ∷ rnd) piece))
        ∙ drop-append_self (2 + suc (length rnd)) (size ++ (suc (length rnd) ∷ rnd)) piece skipped)

module _ (noise : ℕ → Bytes) where
  eats :
      (i : ℕ) (piece packet x ret : Bytes)
      → IsPiece 8100 piece
      → simple_pack noise i piece ≡ some packet
      → simple_step (framed (packet ++ x) ret) ≡ again (framed x (ret ++ piece))
  unfolding simple_pack
  eats i piece packet x ret small e = go (to_big 2 (length (padded (noise i) piece) + 6)) refl e
    where
      go :
          (o : Option Bytes)
          → to_big 2 (length (padded (noise i) piece) + 6) ≡ o
          → behind_length (padded (noise i) piece) o ≡ some packet
          → simple_step (framed (packet ++ x) ret) ≡ again (framed x (ret ++ piece))
      go none f g = absurd (cc)
      go (some size) f g =
          let fits = to_big-some 2 (length (padded (noise i) piece) + 6) size f in
          let whole : packet
              ≡ with_crc (big 2 (length (padded (noise i) piece) + 6) ++ padded (noise i) piece) =
            cc fits.1 in
          rw whole (eats_fields piece (noise i) x ret (omega (arith, fits.0)))

  packs :
      (i : ℕ) (piece : Bytes)
      → length (noise i) < 16
      → IsPiece 8100 piece
      → (packet : Bytes) × (simple_pack noise i piece ≡ some packet)
  unfolding simple_pack
  packs i piece few small =
      let body = padded (noise i) piece in
      (
        with_crc (big 2 (length body + 6) ++ body),
        rw
            (to_big-lt 2 (length body + 6)
              (omega (arith, length-append (noise i) piece, few, small.1)))
            refl,
      )

  grows :
      (i : ℕ) (piece packet : Bytes) → simple_pack noise i piece ≡ some packet → 0 < length packet
  unfolding simple_pack
  grows i piece packet e = go (to_big 2 (length (padded (noise i) piece) + 6)) e
    where
      go :
          (o : Option Bytes)
          → behind_length (padded (noise i) piece) o ≡ some packet
          → 0 < length packet
      go none f = absurd (cc)
      go (some size) f =
          let front = size ++ padded (noise i) piece in
          let whole : packet ≡ with_crc front = cc in
          rw whole (
            omega (
              arith,
              length-append front (little 4 (inverted front)),
              length-little 4 (inverted front),
            ))

  -- Every text can be encrypted, with less than 16 bytes of noise in a packet, and decryption of the
  -- packets in one call gives the text back and leaves nothing in the buffer.
  pub simple_step-simple_encrypt :
      (s : Bytes)
      → ((i : ℕ) → length (noise i) < 16)
      → (packets : Bytes) × (simple_encrypt noise s ≡ some packets)
        × (feed (decoder simple_step) (framed [] []) packets ≡ returned (framed [] s))
  unfolding simple_encrypt
  simple_step-simple_encrypt s few =
      let ps = pieces 8100 (λ i. 8100) 0 (length s) s in
      let good =
        pieces-IsPiece 8100 8100 (λ i. 8100) 0 (length s) s (omega arith)
          (λ i. (omega arith, omega arith)) (omega arith) in
      let all =
        pack_each-some (IsPiece 8100) (simple_pack noise) (λ i p h. packs i p (few i) h) ps 0
          good in
      (
        all.0,
        all.1,
        feed-pack_each simple_step (IsPiece 8100) (simple_pack noise) eats grows
              (λ ret. unfold simple_step in refl) ps all.0 good all.1
            ∙ ap (λ t. returned (framed [] t)) (join-pieces 8100 (λ i. 8100) 0 (length s) s),
      )
