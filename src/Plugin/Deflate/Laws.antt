-- ===== src/Plugin/Deflate/Laws.antt =====
-- What the plugin compresses, it decompresses.
use python_proxy.Base.{
  ℕ, suc, ◌+◌, ◌<◌, ◌≡◌, refl, sym, ap, ◌∙◌, Option, none, some, [], ◌∷◌, ◌++◌, append_assoc,
  le→ltb, length, take, drop, Bytes, from_big, to_big, big, to_big-lt, to_big-some, from_big-big,
  length-big, length-append, take-append_self, drop-append_self, arith,
}
use python_proxy.Stream.Decoder.{again, returned, feed}
use python_proxy.Plugin.Frames.{framed, decoder, pieces}
use python_proxy.Plugin.Frames.Laws.{
  join-pieces, IsPiece, pieces-IsPiece, pack_each-some, feed-pack_each,
}
use python_proxy.Plugin.Deflate.{
  Zlib, IsZlib, deflate_step, deflated, deflate_pack, deflate_encrypt,
}

module _ (z : Zlib) (law : IsZlib z) where
  abbrev packet_of : Bytes → Bytes
  packet_of s = big 2 (suc (suc (length (law.tail s)))) ++ law.tail s

  packs :
      (i : ℕ) (piece : Bytes)
      → IsPiece 32700 piece
      → deflate_pack z i piece ≡ some (packet_of piece)
  unfolding deflate_pack
  packs i piece small =
      let tail = law.tail piece in
      let e = law.header piece in
      let n : length (z.compress piece) ≡ suc (suc (length tail)) = ap length e in
      let fits = law.size piece small.1 in
      ap (λ x. deflated z x (to_big 2 (length x))) e
      ∙ rw (to_big-lt 2 (suc (suc (length tail))) (omega (arith, n, fits))) refl

  eats :
      (i : ℕ) (piece packet x ret : Bytes)
      → IsPiece 32700 piece
      → deflate_pack z i piece ≡ some packet
      → deflate_step z (framed (packet ++ x) ret) ≡ again (framed x (ret ++ piece))
  unfolding deflate_step
  eats i piece packet x ret small e =
      let tail = law.tail piece in
      let l = suc (suc (length tail)) in
      let size = big 2 l in
      let two : length size ≡ 2 = length-big 2 l in
      let n : length (z.compress piece) ≡ l = ap length (law.header piece) in
      let fits = law.size piece small.1 in
      let f = packs i piece small in
      let whole : packet ≡ size ++ tail = cc in
      let full : length (size ++ tail) ≡ l = omega (arith, length-append size tail, two) in
      let all : length ((size ++ tail) ++ x) ≡ l + length x =
        omega (arith, length-append (size ++ tail) x, full) in
      let field : from_big (take 2 ((size ++ tail) ++ x)) ≡ l =
        ap (λ y. from_big (take 2 y)) (append_assoc size tail x)
        ∙ ap from_big (take-append_self 2 size (tail ++ x) two)
        ∙ from_big-big 2 l (omega (arith, n, fits)) in
      let body : z.decompress (120 ∷ 156 ∷ tail) ≡ some piece =
        ap z.decompress (sym (law.header piece)) ∙ law.inverse piece in
      rw
        (
          whole,
          le→ltb (length ((size ++ tail) ++ x)) 2 (omega (arith, all)),
          field,
          le→ltb (length ((size ++ tail) ++ x)) l (omega (arith, all)),
          take-append_self l (size ++ tail) x full,
          drop-append_self 2 size tail two,
          body,
          drop-append_self l (size ++ tail) x full,
        )
        refl

  grows : (i : ℕ) (piece packet : Bytes) → deflate_pack z i piece ≡ some packet → 0 < length packet
  unfolding deflate_pack
  grows i piece packet e = go (to_big 2 (length (z.compress piece))) refl e
    where
      go :
          (o : Option Bytes)
          → to_big 2 (length (z.compress piece)) ≡ o
          → deflated z (z.compress piece) o ≡ some packet
          → 0 < length packet
      go none f g = absurd (cc)
      go (some size) f g =
          let two : length size ≡ 2 =
            ap length (to_big-some 2 (length (z.compress piece)) size f).1
            ∙ length-big 2 (length (z.compress piece)) in
          let whole : packet ≡ size ++ drop 2 (z.compress piece) = cc in
          rw whole (omega (arith, length-append size (drop 2 (z.compress piece)), two))

  -- Every text can be encrypted, and decryption of the packets in one call gives it back and leaves
  -- nothing in the buffer.
  pub deflate_step-deflate_encrypt :
      (s : Bytes)
      → (packets : Bytes) × (deflate_encrypt z s ≡ some packets)
        × (feed (decoder (deflate_step z)) (framed [] []) packets ≡ returned (framed [] s))
  unfolding deflate_encrypt
  deflate_step-deflate_encrypt s =
      let ps = pieces 32700 (λ i. 32700) 0 (length s) s in
      let good =
        pieces-IsPiece 32700 32700 (λ i. 32700) 0 (length s) s (omega arith)
          (λ i. (omega arith, omega arith)) (omega arith) in
      let all =
        pack_each-some (IsPiece 32700) (deflate_pack z) (λ i p h. (packet_of p, packs i p h)) ps 0
          good in
      (
        all.0,
        all.1,
        feed-pack_each (deflate_step z) (IsPiece 32700) (deflate_pack z) eats grows
              (λ ret. unfold deflate_step in refl) ps all.0 good all.1
            ∙ ap (λ t. returned (framed [] t)) (join-pieces 32700 (λ i. 32700) 0 (length s) s),
      )
