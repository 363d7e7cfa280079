-- ===== src/Plugin/Tls/Laws.antt =====
-- Records that arrive whole are decoded, and those that are cut in their last five bytes are not.
use python_proxy.Base.{
  ℕ, suc, ◌+◌, ◌<◌, ◌≤◌, ◌≡◌, refl, ap, ap₂, ◌∙◌, Option, none, some, [], ◌∷◌, ◌++◌, append_assoc,
  le→ltb, length, take, drop, Bytes, to_big, big, to_big-lt, from_big-big, length-big,
  length-append, length-take, take-append_self, drop-append_self, drop_all, take_all, arith,
}
use python_proxy.Cipherpy.Process.{equal_bytes}
use python_proxy.Protocols.Address.{packstr, behind}
use python_proxy.Stream.Decoder.{again, returned, run, feed}
use python_proxy.Stream.Decoder.Laws.{loop-again, loop-wait}
use python_proxy.Plugin.Frames.{framed, decoder, pieces}
use python_proxy.Plugin.Frames.Laws.{
  join-pieces, IsPiece, pieces-IsPiece, pack_each-some, feed-pack_each,
}
use python_proxy.Plugin.Tls.{tls_step, record_of, tls_pack, tls_encrypt}

abbrev record_bytes : Bytes → Bytes
record_bytes s = 23 ∷ 3 ∷ 3 ∷ (big 2 (length s) ++ s)

drop_behind : (a b : Bytes) (n l : ℕ) → length a ≡ n → drop (n + l) (a ++ b) ≡ drop l b
drop_behind [] b n l h = ap (λ (m : ℕ). drop m b) (omega (arith, h))
drop_behind (x ∷ a) b n l h =
    let e : n + l ≡ suc (length a + l) = omega (arith, h) in
    ap (λ (m : ℕ). drop m (x ∷ (a ++ b))) e ∙ drop_behind a b (length a) l refl

-- A round at a record whose payload is `l` bytes, of which `there` have arrived.
reads_record :
    (l : ℕ) (there ret : Bytes)
    → l < 65536
    → l ≤ 5 + length there
    → tls_step (framed (23 ∷ 3 ∷ 3 ∷ (big 2 l ++ there)) ret)
      ≡ again (framed (drop l there) (ret ++ take l there))
unfolding tls_step equal_bytes
reads_record l there ret fits enough =
    let size = length-big 2 l in
    let all : length (big 2 l ++ there) ≡ 2 + length there =
      omega (arith, length-append (big 2 l) there, size) in
    rw
      (
        le→ltb (length (23 ∷ 3 ∷ 3 ∷ (big 2 l ++ there))) 5 (omega (arith, all)),
        take-append_self 2 (big 2 l) there size,
        from_big-big 2 l (omega (arith, fits)),
        le→ltb (length (23 ∷ 3 ∷ 3 ∷ (big 2 l ++ there))) l (omega (arith, all, enough)),
      )
      (ap₂ (λ x y. again (framed x (ret ++ take l y)))
        (drop_behind (23 ∷ 3 ∷ 3 ∷ big 2 l) there 5 l (omega (arith, size)))
        (drop-append_self 2 (big 2 l) there size))

tls_pack-lt : (i : ℕ) (s : Bytes) → length s < 65536 → tls_pack i s ≡ some (record_bytes s)
unfolding tls_pack packstr
tls_pack-lt i s fits = rw (to_big-lt 2 (length s) (omega (arith, fits))) refl

eats :
    (i : ℕ) (piece packet x ret : Bytes)
    → IsPiece 4195 piece
    → tls_pack i piece ≡ some packet
    → tls_step (framed (packet ++ x) ret) ≡ again (framed x (ret ++ piece))
eats i piece packet x ret small e =
    let fits : length piece < 65536 = omega (arith, small.1) in
    let f = tls_pack-lt i piece fits in
    let whole : packet ≡ record_bytes piece = cc in
    rw (whole, append_assoc (big 2 (length piece)) piece x)
      (reads_record (length piece) (piece ++ x) ret fits (omega (arith, length-append piece x))
        ∙ ap₂ (λ y z. again (framed y (ret ++ z))) (drop-append_self (length piece) piece x refl)
            (take-append_self (length piece) piece x refl))

grows : (i : ℕ) (piece packet : Bytes) → tls_pack i piece ≡ some packet → 0 < length packet
unfolding tls_pack packstr
grows i piece packet e = go (to_big 2 (length piece)) e
  where
    go : (o : Option Bytes) → record_of (behind piece o) ≡ some packet → 0 < length packet
    go none f = absurd (cc)
    go (some size) f =
        let whole : packet ≡ 23 ∷ 3 ∷ 3 ∷ (size ++ piece) = cc in rw whole (omega arith)

-- Every text can be encrypted, however the sizes of its records are drawn, and decryption of the
-- records in one call gives the text back and leaves nothing in the buffer.
pub tls_step-tls_encrypt :
    (drawn : ℕ → ℕ) (s : Bytes)
    → ((i : ℕ) → drawn i < 4096)
    → (records : Bytes) × (tls_encrypt drawn s ≡ some records)
      × (feed (decoder tls_step) (framed [] []) records ≡ returned (framed [] s))
unfolding tls_encrypt
tls_step-tls_encrypt drawn s low =
    let sizes : ℕ → ℕ = λ i. drawn i + 100 in
    let ps = pieces 2048 sizes 0 (length s) s in
    let good =
      pieces-IsPiece 2048 4195 sizes 0 (length s) s (omega arith)
        (λ i. (omega arith, omega (arith, low i))) (omega arith) in
    let all =
      pack_each-some (IsPiece 4195) tls_pack
        (λ i p h. (record_bytes p, tls_pack-lt i p (omega (arith, h.1)))) ps 0 good in
    (
      all.0,
      all.1,
      feed-pack_each tls_step (IsPiece 4195) tls_pack eats grows (λ ret. unfold tls_step in refl) ps
            all.0 good all.1
          ∙ ap (λ t. returned (framed [] t)) (join-pieces 2048 sizes 0 (length s) s),
    )

-- Where the first bytes of a record end within the last five of its payload, `decrypt` takes the
-- record for whole: it gives the payload without those bytes, and keeps nothing of the record, so
-- that the bytes that follow are read as the header of another one.
pub tls_step-truncates :
    (s : Bytes) (k : ℕ)
    → length s < 65536
    → k < length s
    → length s ≤ 5 + k
    → feed (decoder tls_step) (framed [] []) (23 ∷ 3 ∷ 3 ∷ (big 2 (length s) ++ take k s))
      ≡ returned (framed [] (take k s))
unfolding feed run
tls_step-truncates s k fits cut near =
    let there = take k s in
    let size : length there ≡ k = omega (arith, length-take k s, cut) in
    let gone : drop (length s) there ≡ [] = drop_all (length s) there (omega (arith, size, cut)) in
    let all : take (length s) there ≡ there =
      take_all (length s) there (omega (arith, size, cut)) in
    loop-again (decoder tls_step) (length (23 ∷ 3 ∷ 3 ∷ (big 2 (length s) ++ there))) _ _
      (reads_record (length s) there [] fits (omega (arith, size, near)))
    ∙ rw (gone, all)
        (loop-wait (decoder tls_step) (suc (suc (length (big 2 (length s) ++ there)))) _ _
          (unfold tls_step in refl))
