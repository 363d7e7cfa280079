-- ===== src/Plugin/Frames/Laws.antt =====
-- Packets that are decoded one by one, and pieces that make up the text.
use python_proxy.Base.{
  ℕ, zero, suc, ◌+◌, ◌<◌, ◌≤◌, ◌≡◌, refl, ap, ◌∙◌, Bool, true, false, Bool-cases, inl, inr, Option,
  none, some, List, [], ◌∷◌, ◌++◌, append_assoc, append-nil, ltb, ltb→lt, ltb_false→le,
  if◌then◌else◌, length, take, drop, All, Bytes, take-append-drop, length-drop, length-take,
  length-append, arith,
}
use python_proxy.Protocols.Conn.{Error}
use python_proxy.Stream.Decoder.{Round, wait, again, returned, loop, run, feed}
use python_proxy.Stream.Decoder.Laws.{loop-again, loop-wait}
use python_proxy.Plugin.Frames.{
  Framed, framed, decoder, last_piece, pieces, joined_packets, pack_each,
}

abbrev pub join : List Bytes → Bytes
join [] = []
join (m ∷ ms) = m ++ join ms

-- The pieces make up the text.
pub join-pieces :
    (limit : ℕ) (sizes : ℕ → ℕ) (i fuel : ℕ) (s : Bytes) → join (pieces limit sizes i fuel s) ≡ s
unfolding pieces
join-pieces limit sizes i zero [] = refl
join-pieces limit sizes i zero (b ∷ s) = append-nil (b ∷ s)
join-pieces limit sizes i (suc fuel) s =
    go (ltb limit (length s)) (join-pieces limit sizes (suc i) fuel (drop (sizes i) s))
  where
    last : (s : Bytes) → join (last_piece s) ≡ s
    last [] = refl
    last (b ∷ s) = append-nil (b ∷ s)

    go :
        (b : Bool)
        → join (pieces limit sizes (suc i) fuel (drop (sizes i) s)) ≡ drop (sizes i) s
        → join (
            if b
            then take (sizes i) s ∷ pieces limit sizes (suc i) fuel (drop (sizes i) s)
            else last_piece s)
          ≡ s
    go true ih = rw ih (take-append-drop (sizes i) s)
    go false ih = last s

abbrev pub IsPiece : ℕ → Bytes → Type 0
IsPiece most piece = (0 < length piece) × (length piece ≤ most)

last_piece-IsPiece : (most : ℕ) (s : Bytes) → length s ≤ most → All (IsPiece most) (last_piece s)
last_piece-IsPiece most [] h = tt
last_piece-IsPiece most (b ∷ s) h = ((omega arith, h), tt)

-- With as much fuel as the text has bytes, no piece is empty, or longer than the limit and the sizes
-- drawn.
pub pieces-IsPiece :
    (limit most : ℕ) (sizes : ℕ → ℕ) (i fuel : ℕ) (s : Bytes)
    → limit ≤ most
    → ((i : ℕ) → (0 < sizes i) × (sizes i ≤ most))
    → length s ≤ fuel
    → All (IsPiece most) (pieces limit sizes i fuel s)
unfolding pieces
pieces-IsPiece limit most sizes i zero s low bound enough =
    last_piece-IsPiece most s (omega (arith, low, enough))
pieces-IsPiece limit most sizes i (suc fuel) s low bound enough =
    elim (Bool-cases (ltb limit (length s))) [
      | inl over ↦
          let long = ltb→lt _ _ over in
          let b = bound i in
          rw over (
            (
              omega (arith, length-take (sizes i) s, long, b.0),
              omega (arith, length-take (sizes i) s, b.1),
            ),
            pieces-IsPiece limit most sizes (suc i) fuel (drop (sizes i) s) low bound
                (omega (arith, length-drop (sizes i) s, b.0, enough)),
          )
      | inr fits ↦
          let short = ltb_false→le _ _ fits in
          rw fits (last_piece-IsPiece most s (omega (arith, short, low)))
    ]

-- Where each piece can be packed, all can.
pub pack_each-some :
    (IsGood : Bytes → Type 0) (pack : ℕ → Bytes → Option Bytes)
    → ((i : ℕ) (piece : Bytes) → IsGood piece → (packet : Bytes) × (pack i piece ≡ some packet))
    → (ps : List Bytes) (i : ℕ) → All IsGood ps
    → (packets : Bytes) × (pack_each pack i ps ≡ some packets)
unfolding pack_each
pack_each-some IsGood pack packs [] i h = ([], refl)
pack_each-some IsGood pack packs (p ∷ ps) i h =
    let first = packs i p h.0 in
    let rest = pack_each-some IsGood pack packs ps (suc i) h.1 in
    (first.0 ++ rest.0, rw (first.1, rest.1) refl)

module _ (step : Framed → Round Framed Error) (IsGood : Bytes → Type 0)
    (pack : ℕ → Bytes → Option Bytes)
    (eats : (i : ℕ) (piece packet x ret : Bytes)
      → IsGood piece
      → pack i piece ≡ some packet
      → step (framed (packet ++ x) ret) ≡ again (framed x (ret ++ piece)))
    (grows : (i : ℕ) (piece packet : Bytes) → pack i piece ≡ some packet → 0 < length packet)
    (ends : (ret : Bytes) → step (framed [] ret) ≡ wait (framed [] ret)) where
  loop-pack_each :
      (ps : List Bytes) (i n : ℕ) (packets ret : Bytes)
      → All IsGood ps
      → pack_each pack i ps ≡ some packets
      → length packets < n
      → loop (decoder step) n (framed packets ret) ≡ returned (framed [] (ret ++ join ps))
  unfolding pack_each
  loop-pack_each ps i zero packets ret small e h = absurd (omega arith)
  loop-pack_each [] i (suc n) packets ret small e h =
      let nothing : packets ≡ [] = cc in
      rw (nothing, append-nil ret) (loop-wait (decoder step) n _ _ (ends ret))
  loop-pack_each (p ∷ ps) i (suc n) packets ret small e h =
      go (pack i p) refl (pack_each pack (suc i) ps) refl e
        (λ rest. loop-pack_each ps (suc i) n rest (ret ++ p) small.1)
    where
      go :
          (o : Option Bytes)
          → pack i p ≡ o
          → (q : Option Bytes) → pack_each pack (suc i) ps ≡ q
          → joined_packets o q ≡ some packets
          → ((rest : Bytes)
              → pack_each pack (suc i) ps ≡ some rest
              → length rest < n
              → loop (decoder step) n (framed rest (ret ++ p))
                ≡ returned (framed [] ((ret ++ p) ++ join ps)))
          → loop (decoder step) (suc n) (framed packets ret)
            ≡ returned (framed [] (ret ++ (p ++ join ps)))
      go none f q g k ih = absurd (cc)
      go (some packet) f none g k ih = absurd (cc)
      go (some packet) f (some rest) g k ih =
          let whole : packets ≡ packet ++ rest = cc in
          let more = grows i p packet f in
          let size : length packets ≡ length packet + length rest =
            ap length whole ∙ length-append packet rest in
          rw (whole, ← append_assoc ret p (join ps))
            (loop-again (decoder step) n _ _ (eats i p packet rest ret small.0 f)
              ∙ ih rest g (omega (arith, more, size, h)))

  -- What was packed is decoded in one call, to the pieces in their order, and nothing stays in the
  -- buffer.
  pub feed-pack_each :
      (ps : List Bytes) (packets : Bytes)
      → All IsGood ps
      → pack_each pack 0 ps ≡ some packets
      → feed (decoder step) (framed [] []) packets ≡ returned (framed [] (join ps))
  unfolding feed run
  feed-pack_each ps packets small e =
      loop-pack_each ps 0 (suc (length packets)) packets [] small e (omega arith)
