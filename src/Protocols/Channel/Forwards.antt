-- ===== src/Protocols/Channel/Forwards.antt =====
-- What `channel` writes, against the chunks that arrive.
use python_proxy.Base.{
  ◌+◌, ◌≡◌, Bool, true, false, Option, none, some, List, [], ◌∷◌, ◌++◌, ◌||◌, if◌then◌else◌, leb,
  length, Bytes, refl, ap, sym, ◌∙◌, append-nil, append_assoc,
}
use python_proxy.Protocols.Channel.{
  Turn, Channel, drain_buffer_size, channel_start, finish, wait_drain, forward, take_chunk,
  turn_open, pass_on, channel,
}

-- The chunks up to the first turn that ends the loop: the end of the input, a writer that is closing,
-- an exception, or an empty read.
abbrev pub arrived : Option Bytes → Bytes → Bytes
arrived none rest = []
arrived (some []) rest = []
arrived (some (b ∷ bytes)) rest = (b ∷ bytes) ++ rest

unfoldable pub forwarded : List Turn → Bytes
forwarded [] = []
forwarded (t ∷ turns) =
    let rest = forwarded turns in if t.at_eof || t.is_closing then [] else arrived t.got rest

abbrev pub IsDrained : List Turn → Type 0
IsDrained [] = Unit
IsDrained (t ∷ turns) = (t.drained ≡ true) × IsDrained turns

ended_lem :
    (counts : Bool) (turns : List Turn) (s : Channel) (g : Bool)
    → s.graceful ≡ some g
    → channel counts turns s ≡ s
unfolding channel
ended_lem counts [] s g e = refl
ended_lem counts (t ∷ turns) s g e =
    ap (λ o. channel counts turns (turn_open (pass_on counts t) t o s)) e
    ∙ ended_lem counts turns s g e

finished_lem :
    (turns : List Turn) (s : Channel) → (channel true turns (finish s)).written ≡ s.written ++ []
finished_lem turns s =
    ap (λ c. c.written) (ended_lem true turns (finish s) s.normal_eof refl)
    ∙ sym (append-nil s.written)

-- A chunk with a drain that returns.
drained_lem :
    (bytes : Bytes) (s : Channel)
    → s.graceful ≡ none
    → ((forward bytes true s).written ≡ s.written ++ bytes)
      × ((forward bytes true s).graceful ≡ none)
drained_lem bytes s e = either (leb drain_buffer_size (s.pending_drain + length bytes))
  where
    next : Channel
    next = record s {
      counted = s.counted + length bytes;
      written = s.written ++ bytes;
      pending_drain = s.pending_drain + length bytes;
    }

    either :
        (b : Bool)
        → ((if b then wait_drain true next else next).written ≡ s.written ++ bytes)
          × ((if b then wait_drain true next else next).graceful ≡ none)
    either true = (refl, e)
    either false = (refl, e)

-- The first turn, where `rest` is what the turns behind it do.
abbrev Forwards : List Turn → Type 0
Forwards turns =
    (s : Channel)
    → s.graceful ≡ none
    → (channel true turns s).written ≡ s.written ++ forwarded turns

turn_lem : (t : Turn) (turns : List Turn) → Forwards turns → t.drained ≡ true → Forwards (t ∷ turns)
unfolding channel forwarded
turn_lem t turns rest d s e =
    ap (λ o. (channel true turns (turn_open (pass_on true t) t o s)).written) e
    ∙ stops (t.at_eof || t.is_closing)
  where
    passed :
        (bytes : Bytes)
        → (channel true turns (forward bytes true s)).written
          ≡ s.written ++ (bytes ++ forwarded turns)
    passed bytes =
        let q = drained_lem bytes s e in
        rest (forward bytes true s) q.1
        ∙ ap (λ w. w ++ forwarded turns) q.0
        ∙ append_assoc s.written bytes (forwarded turns)

    chunk :
        (got : Option Bytes)
        → (channel true turns (take_chunk (pass_on true t) got s)).written
          ≡ s.written ++ arrived got (forwarded turns)
    chunk none = finished_lem turns s
    chunk (some []) = finished_lem turns (record s { normal_eof = true })
    chunk (some (b ∷ bytes)) =
        ap (λ x. (channel true turns (forward (b ∷ bytes) x s)).written) d ∙ passed (b ∷ bytes)

    stops :
        (b : Bool)
        → (channel true turns (if b then finish s else take_chunk (pass_on true t) t.got s)).written
          ≡ s.written ++ (if b then [] else arrived t.got (forwarded turns))
    stops true = finished_lem turns s
    stops false = chunk t.got

running_lem : (turns : List Turn) → IsDrained turns → Forwards turns
unfolding channel forwarded
running_lem [] d s e = sym (append-nil s.written)
running_lem (t ∷ turns) (d, ds) s e = turn_lem t turns (running_lem turns ds) d s e

-- With `stat_bytes` given and every drain returning, what `channel` writes from its start is the chunks
-- in order up to the first turn that ends the loop.
pub channel-forwarded :
    (at_eof : Bool) (turns : List Turn)
    → IsDrained turns
    → (channel true turns (channel_start at_eof)).written ≡ forwarded turns
unfolding channel_start
channel-forwarded at_eof turns d = running_lem turns d (channel_start at_eof) refl
