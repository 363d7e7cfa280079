-- ===== src/Protocols/Channel/Laws.antt =====
-- What the two channels keep, whatever arrives.
use python_proxy.Base.{
  ℕ, ◌+◌, ◌<◌, ◌≡◌, ◌⊎◌, if◌then◌else◌, Bool, true, false, Option, none, some, List, [], ◌∷◌, ◌++◌,
  leb, length, Bytes, refl, arith, length-append, Bool-cases, inl, inr, ap, sym, subst, ◌||◌, ◌∙◌,
}
use python_proxy.Protocols.Http.{Web}
use python_proxy.Protocols.Channel.{
  Turn, Channel, drain_buffer_size, channel_start, finish, drain, forward, forward_some, take_chunk,
  turn_open, wait_drain, rewritten, pass_on, channel, pass_http, http_channel,
}

-- Every byte written is counted; the connection is counted once and, when the writer is closed, taken
-- off once; and while the loop runs, less than the limit waits for a drain.
abbrev pub ended_by : Option Bool → ℕ
ended_by none = 0
ended_by (some g) = 1

abbrev pub LimitOf : Option Bool → ℕ → Type 0
LimitOf none pending = pending < drain_buffer_size
LimitOf (some g) pending = Unit

pub record IsRelay (s : Channel) : Type 0 where
  pub bytes : s.counted ≡ length s.written
  pub up : s.raised ≡ 1
  pub down : s.lowered ≡ ended_by s.graceful
  pub waiting : LimitOf s.graceful s.pending_drain

-- The loop before its end.
record IsRunning (s : Channel) : Type 0 where
  bytes : s.counted ≡ length s.written
  up : s.raised ≡ 1
  down : s.lowered ≡ 0
  going : s.graceful ≡ none
  waiting : s.pending_drain < drain_buffer_size

running : (s : Channel) → s.graceful ≡ none → IsRelay s → IsRunning s
running s e i = record {
  bytes = i.bytes;
  up = i.up;
  down = i.down ∙ ap ended_by e;
  going = e;
  waiting = subst (λ g. LimitOf g s.pending_drain) e i.waiting;
}

relays : (s : Channel) → IsRunning s → IsRelay s
relays s r = record {
  bytes = r.bytes;
  up = r.up;
  down = r.down ∙ sym (ap ended_by r.going);
  waiting = subst (λ g. LimitOf g s.pending_drain) (sym r.going) r.waiting;
}

finish-IsRelay :
    (s : Channel) → s.counted ≡ length s.written → s.raised ≡ 1 → s.lowered ≡ 0 → IsRelay (finish s)
finish-IsRelay s b u d = record { bytes = b; up = u; down = omega (arith, d); waiting = tt }

leb_below : (a b : ℕ) → leb a b ≡ false → b < a
leb_below a b e = ground arith

forward-IsRelay :
    (bytes : Bytes) (drained : Bool) (s : Channel) → IsRunning s → IsRelay (forward bytes drained s)
forward-IsRelay bytes drained s r =
    full (Bool-cases (leb drain_buffer_size (s.pending_drain + length bytes)))
  where
    next : Channel
    next = record s {
      counted = s.counted + length bytes;
      written = s.written ++ bytes;
      pending_drain = s.pending_drain + length bytes;
    }

    counts : next.counted ≡ length next.written
    counts = omega (arith, r.bytes, length-append s.written bytes)

    waits : (d : Bool) → IsRelay (wait_drain d next)
    waits true = relays _ (record {
      bytes = counts;
      up = r.up;
      down = r.down;
      going = r.going;
      waiting = omega arith;
    })
    waits false = finish-IsRelay next counts r.up r.down

    full :
        (leb drain_buffer_size (s.pending_drain + length bytes) ≡ true)
          ⊎ (leb drain_buffer_size (s.pending_drain + length bytes) ≡ false)
        → IsRelay (drain drained next)
    full (inl e) =
        subst (λ b. IsRelay (if b then wait_drain drained next else next)) (sym e) (waits drained)
    full (inr e) =
        subst (λ b. IsRelay (if b then wait_drain drained next else next)) (sym e)
          (relays next (record {
            bytes = counts;
            up = r.up;
            down = r.down;
            going = r.going;
            waiting = leb_below _ _ e;
          }))

-- A turn, and a run of turns, where what becomes of a chunk keeps the invariant.
turn_open-IsRelay :
    (pass : Bytes → Channel → Channel)
    → ((bytes : Bytes) (s : Channel) → IsRunning s → IsRelay (pass bytes s))
    → (t : Turn) (s : Channel) → IsRelay s
    → IsRelay (turn_open pass t s.graceful s)
turn_open-IsRelay pass keeps t s i = go s.graceful refl
  where
    chunk : (got : Option Bytes) → IsRunning s → IsRelay (take_chunk pass got s)
    chunk none r = finish-IsRelay s r.bytes r.up r.down
    chunk (some []) r = finish-IsRelay (record s { normal_eof = true }) r.bytes r.up r.down
    chunk (some (b ∷ bytes)) r = keeps (b ∷ bytes) s r

    stops : (b : Bool) → IsRunning s → IsRelay (if b then finish s else take_chunk pass t.got s)
    stops true r = finish-IsRelay s r.bytes r.up r.down
    stops false r = chunk t.got r

    go : (g : Option Bool) → s.graceful ≡ g → IsRelay (turn_open pass t g s)
    go none e = stops (t.at_eof || t.is_closing) (running s e i)
    go (some g) e = i

start-IsRelay : (at_eof : Bool) → IsRelay (channel_start at_eof)
unfolding channel_start
start-IsRelay at_eof = record { bytes = refl; up = refl; down = refl; waiting = omega arith }

-- The invariant on a run of either.
channel_keeps :
    (counts at_eof : Bool) (turns : List Turn)
    → IsRelay (channel counts turns (channel_start at_eof))
unfolding channel
channel_keeps counts at_eof turns = go turns (channel_start at_eof) (start-IsRelay at_eof)
  where
    keeps :
        (c : Bool) (t : Turn) (bytes : Bytes) (s : Channel)
        → IsRunning s
        → IsRelay (pass_on c t bytes s)
    keeps true t bytes s r = forward-IsRelay bytes t.drained s r
    keeps false t bytes s r = relays s r

    go : (turns : List Turn) (s : Channel) → IsRelay s → IsRelay (channel counts turns s)
    go [] s i = i
    go (t ∷ turns) s i =
        go turns (turn_open (pass_on counts t) t s.graceful s)
          (turn_open-IsRelay (pass_on counts t) (keeps counts t) t s i)

http_channel_keeps :
    {P : Type 0} (web : Web P) (at_eof : Bool) (turns : List Turn)
    → IsRelay (http_channel web turns (channel_start at_eof))
unfolding http_channel
http_channel_keeps web at_eof turns = go turns (channel_start at_eof) (start-IsRelay at_eof)
  where
    passes :
        (o : Option Bytes) (drained : Bool) (s : Channel)
        → IsRunning s
        → IsRelay (forward_some o drained s)
    passes none drained s r = finish-IsRelay s r.bytes r.up r.down
    passes (some bytes) drained s r = forward-IsRelay bytes drained s r

    go : (turns : List Turn) (s : Channel) → IsRelay s → IsRelay (http_channel web turns s)
    go [] s i = i
    go (t ∷ turns) s i = go turns (turn_open (pass_http web t) t s.graceful s) (
        turn_open-IsRelay (pass_http web t)
          (λ bytes s r. passes (rewritten web t bytes) t.drained s r) t s i)

-- Whatever the turns are, both `channel` and `http_channel` keep the invariant `IsRelay` from their start:
-- what is counted is the length of what is written, the connection is counted up once and down once at
-- the end, and less than DRAIN_BUFFER_SIZE bytes wait for a drain while the loop runs.
pub channel-IsRelay :
    {P : Type 0} (web : Web P) (counts at_eof : Bool) (turns : List Turn)
    → IsRelay (channel counts turns (channel_start at_eof))
      × IsRelay (http_channel web turns (channel_start at_eof))
channel-IsRelay web counts at_eof turns =
    (channel_keeps counts at_eof turns, http_channel_keeps web at_eof turns)
