-- ===== src/H2/Stream.antt =====
-- pproxy/h2.py: the pair of `get_stream`, that is the reader's input, `StreamWriter`, and the task
-- `write_job`. A flow-control window below zero counts as 0.
pub mod Laws
use python_proxy.Base.{
  ℕ, zero, suc, ◌+◌, ◌-◌, ◌*◌, ◌<◌, ◌≡◌, Bool, true, false, Option, none, some, List, [], ◌∷◌, ◌++◌,
  ◌==◌, ltb, min, if◌then◌else◌, length, take, drop, Bytes,
}
use python_proxy.Protocols.Conn.{Error, protocol, Result, ok, err}

abbrev pub Headers : Type 0
Headers = List (Bytes × Bytes)

-- Where `write_job` stands: at `await write_wait.wait()`, at `await write_full.wait()`, or at its end.
-- A job that has not started yet does as one that waits with nothing written.
pub data Point : Type 0 where
  at_wait at_full finished : Point

-- `fed` and `eof` are what the reader was given, `headers` is the future, `sent` the bytes given to
-- `conn.send_data`, and `ended` its END_STREAM.
pub record Stream : Type 0 where
  pub fed : Bytes
  pub eof : Bool
  pub headers : Option Headers
  pub closed : Bool
  pub write_buffer : Bytes
  pub write_wait : Bool
  pub write_full : Bool
  pub point : Point
  pub sent : Bytes
  pub ended : Bool

unfoldable pub get_stream : Stream
get_stream = record {
  fed = [];
  eof = false;
  headers = none;
  closed = false;
  write_buffer = [];
  write_wait = false;
  write_full = false;
  point = at_wait;
  sent = [];
  ended = false;
}

-- `MAX_STREAM_BUFFER`.
abbrev pub stream_buffer_limit : ℕ
stream_buffer_limit = 1024 * 1024

-- `StreamWriter.write`.
unfoldable pub write : Bytes → Stream → Result (Unit {0}) × Stream
write bytes s =
    if ltb stream_buffer_limit (length s.write_buffer + length bytes)
    then (err protocol, s)
    else (ok tt, record s { write_buffer = s.write_buffer ++ bytes; write_wait = true })

-- `StreamWriter.close` and `StreamWriter.window_update`.
unfoldable pub close : Stream → Stream
close s = record s { closed = true; write_wait = true }

unfoldable pub window_update : Stream → Stream
window_update s = record s { write_full = true }

-- The last lines of `write_job`.
abbrev pub finish : Stream → Stream
finish s = record s { ended = true; point = finished }

-- What follows the inner loop.
abbrev pub idle : Stream → Stream
idle s = if s.closed then finish s else record s { write_wait = false; point = at_wait }

abbrev pub block : Stream → Stream
block s = record s { write_full = false; point = at_full }

abbrev pub send_chunk : ℕ → Stream → Stream
send_chunk n s = record s {
  write_buffer = drop n s.write_buffer;
  sent = s.sent ++ take n s.write_buffer;
}

abbrev pub chunk_size : ℕ → ℕ → Stream → ℕ
chunk_size window frame s = min window (min (length s.write_buffer) frame)

-- The inner loop, `while len(write_buffer) > 0`, with a window that nobody raises while it runs. The
-- fuel is one more than the length of the buffer.
unfoldable pub flush : ℕ → ℕ → ℕ → Stream → Stream
flush zero window frame s = s
flush (suc fuel) window frame s =
    let n = chunk_size window frame s in
    let rest = flush fuel (window - n) frame (send_chunk n s) in
    if length s.write_buffer == 0 then idle s else if window == 0 then block s else rest

unfoldable pub run_flush : ℕ → ℕ → Stream → Stream
unfolding flush
run_flush window frame s = flush (suc (length s.write_buffer)) window frame s

-- The top of `while not stream_writer.closed`.
abbrev pub job_top : ℕ → ℕ → Stream → Stream
job_top window frame s = if s.closed then finish s else run_flush window frame s

-- Behind `await write_full.wait()`: a stream that was closed meanwhile sends a chunk, which may be
-- empty, without a look at the window.
abbrev pub job_woken : ℕ → ℕ → Stream → Stream
job_woken window frame s =
    let n = chunk_size window frame s in
    if s.closed then run_flush (window - n) frame (send_chunk n s) else run_flush window frame s

abbrev pub job_at : Point → ℕ → ℕ → Stream → Stream
job_at at_wait window frame s = if s.write_wait then job_top window frame s else s
job_at at_full window frame s = if s.write_full then job_woken window frame s else s
job_at finished window frame s = s

-- What `write_job` does when the event loop gets to it, up to where it waits again.
unfoldable pub write_job : ℕ → ℕ → Stream → Stream
unfolding run_flush
write_job window frame s = job_at s.point window frame s

-- The calls of the writer and the turns of the job, in any order, with what `write` has accepted.
pub data Reaches (start : Stream) : Bytes → Stream → Type 0 where
  begin : Reaches start [] start
  written :
      {w : Bytes} {s : Stream} (bytes : Bytes) (t : Stream)
      → write bytes s ≡ (ok tt, t)
      → Reaches start w s
      → Reaches start (w ++ bytes) t
  refused :
      {w : Bytes} {s : Stream} (bytes : Bytes) (e : Error) (t : Stream)
      → write bytes s ≡ (err e, t)
      → Reaches start w s
      → Reaches start w t
  closes : {w : Bytes} {s : Stream} → Reaches start w s → Reaches start w (close s)
  updated : {w : Bytes} {s : Stream} → Reaches start w s → Reaches start w (window_update s)
  turned :
      {w : Bytes} {s : Stream} (window frame : ℕ)
      → Reaches start w s
      → Reaches start w (write_job window frame s)
