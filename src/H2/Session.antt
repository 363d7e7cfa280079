-- ===== src/H2/Session.antt =====
-- pproxy/h2.py: `_handle_event`.
pub mod Laws
use python_proxy.Base.{
  ℕ, suc, ◌≤◌, ◌<◌, Bool, true, false, not, ◌&&◌, Option, none, some, List, [], ◌∷◌, ◌++◌, ◌==◌,
  leb, if◌then◌else◌, length, map, Bytes,
}
use python_proxy.Base.Dict.{Dict, find, put, remove}
use python_proxy.H2.Stream.{Headers, Stream, get_stream, close, window_update}

pub data Event : Type 0 where
  request_received : ℕ → Headers → Event
  settings_acknowledged connection_terminated other : Event
  data_received : ℕ → Bytes → Event
  stream_ended stream_reset : ℕ → Event
  window_updated : ℕ → Event

-- The future of the client's handshake, if there is one.
pub data Handshake : Type 0 where
  no_handshake pending done : Handshake

-- What is asked of the library is recorded in order: streams that are reset, and the bytes that are
-- acknowledged. `tasks` are the streams whose handler was started, and `ended` those that were taken out
-- of `streams`, whose jobs go on.
pub record Session : Type 0 where
  pub streams : Dict Stream
  pub ended : Dict Stream
  pub tasks : List ℕ
  pub resets : List ℕ
  pub acknowledged : List (ℕ × ℕ)
  pub handshake : Handshake

-- `True`, `False`, and the InvalidStateError of a future that is set twice.
pub data Verdict : Type 0 where
  goes_on stops invalid_state : Verdict

-- `MAX_STREAMS`.
abbrev pub stream_limit : ℕ
stream_limit = 1024

abbrev pub set_headers : ℕ → Headers → Option Headers → Stream → Session → Verdict × Session
set_headers id headers none stream s =
    (goes_on, record s { streams = put id (record stream { headers = some headers }) s.streams })
set_headers id headers (some old) stream s = (invalid_state, s)

abbrev pub open_stream : ℕ → Headers → Session → Verdict × Session
open_stream id headers s =
    set_headers id headers none get_stream (record s { tasks = s.tasks ++ (id ∷ []) })

abbrev pub request : ℕ → Headers → Option Stream → Session → Verdict × Session
request id headers none s =
    if leb stream_limit (length s.streams)
    then (goes_on, record s { resets = s.resets ++ (id ∷ []) })
    else open_stream id headers s
request id headers (some stream) s = set_headers id headers stream.headers stream s

abbrev pub settle : Handshake → Handshake
settle no_handshake = no_handshake
settle pending = done
settle done = done

abbrev pub receive : ℕ → Bytes → Option Stream → Session → Verdict × Session
receive id bytes none s = (goes_on, s)
receive id bytes (some stream) s = (
  goes_on,
  record s {
    streams = put id (record stream { fed = stream.fed ++ bytes }) s.streams;
    acknowledged = s.acknowledged ++ ((id, length bytes) ∷ []);
  },
)

-- What becomes of a stream that the peer ends.
unfoldable pub ended_stream : Stream → Stream
unfolding close
ended_stream stream = let t = record stream { eof = true } in if stream.closed then t else close t

abbrev pub end_stream : ℕ → Option Stream → Session → Verdict × Session
end_stream id none s = (goes_on, s)
end_stream id (some stream) s = (
  goes_on,
  record s { streams = remove id s.streams; ended = s.ended ++ ((id, ended_stream stream) ∷ []) },
)

abbrev pub wake : ℕ × Stream → ℕ × Stream
wake (id, stream) = (id, window_update stream)

abbrev pub update_one : ℕ → Option Stream → Dict Stream → Dict Stream
update_one id none streams = streams
update_one id (some stream) streams = put id (window_update stream) streams

abbrev pub update : ℕ → Session → Session
update id s = record s {
  streams = if id == 0 then map wake s.streams else update_one id (find id s.streams) s.streams;
}

unfoldable pub handle_event : Bool → Event → Session → Verdict × Session
unfolding get_stream window_update ended_stream
handle_event true (request_received id headers) s = (goes_on, s)
handle_event false (request_received id headers) s = request id headers (find id s.streams) s
handle_event true settings_acknowledged s = (goes_on, record s { handshake = settle s.handshake })
handle_event false settings_acknowledged s = (goes_on, s)
handle_event client_side (data_received id bytes) s = receive id bytes (find id s.streams) s
handle_event client_side (stream_ended id) s = end_stream id (find id s.streams) s
handle_event client_side (stream_reset id) s = end_stream id (find id s.streams) s
handle_event client_side connection_terminated s = (stops, s)
handle_event client_side (window_updated id) s = (goes_on, update id s)
handle_event client_side other s = (goes_on, s)

-- The events of one chunk, up to one that stops the loop.
abbrev pub next_event : (Session → Verdict × Session) → Verdict × Session → Verdict × Session
next_event rest (goes_on, s) = rest s
next_event rest (stops, s) = (stops, s)
next_event rest (invalid_state, s) = (invalid_state, s)

unfoldable pub handle_events : Bool → List Event → Session → Verdict × Session
unfolding handle_event
handle_events client_side [] s = (goes_on, s)
handle_events client_side (event ∷ events) s =
    next_event (handle_events client_side events) (handle_event client_side event s)
