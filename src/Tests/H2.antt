-- ===== src/Tests/H2.antt =====
-- HTTP/2 streams and events at concrete inputs.
use python_proxy.Base.{◌++◌, ◌≤◌, ◌≡◌, refl, true, false, none, [], ◌∷◌, length, Bytes, arith}
use python_proxy.Protocols.Conn.{ok}
use python_proxy.H2.Stream.{
  Stream, at_wait, get_stream, stream_buffer_limit, write, close, flush, run_flush, write_job,
  Reaches, begin, written, turned,
}
use python_proxy.H2.Stream.Laws.{stream_bytes, write_job-Reaches, write_job-drops}
use python_proxy.H2.Session.{
  Session, no_handshake, request_received, data_received, stream_ended, handle_events,
}
use python_proxy.H2.Session.Laws.{IsSession, handle_events-IsSession}

abbrev text : Bytes
text = 1 ∷ 2 ∷ 3 ∷ []

-- A window of two bytes, and the rest at the next turn.
abbrev after_write : Stream
after_write = record {
  fed = [];
  eof = false;
  headers = none;
  closed = false;
  write_buffer = text;
  write_wait = true;
  write_full = false;
  point = at_wait;
  sent = [];
  ended = false;
}

write_accepted : write text get_stream ≡ (ok tt, after_write)
unfolding write get_stream
write_accepted = refl

sent_two : (write_job 2 100 after_write).sent ≡ 1 ∷ 2 ∷ []
unfolding write_job run_flush flush
sent_two = refl

abbrev one_turn : Reaches get_stream text (write_job 2 100 after_write)
one_turn = turned 2 100 (written text after_write write_accepted begin)

write_job-Reaches_example :
    (stream_bytes (write_job 2 100 after_write) ≡ text)
    × (length (write_job 2 100 after_write).write_buffer ≤ stream_buffer_limit)
write_job-Reaches_example = write_job-Reaches text (write_job 2 100 after_write) one_turn

write_job-drops_example :
    ((write text get_stream).0 ≡ ok tt)
    × ((write_job 5 100 (write text get_stream).1).sent ≡ [] ++ text)
    × ((write_job 5 100 (close (write text get_stream).1)).sent ≡ [])
    × ((write_job 5 100 (close (write text get_stream).1)).ended ≡ true)
unfolding get_stream
write_job-drops_example =
    write_job-drops text get_stream 5 100 refl refl refl (omega arith) (omega arith) (omega arith)

abbrev empty_session : Session
empty_session = record {
  streams = [];
  ended = [];
  tasks = [];
  resets = [];
  acknowledged = [];
  handshake = no_handshake;
}

handle_events-IsSession_example :
    IsSession
      (handle_events false
        (request_received 1 [] ∷ data_received 1 text ∷ stream_ended 1 ∷ [])
        empty_session).1
handle_events-IsSession_example =
    handle_events-IsSession false
      (request_received 1 [] ∷ data_received 1 text ∷ stream_ended 1 ∷ []) empty_session
      (record { limit = omega arith; apart = tt; counted = refl })
