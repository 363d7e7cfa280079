-- ===== src/Tests/WebSocket.antt =====
-- Runs of pproxy/websocket.py at concrete streams.
use python_proxy.Base.{
  ℕ, ◌≡◌, refl, arith, true, false, Option, none, some, List, [], ◌∷◌, ◌++◌, All, Bytes,
}
use python_proxy.Stream.Decoder.{returned, feed, run, loop}
use python_proxy.Stream.Decoder.Laws.{EndsIn}
use python_proxy.WebSocket.Session.{Session, done}
use python_proxy.WebSocket.Frame.{
  xor_mask_bytes, mask_from, write_all, handle_frame, write_frame, second_field,
}
use python_proxy.WebSocket.Reader.{
  WsStream, step, check_head, check_length, payload_length, body, unmask, feed_data, new_stream,
}
use python_proxy.WebSocket.Chunks.{feed_data-append}
use python_proxy.WebSocket.RoundTrip.{idle}
use python_proxy.WebSocket.Messages.{IsPair, Fits, join, feed_data-write_all}
use python_proxy.WebSocket.Limits.{IsRefused}
use python_proxy.WebSocket.Within.{IsWithin, feed_data-IsWithin}

abbrev random_bytes : ℕ → Bytes
random_bytes i = 1 ∷ 2 ∷ 3 ∷ 4 ∷ []

abbrev client : WsStream
client = new_stream true false 100 100 true

abbrev server_end : WsStream
server_end = new_stream false true 100 100 true

-- A text frame with one byte, the first byte of it, and a close frame.
abbrev frame : Bytes
frame = 0x82 ∷ 1 ∷ 7 ∷ []

abbrev first_byte : Bytes
first_byte = 0x82 ∷ []

abbrev close_frame : Bytes
close_frame = 0x88 ∷ 0 ∷ []

abbrev client_after_close : WsStream
client_after_close = record client {
  session = record client.session {
    fin = true;
    opcode = some 8;
    close_sent = true;
    closed = true;
    written = (0x88 ∷ 0x80 ∷ 1 ∷ 2 ∷ 3 ∷ 4 ∷ []) ∷ [];
    closes = [] ∷ [];
    drawn = 1;
  };
}

client_waits :
    feed_data random_bytes client first_byte ≡ returned (record client { buffer = first_byte })
unfolding feed_data feed run loop step
client_waits = refl

client_closes : feed_data random_bytes client close_frame ≡ returned client_after_close
unfolding feed_data feed run loop step check_head check_length payload_length body unmask
    handle_frame write_frame second_field xor_mask_bytes mask_from
client_closes = refl

feed_data-append_example :
    feed_data random_bytes client frame
    ≡ feed_data random_bytes (record client { buffer = first_byte }) (1 ∷ 7 ∷ [])
feed_data-append_example =
    feed_data-append random_bytes client (record client { buffer = first_byte }) first_byte
      (1 ∷ 7 ∷ []) client_waits refl

feed_data-IsWithin_example :
    EndsIn
      (IsWithin 100 random_bytes)
      (λ e t. IsRefused 100 t.session)
      (feed_data random_bytes client frame)
feed_data-IsWithin_example =
    feed_data-IsWithin 100 random_bytes client frame
      (record { bounded = record { limit = refl; partial = omega arith; whole = tt }; ready = tt })

client_to_server : IsPair random_bytes client.session server_end.session
client_to_server = record {
  keys = λ i. refl;
  sides = refl;
  none_open = refl;
  empty = refl;
  is_open = refl;
}

abbrev two_messages : List Bytes
two_messages =
    (b'h' ∷ b'e' ∷ b'l' ∷ b'l' ∷ b'o' ∷ []) ∷ (b'p' ∷ b'r' ∷ b'o' ∷ b'x' ∷ b'y' ∷ []) ∷ []

two_messages_fit : All (Fits random_bytes client.session server_end.session) two_messages
two_messages_fit = (
  (omega arith, omega arith, omega arith, omega arith, omega arith),
  ((omega arith, omega arith, omega arith, omega arith, omega arith), tt),
)

feed_data-write_all_example :
    (writer : Session) × (wires : List Bytes) × (key : Option Bytes) × (reader : Session)
    × (write_all random_bytes two_messages client.session ≡ done writer)
    × (writer.written ≡ [] ++ wires)
    × (feed_data random_bytes (idle server_end.session none []) (join random_bytes wires)
        ≡ returned (idle reader key []))
    × (reader.messages ≡ [] ++ two_messages)
feed_data-write_all_example =
    feed_data-write_all random_bytes two_messages client.session server_end.session none
      client_to_server two_messages_fit
