-- ===== src/WebSocket/Reader.antt =====
-- `feed_data`: the header of a frame, its payload, and the loop over both.
use python_proxy.Base.{
  ℕ, ◌+◌, ◌*◌, ◌^◌, ◌-◌, Bool, true, false, Option, none, some, [], ◌∷◌, ◌++◌, bit_and, ltb, leb,
  ◌==◌, not, ◌&&◌, ◌||◌, if◌then◌else◌, length, take, drop, from_big, Bytes,
}
use python_proxy.Stream.Decoder.{Round, wait, again, fail, Outcome, returned, Decoder, feed}
use python_proxy.WebSocket.Session.{
  WsError, frame_limit, control_frame, reserved_bits, masking, length_bits, Session, Call, done,
  raise, failed,
}
use python_proxy.WebSocket.Frame.{handle_frame, xor_mask_bytes}

pub record WsStream : Type 0 where
  pub session : Session
  pub open session use *
  pub data_len : Option ℕ
  pub mask_key : Option Bytes
  pub buffer : Bytes

abbrev pub marker : ℕ → ℕ
marker second = bit_and second 0x7f

abbrev pub is_set : ℕ → ℕ → Bool
is_set byte bit = not (bit_and byte bit == 0)

abbrev pub extension_size : ℕ → ℕ
extension_size m = if m == 126 then 2 else if m == 127 then 8 else 0

abbrev pub header_size : ℕ → ℕ
header_size second = 2 + extension_size (marker second) + (if is_set second 0x80 then 4 else 0)

abbrev pub same : Bool → Bool → Bool
same true b = b
same false b = not b

-- The checks on the first two bytes, and what they assign.
unfoldable pub check_head : ℕ → ℕ → Session → Call
check_head first second s =
    let s1 = record s { fin = is_set first 0x80 } in
    if is_set first 0x70
    then raise reserved_bits (failed s1)
    else (let s2 = record s1 { opcode = some (bit_and first 0x0f) } in
        if same (is_set second 0x80) s.expect_masked then done s2 else raise masking (failed s2))

-- `payload_length`, once the whole header is there.
unfoldable pub payload_length : ℕ → Bytes → ℕ
payload_length m buffer =
    if m == 126
    then from_big (take 2 (drop 2 buffer))
    else if m == 127
    then from_big (take 8 (drop 2 buffer))
    else m

abbrev pub opcode_is_control : Option ℕ → Bool
opcode_is_control none = false
opcode_is_control (some opcode) = leb 8 opcode

unfoldable pub check_length : ℕ → ℕ → Session → Call
check_length m n s =
    if m == 127 && is_set n (2 ^ 63)
    then raise length_bits (failed s)
    else if opcode_is_control s.opcode && (not s.fin || ltb 125 n)
    then raise control_frame (failed s)
    else if ltb s.max_frame_size n
    then raise frame_limit (failed s)
    else done s

-- The payload as it is handed on; `if self.mask_key` is false for a missing or an empty key.
unfoldable pub unmask : Option Bytes → Bytes → Bytes
unmask none payload = payload
unmask (some []) payload = payload
unmask (some (k ∷ ks)) payload = xor_mask_bytes payload (k ∷ ks)

abbrev pub handled : WsStream → Call → Round WsStream WsError
handled s (raise e t) = fail e (record s { session = t })
handled s (done t) = again (record s { session = t })

module _ (urandom : ℕ → Bytes) where
  unfoldable pub body : ℕ → WsStream → Round WsStream WsError
  body n s =
      if ltb (length s.buffer) n
      then wait s
      else handled (record s { data_len = none; buffer = drop n s.buffer })
          (handle_frame urandom (unmask s.mask_key (take n s.buffer)) s.session)

  -- The header is taken off the buffer, and the same round goes on to the payload.
  abbrev pub take_header : ℕ → ℕ → WsStream → Call → Round WsStream WsError
  take_header second n s (raise e t) = fail e (record s { session = t })
  take_header second n s (done t) = body n (record {
    session = t;
    data_len = some n;
    mask_key =
        if is_set second 0x80 then some (take 4 (drop (header_size second - 4) s.buffer)) else none;
    buffer = drop (header_size second) s.buffer;
  })

  abbrev pub lengths : ℕ → Session → WsStream → Round WsStream WsError
  lengths second t s =
      let n = payload_length (marker second) s.buffer in
      take_header second n s (check_length (marker second) n t)

  abbrev pub sized : ℕ → WsStream → Call → Round WsStream WsError
  sized second s (raise e t) = fail e (record s { session = t })
  sized second s (done t) =
      if ltb (length s.buffer) (header_size second)
      then wait (record s { session = t })
      else lengths second t s

  -- One round of the `while True`, by `data_len` and the first bytes of the buffer.
  abbrev pub step_at : Option ℕ → Bytes → WsStream → Round WsStream WsError
  step_at (some n) buffer s = body n s
  step_at none (first ∷ second ∷ rest) s = sized second s (check_head first second s.session)
  step_at none _ s = wait s

  unfoldable pub step : WsStream → Round WsStream WsError
  step s = step_at s.data_len s.buffer s

  abbrev pub reader : Decoder WsStream WsError
  reader = record {
    step = step;
    extend = λ s bytes. record s { buffer = s.buffer ++ bytes };
    size = λ s. 2 * length s.buffer + (elim s.data_len [ none ↦ 0 | some n ↦ 1 ]);
  }

  unfoldable pub feed_data : WsStream → Bytes → Outcome WsStream WsError
  feed_data s bytes = if s.closed then returned s else feed reader s bytes

  -- `attach`, with what `transport.take_buffer` returned.
  unfoldable pub attach : WsStream → Bytes → Outcome WsStream WsError
  unfolding feed_data
  attach s [] = returned s
  attach s (b ∷ buffered) = feed_data s (b ∷ buffered)

-- The constructor, with the writer's and the reader's callbacks not yet called.
abbrev pub new_stream : Bool → Bool → ℕ → ℕ → Bool → WsStream
new_stream masked expect_masked max_frame_size max_message_size has_on_close = record {
  session = record {
    masked = masked;
    expect_masked = expect_masked;
    max_frame_size = max_frame_size;
    max_message_size = max_message_size;
    has_on_close = has_on_close;
    opcode = none;
    fin = false;
    message_opcode = none;
    message_buffer = [];
    closed = false;
    close_sent = false;
    written = [];
    messages = [];
    closes = [];
    writer_closed = false;
    drawn = 0;
  };
  data_len = none;
  mask_key = none;
  buffer = [];
}

-- The limits of runtime/policy.py.
abbrev pub frame_size_limit : ℕ
frame_size_limit = 16 * 1024 * 1024

unfoldable pub patch_stream : (ℕ → Bytes) → Bool → Bool → Bytes → Outcome WsStream WsError
unfolding attach
patch_stream urandom masked has_on_close buffered =
    attach urandom (new_stream masked (not masked) frame_size_limit frame_size_limit has_on_close)
      buffered
