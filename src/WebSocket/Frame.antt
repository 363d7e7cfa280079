-- ===== src/WebSocket/Frame.antt =====
-- `xor_mask_bytes`, `write_frame`, `write`, `_emit_message` and `_handle_frame`.
use python_proxy.Base.{
  ℕ, ◌+◌, ◌%◌, Bool, true, Option, none, some, List, [], ◌∷◌, ◌++◌, bit_xor, bit_or, ltb, leb, ◌==◌,
  not, ◌&&◌, ◌||◌, if◌then◌else◌, length, get_or, to_big, Bytes,
}
use python_proxy.WebSocket.Session.{
  frame_limit, control_frame, continuation, interrupted, unknown_opcode, message_limit, overflow,
  Session, Call, done, raise, ◌>>=◌, failed, raw_write,
}

-- `index` counts through the loop of `xor_mask_bytes`. A key has four bytes wherever it is called.
unfoldable pub mask_from : ℕ → Bytes → Bytes → Bytes
mask_from index [] key = []
mask_from index (b ∷ bs) key = bit_xor b (get_or key (index % 4) 0) ∷ mask_from (index + 1) bs key

unfoldable pub xor_mask_bytes : Bytes → Bytes → Bytes
unfolding mask_from
xor_mask_bytes bytes key = mask_from 0 bytes key

-- The second byte with the extended length behind it; `none` is an OverflowError of `to_bytes`.
unfoldable pub second_field : Bool → ℕ → Option Bytes
second_field masked n =
    if ltb n 126
    then some ((if masked then bit_or n 0x80 else n) ∷ [])
    else if ltb n 65536
    then behind (if masked then 0xfe else 0x7e) (to_big 2 n)
    else behind (if masked then 0xff else 0x7f) (to_big 8 n)
  where
    behind : ℕ → Option Bytes → Option Bytes
    behind b none = none
    behind b (some bytes) = some (b ∷ bytes)

abbrev pub is_control : ℕ → Bool
is_control opcode = opcode == 8 || opcode == 9 || opcode == 10

module _ (urandom : ℕ → Bytes) where
  -- The end of `write_frame`, from the mask on.
  abbrev pub send_frame : ℕ → Bytes → Option Bytes → Session → Call
  send_frame opcode payload none s = raise overflow s
  send_frame opcode payload (some second) s =
      if s.masked
      then raw_write
          (bit_or 0x80 opcode ∷ second
            ++ (urandom s.drawn ++ xor_mask_bytes payload (urandom s.drawn)))
          (record s { drawn = s.drawn + 1 })
      else raw_write (bit_or 0x80 opcode ∷ second ++ payload) s

  unfoldable pub write_frame : ℕ → Bytes → Session → Call
  unfolding second_field
  write_frame opcode payload s =
      if ltb s.max_frame_size (length payload)
      then raise frame_limit s
      else if leb 8 opcode && (ltb 125 (length payload) || not (is_control opcode))
      then raise control_frame s
      else (let t = if opcode == 8 then record s { close_sent = true } else s in
          send_frame opcode payload (second_field t.masked (length payload)) t)

  unfoldable pub write : Bytes → Session → Call
  write [] s = done s
  write (b ∷ bs) s = write_frame 2 (b ∷ bs) s

  -- One call of `write` after another.
  unfoldable pub write_all : List Bytes → Session → Call
  write_all [] s = done s
  write_all (m ∷ ms) s = write m s >>= write_all ms

  unfoldable pub emit_message : Bytes → Session → Call
  emit_message payload s =
      if ltb s.max_message_size (length s.message_buffer + length payload)
      then raise message_limit (failed s)
      else if s.fin
      then done (record s {
        message_buffer = [];
        message_opcode = none;
        messages = s.messages ++ (s.message_buffer ++ payload) ∷ [];
      })
      else done (record s { message_buffer = s.message_buffer ++ payload })

  -- The branch of a close frame behind the answer to it.
  abbrev pub finish_close : Bytes → Session → Call
  finish_close payload s = done (record s {
    closed = true;
    closes = if s.has_on_close then s.closes ++ payload ∷ [] else s.closes;
  })

  abbrev pub continue_message : Option ℕ → Bytes → Session → Call
  continue_message none payload s = raise continuation (failed s)
  continue_message (some _) payload s = emit_message payload s

  abbrev pub start_message : Option ℕ → ℕ → Bytes → Session → Call
  start_message (some _) opcode payload s = raise interrupted (failed s)
  start_message none opcode payload s =
      emit_message payload (record s { message_opcode = some opcode })

  abbrev pub handle_opcode : Option ℕ → Bytes → Session → Call
  handle_opcode none payload s = raise unknown_opcode (failed s)
  handle_opcode (some opcode) payload s =
      if opcode == 0
      then continue_message s.message_opcode payload s
      else if opcode == 1 || opcode == 2
      then start_message s.message_opcode opcode payload s
      else if opcode == 9
      then write_frame 10 payload s
      else if opcode == 8
      then (if s.close_sent then done s else write_frame 8 payload s) >>= finish_close payload
      else if opcode == 10
      then done s
      else raise unknown_opcode (failed s)

  unfoldable pub handle_frame : Bytes → Session → Call
  unfolding emit_message write_frame
  handle_frame payload s = handle_opcode s.opcode payload s
