-- ===== src/WebSocket/Session.antt =====
-- The fields of `WebSocketStream` that frames are handled with, and `_fail`.
use python_proxy.Base.{ℕ, Bool, true, Option, List, [], ◌∷◌, ◌++◌, Bytes}

pub data WsError : Type 0 where
  frame_limit control_frame continuation interrupted unknown_opcode : WsError
  reserved_bits masking length_bits message_limit overflow : WsError

pub record Session : Type 0 where
  pub masked : Bool
  pub expect_masked : Bool
  pub max_frame_size : ℕ
  pub max_message_size : ℕ
  pub has_on_close : Bool
  pub opcode : Option ℕ
  pub fin : Bool
  pub message_opcode : Option ℕ
  pub message_buffer : Bytes
  pub closed : Bool
  pub close_sent : Bool
  -- what the object did to its surroundings
  pub written : List Bytes
  pub messages : List Bytes
  pub closes : List Bytes
  pub writer_closed : Bool
  pub drawn : ℕ

-- A method's end.
pub data Call : Type 0 where
  done : Session → Call
  raise : WsError → Session → Call

infixl 5 ◌>>=◌
abbrev pub ◌>>=◌ : Call → (Session → Call) → Call
done s >>= f = f s
raise e s >>= f = raise e s

-- `_fail`: the object is closed, so is the writer, and the error is raised.
abbrev pub failed : Session → Session
failed s = record s { closed = true; writer_closed = true }

-- `raw_write`.
abbrev pub raw_write : Bytes → Session → Call
raw_write bytes s = done (record s { written = s.written ++ bytes ∷ [] })
