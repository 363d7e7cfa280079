-- ===== src/WebSocket/Limits.antt =====
-- The handling of a frame stays within the message limit, and what it refuses closes the stream.
use python_proxy.Base.{
  ℕ, ◌+◌, ◌≤◌, ◌≡◌, refl, Bool, true, false, ◌||◌, Option, none, some, List, [], ◌∷◌, ◌++◌, ◌==◌,
  ltb, lt→ltb, le→ltb, inl, inr, length, length-append, All, Bytes, arith, if◌then◌else◌, bit_or,
  Bool-cases, ltb_false→le,
}
use python_proxy.WebSocket.Session.{WsError, Session, Call, done, raise, ◌>>=◌, raw_write, failed}
use python_proxy.WebSocket.Frame.{
  xor_mask_bytes, second_field, send_frame, write_frame, emit_message, handle_opcode, finish_close,
  continue_message, start_message,
}

-- No message, complete or not, passes the limit `most`.
pub record IsBounded (most : ℕ) (s : Session) : Type 0 where
  pub limit : s.max_message_size ≡ most
  pub partial : length s.message_buffer ≤ most
  pub whole : All (λ m. length m ≤ most) s.messages

abbrev pub CallAll : (Session → Type 0) → (WsError → Session → Type 0) → Call → Type 0
CallAll P F (done s) = P s
CallAll P F (raise e s) = F e s

-- What a refusal leaves: the object and the writer closed, and no message past the limit.
pub record IsRefused (most : ℕ) (s : Session) : Type 0 where
  pub bounded : IsBounded most s
  pub shut : s.closed ≡ true
  pub writer_shut : s.writer_closed ≡ true

All-snoc {ℓ κ} :
    {A : Type ℓ} (P : A → Type κ) (xs : List A) (x : A) → All P xs → P x → All P (xs ++ x ∷ [])
All-snoc P [] x h k = (k, tt)
All-snoc P (y ∷ ys) x h k = (h.0, All-snoc P ys x h.1 k)

module _ (most : ℕ) (urandom : ℕ → Bytes) where
  abbrev pub Kept : Call → Type 0
  Kept = CallAll (IsBounded most) (λ e. IsRefused most)

  emit_message-Kept : (p : Bytes) (s : Session) → IsBounded most s → Kept (emit_message urandom p s)
  unfolding emit_message
  emit_message-Kept p s b =
      elim (Bool-cases (ltb s.max_message_size (length s.message_buffer + length p))) [
        | inl over ↦ rw over (record {
          bounded = record { limit = b.limit; partial = b.partial; whole = b.whole };
          shut = refl;
          writer_shut = refl;
        })
        | inr fits ↦ rw fits (go fits s.fin)
      ]
    where
      short :
          ltb s.max_message_size (length s.message_buffer + length p) ≡ false
          → length (s.message_buffer ++ p) ≤ most
      short fits = omega (arith, length-append s.message_buffer p, b.limit, ltb_false→le _ _ fits)

      go :
          ltb s.max_message_size (length s.message_buffer + length p) ≡ false
          → (fin : Bool)
          → Kept (
              if fin
              then done (record s {
                message_buffer = [];
                message_opcode = none;
                messages = s.messages ++ (s.message_buffer ++ p) ∷ [];
              })
              else done (record s { message_buffer = s.message_buffer ++ p }))
      go fits true = record {
        limit = b.limit;
        partial = omega arith;
        whole =
            All-snoc (λ m. length m ≤ most) s.messages (s.message_buffer ++ p) b.whole (short fits);
      }
      go fits false = record { limit = b.limit; partial = short fits; whole = b.whole }

  send_frame-done :
      (op : ℕ) (p second : Bytes) (s : Session)
      → IsBounded most s
      → Kept (send_frame urandom op p (some second) s)
  send_frame-done op p second s b = go s.masked
    where
      go :
          (m : Bool)
          → Kept (
              if m
              then raw_write
                  (bit_or 0x80 op ∷ second
                    ++ (urandom s.drawn ++ xor_mask_bytes p (urandom s.drawn)))
                  (record s { drawn = s.drawn + 1 })
              else raw_write (bit_or 0x80 op ∷ second ++ p) s)
      go true = record { limit = b.limit; partial = b.partial; whole = b.whole }
      go false = record { limit = b.limit; partial = b.partial; whole = b.whole }

  -- An answer that is short enough is written.
  pong-Kept :
      (p : Bytes) (s : Session)
      → IsBounded most s
      → length p ≤ 125
      → length p ≤ s.max_frame_size
      → Kept (write_frame urandom 10 p s)
  unfolding write_frame second_field
  pong-Kept p s b short fits =
      rw
        (
          le→ltb s.max_frame_size (length p) fits,
          le→ltb 125 (length p) short,
          lt→ltb (length p) 126 (omega arith),
        )
        (send_frame-done 10 p ((if s.masked then bit_or (length p) 0x80 else length p) ∷ []) s b)

  close-Kept :
      (p : Bytes) (s : Session)
      → IsBounded most s
      → length p ≤ 125
      → length p ≤ s.max_frame_size
      → Kept (write_frame urandom 8 p s)
  unfolding write_frame second_field
  close-Kept p s b short fits =
      rw
        (
          le→ltb s.max_frame_size (length p) fits,
          le→ltb 125 (length p) short,
          lt→ltb (length p) 126 (omega arith),
        )
        (send_frame-done 8 p ((if s.masked then bit_or (length p) 0x80 else length p) ∷ [])
          (record s { close_sent = true })
          (record { limit = b.limit; partial = b.partial; whole = b.whole }))

  finish_close-Kept : (p : Bytes) (c : Call) → Kept c → Kept (c >>= finish_close urandom p)
  finish_close-Kept p (done s) b = record { limit = b.limit; partial = b.partial; whole = b.whole }
  finish_close-Kept p (raise e s) b = b

  pub refused : (s : Session) → IsBounded most s → IsRefused most (failed s)
  refused s b = record {
    bounded = record { limit = b.limit; partial = b.partial; whole = b.whole };
    shut = refl;
    writer_shut = refl;
  }

  continue-Kept :
      (o : Option ℕ) (p : Bytes) (s : Session)
      → IsBounded most s
      → Kept (continue_message urandom o p s)
  continue-Kept none p s b = refused s b
  continue-Kept (some _) p s b = emit_message-Kept p s b

  start-Kept :
      (o : Option ℕ) (op : ℕ) (p : Bytes) (s : Session)
      → IsBounded most s
      → Kept (start_message urandom o op p s)
  start-Kept (some _) op p s b = refused s b
  start-Kept none op p s b =
      emit_message-Kept p (record s { message_opcode = some op })
        (record { limit = b.limit; partial = b.partial; whole = b.whole })

  answer_close-Kept :
      (p : Bytes) (s : Session)
      → IsBounded most s
      → length p ≤ 125
      → length p ≤ s.max_frame_size
      → Kept (if s.close_sent then done s else write_frame urandom 8 p s)
  answer_close-Kept p s b short fits = go s.close_sent
    where
      go : (c : Bool) → Kept (if c then done s else write_frame urandom 8 p s)
      go true = b
      go false = close-Kept p s b short fits

  -- A frame's payload is within the frame limit, and a control frame's within 125 bytes.
  abbrev pub Sized : Option ℕ → ℕ → Session → Type 0
  Sized none n s = Unit
  Sized (some op) n s = (n ≤ s.max_frame_size) × (8 ≤ op → n ≤ 125)

  pub handle_opcode-Kept :
      (o : Option ℕ) (p : Bytes) (s : Session)
      → IsBounded most s
      → Sized o (length p) s
      → Kept (handle_opcode urandom o p s)
  handle_opcode-Kept none p s b z = refused s b
  handle_opcode-Kept (some op) p s b z = elim (Bool-cases (op == 0)) [
    | inl is0 ↦ rw is0 (continue-Kept s.message_opcode p s b)
    | inr not0 ↦ rw not0 (elim (Bool-cases (op == 1 || op == 2)) [
      | inl is12 ↦ rw is12 (start-Kept s.message_opcode op p s b)
      | inr not12 ↦ rw not12 (elim (Bool-cases (op == 9)) [
        | inl is9 ↦ rw is9 (pong-Kept p s b (ground arith) z.0)
        | inr not9 ↦ rw not9 (elim (Bool-cases (op == 8)) [
          | inl is8 ↦ rw is8 (finish_close-Kept p _ (answer_close-Kept p s b (ground arith) z.0))
          | inr not8 ↦ rw not8 (elim (Bool-cases (op == 10)) [
            | inl is10 ↦ rw is10 b
            | inr not10 ↦ rw not10 (refused s b)
          ])
        ])
      ])
    ])
  ]
