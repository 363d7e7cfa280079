-- ===== src/WebSocket/Within.antt =====
-- What `feed_data` accepts stays within the limits, and what it refuses closes it.
use python_proxy.Base.{
  ℕ, ◌^◌, ◌≤◌, ◌≡◌, refl, sym, subst, Bool, true, false, not, ◌&&◌, ◌||◌, Option, none, some, [],
  ◌∷◌, ◌==◌, ltb, inl, inr, length, length-take, take, drop, Bytes, arith, if◌then◌else◌,
  Bool-cases, ltb→lt, ltb_false→le, bit_and,
}
use python_proxy.Stream.Decoder.{Round, feed}
use python_proxy.Stream.Decoder.Laws.{RoundAll, EndsIn, run-EndsIn}
use python_proxy.WebSocket.Session.{WsError, masking, Session, Call, done, raise, failed}
use python_proxy.WebSocket.Frame.{handle_frame}
use python_proxy.WebSocket.Reader.{
  WsStream, sized, take_header, check_head, check_length, header_size, payload_length, marker, body,
  step, step_at, handled, unmask, reader, feed_data, opcode_is_control, is_set, same,
}
use python_proxy.WebSocket.Chunks.{reader-IsStream, feed_data-open, feed_data-closed}
use python_proxy.WebSocket.Laws.{ext, body-full, body-short}
use python_proxy.WebSocket.Mask.{length-xor_mask_bytes}
use python_proxy.WebSocket.Limits.{
  IsBounded, IsRefused, CallAll, Sized, refused, handle_opcode-Kept, Kept,
}

module _ (most : ℕ) (urandom : ℕ → Bytes) where
  abbrev Ready : Option ℕ → Session → Type 0
  Ready none s = Unit
  Ready (some n) s = Sized most urandom s.opcode n s

  -- The messages are bounded, and a frame that has been announced is within the frame limits.
  pub record IsWithin (s : WsStream) : Type 0 where
    pub bounded : IsBounded most s.session
    pub ready : Ready s.data_len s.session

  abbrev pub Within : Round WsStream WsError → Type 0
  Within = RoundAll IsWithin (λ e t. IsRefused most t.session)

  check_head-Kept :
      (first second : ℕ) (s : Session)
      → IsBounded most s
      → Kept most urandom (check_head first second s)
  unfolding check_head
  check_head-Kept first second s b = elim (Bool-cases (is_set first 0x70)) [
    | inl bad ↦ rw bad (record { bounded = bounds; shut = refl; writer_shut = refl })
    | inr good ↦ rw good (go (same (is_set second 0x80) s.expect_masked))
  ]
    where
      bounds :
          IsBounded most (record s { closed = true; writer_closed = true; fin = is_set first 0x80 })
      bounds = record { limit = b.limit; partial = b.partial; whole = b.whole }

      go :
          (ok : Bool)
          → (let t = record s { fin = is_set first 0x80; opcode = some (bit_and first 0x0f) } in
              Kept most urandom (if ok then done t else raise masking (failed t)))
      go true = record { limit = b.limit; partial = b.partial; whole = b.whole }
      go false = record {
        bounded = record { limit = b.limit; partial = b.partial; whole = b.whole };
        shut = refl;
        writer_shut = refl;
      }

  length-unmask : (key : Option Bytes) (p : Bytes) → length (unmask key p) ≡ length p
  unfolding unmask
  length-unmask none p = refl
  length-unmask (some []) p = refl
  length-unmask (some (k ∷ ks)) p = length-xor_mask_bytes p (k ∷ ks)

  check_length-Kept :
      (m n : ℕ) (s : Session)
      → IsBounded most s
      → CallAll
          (λ t. IsBounded most t × Sized most urandom t.opcode n t)
          (λ e. IsRefused most)
          (check_length m n s)
  unfolding check_length
  check_length-Kept m n s b = elim (Bool-cases (m == 127 && is_set n (2 ^ 63))) [
    | inl bits ↦ rw bits (refused most urandom s b)
    | inr no_bits ↦
        rw no_bits (elim (Bool-cases (opcode_is_control s.opcode && (not s.fin || ltb 125 n))) [
          | inl control ↦ rw control (refused most urandom s b)
          | inr no_control ↦ rw no_control (elim (Bool-cases (ltb s.max_frame_size n)) [
            | inl over ↦ rw over (refused most urandom s b)
            | inr fits ↦ rw fits (b, sizes s.opcode no_control (ltb_false→le _ _ fits))
          ])
        ])
  ]
    where
      sizes :
          (o : Option ℕ)
          → (opcode_is_control o && (not s.fin || ltb 125 n)) ≡ false
          → n ≤ s.max_frame_size
          → Sized most urandom o n s
      sizes none h k = tt
      sizes (some op) h k = (k, λ c. ground arith)

  handled-Within :
      (s : WsStream) (c : Call) → s.data_len ≡ none → Kept most urandom c → Within (handled s c)
  handled-Within s (done t) e k = record { bounded = k; ready = rw e tt }
  handled-Within s (raise x t) e k = k

  Sized-le :
      (o : Option ℕ) (n m : ℕ) (s : Session)
      → m ≤ n
      → Sized most urandom o n s
      → Sized most urandom o m s
  Sized-le none n m s h z = tt
  Sized-le (some op) n m s h z = (omega arith, λ c. let k = z.1 c in omega arith)

  handle_frame-Kept :
      (p : Bytes) (s : Session)
      → IsBounded most s
      → Sized most urandom s.opcode (length p) s
      → Kept most urandom (handle_frame urandom p s)
  unfolding handle_frame
  handle_frame-Kept p s b z = handle_opcode-Kept most urandom s.opcode p s b z

  body-Within :
      (n : ℕ) (s : WsStream)
      → s.data_len ≡ some n
      → IsBounded most s.session
      → Sized most urandom s.opcode n s.session
      → Within (body urandom n s)
  body-Within n s e b z = elim (Bool-cases (ltb (length s.buffer) n)) [
    | inl short ↦
        rw (body-short urandom n s (ltb→lt _ _ short))
          (record { bounded = b; ready = subst (λ o. Ready o s.session) (sym e) z })
    | inr full ↦ rw (body-full urandom n s (ltb_false→le _ _ full)) (
        handled-Within (record s { data_len = none; buffer = drop n s.buffer }) _ refl
          (handle_frame-Kept (unmask s.mask_key (take n s.buffer)) s.session b
            (Sized-le s.opcode n _ s.session payload_size z)))
  ]
    where
      payload_size : length (unmask s.mask_key (take n s.buffer)) ≤ n
      payload_size =
          omega (arith, length-unmask s.mask_key (take n s.buffer), length-take n s.buffer)

  take_header-Within :
      (second n : ℕ) (s : WsStream) (c : Call)
      → CallAll (λ t. IsBounded most t × Sized most urandom t.opcode n t) (λ e. IsRefused most) c
      → Within (take_header urandom second n s c)
  take_header-Within second n s (done t) k = body-Within n _ refl k.0 k.1
  take_header-Within second n s (raise e t) k = k

  sized-Within :
      (second : ℕ) (s : WsStream) (c : Call)
      → s.data_len ≡ none
      → Kept most urandom c
      → Within (sized urandom second s c)
  sized-Within second s (raise x t) e k = k
  sized-Within second s (done t) e k =
      elim (Bool-cases (ltb (length s.buffer) (header_size second))) [
        | inl short ↦ rw short (record { bounded = k; ready = subst (λ o. Ready o t) (sym e) tt })
        | inr full ↦ rw full (
            take_header-Within second _ s _
              (check_length-Kept (marker second) (payload_length (marker second) s.buffer) t k))
      ]

  step_at-Within :
      (o : Option ℕ) (buffer : Bytes) (s : WsStream)
      → s.data_len ≡ o
      → IsWithin s
      → Within (step_at urandom o buffer s)
  step_at-Within (some n) buffer s e w =
      body-Within n s e w.bounded (subst (λ o. Ready o s.session) e w.ready)
  step_at-Within none [] s e w = w
  step_at-Within none (x ∷ []) s e w = w
  step_at-Within none (first ∷ second ∷ rest) s e w =
      sized-Within second s _ e (check_head-Kept first second s.session w.bounded)

  step-Within : (s : WsStream) → IsWithin s → Within (step urandom s)
  unfolding step
  step-Within s w = step_at-Within s.data_len s.buffer s refl w

  -- From a state within the limits, whatever bytes arrive: if `feed_data` returns, the state is
  -- within the limits again, so that no message, delivered or still being put together, is longer
  -- than `max_message_size`; if it raises, that holds too, and both the stream and its writer are
  -- closed.
  pub feed_data-IsWithin :
      (s : WsStream) (bytes : Bytes)
      → IsWithin s
      → EndsIn IsWithin (λ e t. IsRefused most t.session) (feed_data urandom s bytes)
  feed_data-IsWithin s bytes w = elim (Bool-cases s.closed) [
    | inl shut ↦ rw (feed_data-closed urandom s bytes shut) w
    | inr open_ ↦ rw (feed_data-open urandom s bytes open_) (
        unfold feed in
        run-EndsIn (reader urandom) (reader-IsStream urandom) IsWithin
          (λ e t. IsRefused most t.session) step-Within (ext bytes s)
          (record { bounded = w.bounded; ready = w.ready }))
  ]
