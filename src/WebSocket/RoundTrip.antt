-- ===== src/WebSocket/RoundTrip.antt =====
-- The header and the payload of a final binary frame, as `feed_data` takes them off its buffer.
use python_proxy.Base.{
  ℕ, ◌+◌, ◌-◌, ◌^◌, ◌<◌, ◌≤◌, ◌≡◌, refl, ◌∙◌, sym, Bool, true, false, ◌⊎◌, Option, none, some, [],
  ◌∷◌, ◌++◌, append_assoc, ◌==◌, le→ltb, length, length-append, drop, take-append_self,
  drop-append_self, Bytes, arith, if◌then◌else◌, bit_and-two-pow,
}
use python_proxy.Stream.Decoder.{again}
use python_proxy.WebSocket.Session.{WsError, Session, done, raise, failed}
use python_proxy.WebSocket.Frame.{emit_message, handle_frame}
use python_proxy.WebSocket.Reader.{
  WsStream, check_head, check_length, payload_length, marker, is_set, extension_size, body, step,
  unmask, same,
}
use python_proxy.WebSocket.Laws.{body-full}

check_length-done :
    (m n : ℕ) (s : Session) (opcode : ℕ)
    → ((m == 127) ≡ false) ⊎ (n < 2 ^ 63)
    → s.opcode ≡ some opcode
    → opcode < 8
    → n ≤ s.max_frame_size
    → check_length m n s ≡ done s
unfolding check_length
check_length-done m n s opcode top e small fits = ground (arith, bit_and-two-pow 63 n)

-- A reader between two frames.
abbrev pub idle : Session → Option Bytes → Bytes → WsStream
idle r key buffer = record { session = r; data_len = none; mask_key = key; buffer = buffer }

-- The session once the first byte of an unfragmented binary frame is read.
abbrev pub opened : Session → Session
opened r = record r { fin = true; opcode = some 2 }

check_head-done :
    (second : ℕ) (r : Session)
    → is_set second 0x80 ≡ r.expect_masked
    → check_head 130 second r ≡ done (opened r)
unfolding check_head
check_head-done second r e = rw e (go r.expect_masked)
  where
    go :
        (b : Bool)
        → (if same b b then done (opened r) else raise WsError.masking (failed (opened r)))
          ≡ done (opened r)
    go true = refl
    go false = refl

-- The header in front of `rest`, for each of the two forms of a frame.
abbrev pub front : ℕ → Bytes → Bytes → Bytes
front second extended rest = 130 ∷ second ∷ extended ++ rest

module _ (r : Session) (second n : ℕ) (extended : Bytes)
    (size : length extended ≡ extension_size (marker second))
    (value : (rest : Bytes) → payload_length (marker second) (front second extended rest) ≡ n)
    (top : ((marker second == 127) ≡ false) ⊎ (n < 2 ^ 63)) (fits : n ≤ r.max_frame_size) where
  drop-front :
      (k : ℕ) (rest : Bytes)
      → k ≡ 2 + extension_size (marker second)
      → drop k (front second extended rest) ≡ rest
  drop-front k rest e = drop-append_self k (130 ∷ second ∷ extended) rest (omega arith)

  drop_keyed :
      (k : ℕ) (key rest : Bytes)
      → k ≡ 2 + extension_size (marker second) + 4
      → length key ≡ 4
      → drop k (front second extended (key ++ rest)) ≡ rest
  drop_keyed k key rest e h = rw (sym (append_assoc extended key rest)) (
      drop-append_self k (130 ∷ second ∷ extended ++ key) rest
        (omega (arith, length-append extended key)))

  -- The header of a masked frame is read off, its key kept.
  pub sized_masked :
      (urandom : ℕ → Bytes) (old : Option Bytes) (key rest : Bytes)
      → is_set second 0x80 ≡ true
      → r.expect_masked ≡ true
      → length key ≡ 4
      → step urandom (idle r old (front second extended (key ++ rest)))
        ≡ body urandom n
            (record { session = opened r; data_len = some n; mask_key = some key; buffer = rest })
  unfolding step
  sized_masked urandom old key rest flag expects four =
      let e = extension_size (marker second) in
      rw
        (
          check_head-done second r (flag ∙ sym expects),
          flag,
          le→ltb (length (front second extended (key ++ rest))) (2 + e + 4)
              (omega (arith, length-append extended (key ++ rest), length-append key rest)),
          value (key ++ rest),
          check_length-done (marker second) n (opened r) 2 top refl (omega arith) fits,
          flag,
          drop_keyed (2 + e + 4) key rest refl four,
          drop-front (2 + e + 4 - 4) (key ++ rest) (omega arith),
          take-append_self 4 key rest four,
        )
        refl

  pub sized_plain :
      (urandom : ℕ → Bytes) (old : Option Bytes) (rest : Bytes)
      → is_set second 0x80 ≡ false
      → r.expect_masked ≡ false
      → step urandom (idle r old (front second extended rest))
        ≡ body urandom n
            (record { session = opened r; data_len = some n; mask_key = none; buffer = rest })
  unfolding step
  sized_plain urandom old rest flag expects =
      let e = extension_size (marker second) in
      rw
        (
          check_head-done second r (flag ∙ sym expects),
          flag,
          le→ltb (length (front second extended rest)) (2 + e + 0)
              (omega (arith, length-append extended rest)),
          value rest,
          check_length-done (marker second) n (opened r) 2 top refl (omega arith) fits,
          flag,
          drop-front (2 + e + 0) rest (omega arith),
        )
        refl

-- The reader once a whole message has come in.
abbrev pub delivered : Session → Bytes → Session
delivered r message = record r {
  fin = true;
  opcode = some 2;
  message_opcode = none;
  message_buffer = [];
  messages = r.messages ++ message ∷ [];
}

module _ (urandom : ℕ → Bytes) where
  handle_whole :
      (r : Session) (message : Bytes)
      → r.message_opcode ≡ none
      → r.message_buffer ≡ []
      → length message ≤ r.max_message_size
      → handle_frame urandom message (opened r) ≡ done (delivered r message)
  unfolding handle_frame emit_message
  handle_whole r message none_open empty fits =
      simp (none_open, empty)
        (rw (le→ltb r.max_message_size (0 + length message) (omega arith), emit_message) refl)

  -- A whole payload of an unfragmented binary frame is delivered.
  pub body-delivers :
      (r : Session) (n : ℕ) (key : Option Bytes) (wire message rest : Bytes)
      → length wire ≡ n
      → unmask key wire ≡ message
      → r.message_opcode ≡ none
      → r.message_buffer ≡ []
      → length message ≤ r.max_message_size
      → body urandom n
          (record { session = opened r; data_len = some n; mask_key = key; buffer = wire ++ rest })
        ≡ again (idle (delivered r message) key rest)
  body-delivers r n key wire message rest size clear none_open empty fits =
      let st : WsStream = record {
        session = opened r;
        data_len = some n;
        mask_key = key;
        buffer = wire ++ rest;
      } in
      body-full urandom n st (omega (arith, length-append wire rest))
      ∙ rw
          (
            take-append_self n wire rest size,
            drop-append_self n wire rest size,
            clear,
            handle_whole r message none_open empty fits,
          )
          refl
