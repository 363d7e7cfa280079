-- ===== src/WebSocket/Messages.antt =====
-- Messages through `write` of one end and `feed_data` of the other.
use python_proxy.Base.{
  ℕ, ◌+◌, ◌^◌, ◌<◌, ◌≤◌, ◌≡◌, refl, ap, ◌∙◌, sym, Bool, true, false, Option, none, some, List, [],
  ◌∷◌, ◌++◌, append_assoc, append-nil, le→ltb, length, All, Bytes, arith, if◌then◌else◌,
}
use python_proxy.Stream.Decoder.{again, returned, run, feed}
use python_proxy.Stream.Decoder.Laws.{run-again, run-wait}
use python_proxy.WebSocket.Session.{Session, done}
use python_proxy.WebSocket.Frame.{
  xor_mask_bytes, second_field, send_frame, write_frame, write, write_all,
}
use python_proxy.WebSocket.Reader.{step, unmask, reader, feed_data}
use python_proxy.WebSocket.Chunks.{reader-IsStream, feed_data-open}
use python_proxy.WebSocket.Mask.{length-xor_mask_bytes, unmask-xor_mask_bytes}
use python_proxy.WebSocket.LengthField.{IsLengthField, second_field-IsLengthField}
use python_proxy.WebSocket.RoundTrip.{
  idle, front, delivered, sized_masked, sized_plain, body-delivers,
}

module _ (urandom : ℕ → Bytes) where
  -- What is written for a message, behind the two bytes of the header.
  abbrev sent : Session → Bytes → Session
  sent w wire = record w {
    written = w.written ++ wire ∷ [];
    drawn = if w.masked then w.drawn + 1 else w.drawn;
  }

  -- One message: `wire` is what is written, and the reader takes it off in one round.
  record Carries (w r : Session) (message : Bytes) : Type 0 where
    pub wire : Bytes
    pub writes : write urandom message w ≡ done (sent w wire)
    pub key : Option Bytes → Option Bytes
    pub reads :
        (old : Option Bytes) (rest : Bytes)
        → step urandom (idle r old (wire ++ rest))
          ≡ again (idle (delivered r message) (key old) rest)

  -- The two ends of a connection between two messages.
  pub record IsPair (w r : Session) : Type 0 where
    pub keys : (i : ℕ) → length (urandom i) ≡ 4
    pub sides : r.expect_masked ≡ w.masked
    pub none_open : r.message_opcode ≡ none
    pub empty : r.message_buffer ≡ []
    pub is_open : r.closed ≡ false

  -- A message within the limits of both ends.
  abbrev pub Fits : Session → Session → Bytes → Type 0
  Fits w r message =
      (0 < length message)
      × (length message < 2 ^ 63)
      × (length message ≤ w.max_frame_size)
      × (length message ≤ r.max_frame_size)
      × (length message ≤ r.max_message_size)

  write-eq :
      (w : Session) (message : Bytes)
      → 0 < length message
      → length message ≤ w.max_frame_size
      → write urandom message w
        ≡ send_frame urandom 2 message (second_field w.masked (length message)) w
  unfolding write write_frame
  write-eq w [] h k = absurd (omega arith)
  write-eq w (b ∷ bs) h k = rw (le→ltb w.max_frame_size (length (b ∷ bs)) k) refl

  send_masked :
      (w : Session) (message : Bytes) (second : ℕ) (extended : Bytes)
      → w.masked ≡ true
      → send_frame urandom 2 message (some (second ∷ extended)) w
        ≡ done (
            sent w
              (front second extended (urandom w.drawn ++ xor_mask_bytes message (urandom w.drawn))))
  send_masked w message second extended e = simp e

  send_plain :
      (w : Session) (message : Bytes) (second : ℕ) (extended : Bytes)
      → w.masked ≡ false
      → send_frame urandom 2 message (some (second ∷ extended)) w
        ≡ done (sent w (front second extended message))
  send_plain w message second extended e = simp e

  write-front :
      (w : Session) (message : Bytes) (m : Bool)
      → w.masked ≡ m
      → 0 < length message
      → length message ≤ w.max_frame_size
      → (f : IsLengthField m (length message) (second_field m (length message)))
      → write urandom message w ≡ send_frame urandom 2 message (some (f.second ∷ f.extended)) w
  write-front w message m e h k f =
      write-eq w message h k
      ∙ ap (λ x. send_frame urandom 2 message (second_field x (length message)) w) e
      ∙ ap (λ x. send_frame urandom 2 message x w) f.shape

  carries : (w r : Session) (message : Bytes) → IsPair w r → Fits w r message → Carries w r message
  carries w r message p l = go w.masked refl
    where
      go : (m : Bool) → w.masked ≡ m → Carries w r message
      go true e =
          let key = urandom w.drawn in
          let hidden = xor_mask_bytes message key in
          let f = second_field-IsLengthField true (length message) l.1 in
          record {
            wire = front f.second f.extended (key ++ hidden);
            writes =
                write-front w message true e l.0 l.2 f
                ∙ send_masked w message f.second f.extended e;
            key = λ old. some key;
            reads = λ old rest.
                rw (append_assoc f.extended (key ++ hidden) rest, append_assoc key hidden rest)
                  (sized_masked r f.second (length message) f.extended f.size (f.value 130) f.top
                      l.3 urandom old key (hidden ++ rest) f.flag (p.sides ∙ e) (p.keys w.drawn)
                    ∙ body-delivers urandom r (length message) (some key) hidden message rest
                        (length-xor_mask_bytes message key)
                        (unmask-xor_mask_bytes message key (omega (arith, p.keys w.drawn)))
                        p.none_open p.empty l.4);
          }
      go false e =
          let f = second_field-IsLengthField false (length message) l.1 in
          record {
            wire = front f.second f.extended message;
            writes =
                write-front w message false e l.0 l.2 f
                ∙ send_plain w message f.second f.extended e;
            key = λ old. none;
            reads = λ old rest. rw (append_assoc f.extended message rest) (
                sized_plain r f.second (length message) f.extended f.size (f.value 130) f.top l.3
                  urandom old (message ++ rest) f.flag (p.sides ∙ e)
                ∙ body-delivers urandom r (length message) none message message rest refl
                    (unfold unmask in refl) p.none_open p.empty l.4);
          }

  abbrev pub join : List Bytes → Bytes
  join [] = []
  join (wire ∷ wires) = wire ++ join wires

  -- What a sequence of writes puts on the wire, and what the reader makes of it.
  pub record Transfers (w r : Session) (messages : List Bytes) : Type 0 where
    pub writer : Session
    pub wires : List Bytes
    pub writes : write_all urandom messages w ≡ done writer
    pub appended : writer.written ≡ w.written ++ wires
    pub key : Option Bytes → Option Bytes
    pub session : Session
    pub reads :
        (old : Option Bytes)
        → run (reader urandom) (idle r old (join wires)) ≡ returned (idle session (key old) [])
    pub delivers : session.messages ≡ r.messages ++ messages

  run-idle :
      (r : Session) (old : Option Bytes)
      → run (reader urandom) (idle r old []) ≡ returned (idle r old [])
  run-idle r old =
      run-wait (reader urandom) (reader-IsStream urandom) (idle r old []) (idle r old [])
        (unfold step in refl)

  write_all-cons :
      (w w' end : Session) (m : Bytes) (ms : List Bytes)
      → write urandom m w ≡ done w'
      → write_all urandom ms w' ≡ done end
      → write_all urandom (m ∷ ms) w ≡ done end
  unfolding write_all
  write_all-cons w w' end m ms h k = rw h k

  transfers :
      (messages : List Bytes) (w r : Session)
      → IsPair w r
      → All (Fits w r) messages
      → Transfers w r messages
  transfers [] w r p fits = record {
    writer = w;
    wires = [];
    writes = unfold write_all in refl;
    appended = sym (append-nil w.written);
    key = λ old. old;
    session = r;
    reads = run-idle r;
    delivers = sym (append-nil r.messages);
  }
  transfers (m ∷ ms) w r p fits =
      let one = carries w r m p fits.0 in
      let w' = sent w one.wire in
      let r' = delivered r m in
      let p' : IsPair w' r' = record {
        keys = p.keys;
        sides = p.sides;
        none_open = refl;
        empty = refl;
        is_open = p.is_open;
      } in
      let rest = transfers ms w' r' p' fits.1 in
      record {
        writer = rest.writer;
        wires = one.wire ∷ rest.wires;
        writes = write_all-cons w w' rest.writer m ms one.writes rest.writes;
        appended = rest.appended ∙ append_assoc w.written (one.wire ∷ []) rest.wires;
        key = λ old. rest.key (one.key old);
        session = rest.session;
        reads = λ old.
            run-again (reader urandom) (reader-IsStream urandom) _ _
              (one.reads old (join rest.wires))
            ∙ rest.reads (one.key old);
        delivers = rest.delivers ∙ append_assoc r.messages (m ∷ []) ms;
      }

  -- Between two ends of which one masks and the other expects it, the reader being open and between
  -- two messages, and with masking keys of four bytes: every sequence of non-empty messages within the
  -- limits of both ends, written one after the
  -- other and fed to the other end in one piece, comes out as it went in, with nothing left over:
  -- `write_all` returns, and the reader returns with these messages behind those it had.
  pub feed_data-write_all :
      (messages : List Bytes) (w r : Session) (old : Option Bytes)
      → IsPair w r
      → All (Fits w r) messages
      → (writer : Session) × (wires : List Bytes) × (key : Option Bytes) × (reader : Session)
        × (write_all urandom messages w ≡ done writer)
        × (writer.written ≡ w.written ++ wires)
        × (feed_data urandom (idle r old []) (join wires) ≡ returned (idle reader key []))
        × (reader.messages ≡ r.messages ++ messages)
  feed_data-write_all messages w r old p fits =
      let t = transfers messages w r p fits in
      (
        t.writer,
        t.wires,
        t.key old,
        t.session,
        t.writes,
        t.appended,
        feed_data-open urandom (idle r old []) (join t.wires) p.is_open
            ∙ (unfold feed in t.reads old),
        t.delivers,
      )
