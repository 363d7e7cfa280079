-- ===== src/WebSocket/Chunks.antt =====
-- `feed_data` uses up its input round by round, so it ends; and two calls of it do what one call
-- with the bytes in one piece does.
use python_proxy.Base.{
  ℕ, ◌+◌, ◌*◌, ◌<◌, ◌≡◌, ◌≢◌, refl, sym, ap, subst, ◌∙◌, true, false, Option, none, some, [], ◌∷◌,
  ◌++◌, append_assoc, inl, inr, Bytes, length, drop, length-drop, ltb, ltb_false→le, ltb→lt,
  Bool-cases, arith,
}
use python_proxy.Stream.Decoder.{Round, wait, again, fail, returned, exhausted, IsStream, feed}
use python_proxy.Stream.Decoder.Laws.{feed-append, run-ne-exhausted}
use python_proxy.WebSocket.Session.{WsError, Call, done, raise}
use python_proxy.WebSocket.Reader.{
  WsStream, sized, take_header, check_head, header_size, body, step, step_at, handled, reader,
  feed_data,
}
use python_proxy.WebSocket.Laws.{ext, body-full, body-short, step-Extends}

abbrev size : WsStream → ℕ
size s = 2 * length s.buffer + (elim s.data_len [ none ↦ 0 | some n ↦ 1 ])

size_none : (s : WsStream) → s.data_len ≡ none → 2 * length s.buffer ≡ size s
size_none s e = rw e (omega arith)

size_some : (n : ℕ) (s : WsStream) → s.data_len ≡ some n → 2 * length s.buffer < size s
size_some n s e = rw e (omega arith)

abbrev Shrinks : ℕ → Round WsStream WsError → Type 0
Shrinks k (again t) = size t < k
Shrinks k (wait t) = Unit
Shrinks k (fail e t) = Unit

handled-Shrinks :
    (k : ℕ) (s : WsStream) (c : Call)
    → s.data_len ≡ none
    → 2 * length s.buffer < k
    → Shrinks k (handled s c)
handled-Shrinks k s (done u) e h = rw e (omega arith)
handled-Shrinks k s (raise x u) e h = tt

module _ (urandom : ℕ → Bytes) where
  body-Shrinks : (n k : ℕ) (s : WsStream) → 2 * length s.buffer < k → Shrinks k (body urandom n s)
  body-Shrinks n k s h = elim (Bool-cases (ltb (length s.buffer) n)) [
    | inl short ↦ rw (body-short urandom n s (ltb→lt _ _ short)) tt
    | inr full ↦ rw (body-full urandom n s (ltb_false→le _ _ full)) (
        handled-Shrinks k (record s { data_len = none; buffer = drop n s.buffer }) _ refl
          (omega (arith, length-drop n s.buffer)))
  ]

  take_header-Shrinks :
      (second n : ℕ) (s : WsStream) (c : Call)
      → 1 < length s.buffer
      → Shrinks (2 * length s.buffer) (take_header urandom second n s c)
  take_header-Shrinks second n s (raise x t) h = tt
  take_header-Shrinks second n s (done t) h =
      body-Shrinks n (2 * length s.buffer) _
        (omega (arith, length-drop (header_size second) s.buffer))

  sized-Shrinks :
      (second : ℕ) (s : WsStream) (c : Call)
      → 1 < length s.buffer
      → Shrinks (2 * length s.buffer) (sized urandom second s c)
  sized-Shrinks second s (raise x t) h = tt
  sized-Shrinks second s (done t) h =
      elim (Bool-cases (ltb (length s.buffer) (header_size second))) [
        | inl short ↦ rw short tt
        | inr full ↦ rw full (take_header-Shrinks second _ s _ h)
      ]

  step_at-Shrinks :
      (o : Option ℕ) (buffer : Bytes) (s : WsStream)
      → s.data_len ≡ o
      → s.buffer ≡ buffer
      → Shrinks (size s) (step_at urandom o buffer s)
  step_at-Shrinks (some n) buffer s e f = body-Shrinks n (size s) s (size_some n s e)
  step_at-Shrinks none [] s e f = tt
  step_at-Shrinks none (x ∷ []) s e f = tt
  step_at-Shrinks none (first ∷ second ∷ rest) s e f =
      subst (λ k. Shrinks k (sized urandom second s (check_head first second s.session)))
        (size_none s e) (sized-Shrinks second s _ (omega (arith, ap length f)))

  step-Shrinks : (s : WsStream) → Shrinks (size s) (step urandom s)
  step-Shrinks s = unfold step in step_at-Shrinks s.data_len s.buffer s refl refl

  pub reader-IsStream : IsStream (reader urandom)
  reader-IsStream = record {
    shrinks = λ s t e. rw e at (step-Shrinks s);
    extends = λ s a b. rw append_assoc refl;
    goes_on = λ s t b e. rw e at (step-Extends urandom s b);
    waits = λ s t b e. rw e at (step-Extends urandom s b);
  }

  pub feed_data-open :
      (s : WsStream) (a : Bytes)
      → s.closed ≡ false
      → feed_data urandom s a ≡ feed (reader urandom) s a
  unfolding feed_data
  feed_data-open s a o = rw o refl

  pub feed_data-closed :
      (s : WsStream) (a : Bytes) → s.closed ≡ true → feed_data urandom s a ≡ returned s
  unfolding feed_data
  feed_data-closed s a o = rw o refl

  -- From any state, whatever the bytes, `feed_data` ends: it returns or raises.
  pub feed_data-ends : (s : WsStream) (bytes : Bytes) → feed_data urandom s bytes ≢ exhausted
  feed_data-ends s bytes = elim (Bool-cases s.closed) [
    | inl shut ↦ λ e. cc (feed_data-closed s bytes shut)
    | inr open_ ↦ λ e.
        run-ne-exhausted (reader urandom) reader-IsStream (ext bytes s)
          (unfold feed in sym (feed_data-open s bytes open_) ∙ e)
  ]

  -- Frames that stand behind a close frame in one piece are handled all the same, though a later
  -- piece is dropped.
  pub feed_data-append_closed :
      (s t : WsStream) (a b : Bytes)
      → s.closed ≡ false
      → feed_data urandom s a ≡ returned t
      → t.closed ≡ true
      → (feed_data urandom s (a ++ b) ≡ feed (reader urandom) t b)
        × (feed_data urandom t b ≡ returned t)
  feed_data-append_closed s t a b o h e = (
    feed_data-open s (a ++ b) o
        ∙ feed-append (reader urandom) reader-IsStream s t a b (sym (feed_data-open s a o) ∙ h),
    feed_data-closed t b e,
  )

  -- Bytes that arrive in two pieces have the effect of the bytes in one piece, as long as the
  -- first piece raises nothing and leaves the stream open.
  pub feed_data-append :
      (s t : WsStream) (a b : Bytes)
      → feed_data urandom s a ≡ returned t
      → t.closed ≡ false
      → feed_data urandom s (a ++ b) ≡ feed_data urandom t b
  feed_data-append s t a b h e = elim (Bool-cases s.closed) [
    | inl shut ↦
        let same : s ≡ t = cc (feed_data-closed s a shut) in
        absurd (cc (ap (λ (u : WsStream). u.closed) same))
    | inr open_ ↦
        feed_data-open s (a ++ b) open_
        ∙ feed-append (reader urandom) reader-IsStream s t a b (sym (feed_data-open s a open_) ∙ h)
        ∙ sym (feed_data-open t b e)
  ]
