-- ===== src/Cipher/Aead/Decrypt.antt =====
-- `decrypt`: it ends, fails closed, and does not depend on how its input is cut.
use python_proxy.Base.{
  ℕ, ◌+◌, ◌≤◌, ◌≡◌, ◌≢◌, arith, refl, sym, ap, ◌∙◌, Option, none, some, [], ◌++◌, append_assoc,
  append-nil, inl, inr, Bytes, length, ltb, leb, Bool-cases, from_big,
}
use python_proxy.Stream.Decoder.{Round, returned, exhausted, feed}
use python_proxy.Stream.Decoder.Laws.{feed-append, run-ne-exhausted, run-EndsIn, EndsIn, RoundAll}
use python_proxy.Stream.Decoder.Maps.{map_round, map_outcome, run-map}
use python_proxy.Cipher.Aead.{
  Backend, AeadStream, AeadError, open_front, drawn, length_opened, body_opened, step_at, step,
  reader, decrypt, packet_limit, moved, nonce_bytes,
}
use python_proxy.Cipher.Aead.Chunks.{ext, reader-IsStream}

-- What was put out before.
abbrev after : Bytes → AeadStream → AeadStream
after out s = record s { ret = out ++ s.ret }

module _ (b : Backend) where
  moved-after :
      (o : Option Bytes) (out : Bytes) (s : AeadStream)
      → moved b o (after out s) ≡ after out (moved b o s)
  moved-after none out s = refl
  moved-after (some n) out s = refl

  drawn-after : (out : Bytes) (s : AeadStream) → drawn b (after out s) ≡ after out (drawn b s)
  unfolding drawn
  drawn-after out s = moved-after (nonce_bytes b.nonce_length s.counter) out s

  length_opened-after :
      (out : Bytes) (s : AeadStream) (o : Option Bytes)
      → length_opened b (after out s) o ≡ map_round (after out) (length_opened b s o)
  length_opened-after out s none = rw (drawn-after out s) refl
  length_opened-after out s (some field) = elim (Bool-cases (leb (from_big field) packet_limit)) [
    | inl fits ↦ rw (fits, drawn-after out s) refl
    | inr over ↦ rw (over, drawn-after out s) refl
  ]

  body_opened-after :
      (out : Bytes) (n : ℕ) (s : AeadStream) (o : Option Bytes)
      → body_opened b n (after out s) o ≡ map_round (after out) (body_opened b n s o)
  body_opened-after out n s none = rw (drawn-after out s) refl
  body_opened-after out n s (some text) = rw (drawn-after out s, append_assoc out s.ret text) refl

  step-after :
      (out : Bytes) (s : AeadStream) → step b (after out s) ≡ map_round (after out) (step b s)
  unfolding step open_front
  step-after out s = go s.declen
    where
      go : (o : Option ℕ) → step_at b o (after out s) ≡ map_round (after out) (step_at b o s)
      go none = elim (Bool-cases (ltb (length s.buffer) (2 + b.tag_length))) [
        | inl short ↦ rw short refl
        | inr full ↦ rw full (length_opened-after out s (open_front b 2 s))
      ]
      go (some n) = elim (Bool-cases (ltb (length s.buffer) (n + b.tag_length))) [
        | inl short ↦ rw short refl
        | inr full ↦ rw full (body_opened-after out n s (open_front b n s))
      ]

  -- Every call of `decrypt` ends: it returns or raises.
  pub decrypt-ends : (s : AeadStream) (bytes : Bytes) → decrypt b s bytes ≢ exhausted
  unfolding decrypt feed
  decrypt-ends s bytes =
      run-ne-exhausted (reader b) (reader-IsStream b) (ext bytes (record s { ret = [] }))

  -- A packet whose length has been read is within the limit.
  abbrev pub IsLimited : AeadStream → Type 0
  IsLimited s = elim s.declen [ none ↦ Unit | some n ↦ n ≤ packet_limit ]

  abbrev pub IsDiscarded : AeadStream → Type 0
  IsDiscarded s = (s.buffer ≡ []) × (s.declen ≡ none)

  abbrev Closes : Round AeadStream AeadError → Type 0
  Closes = RoundAll IsLimited (λ e. IsDiscarded)

  length_opened-Closes : (s : AeadStream) (o : Option Bytes) → Closes (length_opened b s o)
  length_opened-Closes s none = (refl, refl)
  length_opened-Closes s (some field) = elim (Bool-cases (leb (from_big field) packet_limit)) [
    | inl fits ↦ rw fits (ground arith)
    | inr over ↦ rw over (refl, refl)
  ]

  body_opened-Closes : (n : ℕ) (s : AeadStream) (o : Option Bytes) → Closes (body_opened b n s o)
  body_opened-Closes n s none = (refl, refl)
  body_opened-Closes n s (some text) = tt

  step-Closes : (s : AeadStream) → IsLimited s → Closes (step b s)
  unfolding step
  step-Closes s h = go s.declen
    where
      go : (o : Option ℕ) → Closes (step_at b o s)
      go none = elim (Bool-cases (ltb (length s.buffer) (2 + b.tag_length))) [
        | inl short ↦ rw short h
        | inr full ↦ rw full (length_opened-Closes s (open_front b 2 s))
      ]
      go (some n) = elim (Bool-cases (ltb (length s.buffer) (n + b.tag_length))) [
        | inl short ↦ rw short h
        | inr full ↦ rw full (body_opened-Closes n s (open_front b n s))
      ]

  -- From a state where no packet beyond PACKET_LIMIT is awaited: if `decrypt` raises, on whatever
  -- bytes, what was buffered is dropped and the next call starts at
  -- a length field; if it returns, a packet that it waits for has a length within PACKET_LIMIT.
  pub decrypt-IsDiscarded :
      (s : AeadStream) (bytes : Bytes)
      → IsLimited s
      → EndsIn IsLimited (λ e. IsDiscarded) (decrypt b s bytes)
  unfolding decrypt feed
  decrypt-IsDiscarded s bytes h =
      run-EndsIn (reader b) (reader-IsStream b) IsLimited (λ e. IsDiscarded) step-Closes
        (ext bytes (record s { ret = [] })) h

  feed-after :
      (out : Bytes) (s : AeadStream) (y : Bytes)
      → feed (reader b) (after out s) y ≡ map_outcome (after out) (feed (reader b) s y)
  unfolding feed
  feed-after out s y = run-map (reader b) (after out) (step-after out) (ext y s) refl

  after-ret : (t : AeadStream) → t ≡ after t.ret (record t { ret = [] })
  after-ret t = λ i. record t { ret = sym (append-nil t.ret) i }

  -- Where two calls of `decrypt` both return, they put out together what one call with the bytes in
  -- one piece puts out, and that call returns too and leaves the same state.
  pub decrypt-append :
      (s t u : AeadStream) (x y : Bytes)
      → decrypt b s x ≡ returned t
      → decrypt b t y ≡ returned u
      → decrypt b s (x ++ y) ≡ returned (record u { ret = t.ret ++ u.ret })
  unfolding decrypt
  decrypt-append s t u x y e f =
      feed-append (reader b) (reader-IsStream b) (record s { ret = [] }) t x y e
      ∙ ap (λ z. feed (reader b) z y) (after-ret t)
      ∙ feed-after t.ret (record t { ret = [] }) y
      ∙ ap (map_outcome (after t.ret)) f
