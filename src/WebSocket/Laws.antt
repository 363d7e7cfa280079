-- ===== src/WebSocket/Laws.antt =====
-- `feed_data` as a stream decoder: it ends, and does not depend on how its input is cut.
use python_proxy.Base.{
  ℕ, ◌+◌, ◌-◌, ◌≤◌, ◌<◌, ◌≡◌, refl, sym, ap, ◌∙◌, Bool, true, false, Option, none, some, [], ◌∷◌,
  ◌++◌, inl, inr, Bytes, length, take, drop, take-append, drop-append, length-drop, length-append,
  ltb, le→ltb, lt→ltb, ltb_false→le, ltb→lt, Bool-cases, if◌then◌else◌, arith, ◌==◌, from_big,
}
use python_proxy.Stream.Decoder.{Round, wait, again, fail}
use python_proxy.WebSocket.Session.{WsError, Session, Call, done, raise}
use python_proxy.WebSocket.Frame.{handle_frame}
use python_proxy.WebSocket.Reader.{
  WsStream, sized, take_header, check_head, header_size, payload_length, marker, body, step,
  step_at, handled, unmask, extension_size, lengths, is_set,
}

abbrev pub ext : Bytes → WsStream → WsStream
ext b s = record s { buffer = s.buffer ++ b }

abbrev pub ext_round : Bytes → Round WsStream WsError → Round WsStream WsError
ext_round b (wait s) = wait (ext b s)
ext_round b (again s) = again (ext b s)
ext_round b (fail e s) = fail e (ext b s)

-- What the checks on a header assign is assigned again when it is read again.
check_head_again :
    (first second : ℕ) (s t : Session)
    → check_head first second s ≡ done t
    → check_head first second t ≡ done t
unfolding check_head
check_head_again first second s t e = ground arith

slice-append :
    (i k : ℕ) (xs ys : Bytes) → i + k ≤ length xs → take k (drop i (xs ++ ys)) ≡ take k (drop i xs)
slice-append i k xs ys h =
    rw (drop-append i xs ys (omega arith))
      (take-append k (drop i xs) ys (rw length-drop (omega arith)))

payload_length-append :
    (m : ℕ) (xs ys : Bytes)
    → 2 + extension_size m ≤ length xs
    → payload_length m (xs ++ ys) ≡ payload_length m xs
unfolding payload_length
payload_length-append m xs ys h = elim (Bool-cases (m == 126)) [
  | inl short ↦ rw short (ap from_big (slice-append 2 2 xs ys (rw short at h)))
  | inr other ↦ rw other (elim (Bool-cases (m == 127)) [
    | inl long ↦ rw long (ap from_big (slice-append 2 8 xs ys (rw (other, long) at h)))
    | inr small ↦ rw small refl
  ])
]

abbrev key_of : ℕ → Bytes → Option Bytes
key_of second buffer =
    if is_set second 0x80 then some (take 4 (drop (header_size second - 4) buffer)) else none

keyed_slice :
    (keyed : Bool) (m : ℕ) (xs ys : Bytes)
    → let size = 2 + extension_size m + (if keyed then 4 else 0) in
      size ≤ length xs
      → ◌≡◌ {A = Option Bytes}
          (if keyed then some (take 4 (drop (size - 4) (xs ++ ys))) else none)
          (if keyed then some (take 4 (drop (size - 4) xs)) else none)
keyed_slice true m xs ys h =
    ap some (slice-append (2 + extension_size m + 4 - 4) 4 xs ys (ground arith))
keyed_slice false m xs ys h = refl

key_of-append :
    (second : ℕ) (xs ys : Bytes)
    → header_size second ≤ length xs
    → key_of second (xs ++ ys) ≡ key_of second xs
key_of-append second xs ys h = keyed_slice (is_set second 0x80) (marker second) xs ys h

module _ (urandom : ℕ → Bytes) where
  abbrev pub taken : ℕ → WsStream → Round WsStream WsError
  taken n s =
      handled (record s { data_len = none; buffer = drop n s.buffer })
        (handle_frame urandom (unmask s.mask_key (take n s.buffer)) s.session)

  pub body-full : (n : ℕ) (s : WsStream) → n ≤ length s.buffer → body urandom n s ≡ taken n s
  unfolding body
  body-full n s h = rw (le→ltb (length s.buffer) n h)

  pub body-short : (n : ℕ) (s : WsStream) → length s.buffer < n → body urandom n s ≡ wait s
  unfolding body
  body-short n s h = rw (lt→ltb (length s.buffer) n h)

  handled-ext :
      (b : Bytes) (s : WsStream) (c : Call) → handled (ext b s) c ≡ ext_round b (handled s c)
  handled-ext b s (done u) = refl
  handled-ext b s (raise x u) = refl

  body-ext :
      (n : ℕ) (s : WsStream) (b : Bytes)
      → n ≤ length s.buffer
      → body urandom n (ext b s) ≡ ext_round b (body urandom n s)
  body-ext n s b h =
      body-full n (ext b s) (rw length-append (omega arith))
      ∙ rw (take-append n s.buffer b h, drop-append n s.buffer b h)
          (handled-ext b (record s { data_len = none; buffer = drop n s.buffer }) _)
      ∙ ap (ext_round b) (sym (body-full n s h))

  abbrev pub Extends : Bytes → Round WsStream WsError → Round WsStream WsError → Type 0
  Extends b (again t) r = r ≡ again (ext b t)
  Extends b (wait t) r = r ≡ step urandom (ext b t)
  Extends b (fail e t) r = Unit

  handled-Extends :
      (b : Bytes) (s : WsStream) (c : Call) → Extends b (handled s c) (ext_round b (handled s c))
  handled-Extends b s (done u) = refl
  handled-Extends b s (raise x u) = tt

  body-Extends :
      (n : ℕ) (s : WsStream) (b : Bytes)
      → s.data_len ≡ some n
      → Extends b (body urandom n s) (body urandom n (ext b s))
  body-Extends n s b e = elim (Bool-cases (ltb (length s.buffer) n)) [
    | inl short ↦ rw (body-short n s (ltb→lt _ _ short)) (unfold step in rw e refl)
    | inr full ↦
        let h : n ≤ length s.buffer = ltb_false→le _ _ full in
        rw (body-ext n s b h, body-full n s h)
          (handled-Extends b (record s { data_len = none; buffer = drop n s.buffer }) _)
  ]

  take_header-Extends :
      (second n : ℕ) (s : WsStream) (b : Bytes) (c : Call)
      → header_size second ≤ length s.buffer
      → Extends b (take_header urandom second n s c) (take_header urandom second n (ext b s) c)
  take_header-Extends second n s b (raise x t) h = tt
  take_header-Extends second n s b (done t) h =
      rw (drop-append (header_size second) s.buffer b h, key_of-append second s.buffer b h)
        (body-Extends n
          (record {
            session = t;
            data_len = some n;
            mask_key = key_of second s.buffer;
            buffer = drop (header_size second) s.buffer;
          })
          b refl)

  lengths-Extends :
      (second : ℕ) (t : Session) (s : WsStream) (b : Bytes)
      → header_size second ≤ length s.buffer
      → Extends b (lengths urandom second t s) (lengths urandom second t (ext b s))
  lengths-Extends second t s b h =
      rw (payload_length-append (marker second) s.buffer b (omega arith))
        (take_header-Extends second (payload_length (marker second) s.buffer) s b _ h)

  sized-Extends :
      (second : ℕ) (s : WsStream) (b : Bytes) (c : Call)
      → ((t : Session)
          → c ≡ done t
          → step urandom (ext b (record s { session = t })) ≡ sized urandom second (ext b s) c)
      → Extends b (sized urandom second s c) (sized urandom second (ext b s) c)
  sized-Extends second s b (raise x t) h = tt
  sized-Extends second s b (done t) h =
      elim (Bool-cases (ltb (length s.buffer) (header_size second))) [
        | inl short ↦ rw short (sym (h t refl))
        | inr full ↦
            let fits : header_size second ≤ length s.buffer = ltb_false→le _ _ full in
            let more : header_size second ≤ length (s.buffer ++ b) =
              omega (arith, length-append s.buffer b) in
            rw (full, le→ltb (length (s.buffer ++ b)) (header_size second) more)
              (lengths-Extends second t s b fits)
      ]

  step_at-Extends :
      (o : Option ℕ) (buffer : Bytes) (s : WsStream) (b : Bytes)
      → s.data_len ≡ o
      → s.buffer ≡ buffer
      → Extends b (step_at urandom o buffer s) (step_at urandom o (buffer ++ b) (ext b s))
  step_at-Extends (some n) buffer s b e f = body-Extends n s b e
  step_at-Extends none [] s b e f = unfold step in rw (e, f) refl
  step_at-Extends none (x ∷ []) s b e f = unfold step in rw (e, f) refl
  step_at-Extends none (first ∷ second ∷ rest) s b e f =
      sized-Extends second s b (check_head first second s.session)
        λ t c. unfold step in rw (e, f, check_head_again first second s.session t c, c) refl

  pub step-Extends :
      (s : WsStream) (b : Bytes) → Extends b (step urandom s) (step urandom (ext b s))
  step-Extends s b = unfold step in step_at-Extends s.data_len s.buffer s b refl refl
