-- ===== src/Cipher/Aead/Chunks.antt =====
-- `decrypt` as a stream decoder: it ends, fails closed, and does not depend on how its input is cut.
use python_proxy.Base.{
  ℕ, ◌+◌, ◌*◌, ◌≤◌, ◌<◌, ◌≡◌, refl, Option, none, some, ◌++◌, append_assoc, inl, inr, Bytes, length,
  drop, take-append, drop-append, length-drop, length-append, ltb, leb, le→ltb, ltb_false→le,
  Bool-cases, arith, from_big,
}
use python_proxy.Stream.Decoder.{Round, wait, again, fail, IsStream}
use python_proxy.Cipher.Aead.{
  Backend, AeadStream, AeadError, open_front, drawn, length_opened, body_opened, step_at, step,
  reader, packet_limit, moved, nonce_bytes,
}

abbrev pub ext : Bytes → AeadStream → AeadStream
ext bytes s = record s { buffer = s.buffer ++ bytes }

abbrev size : AeadStream → ℕ
size s = 2 * length s.buffer + (elim s.declen [ none ↦ 0 | some n ↦ 1 ])

module _ (b : Backend) where
  open_front-ext :
      (n : ℕ) (s : AeadStream) (x : Bytes)
      → n + b.tag_length ≤ length s.buffer
      → open_front b n (ext x s) ≡ open_front b n s
  unfolding open_front
  open_front-ext n s x h =
      rw
        (
          take-append n s.buffer x (omega arith),
          drop-append n s.buffer x (omega arith),
          take-append b.tag_length (drop n s.buffer) x (omega (arith, length-drop n s.buffer)),
        )
        refl

  moved-ext :
      (o : Option Bytes) (s : AeadStream) (x : Bytes) → moved b o (ext x s) ≡ ext x (moved b o s)
  moved-ext none s x = refl
  moved-ext (some n) s x = refl

  drawn-ext : (s : AeadStream) (x : Bytes) → drawn b (ext x s) ≡ ext x (drawn b s)
  unfolding drawn
  drawn-ext s x = moved-ext (nonce_bytes b.nonce_length s.counter) s x

  abbrev Extends : Bytes → Round AeadStream AeadError → Round AeadStream AeadError → Type 0
  Extends x (again t) r = r ≡ again (ext x t)
  Extends x (wait t) r = r ≡ step b (ext x t)
  Extends x (fail e t) r = Unit

  length_opened-Extends :
      (s : AeadStream) (x : Bytes) (o : Option Bytes)
      → 2 + b.tag_length ≤ length s.buffer
      → Extends x (length_opened b s o) (length_opened b (ext x s) o)
  length_opened-Extends s x none h = tt
  length_opened-Extends s x (some field) h = elim (Bool-cases (leb (from_big field) packet_limit)) [
    | inl fits ↦ rw (fits, drop-append (2 + b.tag_length) s.buffer x h, drawn-ext s x) refl
    | inr over ↦ rw over tt
  ]

  body_opened-Extends :
      (n : ℕ) (s : AeadStream) (x : Bytes) (o : Option Bytes)
      → n + b.tag_length ≤ length s.buffer
      → Extends x (body_opened b n s o) (body_opened b n (ext x s) o)
  body_opened-Extends n s x none h = tt
  body_opened-Extends n s x (some text) h =
      rw (drop-append (n + b.tag_length) s.buffer x h, drawn-ext s x) refl

  longer : (k : ℕ) (s : AeadStream) (x : Bytes) → k ≤ length s.buffer → k ≤ length (s.buffer ++ x)
  longer k s x h = omega (arith, length-append s.buffer x)

  step_at-Extends :
      (o : Option ℕ) (s : AeadStream) (x : Bytes)
      → s.declen ≡ o
      → Extends x (step_at b o s) (step_at b o (ext x s))
  step_at-Extends none s x e = elim (Bool-cases (ltb (length s.buffer) (2 + b.tag_length))) [
    | inl short ↦ rw short (unfold step in rw e refl)
    | inr full ↦
        let h : 2 + b.tag_length ≤ length s.buffer = ltb_false→le _ _ full in
        rw (full, le→ltb _ _ (longer _ s x h), open_front-ext 2 s x h)
          (length_opened-Extends s x (open_front b 2 s) h)
  ]
  step_at-Extends (some n) s x e = elim (Bool-cases (ltb (length s.buffer) (n + b.tag_length))) [
    | inl short ↦ rw short (unfold step in rw e refl)
    | inr full ↦
        let h : n + b.tag_length ≤ length s.buffer = ltb_false→le _ _ full in
        rw (full, le→ltb _ _ (longer _ s x h), open_front-ext n s x h)
          (body_opened-Extends n s x (open_front b n s) h)
  ]

  step-Extends : (s : AeadStream) (x : Bytes) → Extends x (step b s) (step b (ext x s))
  step-Extends s x = unfold step in step_at-Extends s.declen s x refl

  abbrev Shrinks : ℕ → Round AeadStream AeadError → Type 0
  Shrinks k (again t) = size t < k
  Shrinks k (wait t) = Unit
  Shrinks k (fail e t) = Unit

  step_at-Shrinks :
      (o : Option ℕ) (s : AeadStream) → s.declen ≡ o → Shrinks (size s) (step_at b o s)
  step_at-Shrinks none s e = elim (Bool-cases (ltb (length s.buffer) (2 + b.tag_length))) [
    | inl short ↦ rw short tt
    | inr full ↦ rw full (go (open_front b 2 s) (ltb_false→le _ _ full))
  ]
    where
      smaller :
          (n : ℕ)
          → 2 + b.tag_length ≤ length s.buffer
          → size (record (drawn b s) { declen = some n; buffer = drop (2 + b.tag_length) s.buffer })
            < size s
      smaller n h = rw e (omega (arith, length-drop (2 + b.tag_length) s.buffer))

      go :
          (o : Option Bytes)
          → 2 + b.tag_length ≤ length s.buffer
          → Shrinks (size s) (length_opened b s o)
      go none h = tt
      go (some field) h = elim (Bool-cases (leb (from_big field) packet_limit)) [
        | inl fits ↦ rw fits (smaller (from_big field) h)
        | inr over ↦ rw over tt
      ]
  step_at-Shrinks (some n) s e = elim (Bool-cases (ltb (length s.buffer) (n + b.tag_length))) [
    | inl short ↦ rw short tt
    | inr full ↦ rw full (go (open_front b n s))
  ]
    where
      smaller :
          (text : Bytes)
          → size (record (drawn b s) {
            declen = none;
            buffer = drop (n + b.tag_length) s.buffer;
            ret = s.ret ++ text;
          })
            < size s
      smaller text = rw e (omega (arith, length-drop (n + b.tag_length) s.buffer))

      go : (o : Option Bytes) → Shrinks (size s) (body_opened b n s o)
      go none = tt
      go (some text) = smaller text

  step-Shrinks : (s : AeadStream) → Shrinks (size s) (step b s)
  step-Shrinks s = unfold step in step_at-Shrinks s.declen s refl

  pub reader-IsStream : IsStream (reader b)
  reader-IsStream = record {
    shrinks = λ s t e. rw e at (step-Shrinks s);
    extends = λ s x y. rw append_assoc refl;
    goes_on = λ s t x e. rw e at (step-Extends s x);
    waits = λ s t x e. rw e at (step-Extends s x);
  }
