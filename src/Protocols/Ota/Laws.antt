-- ===== src/Protocols/Ota/Laws.antt =====
-- The reader's rounds use up the buffer, and do not depend on how the bytes are cut.
use python_proxy.Base.{
  ℕ, ◌+◌, ◌<◌, ◌≤◌, ◌≡◌, refl, ap, ◌∙◌, Bool-cases, inl, inr, Option, none, some, ◌++◌,
  append_assoc, ltb, ltb_false→le, le→ltb, length, take, drop, Bytes, length-append, length-drop,
  take-append, drop-append, arith,
}
use python_proxy.Cipherpy.Process.{equal_bytes}
use python_proxy.Stream.Decoder.{wait, again, IsStream}
use python_proxy.Protocols.Ota.{
  Ota, checksum, read_length, take_chunk, verify, ota_chunk, ota_step, ota_decoder,
}

abbrev pub extend : Ota → Bytes → Ota
extend s b = record s { buffer = s.buffer ++ b }

-- The payload of a chunk that is there does not change with what follows it.
chunk-append :
    (n : ℕ) (x b : Bytes) → 10 + n ≤ length x → take n (drop 10 (x ++ b)) ≡ take n (drop 10 x)
chunk-append n x b h =
    rw (drop-append 10 x b (omega arith))
      (take-append n (drop 10 x) b (omega (arith, length-drop 10 x)))

module _ (mac : Bytes → Bytes → Bytes) (iv : Bytes) where
  -- A round that goes on, at either state of the closure.
  abbrev Goes : Option ℕ → Ota → Ota → Type 0
  Goes none s t = (2 ≤ length s.buffer) × (t ≡ read_length s)
  Goes (some n) s t =
      (10 + n ≤ length s.buffer)
      × (verify mac iv (checksum mac iv s.chunk_id (take n (drop 10 s.buffer))) n s ≡ again t)
      × (t ≡ take_chunk n s)

  verify-again :
      (expected : Option Bytes) (n : ℕ) (s t : Ota)
      → verify mac iv expected n s ≡ again t
      → t ≡ take_chunk n s
  verify-again none n s t e = cc
  verify-again (some sum) n s t e = elim (Bool-cases (equal_bytes (take 10 s.buffer) sum)) [
    | inl yes_ ↦ cc
    | inr no_ ↦ cc
  ]

  chunk-Goes : (o : Option ℕ) (s t : Ota) → ota_chunk mac iv o s ≡ again t → Goes o s t
  chunk-Goes none s t e = elim (Bool-cases (ltb (length s.buffer) 2)) [
    | inl short ↦ absurd (cc)
    | inr full ↦ (ltb_false→le _ _ full, cc)
  ]
  chunk-Goes (some n) s t e = elim (Bool-cases (ltb (length s.buffer) (10 + n))) [
    | inl short ↦ absurd (cc)
    | inr full ↦
        let sum = checksum mac iv s.chunk_id (take n (drop 10 s.buffer)) in
        let f : verify mac iv sum n s ≡ again t = cc in
        (ltb_false→le _ _ full, f, verify-again sum n s t f)
  ]

  shrinks : (o : Option ℕ) (s t : Ota) → Goes o s t → length t.buffer < length s.buffer
  shrinks none s t h = rw h.1 (omega (arith, length-drop 2 s.buffer, h.0))
  shrinks (some n) s t h = rw h.2 (omega (arith, length-drop (10 + n) s.buffer, h.0))

  verify-extend :
      (expected : Option Bytes) (n : ℕ) (s : Ota) (b : Bytes)
      → 10 + n ≤ length s.buffer
      → verify mac iv expected n s ≡ again (take_chunk n s)
      → verify mac iv expected n (extend s b) ≡ again (extend (take_chunk n s) b)
  verify-extend none n s b h e = absurd (cc)
  verify-extend (some sum) n s b h e =
      rw
        (
          take-append 10 s.buffer b (omega (arith, h)),
          chunk-append n s.buffer b h,
          drop-append (10 + n) s.buffer b h,
        )
        (elim (Bool-cases (equal_bytes (take 10 s.buffer) sum)) [
          | inl same ↦ rw same refl
          | inr differs ↦ absurd (cc)
        ])

  continues :
      (o : Option ℕ) (s t : Ota) (b : Bytes)
      → Goes o s t
      → ota_chunk mac iv o (extend s b) ≡ again (extend t b)
  continues none s t b h =
      rw
        (
          h.1,
          le→ltb (length (s.buffer ++ b)) 2 (omega (arith, length-append s.buffer b, h.0)),
          take-append 2 s.buffer b h.0,
          drop-append 2 s.buffer b h.0,
        )
        refl
  continues (some n) s t b h =
      rw
        (
          h.2,
          le→ltb (length (s.buffer ++ b)) (10 + n) (omega (arith, length-append s.buffer b, h.0)),
          chunk-append n s.buffer b h.0,
        )
        (verify-extend (checksum mac iv s.chunk_id (take n (drop 10 s.buffer))) n s b h.0
          (h.1 ∙ ap again h.2))

  waits : (o : Option ℕ) (s t : Ota) → ota_chunk mac iv o s ≡ wait t → s ≡ t
  waits none s t e = elim (Bool-cases (ltb (length s.buffer) 2)) [
    | inl short ↦ cc
    | inr full ↦ absurd (cc)
  ]
  waits (some n) s t e = elim (Bool-cases (ltb (length s.buffer) (10 + n))) [
    | inl short ↦ cc
    | inr full ↦ absurd (go (checksum mac iv s.chunk_id (take n (drop 10 s.buffer))) (cc))
  ]
    where
      go : (expected : Option Bytes) → verify mac iv expected n s ≡ wait t → ⊥
      go none f = cc
      go (some sum) f = elim (Bool-cases (equal_bytes (take 10 s.buffer) sum)) [
        | inl same ↦ cc
        | inr differs ↦ cc
      ]

  pub ota_decoder-IsStream : IsStream (ota_decoder mac iv)
  unfolding ota_step
  ota_decoder-IsStream = record {
    shrinks = λ s t e. shrinks s.data_len s t (chunk-Goes s.data_len s t e);
    extends = λ s a b. ap (λ x. record s { buffer = x }) (append_assoc s.buffer a b);
    goes_on = λ s t b e. continues s.data_len s t b (chunk-Goes s.data_len s t e);
    waits = λ s t b e. ap (λ u. ota_step mac iv (extend u b)) (waits s.data_len s t e);
  }
