-- ===== src/Cipher/Adapter/Wire.antt =====
-- `write` of one stream adapter and `decrypt` of another.
use python_proxy.Base.{
  ℕ, ◌<◌, ◌≤◌, ◌≡◌, refl, sym, ap, ap₂, subst, ◌∙◌, false, some, List, [], ◌∷◌, ◌++◌, append_assoc,
  append-nil, if◌then◌else◌, length, length-append, take, take-append_self, drop-append_self, Bytes,
  arith,
}
use python_proxy.Cipher.Adapter.{
  IsSession, Side, fresh, missing, call, setup_iv, behind, send, adapter_write, write_each,
  decrypt_each,
}
use python_proxy.Cipher.Adapter.Cuts.{
  join, opened, decrypt_each-Matches, Matches-opened, fresh-Matches,
}

module _ {S : Type 0} (iv_length : ℕ) (start : Bytes → S) (encrypt decrypt : Bytes → S → Bytes × S)
    (law : IsSession encrypt decrypt) (some_iv : 0 < iv_length) where
  abbrev joined : List Bytes → Bytes
  joined = join iv_length start encrypt decrypt law some_iv

  -- A writing side with its IV and a session.
  record Ready (s : S) (side : Side S) : Type 0 where
    pub has_iv : missing iv_length start encrypt decrypt side.iv ≡ false
    pub session : side.session ≡ some s

  -- What a write puts out, and what it leaves.
  record Wrote (wire : Bytes) (s : S) (p : Bytes × Side S) : Type 0 where
    pub bytes : p.0 ≡ wire
    pub ready : Ready s p.1

  send-Wrote :
      (m front : Bytes) (s : S) (side : Side S)
      → Ready s side
      → Wrote
          (front ++ (encrypt m s).0)
          (encrypt m s).1
          (send iv_length start encrypt decrypt m (front, side))
  send-Wrote [] front s side r = record {
    bytes = sym (ap (λ (q : Bytes × S). front ++ q.0) (law.encrypts_nothing s) ∙ append-nil front);
    ready = subst (λ (q : Bytes × S). Ready q.1 side) (sym (law.encrypts_nothing s)) r;
  }
  send-Wrote (b ∷ bytes) front s side r =
      subst
        (λ o. Wrote (front ++ (encrypt (b ∷ bytes) s).0) (encrypt (b ∷ bytes) s).1 (
          behind iv_length start encrypt decrypt front
            (call iv_length start encrypt decrypt encrypt (b ∷ bytes) o side)))
        (sym r.session)
        (record { bytes = refl; ready = record { has_iv = r.has_iv; session = refl } })

  write-Wrote :
      (random m : Bytes) (s : S) (side : Side S)
      → Ready s side
      → Wrote
          (encrypt m s).0
          (encrypt m s).1
          (adapter_write iv_length start encrypt decrypt random m side)
  unfolding adapter_write
  write-Wrote random m s side r =
      subst
        (λ b. Wrote (encrypt m s).0 (encrypt m s).1 (
          send iv_length start encrypt decrypt m (
            if b
            then (random, setup_iv iv_length start encrypt decrypt random side)
            else ([], side))))
        (sym r.has_iv) (send-Wrote m [] s side r)

  write_each-joined :
      (random : Bytes) (messages : List Bytes) (s : S) (side : Side S)
      → Ready s side
      → (write_each iv_length start encrypt decrypt random messages side).0
        ≡ (encrypt (joined messages) s).0
  unfolding write_each
  write_each-joined random [] s side r = ap (λ (q : Bytes × S). q.0) (sym (law.encrypts_nothing s))
  write_each-joined random (m ∷ ms) s side r =
      let w = write-Wrote random m s side r in
      ap₂ ◌++◌ w.bytes (write_each-joined random ms (encrypt m s).1 _ w.ready)
      ∙ ap (λ (q : Bytes × S). q.0) (sym (law.encrypts m (joined ms) s))

  write_first :
      (random m : Bytes)
      → 0 < length random
      → Wrote (random ++ (encrypt m (start random)).0) (encrypt m (start random)).1 (
          adapter_write iv_length start encrypt decrypt random m
            (fresh iv_length start encrypt decrypt))
  unfolding adapter_write
  write_first [] m h = absurd (omega arith)
  write_first (b ∷ random) m h =
      send-Wrote m (b ∷ random) (start (b ∷ random))
        (setup_iv iv_length start encrypt decrypt (b ∷ random)
          (fresh iv_length start encrypt decrypt))
        (record { has_iv = refl; session = refl })

  wire_of :
      (random m : Bytes) (ms : List Bytes)
      → 0 < length random
      → (write_each iv_length start encrypt decrypt random
          (m ∷ ms)
          (fresh iv_length start encrypt decrypt)).0
        ≡ random ++ (encrypt (joined (m ∷ ms)) (start random)).0
  unfolding write_each
  wire_of random m ms h =
      let w = write_first random m h in
      let s = start random in
      ap₂ ◌++◌ w.bytes (write_each-joined random ms (encrypt m s).1 _ w.ready)
      ∙ append_assoc random (encrypt m s).0 (encrypt (joined ms) (encrypt m s).1).0
      ∙ ap (λ (q : Bytes × S). random ++ q.0) (sym (law.encrypts m (joined ms) s))

  opened-wire :
      (random text : Bytes)
      → length random ≡ iv_length
      → (opened iv_length start encrypt decrypt law some_iv
          (random ++ (encrypt text (start random)).0)).0
        ≡ text
  opened-wire random text e =
      let coded = (encrypt text (start random)).0 in
      ap (λ z. (decrypt z (start (take iv_length (random ++ coded)))).0)
        (drop-append_self iv_length random coded e)
      ∙ ap (λ z. (decrypt coded (start z)).0) (take-append_self iv_length random coded e)
      ∙ ap (λ (q : Bytes × S). q.0) (law.undoes text (start random))

  -- For a cipher with an IV of at least one byte, whose sessions keep their laws: whatever is written in any number of calls, and in whatever chunks the
  -- bytes of the wire arrive, also within the IV, the reader puts out the written bytes, in order.
  pub decrypt_each-write_each :
      (random m : Bytes) (messages chunks : List Bytes)
      → length random ≡ iv_length
      → joined chunks
        ≡ (write_each iv_length start encrypt decrypt random
            (m ∷ messages)
            (fresh iv_length start encrypt decrypt)).0
      → (decrypt_each iv_length start encrypt decrypt chunks
          (fresh iv_length start encrypt decrypt)).0
        ≡ joined (m ∷ messages)
  decrypt_each-write_each random m messages chunks e f =
      let coded = (encrypt (joined (m ∷ messages)) (start random)).0 in
      let same = f ∙ wire_of random m messages (omega (arith, e, some_iv)) in
      let enough : iv_length ≤ length (joined chunks) =
        omega (arith, e, ap length same, length-append random coded) in
      Matches-opened iv_length start encrypt decrypt law some_iv (joined chunks) _ _ enough (
        decrypt_each-Matches iv_length start encrypt decrypt law some_iv chunks [] [] _
          (fresh-Matches iv_length start encrypt decrypt law some_iv))
      ∙ ap (λ z. (opened iv_length start encrypt decrypt law some_iv z).0) same
      ∙ opened-wire random (joined (m ∷ messages)) e
