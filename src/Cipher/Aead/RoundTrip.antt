-- ===== src/Cipher/Aead/RoundTrip.antt =====
-- What `encrypt` sends, `decrypt` of the other end returns.
use python_proxy.Base.{
  ℕ, zero, suc, ◌+◌, ◌^◌, ◌≤◌, ◌<◌, ◌≡◌, refl, ap, ◌∙◌, false, Option, none, some, [], ◌∷◌, ◌++◌,
  append_assoc, append-nil, Bytes, length, take, drop, take-append_self, drop-append_self,
  length-take, length-drop, length-append, take-append-drop, ltb, le→ltb, le→leb, lt→ltb, arith,
  big, length-big, from_big-big, to_little-lt, little, length-little, little-IsBytes,
}
use python_proxy.Stream.Decoder.{again, returned, feed, run}
use python_proxy.Stream.Decoder.Laws.{run-again, run-wait}
use python_proxy.Cipher.Aead.{
  Backend, IsBackend, IsSealed, chunk_of, tag_of, joined, AeadStream, open_front, drawn, step,
  reader, decrypt, packet_limit, nonce_bytes, next_counter, seal_next, seal_packet, seal_packets,
  encrypt,
}
use python_proxy.Cipher.Aead.Nonce.{next_counter_lem, pow_two-le}
use python_proxy.Cipher.Aead.Chunks.{reader-IsStream}
use native.Mathlib.Nat.{mod-lt, one-le-pow}

-- A reader at the start of a packet.
abbrev pub waiting : ℕ → Bytes → Bytes → AeadStream
waiting counter buffer ret = record { counter = counter; buffer = buffer; declen = none; ret = ret }

module _ (b : Backend) (law : IsBackend b) where
  abbrev modulus : ℕ
  modulus = 2 ^ b.nonce_length

  nonce_fits : (c : ℕ) → c < modulus → nonce_bytes b.nonce_length c ≡ some (little b.nonce_length c)
  nonce_fits c h = to_little-lt b.nonce_length c (omega (arith, pow_two-le b.nonce_length))

  next_fits : (c : ℕ) → next_counter b.nonce_length c < modulus
  next_fits c =
      rw (next_counter_lem b.nonce_length c)
        (mod-lt (c + 1) (one-le-pow b.nonce_length 2 (omega arith)))

  abbrev chunk : ℕ → Bytes → Bytes
  chunk c text = chunk_of (b.seal (little b.nonce_length c) text)

  abbrev tag : ℕ → Bytes → Bytes
  tag c text = tag_of (b.seal (little b.nonce_length c) text)

  sealed :
      (c : ℕ) (text : Bytes)
      → length text ≤ packet_limit
      → IsSealed b (little b.nonce_length c) text
  sealed c text fits =
      law.seals (little b.nonce_length c) text (length-little b.nonce_length c)
        (little-IsBytes b.nonce_length c) fits

  seal_next_lem :
      (c : ℕ) (text : Bytes)
      → c < modulus
      → length text ≤ packet_limit
      → seal_next b c text ≡ some (chunk c text ++ tag c text, next_counter b.nonce_length c)
  unfolding seal_next
  seal_next_lem c text h fits =
      rw (nonce_fits c h) (ap (λ o. joined b o c) (sealed c text fits).succeeds)

  abbrev packet : ℕ → Bytes → Bytes
  packet c body =
      let field = big 2 (length body) in
      let d = next_counter b.nonce_length c in
      (chunk c field ++ tag c field) ++ (chunk d body ++ tag d body)

  abbrev after_packet : ℕ → ℕ
  after_packet c = next_counter b.nonce_length (next_counter b.nonce_length c)

  seal_packet_lem :
      (c : ℕ) (body : Bytes)
      → c < modulus
      → length body ≤ packet_limit
      → seal_packet b c body ≡ some (packet c body, after_packet c)
  unfolding seal_packet
  seal_packet_lem c body h fits =
      rw
        (
          seal_next_lem c (big 2 (length body)) h (omega (arith, length-big 2 (length body))),
          seal_next_lem (next_counter b.nonce_length c) body (next_fits c) fits,
        )
        refl

  -- The sealed text at the front of a buffer is opened.
  open_sealed :
      (n c : ℕ) (text rest ret : Bytes) (o : Option ℕ)
      → c < modulus
      → length text ≡ n
      → n ≤ packet_limit
      → open_front b n (record {
        counter = c;
        buffer = (chunk c text ++ tag c text) ++ rest;
        declen = o;
        ret = ret;
      })
        ≡ some text
  unfolding open_front
  open_sealed n c text rest ret o h e m =
      let s = sealed c text (omega arith) in
      rw
        (
          nonce_fits c h,
          append_assoc (chunk c text) (tag c text) rest,
          take-append_self n (chunk c text) (tag c text ++ rest) (s.text_length ∙ e),
          drop-append_self n (chunk c text) (tag c text ++ rest) (s.text_length ∙ e),
          take-append_self b.tag_length (tag c text) rest s.tags,
        )
        s.opens

  length-sealed :
      (c : ℕ) (text : Bytes)
      → length text ≤ packet_limit
      → length (chunk c text ++ tag c text) ≡ length text + b.tag_length
  length-sealed c text fits =
      let s = sealed c text fits in
      omega (arith, length-append (chunk c text) (tag c text), s.text_length, s.tags)

  drawn_fits :
      (s : AeadStream)
      → s.counter < modulus
      → drawn b s ≡ record s { counter = next_counter b.nonce_length s.counter }
  unfolding drawn
  drawn_fits s h = rw (nonce_fits s.counter h) refl

  -- A state with sealed bytes at the front of its buffer.
  abbrev holding : ℕ → Bytes → Bytes → Option ℕ → Bytes → AeadStream
  holding c text rest o ret = record {
    counter = c;
    buffer = (chunk c text ++ tag c text) ++ rest;
    declen = o;
    ret = ret;
  }

  enough :
      (n c : ℕ) (text rest : Bytes)
      → length text ≡ n
      → n ≤ packet_limit
      → ltb (length ((chunk c text ++ tag c text) ++ rest)) (n + b.tag_length) ≡ false
  enough n c text rest e m = le→ltb _ _ (
      omega (
        arith,
        length-append (chunk c text ++ tag c text) rest,
        length-sealed c text (omega arith),
      ))

  taken_off :
      (n c : ℕ) (text rest : Bytes)
      → length text ≡ n
      → n ≤ packet_limit
      → drop (n + b.tag_length) ((chunk c text ++ tag c text) ++ rest) ≡ rest
  taken_off n c text rest e m =
      drop-append_self (n + b.tag_length) (chunk c text ++ tag c text) rest
        (omega (arith, length-sealed c text (omega arith)))

  step-length :
      (c n : ℕ) (rest ret : Bytes)
      → c < modulus
      → n ≤ packet_limit
      → step b (holding c (big 2 n) rest none ret)
        ≡ again (record {
          counter = next_counter b.nonce_length c;
          buffer = rest;
          declen = some n;
          ret = ret;
        })
  unfolding step
  step-length c n rest ret h fits =
      rw
        (
          enough 2 c (big 2 n) rest (length-big 2 n) (omega arith),
          open_sealed 2 c (big 2 n) rest ret none h (length-big 2 n) (omega arith),
          from_big-big 2 n (omega arith),
          le→leb n packet_limit fits,
          drawn_fits (holding c (big 2 n) rest none ret) h,
          taken_off 2 c (big 2 n) rest (length-big 2 n) (omega arith),
        )
        refl

  step-body :
      (c n : ℕ) (text rest ret : Bytes)
      → c < modulus
      → length text ≡ n
      → n ≤ packet_limit
      → step b (holding c text rest (some n) ret)
        ≡ again (waiting (next_counter b.nonce_length c) rest (ret ++ text))
  unfolding step
  step-body c n text rest ret h e m =
      rw
        (
          enough n c text rest e m,
          open_sealed n c text rest ret (some n) h e m,
          drawn_fits (holding c text rest (some n) ret) h,
          taken_off n c text rest e m,
        )
        refl

  run-packet :
      (c : ℕ) (body rest ret : Bytes)
      → c < modulus
      → length body ≤ packet_limit
      → run (reader b) (waiting c (packet c body ++ rest) ret)
        ≡ run (reader b) (waiting (after_packet c) rest (ret ++ body))
  run-packet c body rest ret h fits =
      let field = big 2 (length body) in
      let d = next_counter b.nonce_length c in
      rw (append_assoc (chunk c field ++ tag c field) (chunk d body ++ tag d body) rest) (
        run-again (reader b) (reader-IsStream b) _ _
          (step-length c (length body) ((chunk d body ++ tag d body) ++ rest) ret h fits)
        ∙ run-again (reader b) (reader-IsStream b) _ _
            (step-body d (length body) body rest ret (next_fits c) refl fits))

  run-waiting :
      (c : ℕ) (ret : Bytes) → run (reader b) (waiting c [] ret) ≡ returned (waiting c [] ret)
  run-waiting c ret =
      run-wait (reader b) (reader-IsStream b) _ _
        (unfold step in rw (lt→ltb 0 (2 + b.tag_length) (omega arith)) refl)

  -- What sealing gives, and what reading it back gives.
  record Transfers (fuel c : ℕ) (text : Bytes) : Type 0 where
    pub wire : Bytes
    pub counter : ℕ
    pub seals : seal_packets b fuel text c ≡ some (wire, counter)
    pub reads :
        (ret : Bytes)
        → run (reader b) (waiting c wire ret) ≡ returned (waiting counter [] (ret ++ text))

  seal_packets-suc :
      (fuel c : ℕ) (text wire : Bytes) (counter : ℕ)
      → c < modulus
      → 0 < length text
      → seal_packets b fuel (drop packet_limit text) (after_packet c) ≡ some (wire, counter)
      → seal_packets b (suc fuel) text c ≡ some (packet c (take packet_limit text) ++ wire, counter)
  unfolding seal_packets
  seal_packets-suc fuel c [] wire counter h k e = absurd (omega arith)
  seal_packets-suc fuel c (x ∷ xs) wire counter h k e =
      rw
        (
          seal_packet_lem c (take packet_limit (x ∷ xs)) h
              (omega (arith, length-take packet_limit (x ∷ xs))),
          e,
        )
        refl

  transfers : (fuel c : ℕ) (text : Bytes) → c < modulus → length text ≤ fuel → Transfers fuel c text
  transfers fuel c [] h k = record {
    wire = [];
    counter = c;
    seals = unfold seal_packets in refl;
    reads = λ ret. rw (append-nil ret) (run-waiting c ret);
  }
  transfers zero c (x ∷ xs) h k = absurd (omega arith)
  transfers (suc fuel) c (x ∷ xs) h k =
      let text : Bytes = x ∷ xs in
      let body = take packet_limit text in
      let rest =
        transfers fuel (after_packet c) (drop packet_limit text)
          (next_fits (next_counter b.nonce_length c))
          (omega (arith, length-drop packet_limit text)) in
      record {
        wire = packet c body ++ rest.wire;
        counter = rest.counter;
        seals = seal_packets-suc fuel c text rest.wire rest.counter h (omega arith) rest.seals;
        reads = λ ret.
            run-packet c body rest.wire ret h (omega (arith, length-take packet_limit text))
            ∙ rest.reads (ret ++ body)
            ∙ ap (λ z. returned (waiting rest.counter [] z))
                (append_assoc ret body (drop packet_limit text)
                  ∙ ap (λ z. ret ++ z) (take-append-drop packet_limit text));
      }

  -- With a backend that keeps its laws, and at equal counters below 2 ^ NONCE_LENGTH, `encrypt`
  -- succeeds on every text, and `decrypt` of what it sends returns the text, with nothing left in the buffer and the counter of the sender.
  pub decrypt-encrypt :
      (c : ℕ) (text : Bytes)
      → c < 2 ^ b.nonce_length
      → (wire : Bytes) × (counter : ℕ) × (encrypt b c text ≡ some (wire, counter))
        × (decrypt b (waiting c [] []) wire ≡ returned (waiting counter [] text))
  unfolding encrypt decrypt feed
  decrypt-encrypt c text h =
      let t = transfers (length text) c text h (omega arith) in
      (t.wire, t.counter, t.seals, t.reads [])
