-- ===== src/Protocols/Ota/RoundTrip.antt =====
-- What the patched writer writes, the patched reader decodes; and the sizes that it can write.
use python_proxy.Base.{
  ℕ, suc, ◌+◌, ◌^◌, ◌<◌, ◌≡◌, refl, ap₂, ◌∙◌, Option, none, some, Bool, true, false, List, [], ◌∷◌,
  ◌++◌, append_assoc, append-nil, le→ltb, length, take, Bytes, to_big, big, to_big-some, to_big-lt,
  to_big-le, from_big-big, length-big, length-append, length-take, take-append_self,
  drop-append_self, Bool-cases, ltb, ltb→lt, ltb_false→le, if◌then◌else◌, inl, inr, arith,
}
use python_proxy.Cipherpy.Process.Laws.{equal_bytes_refl}
use python_proxy.Cipherpy.Process.{equal_bytes}
use python_proxy.Protocols.Conn.{Result, ok, err, overflow, protocol}
use python_proxy.Stream.Decoder.{again, fail, returned, raised, run, feed}
use python_proxy.Stream.Decoder.Laws.{run-again, run-wait, run-fail}
use python_proxy.Protocols.Ota.{
  Ota, ota_start, keyed, checksum, ota_step, ota_decoder, ota_write, ota_write_each, with_length,
  count_up, before, next_write,
}
use python_proxy.Protocols.Ota.Laws.{extend, ota_decoder-IsStream}

abbrev pub join : List Bytes → Bytes
join [] = []
join (m ∷ ms) = m ++ join ms

module _ (mac : Bytes → Bytes → Bytes) (iv : Bytes)
    (digest : (key text : Bytes) → length (mac key text) ≡ 20) where
  length-checksum : (k : ℕ) (m sum : Bytes) → checksum mac iv k m ≡ some sum → length sum ≡ 10
  unfolding checksum
  length-checksum k m sum e = go (to_big 4 k) e
    where
      go : (o : Option Bytes) → keyed mac iv m o ≡ some sum → length sum ≡ 10
      go none f = absurd (cc)
      go (some id) f =
          let same : sum ≡ take 10 (mac (iv ++ id) m) = cc in
          rw same (omega (arith, length-take 10 (mac (iv ++ id) m), digest (iv ++ id) m))

  length_round :
      (k n : ℕ) (x out : Bytes)
      → n < 65536
      → ota_step mac iv (extend (ota_start k out) (big 2 n ++ x))
        ≡ again (record { chunk_id = k; data_len = some n; buffer = x; ret = out })
  unfolding ota_step
  length_round k n x out h =
      rw
        (
          le→ltb (length (big 2 n ++ x)) 2
              (omega (arith, length-append (big 2 n) x, length-big 2 n)),
          take-append_self 2 (big 2 n) x (length-big 2 n),
          drop-append_self 2 (big 2 n) x (length-big 2 n),
          from_big-big 2 n (omega (arith, h)),
        )
        refl

  payload_round :
      (k : ℕ) (m sum x out : Bytes)
      → checksum mac iv k m ≡ some sum
      → ota_step mac iv
          (record { chunk_id = k; data_len = some (length m); buffer = sum ++ (m ++ x); ret = out })
        ≡ again (extend (ota_start (suc k) (out ++ m)) x)
  unfolding ota_step
  payload_round k m sum x out e =
      let size = length-checksum k m sum e in
      rw
        (
          le→ltb (length (sum ++ (m ++ x))) (10 + length m)
              (omega (arith, length-append sum (m ++ x), length-append m x, size)),
          drop-append_self 10 sum (m ++ x) size,
          take-append_self (length m) m x refl,
          e,
          take-append_self 10 sum (m ++ x) size,
          equal_bytes_refl sum,
        )
        (ap₂ (λ y z. again (record { chunk_id = suc k; data_len = none; buffer = y; ret = z }))
          (rw (← append_assoc sum m x) (
            drop-append_self (10 + length m) (sum ++ m) x
              (omega (arith, length-append sum m, size))))
          (rw (drop-append_self 10 sum (m ++ x) size, take-append_self (length m) m x refl) refl))

  reads_message :
      (k : ℕ) (b : ℕ) (m bytes : Bytes) (k' : ℕ) (x out : Bytes)
      → ota_write mac iv (b ∷ m) k ≡ (ok bytes, k')
      → run (ota_decoder mac iv) (extend (ota_start k out) (bytes ++ x))
        ≡ run (ota_decoder mac iv) (extend (ota_start k' (out ++ (b ∷ m))) x)
  unfolding ota_write
  reads_message k b m bytes k' x out e =
      go (checksum mac iv k (b ∷ m)) refl (to_big 2 (length (b ∷ m))) refl e
    where
      go :
          (o : Option Bytes)
          → checksum mac iv k (b ∷ m) ≡ o
          → (p : Option Bytes) → to_big 2 (length (b ∷ m)) ≡ p
          → ◌≡◌ {A = Result Bytes × ℕ} (with_length (b ∷ m) o p, count_up o k) (ok bytes, k')
          → run (ota_decoder mac iv) (extend (ota_start k out) (bytes ++ x))
            ≡ run (ota_decoder mac iv) (extend (ota_start k' (out ++ (b ∷ m))) x)
      go none f p g h = absurd (cc)
      go (some sum) f none g h = absurd (cc)
      go (some sum) f (some size) g h =
          let d = ota_decoder mac iv in
          let law = ota_decoder-IsStream mac iv in
          let n = length (b ∷ m) in
          let fits = to_big-some 2 n size g in
          let whole : bytes ≡ big 2 n ++ (sum ++ (b ∷ m)) = cc fits.1 in
          let next : k' ≡ suc k = cc in
          rw (whole, next, append_assoc (big 2 n) (sum ++ (b ∷ m)) x, append_assoc sum (b ∷ m) x)
            (run-again d law _ _
                (length_round k n (sum ++ ((b ∷ m) ++ x)) out (omega (arith, fits.0)))
              ∙ run-again d law _ _ (payload_round k (b ∷ m) sum x out f))

  read_on :
      (m : Bytes) (k : ℕ) (front : Bytes) (n : ℕ) (x out : Bytes)
      → ota_write mac iv m k ≡ (ok front, n)
      → run (ota_decoder mac iv) (extend (ota_start k out) (front ++ x))
        ≡ run (ota_decoder mac iv) (extend (ota_start n (out ++ m)) x)
  unfolding ota_write
  read_on [] k front n x out e =
      let nothing : front ≡ [] = cc in
      let same : n ≡ k = cc in rw (nothing, same, append-nil out) refl
  read_on (b ∷ m) k front n x out e = reads_message k b m front n x out e

  reads_messages :
      (ms : List Bytes) (k : ℕ) (bytes : Bytes) (k' : ℕ) (out : Bytes)
      → ota_write_each mac iv ms k ≡ (ok bytes, k')
      → run (ota_decoder mac iv) (extend (ota_start k out) bytes)
        ≡ returned (ota_start k' (out ++ join ms))
  unfolding ota_write_each
  reads_messages [] k bytes k' out e =
      let nothing : bytes ≡ [] = cc in
      let same : k' ≡ k = cc in
      rw (nothing, same, append-nil out)
        (run-wait (ota_decoder mac iv) (ota_decoder-IsStream mac iv) _ _ (unfold ota_step in refl))
  reads_messages (m ∷ ms) k bytes k' out e =
      first (ota_write mac iv m k) refl e (λ n back. reads_messages ms n back k' (out ++ m))
    where
      second :
          (front : Bytes) (n : ℕ) (p : Result Bytes × ℕ)
          → ota_write_each mac iv ms n ≡ p
          → before front p ≡ (ok bytes, k')
          → (back : Bytes) × (bytes ≡ front ++ back) × (ota_write_each mac iv ms n ≡ (ok back, k'))
      second front n (ok back, l) f g = (back, cc, cc)
      second front n (err x, l) f g = absurd (cc)

      first :
          (p : Result Bytes × ℕ)
          → ota_write mac iv m k ≡ p
          → next_write (ota_write_each mac iv ms) p ≡ (ok bytes, k')
          → ((n : ℕ) (back : Bytes)
              → ota_write_each mac iv ms n ≡ (ok back, k')
              → run (ota_decoder mac iv) (extend (ota_start n (out ++ m)) back)
                ≡ returned (ota_start k' ((out ++ m) ++ join ms)))
          → run (ota_decoder mac iv) (extend (ota_start k out) bytes)
            ≡ returned (ota_start k' (out ++ (m ++ join ms)))
      first (err x, n) f g ih = absurd (cc)
      first (ok front, n) f g ih =
          let rest = second front n (ota_write_each mac iv ms n) refl g in
          rw (rest.1, ← append_assoc out m (join ms))
            (read_on m k front n rest.0 out f ∙ ih n rest.0 rest.2)

  -- A chunk with any ten bytes where the checksum stands.
  checked_round :
      (k : ℕ) (m sum x out : Bytes)
      → k < 256 ^ 4
      → length sum ≡ 10
      → ota_step mac iv
          (record { chunk_id = k; data_len = some (length m); buffer = sum ++ (m ++ x); ret = out })
        ≡ (if equal_bytes sum (take 10 (mac (iv ++ big 4 k) m))
            then again (extend (ota_start (suc k) (out ++ m)) x)
            else fail protocol (record {
              chunk_id = k;
              data_len = some (length m);
              buffer = sum ++ (m ++ x);
              ret = out;
            }))
  unfolding ota_step checksum
  checked_round k m sum x out h size =
      rw
        (
          le→ltb (length (sum ++ (m ++ x))) (10 + length m)
              (omega (arith, length-append sum (m ++ x), length-append m x, size)),
          drop-append_self 10 sum (m ++ x) size,
          take-append_self (length m) m x refl,
          to_big-lt 4 k h,
          take-append_self 10 sum (m ++ x) size,
        )
        (ap₂
          (λ y z.
            if equal_bytes sum (take 10 (mac (iv ++ big 4 k) m))
            then again (record { chunk_id = suc k; data_len = none; buffer = y; ret = z })
            else fail protocol (record {
              chunk_id = k;
              data_len = some (length m);
              buffer = sum ++ (m ++ x);
              ret = out;
            }))
          (rw (← append_assoc sum m x) (
            drop-append_self (10 + length m) (sum ++ m) x
              (omega (arith, length-append sum m, size))))
          (rw (drop-append_self 10 sum (m ++ x) size, take-append_self (length m) m x refl) refl))

  -- The reader at one chunk, with what a refused chunk leaves.
  abbrev pub refused_chunk : ℕ → Bytes → Bytes → Ota
  refused_chunk k m buffer = record {
    chunk_id = k;
    data_len = some (length m);
    buffer = buffer;
    ret = [];
  }

  feed-checked :
      (k : ℕ) (m sum x : Bytes)
      → k < 256 ^ 4
      → length m < 65536
      → length sum ≡ 10
      → feed (ota_decoder mac iv) (ota_start k []) (big 2 (length m) ++ (sum ++ (m ++ x))) ≡ (
          if equal_bytes sum (take 10 (mac (iv ++ big 4 k) m))
          then feed (ota_decoder mac iv) (ota_start (suc k) m) x
          else raised protocol (refused_chunk k m (sum ++ (m ++ x))))
  unfolding feed
  feed-checked k m sum x h fits size =
      let d = ota_decoder mac iv in
      let law = ota_decoder-IsStream mac iv in
      let at_sum = refused_chunk k m (sum ++ (m ++ x)) in
      let round = checked_round k m sum x [] h size in
      let same = equal_bytes sum (take 10 (mac (iv ++ big 4 k) m)) in
      run-again d law _ at_sum (length_round k (length m) (sum ++ (m ++ x)) [] fits) ∙ go same round
    where
      go :
          (b : Bool)
          → ota_step mac iv (refused_chunk k m (sum ++ (m ++ x))) ≡ (
              if b
              then again (extend (ota_start (suc k) m) x)
              else fail protocol (refused_chunk k m (sum ++ (m ++ x))))
          → run (ota_decoder mac iv) (refused_chunk k m (sum ++ (m ++ x))) ≡ (
              if b
              then run (ota_decoder mac iv) (extend (ota_start (suc k) m) x)
              else raised protocol (refused_chunk k m (sum ++ (m ++ x))))
      go true e = run-again (ota_decoder mac iv) (ota_decoder-IsStream mac iv) _ _ e
      go false e = run-fail (ota_decoder mac iv) (ota_decoder-IsStream mac iv) _ _ protocol e

  -- With a digest of 20 bytes: what the patched writer sends for any sequence of messages that it
  -- accepts, the patched reader decodes to those messages in their order, and both are at the
  -- same number of a chunk behind it. And a chunk `m` below 65536 bytes and below the chunk
  -- number 2 ^ 32 with any ten bytes in front of it: the reader goes on behind it where they are
  -- the first ten of its digest at the number of the chunk, and raises ProtocolError with nothing
  -- of it given out where they are not.
  pub ota_decoder-ota_write :
      (ms : List Bytes) (k : ℕ) (bytes : Bytes) (k' : ℕ) (m sum rest : Bytes)
      → ota_write_each mac iv ms k ≡ (ok bytes, k')
      → k < 256 ^ 4
      → length m < 65536
      → length sum ≡ 10
      → (feed (ota_decoder mac iv) (ota_start k []) bytes ≡ returned (ota_start k' (join ms)))
        × (feed (ota_decoder mac iv) (ota_start k []) (big 2 (length m) ++ (sum ++ (m ++ rest))) ≡ (
            if equal_bytes sum (take 10 (mac (iv ++ big 4 k) m))
            then feed (ota_decoder mac iv) (ota_start (suc k) m) rest
            else raised protocol (refused_chunk k m (sum ++ (m ++ rest)))))
  ota_decoder-ota_write ms k bytes k' m sum rest e h fits size =
      (unfold feed in reads_messages ms k bytes k' [] e, feed-checked k m sum rest h fits size)

-- Below the chunk number 2 ^ 32 a message of at most 65535 bytes is sent as its length, its checksum
-- and itself. At 65536 bytes or more, which `channel` reads at once, the writer raises OverflowError.
-- Both count the chunk.
pub ota_write-overflow :
    (mac : Bytes → Bytes → Bytes) (iv m : Bytes) (k : ℕ)
    → k < 256 ^ 4
    → 0 < length m
    → ota_write mac iv m k ≡ (
      if ltb (length m) 65536
          then ok (big 2 (length m) ++ (take 10 (mac (iv ++ big 4 k) m) ++ m))
          else err overflow,
      suc k,
    )
unfolding ota_write checksum
ota_write-overflow mac iv [] k h pos = absurd (omega arith)
ota_write-overflow mac iv (b ∷ m) k h pos = elim (Bool-cases (ltb (length (b ∷ m)) 65536)) [
  | inl fits ↦ rw (fits, to_big-lt 4 k h, to_big-lt 2 (length (b ∷ m)) (ltb→lt _ _ fits)) refl
  | inr over ↦ rw (over, to_big-lt 4 k h, to_big-le 2 (length (b ∷ m)) (ltb_false→le _ _ over)) refl
]
