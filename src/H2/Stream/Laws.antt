-- ===== src/H2/Stream/Laws.antt =====
-- The order of the bytes, the limit of the buffer and the window; and what a close loses.
use python_proxy.Base.{
  ℕ, zero, suc, ◌+◌, ◌-◌, ◌<◌, ◌≤◌, ◌≡◌, refl, sym, ap, ◌∙◌, Bool, true, false, Bool-cases, inl,
  inr, [], ◌∷◌, ◌++◌, append-nil, ◌==◌, ==_iff, append_assoc, ltb, ltb_false→le, le→ltb, min,
  if◌then◌else◌, length, take, drop, Bytes, length-append, length-take, length-drop,
  take-append-drop, arith,
}
use python_proxy.Protocols.Conn.{Error, ok, err}
use python_proxy.H2.Stream.{
  Stream, Point, at_wait, at_full, finished, get_stream, stream_buffer_limit, write, close,
  window_update, finish, idle, block, send_chunk, chunk_size, flush, run_flush, job_woken, job_at,
  write_job, Reaches, begin, written, refused, closes, updated, turned,
}

-- What was sent and what is still to be sent.
abbrev pub stream_bytes : Stream → Bytes
stream_bytes s = s.sent ++ s.write_buffer

-- A turn keeps the bytes, and does not lengthen the buffer.
abbrev IsKept : Stream → Stream → Type 0
IsKept s t = (stream_bytes t ≡ stream_bytes s) × (length t.write_buffer ≤ length s.write_buffer)

IsKept-trans : (s t u : Stream) → IsKept s t → IsKept t u → IsKept s u
IsKept-trans s t u h k = (k.0 ∙ h.0, omega (arith, h.1, k.1))

either-IsKept :
    (b : Bool) (s t u : Stream) → IsKept s t → IsKept s u → IsKept s (if b then t else u)
either-IsKept true s t u h k = h
either-IsKept false s t u h k = k

idle-IsKept : (s : Stream) → IsKept s (idle s)
idle-IsKept s = either-IsKept s.closed s _ _ (refl, omega arith) (refl, omega arith)

send_chunk-IsKept : (n : ℕ) (s : Stream) → IsKept s (send_chunk n s)
send_chunk-IsKept n s = (
  append_assoc s.sent (take n s.write_buffer) (drop n s.write_buffer)
      ∙ ap (λ x. s.sent ++ x) (take-append-drop n s.write_buffer),
  omega (arith, length-drop n s.write_buffer),
)

flush-IsKept : (fuel window frame : ℕ) (s : Stream) → IsKept s (flush fuel window frame s)
unfolding flush
flush-IsKept zero window frame s = (refl, omega arith)
flush-IsKept (suc fuel) window frame s =
    let n = chunk_size window frame s in
    let ih = flush-IsKept fuel (window - n) frame (send_chunk n s) in
    elim (Bool-cases (length s.write_buffer == 0)) [
      | inl e ↦ rw e (idle-IsKept s)
      | inr e ↦ rw e (elim (Bool-cases (window == 0)) [
        | inl f ↦ rw f (refl, omega arith)
        | inr f ↦ rw f (
            IsKept-trans s (send_chunk n s) (flush fuel (window - n) frame (send_chunk n s))
              (send_chunk-IsKept n s) ih)
      ])
    ]

run_flush-IsKept : (window frame : ℕ) (s : Stream) → IsKept s (run_flush window frame s)
unfolding run_flush
run_flush-IsKept window frame s = flush-IsKept (suc (length s.write_buffer)) window frame s

job_woken-IsKept : (window frame : ℕ) (s : Stream) → IsKept s (job_woken window frame s)
job_woken-IsKept window frame s =
    let n = chunk_size window frame s in
    either-IsKept s.closed s _ _
      (IsKept-trans s (send_chunk n s) (run_flush (window - n) frame (send_chunk n s))
        (send_chunk-IsKept n s) (run_flush-IsKept (window - n) frame (send_chunk n s)))
      (run_flush-IsKept window frame s)

write_job-IsKept : (window frame : ℕ) (s : Stream) → IsKept s (write_job window frame s)
unfolding write_job
write_job-IsKept window frame s = go s.point
  where
    go : (p : Point) → IsKept s (job_at p window frame s)
    go at_wait =
        either-IsKept s.write_wait s _ _
          (either-IsKept s.closed s _ _ (refl, omega arith) (run_flush-IsKept window frame s))
          (refl, omega arith)
    go at_full =
        either-IsKept s.write_full s _ _ (job_woken-IsKept window frame s) (refl, omega arith)
    go finished = (refl, omega arith)

-- What an accepted write does, and that a refused one does nothing.
write-ok :
    (bytes : Bytes) (s t : Stream)
    → write bytes s ≡ (ok tt, t)
    → (stream_bytes t ≡ stream_bytes s ++ bytes) × (length t.write_buffer ≤ stream_buffer_limit)
unfolding write
write-ok bytes s t e =
    elim (Bool-cases (ltb stream_buffer_limit (length s.write_buffer + length bytes))) [
      | inl over ↦ absurd (cc)
      | inr fits ↦
          let low = ltb_false→le _ _ fits in
          let same : t ≡ record s { write_buffer = s.write_buffer ++ bytes; write_wait = true } =
            cc in
          rw same (
            sym (append_assoc s.sent s.write_buffer bytes),
            omega (arith, length-append s.write_buffer bytes, low),
          )
    ]

write-err : (bytes : Bytes) (s t : Stream) (e : Error) → write bytes s ≡ (err e, t) → t ≡ s
unfolding write
write-err bytes s t e h =
    elim (Bool-cases (ltb stream_buffer_limit (length s.write_buffer + length bytes))) [
      | inl over ↦ cc
      | inr fits ↦ absurd (cc)
    ]

-- Whatever the order of writes, closes, window updates and turns of the job: what was sent,
-- followed by what is buffered, is what `write` has accepted, in its order, and the buffer is
-- within its limit.
pub write_job-Reaches :
    (w : Bytes) (s : Stream)
    → Reaches get_stream w s
    → (stream_bytes s ≡ w) × (length s.write_buffer ≤ stream_buffer_limit)
unfolding get_stream close window_update
write_job-Reaches w s begin = (refl, omega arith)
write_job-Reaches w s (written {w = v} {s = r} bytes t e h) =
    let ih = write_job-Reaches v r h in
    let k = write-ok bytes r s e in (k.0 ∙ ap (λ x. x ++ bytes) ih.0, k.1)
write_job-Reaches w s (refused {s = r} bytes x t e h) =
    let ih = write_job-Reaches w r h in rw (write-err bytes r s x e) ih
write_job-Reaches w s (closes {s = r} h) = write_job-Reaches w r h
write_job-Reaches w s (updated {s = r} h) = write_job-Reaches w r h
write_job-Reaches w s (turned {s = r} window frame h) =
    let ih = write_job-Reaches w r h in
    let k = write_job-IsKept window frame r in (k.0 ∙ ih.0, omega (arith, k.1, ih.1))

idle-sent : (s : Stream) → (idle s).sent ≡ s.sent
idle-sent s = go s.closed
  where
    go :
        (b : Bool)
        → (if b then finish s else record s { write_wait = false; point = at_wait }).sent ≡ s.sent
    go true = refl
    go false = refl

positive : (n : ℕ) → (n == 0) ≡ false → 0 < n
positive zero h = absurd (cc)
positive (suc n) h = omega arith

-- A run of the inner loop, with as much fuel as `write_job` gives it, sends all that the window
-- allows: the whole buffer, or as many bytes as the window has.
flush-length :
    (fuel window frame : ℕ) (s : Stream)
    → 0 < frame
    → length s.write_buffer < fuel
    → length (flush fuel window frame s).sent ≡ length s.sent + min window (length s.write_buffer)
unfolding flush
flush-length zero window frame s pos enough = absurd (omega (arith, enough))
flush-length (suc fuel) window frame s pos enough =
    go (length s.write_buffer == 0) refl (window == 0) refl
      (flush-length fuel (window - n) frame (send_chunk n s) pos)
  where
    n : ℕ
    n = chunk_size window frame s

    Goal : Stream → Type 0
    Goal t = length t.sent ≡ length s.sent + min window (length s.write_buffer)

    go :
        (a : Bool)
        → (length s.write_buffer == 0) ≡ a
        → (b : Bool) → (window == 0) ≡ b
        → (length (send_chunk n s).write_buffer < fuel
            → length (flush fuel (window - n) frame (send_chunk n s)).sent
              ≡ length (send_chunk n s).sent
                + min (window - n) (length (send_chunk n s).write_buffer))
        → Goal (
            if a
            then idle s
            else if b
            then block s
            else flush fuel (window - n) frame (send_chunk n s))
    go true e b f ih =
        let nothing : length s.write_buffer ≡ 0 = (==_iff (length s.write_buffer) 0).0 e in
        ap length (idle-sent s) ∙ omega (arith, nothing)
    go false e true f ih = let shut : window ≡ 0 = (==_iff window 0).0 f in omega (arith, shut)
    go false e false f ih =
        let some_ = positive (length s.write_buffer) e in
        let open_ = positive window f in
        let left = length-drop n s.write_buffer in
        let step = ih (omega (arith, left, some_, open_, pos, enough)) in
        omega (
          arith,
          step,
          left,
          length-append s.sent (take n s.write_buffer),
          length-take n s.write_buffer,
          some_,
          open_,
          pos,
        )

abbrev pending : Bytes → Stream → Stream
pending bytes s = record s { write_buffer = s.write_buffer ++ bytes; write_wait = true }

accepts :
    (bytes : Bytes) (s : Stream)
    → length s.write_buffer + length bytes ≤ stream_buffer_limit
    → write bytes s ≡ (ok tt, pending bytes s)
unfolding write
accepts bytes s fits =
    rw (le→ltb stream_buffer_limit (length s.write_buffer + length bytes) fits) refl

turn_open :
    (bytes : Bytes) (s : Stream) (window frame : ℕ)
    → s.point ≡ at_wait
    → s.closed ≡ false
    → write_job window frame (pending bytes s) ≡ run_flush window frame (pending bytes s)
unfolding write_job
turn_open bytes s window frame waits opened =
    let t = pending bytes s in
    ap (λ p. job_at p window frame t) waits
    ∙ ap (λ b. if b then finish t else run_flush window frame t) opened

turn_closed :
    (bytes : Bytes) (s : Stream) (window frame : ℕ)
    → s.point ≡ at_wait
    → write_job window frame (close (pending bytes s)) ≡ finish (close (pending bytes s))
unfolding write_job close
turn_closed bytes s window frame waits =
    ap (λ p. job_at p window frame (close (pending bytes s))) waits

length_zero : (x : Bytes) → length x ≡ 0 → x ≡ []
length_zero [] e = refl
length_zero (b ∷ x) e = absurd (omega (arith, e))

run_flush-length :
    (window frame : ℕ) (s : Stream)
    → 0 < frame
    → length (run_flush window frame s).sent ≡ length s.sent + min window (length s.write_buffer)
unfolding run_flush
run_flush-length window frame s pos =
    flush-length (suc (length s.write_buffer)) window frame s pos (omega arith)

-- A run that sends as many bytes as there are has sent those bytes.
run_flush-all :
    (window frame : ℕ) (s : Stream)
    → 0 < frame
    → length s.write_buffer ≤ window
    → (run_flush window frame s).sent ≡ stream_bytes s
run_flush-all window frame s pos wide =
    let t = run_flush window frame s in
    let kept : stream_bytes t ≡ stream_bytes s = (run_flush-IsKept window frame s).0 in
    let size = run_flush-length window frame s pos in
    let nothing : length t.write_buffer ≡ 0 = omega (
      arith,
      size,
      wide,
      ap length kept,
      length-append t.sent t.write_buffer,
      length-append s.sent s.write_buffer,
    ) in
    sym (append-nil t.sent)
    ∙ ap (λ x. t.sent ++ x) (sym (length_zero t.write_buffer nothing))
    ∙ kept

-- A stream whose job waits with nothing to send takes a write that fits into its buffer. When the
-- job has a turn before the close, with a positive frame size and a window as large as the text,
-- the text is sent, behind what was sent before; when the stream is closed before the job has a
-- turn, END_STREAM is sent and none of it.
pub write_job-drops :
    (bytes : Bytes) (s : Stream) (window frame : ℕ)
    → s.point ≡ at_wait
    → s.closed ≡ false
    → s.write_buffer ≡ []
    → length bytes ≤ window
    → length bytes ≤ stream_buffer_limit
    → 0 < frame
    → ((write bytes s).0 ≡ ok tt)
      × ((write_job window frame (write bytes s).1).sent ≡ s.sent ++ bytes)
      × ((write_job window frame (close (write bytes s).1)).sent ≡ s.sent)
      × ((write_job window frame (close (write bytes s).1)).ended ≡ true)
unfolding close
write_job-drops bytes s window frame waits opened nothing wide fits pos =
    let empty : length s.write_buffer ≡ 0 = ap length nothing in
    let ok_ = accepts bytes s (omega (arith, empty, fits)) in
    let size = length-append s.write_buffer bytes in
    (
      ap (λ r. r.0) ok_,
      ap (λ r. (write_job window frame r.1).sent) ok_
          ∙ ap (λ t. t.sent) (turn_open bytes s window frame waits opened)
          ∙ run_flush-all window frame (pending bytes s) pos (omega (arith, size, empty, wide))
          ∙ ap (λ x. s.sent ++ (x ++ bytes)) nothing,
      ap (λ r. (write_job window frame (close r.1)).sent) ok_
          ∙ ap (λ t. t.sent) (turn_closed bytes s window frame waits),
      ap (λ r. (write_job window frame (close r.1)).ended) ok_
          ∙ ap (λ t. t.ended) (turn_closed bytes s window frame waits),
    )
