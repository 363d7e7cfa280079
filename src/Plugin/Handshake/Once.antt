-- ===== src/Plugin/Handshake/Once.antt =====
-- The hello of one side is read by the other, and accepted once.
use python_proxy.Base.{
  ℕ, ◌+◌, ◌^◌, ◌<◌, ◌≡◌, refl, ap, ◌∙◌, true, false, some, List, [], ◌∷◌, ◌++◌, append_assoc,
  if◌then◌else◌, length, take, get_elem?, Bytes, from_big, big, to_big-lt, from_big-big, length-big,
  length-append, length-take, arith,
}
use python_proxy.Server.Auth.{AuthTable}
use python_proxy.Cipherpy.Process.{equal_bytes}
use python_proxy.Cipherpy.Process.Laws.{equal_bytes_refl}
use python_proxy.Protocols.Conn.{User, conn, protocol, ok, err}
use python_proxy.Protocols.Conn.Laws.{read_exactly-append}
use python_proxy.Protocols.Address.{packstr}
use python_proxy.Protocols.Users.{is_among}
use python_proxy.Plugin.Handshake.{
  remember, slice, near, check_hello, suites, client_body, send_hello, read_hello,
}
use python_proxy.Plugin.Handshake.Laws.{
  remember_all, remember-Holds, among_all, layout, version_at, time_at, id_at, sum_at, length_at,
  session_at,
}

-- The checks, from the fields that they read.
check_fields :
    (mac : Bytes → Bytes → Bytes) (key session id time h : Bytes) (now later : ℕ)
    (cache : List Bytes)
    → take 2 h ≡ 1 ∷ 0 ∷ []
    → slice 4 6 h ≡ 3 ∷ 3 ∷ []
    → get_elem? h 38 ≡ some 32
    → slice 39 (39 + 32) h ≡ session
    → slice 6 28 h ≡ id
    → slice 28 38 h ≡ take 10 (mac (key ++ session) id)
    → slice 6 10 h ≡ time
    → from_big time ≡ now
    → check_hello mac key later h cache ≡ (
        if is_among id cache
        then (err protocol, cache)
        else (if near now later then ok session else err protocol, remember id cache))
unfolding check_hello equal_bytes
check_fields mac key session id time h now later cache e2 e6 e38 e71 e28 es e10 et =
    rw (e2, e6, e38, e71, e28, es, e10, et, equal_bytes_refl (take 10 (mac (key ++ session) id)))
      refl

module _ (mac : Bytes → Bytes → Bytes) (key : Bytes)
    (digest : (k text : Bytes) → length (mac k text) ≡ 20) (random session tail : Bytes) (now : ℕ)
    (size_random : length random ≡ 18) (size_session : length session ≡ 32)
    (fits : now < 256 ^ 4) where
  abbrev body : Bytes
  body = client_body mac key (big 4 now) random session tail

  abbrev pub header : Bytes
  header = 1 ∷ 0 ∷ (big 2 (length body) ++ body)

  -- What the cache keeps of a hello.
  abbrev pub cacheid : Bytes
  cacheid = big 4 now ++ random

  abbrev sum : Bytes
  sum = take 10 (mac (key ++ session) cacheid)

  size_sum : length sum ≡ 10
  size_sum =
      omega (arith, length-take 10 (mac (key ++ session) cacheid), digest (key ++ session) cacheid)

  abbrev front : Bytes
  front = 1 ∷ 0 ∷ big 2 (length body)

  size_front : length front ≡ 4
  size_front = omega (arith, length-big 2 (length body))

  abbrev fields : Bytes
  fields =
      layout front (big 4 now) random sum session (suites ++ tail) size_front (length-big 4 now)
        size_random size_sum size_session

  header_fields : header ≡ fields
  header_fields =
      ap (λ x. front ++ (3 ∷ 3 ∷ x))
        (append_assoc cacheid sum (32 ∷ (session ++ (suites ++ tail)))
          ∙ append_assoc (big 4 now) random (sum ++ (32 ∷ (session ++ (suites ++ tail)))))

  checks :
      (later : ℕ) (cache : List Bytes)
      → check_hello mac key later header cache ≡ (
          if is_among cacheid cache
          then (err protocol, cache)
          else (if near now later then ok session else err protocol, remember cacheid cache))
  checks later cache =
      let more = suites ++ tail in
      let time = big 4 now in
      let four = length-big 4 now in
      rw header_fields (
        check_fields mac key session cacheid time fields now later cache refl
          (version_at front time random sum session more size_front four size_random size_sum
            size_session)
          (length_at front time random sum session more size_front four size_random size_sum
            size_session)
          (session_at front time random sum session more size_front four size_random size_sum
            size_session)
          (id_at front time random sum session more size_front four size_random size_sum
            size_session)
          (sum_at front time random sum session more size_front four size_random size_sum
            size_session)
          (time_at front time random sum session more size_front four size_random size_sum
            size_session)
          (from_big-big 4 now fits))

  sends :
      (t : AuthTable User)
      → length body + 4 < 65536
      → send_hello mac key now random session tail (conn [] [] t)
        ≡ (ok tt, conn [] (22 ∷ 3 ∷ 1 ∷ (big 2 (length header) ++ header)) t)
  unfolding send_hello packstr
  sends t small =
      let inner = big 2 (length body) ++ body in
      let two : length inner ≡ 2 + length body =
        omega (arith, length-append (big 2 (length body)) body, length-big 2 (length body)) in
      rw
        (
          to_big-lt 4 now fits,
          to_big-lt 2 (length body) (omega (arith, small)),
          to_big-lt 2 (length header) (omega (arith, two, small)),
        )
        refl

  reads :
      (rest : Bytes) (t : AuthTable User)
      → length body + 4 < 65536
      → read_hello (conn (22 ∷ 3 ∷ 1 ∷ ((big 2 (length header) ++ header) ++ rest)) [] t)
        ≡ (ok header, conn rest [] t)
  unfolding read_hello equal_bytes
  reads rest t small =
      let n = length header in
      let two : n ≡ 4 + length body =
        omega (arith, length-append (big 2 (length body)) body, length-big 2 (length body)) in
      rw
        (
          append_assoc (big 2 n) header rest,
          read_exactly-append 3 (22 ∷ 3 ∷ 1 ∷ []) (big 2 n ++ (header ++ rest)) [] t refl,
          read_exactly-append 2 (big 2 n) (header ++ rest) [] t (length-big 2 n),
          from_big-big 2 n (omega (arith, two, small)),
        )
        (read_exactly-append n header rest [] t refl)

  -- What one side sends as its hello, the other reads as a header up to the last byte, and the checks
  -- give its session as long as the clocks differ by less than 300 seconds and the cache does not hold
  -- its identifier. Then the cache holds it, and the checks refuse the same hello at any time, while
  -- at most 99 other identifiers have been entered since.
  pub check_hello-once :
      (later again_ : ℕ) (rest : Bytes) (cache others : List Bytes) (t : AuthTable User)
      → length body + 4 < 65536
      → near now later ≡ true
      → is_among cacheid cache ≡ false
      → length others < 100
      → (hello : Bytes) × (send_hello mac key now random session tail (conn [] [] t)
          ≡ (ok tt, conn [] hello t))
        × (read_hello (conn (hello ++ rest) [] t) ≡ (ok header, conn rest [] t))
        × (check_hello mac key later header cache ≡ (ok session, remember cacheid cache))
        × (check_hello mac key again_ header (remember_all others (remember cacheid cache))
            ≡ (err protocol, remember_all others (remember cacheid cache)))
  check_hello-once later again_ rest cache others t small close fresh few = (
    22 ∷ 3 ∷ 1 ∷ (big 2 (length header) ++ header),
    sends t small,
    reads rest t small,
    checks later cache ∙ rw (fresh, close) refl,
    checks again_ (remember_all others (remember cacheid cache))
        ∙ rw
            (among_all cacheid others 0 (remember cacheid cache) (omega (arith, few))
              (remember-Holds cacheid cache))
            refl,
  )
