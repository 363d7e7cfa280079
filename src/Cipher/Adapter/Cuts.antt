-- ===== src/Cipher/Adapter/Cuts.antt =====
-- `decrypt` of the stream adapter on bytes in any chunks.
use python_proxy.Base.{
  ℕ, zero, suc, ◌<◌, ◌≤◌, ◌≡◌, refl, sym, ap, subst, ◌∙◌, ◌⊎◌, inl, inr, Bool, true, false, some,
  List, [], ◌∷◌, ◌++◌, append_assoc, append-nil, leb, if◌then◌else◌, length, length-append, take,
  drop, take-append, drop-append, Bytes, arith,
}
use python_proxy.Cipher.Adapter.{
  IsSession, Side, fresh, missing, call, setup_iv, collect, adapter_decrypt, decrypt_each,
}

module _ {S : Type 0} (iv_length : ℕ) (start : Bytes → S) (encrypt decrypt : Bytes → S → Bytes × S)
    (law : IsSession encrypt decrypt) (some_iv : 0 < iv_length) where
  abbrev pub join : List Bytes → Bytes
  join [] = []
  join (x ∷ xs) = x ++ join xs

  -- What all bytes so far decrypt to, behind the IV.
  abbrev pub opened : Bytes → Bytes × S
  opened all = decrypt (drop iv_length all) (start (take iv_length all))

  -- The reading side behind the bytes `all`, having put out `out`.
  pub record Waits (all out : Bytes) (side : Side S) : Type 0 where
    pub short : length all < iv_length
    pub no_iv : side.iv ≡ []
    pub buffered : side.stream_buffer ≡ all
    pub nothing : out ≡ []

  pub record Runs (all out : Bytes) (side : Side S) : Type 0 where
    pub long : iv_length ≤ length all
    pub has_iv : missing iv_length start encrypt decrypt side.iv ≡ false
    pub session : side.session ≡ some (opened all).1
    pub put_out : out ≡ (opened all).0

  abbrev pub Matches : Bytes → Bytes → Side S → Type 0
  Matches all out side = Waits all out side ⊎ Runs all out side

  -- An IV of some bytes is not missing.
  taken-missing :
      (all : Bytes)
      → iv_length ≤ length all
      → missing iv_length start encrypt decrypt (take iv_length all) ≡ false
  taken-missing all h = go iv_length all some_iv h
    where
      go :
          (n : ℕ) (xs : Bytes)
          → 0 < n
          → n ≤ length xs
          → missing iv_length start encrypt decrypt (take n xs) ≡ false
      go zero xs p q = absurd (omega arith)
      go (suc n) [] p q = absurd (omega arith)
      go (suc n) (x ∷ xs) p q = refl

  collect-Matches :
      (all : Bytes) (side : Side S)
      → side.iv ≡ []
      → (let p = collect iv_length start encrypt decrypt all side in Matches all p.0 p.1)
  collect-Matches all side e = go (leb iv_length (length all)) refl
    where
      go :
          (b : Bool)
          → leb iv_length (length all) ≡ b
          → (let p =
                if b
                then call iv_length start encrypt decrypt decrypt
                    (drop iv_length all)
                    (some (start (take iv_length all)))
                    (setup_iv iv_length start encrypt decrypt (take iv_length all) side)
                else ([], record side { stream_buffer = all }) in
              Matches all p.0 p.1)
      go true h =
          let long : iv_length ≤ length all = ground (arith, h) in
          inr (record {
            long = long;
            has_iv = taken-missing all long;
            session = refl;
            put_out = refl;
          })
      go false h =
          inl (record { short = ground (arith, h); no_iv = e; buffered = refl; nothing = refl })

  -- A call of `decrypt` in each of the two states.
  decrypt-collect :
      (all chunk : Bytes) (side : Side S)
      → side.iv ≡ []
      → side.stream_buffer ≡ all
      → adapter_decrypt iv_length start encrypt decrypt chunk side
        ≡ collect iv_length start encrypt decrypt (all ++ chunk) side
  unfolding adapter_decrypt
  decrypt-collect all chunk side e f =
      ap
        (λ iv.
          if missing iv_length start encrypt decrypt iv
          then collect iv_length start encrypt decrypt (side.stream_buffer ++ chunk) side
          else call iv_length start encrypt decrypt decrypt chunk side.session side)
        e
      ∙ ap (λ z. collect iv_length start encrypt decrypt (z ++ chunk) side) f

  decrypt-call :
      (chunk : Bytes) (s : S) (side : Side S)
      → missing iv_length start encrypt decrypt side.iv ≡ false
      → side.session ≡ some s
      → adapter_decrypt iv_length start encrypt decrypt chunk side
        ≡ call iv_length start encrypt decrypt decrypt chunk (some s) side
  unfolding adapter_decrypt
  decrypt-call chunk s side e f =
      ap
        (λ b.
          if b
          then collect iv_length start encrypt decrypt (side.stream_buffer ++ chunk) side
          else call iv_length start encrypt decrypt decrypt chunk side.session side)
        e
      ∙ ap (λ o. call iv_length start encrypt decrypt decrypt chunk o side) f

  opened-append :
      (all chunk : Bytes)
      → iv_length ≤ length all
      → opened (all ++ chunk)
        ≡ (let p = opened all in let q = decrypt chunk p.1 in (p.0 ++ q.0, q.1))
  opened-append all chunk long =
      ap (λ z. decrypt z (start (take iv_length (all ++ chunk))))
        (drop-append iv_length all chunk long)
      ∙ ap (λ z. decrypt (drop iv_length all ++ chunk) (start z))
          (take-append iv_length all chunk long)
      ∙ law.decrypts (drop iv_length all) chunk (start (take iv_length all))

  -- One more chunk.
  decrypt-Matches :
      (all out chunk : Bytes) (side : Side S)
      → Matches all out side
      → (let p = adapter_decrypt iv_length start encrypt decrypt chunk side in
          Matches (all ++ chunk) (out ++ p.0) p.1)
  decrypt-Matches all out chunk side (inl w) =
      subst (λ (p : Bytes × Side S). Matches (all ++ chunk) (out ++ p.0) p.1)
        (sym (decrypt-collect all chunk side w.no_iv w.buffered))
        (subst
          (λ z.
            let p = collect iv_length start encrypt decrypt (all ++ chunk) side in
            Matches (all ++ chunk) (z ++ p.0) p.1)
          (sym w.nothing) (collect-Matches (all ++ chunk) side w.no_iv))
  decrypt-Matches all out chunk side (inr r) =
      subst (λ (p : Bytes × Side S). Matches (all ++ chunk) (out ++ p.0) p.1)
        (sym (decrypt-call chunk (opened all).1 side r.has_iv r.session))
        (inr (record {
          long = omega (arith, r.long, length-append all chunk);
          has_iv = r.has_iv;
          session = ap (λ (p : Bytes × S). some p.1) (sym (opened-append all chunk r.long));
          put_out =
              ap (λ z. z ++ (decrypt chunk (opened all).1).0) r.put_out
              ∙ ap (λ (p : Bytes × S). p.0) (sym (opened-append all chunk r.long));
        }))

  pub decrypt_each-Matches :
      (chunks : List Bytes) (all out : Bytes) (side : Side S)
      → Matches all out side
      → (let p = decrypt_each iv_length start encrypt decrypt chunks side in
          Matches (all ++ join chunks) (out ++ p.0) p.1)
  unfolding decrypt_each
  decrypt_each-Matches [] all out side m = rw (append-nil all, append-nil out) m
  decrypt_each-Matches (chunk ∷ chunks) all out side m =
      let p = adapter_decrypt iv_length start encrypt decrypt chunk side in
      let rest =
        decrypt_each-Matches chunks (all ++ chunk) (out ++ p.0) p.1
          (decrypt-Matches all out chunk side m) in
      let q = decrypt_each iv_length start encrypt decrypt chunks p.1 in
      subst (λ z. Matches z (out ++ (p.0 ++ q.0)) q.1) (append_assoc all chunk (join chunks))
        (subst (λ z. Matches (all ++ chunk ++ join chunks) z q.1) (append_assoc out p.0 q.0) rest)

  -- The bytes that are put out depend on the bytes that came alone, not on how they were cut: nothing
  -- before the IV is whole, then what the session at this IV makes of the bytes behind it.
  pub Matches-opened :
      (all out : Bytes) (side : Side S)
      → iv_length ≤ length all
      → Matches all out side
      → out ≡ (opened all).0
  Matches-opened all out side h (inl w) = absurd (omega (arith, h, w.short))
  Matches-opened all out side h (inr r) = r.put_out

  pub fresh-Matches : Matches [] [] (fresh iv_length start encrypt decrypt)
  fresh-Matches = inl (record { short = some_iv; no_iv = refl; buffered = refl; nothing = refl })
