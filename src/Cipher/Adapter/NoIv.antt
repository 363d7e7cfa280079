-- ===== src/Cipher/Adapter/NoIv.antt =====
-- A cipher whose IV is empty, such as RC4: the adapter takes the empty IV for a missing one.
use python_proxy.Base.{
  ◌≡◌, refl, sym, ap, ap₂, subst, some, List, [], ◌∷◌, ◌++◌, le→leb, if◌then◌else◌, length, Bytes,
  arith,
}
use python_proxy.Cipher.Adapter.{
  Side, fresh, missing, call, setup_iv, collect, adapter_decrypt, send, adapter_write, write_each,
  decrypt_each,
}

module _ {S : Type 0} (start : Bytes → S) (encrypt decrypt : Bytes → S → Bytes × S)
    (nothing : (s : S) → encrypt [] s ≡ ([], s)) where
  -- Each text by itself, from the start of the session.
  abbrev pub anew : (Bytes → S → Bytes × S) → List Bytes → Bytes
  anew method [] = []
  anew method (x ∷ xs) = (method x (start [])).0 ++ anew method xs

  record IsUnset (side : Side S) : Type 0 where
    pub no_iv : side.iv ≡ []
    pub no_buffer : side.stream_buffer ≡ []

  record Restarts (out : Bytes) (p : Bytes × Side S) : Type 0 where
    pub bytes : p.0 ≡ out
    pub unset : IsUnset p.1

  collect-Restarts :
      (chunk : Bytes) (side : Side S)
      → IsUnset side
      → Restarts (decrypt chunk (start [])).0 (collect 0 start encrypt decrypt chunk side)
  collect-Restarts chunk side u =
      subst
        (λ b. Restarts (decrypt chunk (start [])).0 (
          if b
          then call 0 start encrypt decrypt decrypt chunk (some (start []))
              (setup_iv 0 start encrypt decrypt [] side)
          else ([], record side { stream_buffer = chunk })))
        (sym (le→leb 0 (length chunk) (omega arith)))
        (record { bytes = refl; unset = record { no_iv = refl; no_buffer = u.no_buffer } })

  decrypt-Restarts :
      (chunk : Bytes) (side : Side S)
      → IsUnset side
      → Restarts (decrypt chunk (start [])).0 (adapter_decrypt 0 start encrypt decrypt chunk side)
  unfolding adapter_decrypt
  decrypt-Restarts chunk side u =
      subst
        (λ iv. Restarts (decrypt chunk (start [])).0 (
          if missing 0 start encrypt decrypt iv
          then collect 0 start encrypt decrypt (side.stream_buffer ++ chunk) side
          else call 0 start encrypt decrypt decrypt chunk side.session side))
        (sym u.no_iv)
        (subst
          (λ z.
            Restarts (decrypt chunk (start [])).0
              (collect 0 start encrypt decrypt (z ++ chunk) side))
          (sym u.no_buffer) (collect-Restarts chunk side u))

  decrypt_each-anew :
      (chunks : List Bytes) (side : Side S)
      → IsUnset side
      → (decrypt_each 0 start encrypt decrypt chunks side).0 ≡ anew decrypt chunks
  unfolding decrypt_each
  decrypt_each-anew [] side u = refl
  decrypt_each-anew (chunk ∷ chunks) side u =
      let r = decrypt-Restarts chunk side u in ap₂ ◌++◌ r.bytes (decrypt_each-anew chunks _ r.unset)

  write-Restarts :
      (m : Bytes) (side : Side S)
      → IsUnset side
      → Restarts (encrypt m (start [])).0 (adapter_write 0 start encrypt decrypt [] m side)
  unfolding adapter_write
  write-Restarts m side u =
      subst
        (λ iv. Restarts (encrypt m (start [])).0 (
          send 0 start encrypt decrypt m (
            if missing 0 start encrypt decrypt iv
            then ([], setup_iv 0 start encrypt decrypt [] side)
            else ([], side))))
        (sym u.no_iv) (sends m)
    where
      sends :
          (m : Bytes)
          → Restarts
              (encrypt m (start [])).0
              (send 0 start encrypt decrypt m ([], setup_iv 0 start encrypt decrypt [] side))
      sends [] = record {
        bytes = ap (λ (q : Bytes × S). q.0) (sym (nothing (start [])));
        unset = record { no_iv = refl; no_buffer = u.no_buffer };
      }
      sends (b ∷ bytes) = record {
        bytes = refl;
        unset = record { no_iv = refl; no_buffer = u.no_buffer };
      }

  write_each-anew :
      (messages : List Bytes) (side : Side S)
      → IsUnset side
      → (write_each 0 start encrypt decrypt [] messages side).0 ≡ anew encrypt messages
  unfolding write_each
  write_each-anew [] side u = refl
  write_each-anew (m ∷ ms) side u =
      let r = write-Restarts m side u in ap₂ ◌++◌ r.bytes (write_each-anew ms _ r.unset)

  -- With an IV of no bytes, and sessions that encrypt nothing to nothing, both sides set the session up again in every call: each text that is
  -- written is encrypted from the start of the key stream, and each chunk that arrives is decrypted
  -- from the start of it, wherever the writes began.
  pub adapter-restarts :
      (messages chunks : List Bytes)
      → ((write_each 0 start encrypt decrypt [] messages (fresh 0 start encrypt decrypt)).0
          ≡ anew encrypt messages)
        × ((decrypt_each 0 start encrypt decrypt chunks (fresh 0 start encrypt decrypt)).0
            ≡ anew decrypt chunks)
  adapter-restarts messages chunks =
      let u : IsUnset (fresh 0 start encrypt decrypt) = record { no_iv = refl; no_buffer = refl } in
      (
        write_each-anew messages (fresh 0 start encrypt decrypt) u,
        decrypt_each-anew chunks (fresh 0 start encrypt decrypt) u,
      )
