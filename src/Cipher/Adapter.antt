-- ===== src/Cipher/Adapter.antt =====
-- pproxy/cipher.py: `StreamCipherAdapter`, with no plugin (each plugin hook is `DUMMY`). The sessions
-- of the cipher class are the parameters: `start` is `setup_iv` at an IV, and `encrypt` and
-- `decrypt` give the bytes and the session behind them.
pub mod Cuts
pub mod Wire
pub mod NoIv
use python_proxy.Base.{
  ℕ, ◌≡◌, ◌≤◌, Bool, true, false, Option, none, some, List, [], ◌∷◌, ◌++◌, leb, if◌then◌else◌,
  length, take, drop, Bytes,
}

-- What a session owes: a text in two pieces is decrypted like the text in one, and decryption undoes
-- encryption and keeps step with it.
pub record IsSession {S : Type 0} (encrypt decrypt : Bytes → S → Bytes × S) : Type 0 where
  pub encrypts :
      (a b : Bytes) (s : S)
      → encrypt (a ++ b) s ≡ (let p = encrypt a s in let q = encrypt b p.1 in (p.0 ++ q.0, q.1))
  pub decrypts :
      (a b : Bytes) (s : S)
      → decrypt (a ++ b) s ≡ (let p = decrypt a s in let q = decrypt b p.1 in (p.0 ++ q.0, q.1))
  pub encrypts_nothing : (s : S) → encrypt [] s ≡ ([], s)
  pub undoes : (a : Bytes) (s : S) → decrypt (encrypt a s).0 s ≡ (a, (encrypt a s).1)

-- `reader_cipher`, or `writer_cipher`: its `iv`, where `None` and the empty IV both count as missing,
-- its `stream_buffer`, and the session, once there is one.
pub record Side (S : Type 0) : Type 0 where
  pub iv : Bytes
  pub stream_buffer : Bytes
  pub session : Option S

module _ {S : Type 0} (iv_length : ℕ) (start : Bytes → S)
    (encrypt decrypt : Bytes → S → Bytes × S) where
  abbrev pub fresh : Side S
  fresh = record { iv = []; stream_buffer = []; session = none }

  abbrev pub missing : Bytes → Bool
  missing [] = true
  missing (b ∷ iv) = false

  -- A call of the session's method.
  abbrev pub call : (Bytes → S → Bytes × S) → Bytes → Option S → Side S → Bytes × Side S
  call method bytes none side = ([], side)
  call method bytes (some s) side =
      ((method bytes s).0, record side { session = some (method bytes s).1 })

  -- `setup_iv`.
  abbrev pub setup_iv : Bytes → Side S → Side S
  setup_iv iv side = record side { iv = iv; session = some (start iv) }

  -- The branch of `decrypt` without an IV, with what has come so far.
  abbrev pub collect : Bytes → Side S → Bytes × Side S
  collect bytes side =
      if leb iv_length (length bytes)
      then call decrypt (drop iv_length bytes) (some (start (take iv_length bytes)))
          (setup_iv (take iv_length bytes) side)
      else ([], record side { stream_buffer = bytes })

  unfoldable pub adapter_decrypt : Bytes → Side S → Bytes × Side S
  adapter_decrypt bytes side =
      if missing side.iv
      then collect (side.stream_buffer ++ bytes) side
      else call decrypt bytes side.session side

  -- What a call of `write` sends: the IV apart, if it is new. `random` is `os.urandom(IV_LENGTH)`.
  abbrev pub prepared : Bytes → Side S → Bytes × Side S
  prepared random side = if missing side.iv then (random, setup_iv random side) else ([], side)

  abbrev pub behind : Bytes → Bytes × Side S → Bytes × Side S
  behind front p = (front ++ p.0, p.1)

  abbrev pub send : Bytes → Bytes × Side S → Bytes × Side S
  send [] p = p
  send (b ∷ bytes) p = behind p.0 (call encrypt (b ∷ bytes) p.1.session p.1)

  unfoldable pub adapter_write : Bytes → Bytes → Side S → Bytes × Side S
  adapter_write random bytes side = send bytes (prepared random side)

  -- Several calls, with what they give put together.
  unfoldable pub write_each : Bytes → List Bytes → Side S → Bytes × Side S
  unfolding adapter_write
  write_each random [] side = ([], side)
  write_each random (m ∷ ms) side =
      let p = adapter_write random m side in behind p.0 (write_each random ms p.1)

  unfoldable pub decrypt_each : List Bytes → Side S → Bytes × Side S
  unfolding adapter_decrypt
  decrypt_each [] side = ([], side)
  decrypt_each (chunk ∷ chunks) side =
      let p = adapter_decrypt chunk side in behind p.0 (decrypt_each chunks p.1)
