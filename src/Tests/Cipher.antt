-- ===== src/Tests/Cipher.antt =====
-- Runs of pproxy/cipher.py with a transparent cipher.
use python_proxy.Base.{
  ℕ, ◌^◌, ◌≡◌, ◌%◌, ◌↔◌, refl, arith, Option, none, some, [], ◌∷◌, ◌++◌, ◌==◌, if◌then◌else◌,
  get_or, Bytes, to_little, from_big,
}
use python_proxy.Stream.Decoder.{returned, feed, run, loop}
use python_proxy.Stream.Decoder.Laws.{EndsIn}
use python_proxy.Cipher.Aead.{
  Backend, step, open_front, drawn, next_counter, IsBackend, AeadStream, encrypt, decrypt,
}
use python_proxy.Cipher.Aead.Nonce.{nonce_of, nonce_of-eq_iff}
use python_proxy.Cipher.Aead.RoundTrip.{waiting, decrypt-encrypt}
use python_proxy.Cipher.Aead.Decrypt.{IsLimited, IsDiscarded, decrypt-append, decrypt-IsDiscarded}

-- A cipher that leaves its text as it is, with a tag of two zeros.
abbrev plain_open : Bytes → Bytes → Option Bytes
plain_open text tag = if get_or tag 0 1 == 0 then some text else none

abbrev plain : Backend
plain = record {
  nonce_length = 4;
  tag_length = 2;
  seal = λ nonce text. some (text, 0 ∷ 0 ∷ []);
  unseal = λ nonce text tag. plain_open text tag;
}

plain-IsBackend : IsBackend plain
plain-IsBackend = record {
  seals = λ nonce text e bytes fits. record {
    succeeds = refl;
    text_length = refl;
    tags = refl;
    opens = refl;
  };
}

decrypt-encrypt_example :
    (wire : Bytes) × (counter : ℕ) × (encrypt plain 15 (b'd' ∷ b'a' ∷ b't' ∷ b'a' ∷ [])
      ≡ some (wire, counter))
    × (decrypt plain (waiting 15 [] []) wire
        ≡ returned (waiting counter [] (b'd' ∷ b'a' ∷ b't' ∷ b'a' ∷ [])))
decrypt-encrypt_example =
    decrypt-encrypt plain plain-IsBackend 15 (b'd' ∷ b'a' ∷ b't' ∷ b'a' ∷ []) (omega arith)

-- One sealed byte, cut behind the length field.
abbrev half_open : AeadStream
half_open = record { counter = 1; buffer = []; declen = some 1; ret = [] }

abbrev opened_one : AeadStream
opened_one = record { counter = 2; buffer = []; declen = none; ret = 7 ∷ [] }

half_opens : decrypt plain (waiting 0 [] []) (0 ∷ 1 ∷ 0 ∷ 0 ∷ []) ≡ returned half_open
unfolding decrypt feed run loop step open_front drawn next_counter to_little from_big
half_opens = refl

other_half_opens : decrypt plain half_open (7 ∷ 0 ∷ 0 ∷ []) ≡ returned opened_one
unfolding decrypt feed run loop step open_front drawn next_counter to_little from_big
other_half_opens = refl

decrypt-append_example :
    decrypt plain (waiting 0 [] []) (0 ∷ 1 ∷ 0 ∷ 0 ∷ 7 ∷ 0 ∷ 0 ∷ [])
    ≡ returned (record opened_one { ret = [] ++ 7 ∷ [] })
decrypt-append_example =
    decrypt-append plain (waiting 0 [] []) half_open opened_one (0 ∷ 1 ∷ 0 ∷ 0 ∷ [])
      (7 ∷ 0 ∷ 0 ∷ []) half_opens other_half_opens

decrypt-IsDiscarded_example :
    EndsIn
      (IsLimited plain)
      (λ e. IsDiscarded plain)
      (decrypt plain (waiting 0 [] []) (0 ∷ 1 ∷ 1 ∷ 1 ∷ []))
decrypt-IsDiscarded_example = decrypt-IsDiscarded plain (waiting 0 [] []) (0 ∷ 1 ∷ 1 ∷ 1 ∷ []) tt

nonce_of-eq_iff_example : (nonce_of 12 5 ≡ nonce_of 12 4101) ↔ (5 % 2 ^ 12 ≡ 4101 % 2 ^ 12)
nonce_of-eq_iff_example = nonce_of-eq_iff 12 5 4101
