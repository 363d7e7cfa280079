-- ===== src/Tests/Key.antt =====
-- Key derivation with a digest that has the right length.
use python_proxy.Base.{ℕ, Bool, List, ◌≡◌, refl, true, [], ◌∷◌, length, replicate, Bytes, arith}
use python_proxy.Cipher.Key.{base_key, after_uses}
use python_proxy.Cipher.Key.Laws.{base_key-length}

abbrev digest : Bytes → Bytes
digest x = replicate 16 (length x)

abbrev keyed_digest : Bytes → Bytes → Bytes
keyed_digest k x = replicate 20 (length x)

abbrev password : Bytes
password = b'p' ∷ b'w' ∷ []

-- Another password, and a class without a key.
abbrev other_uses : List (ℕ × Bool × Bytes)
other_uses = (32, true, b'q' ∷ []) ∷ (0, true, b'r' ∷ []) ∷ []

base_key-length_example :
    (let p = base_key digest 16 true password [] in
      (length p.0 ≡ 16)
      × ((base_key digest 32 true password (after_uses digest other_uses p.1)).0 ≡ p.0))
base_key-length_example =
    base_key-length digest (λ x. refl) 16 32 password other_uses (omega arith) (omega arith)
