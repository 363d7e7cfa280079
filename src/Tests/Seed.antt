-- ===== src/Tests/Seed.antt =====
-- A published vector of SEED.
use python_proxy.Base.{
  ℕ, ◌≡◌, refl, Option, none, some, List, [], ◌∷◌, replicate, Bytes, big, from_big,
}
use python_proxy.Cipherpy.Seed.{
  seed_part, seed_byte, seed_g, seed_keys, seed_key, seed_round, seed_rounds, seed_encrypt,
}

encrypted : Option (List (ℕ × ℕ)) → Bytes → Bytes
encrypted none block = []
encrypted (some e) block = seed_encrypt e block

-- RFC 4269, appendix B.1: the key of zeros.
seed_vector :
    encrypted
      (seed_key (replicate 16 0))
      (0 ∷ 1 ∷ 2 ∷ 3 ∷ 4 ∷ 5 ∷ 6 ∷ 7 ∷ 8 ∷ 9 ∷ 10 ∷ 11 ∷ 12 ∷ 13 ∷ 14 ∷ 15 ∷ [])
    ≡ 0x5e ∷ 0xba ∷ 0xc6 ∷ 0xe0 ∷ 0x05 ∷ 0x4e ∷ 0x16 ∷ 0x68 ∷ 0x19 ∷ 0xaf ∷ 0xf1 ∷ 0xcc ∷ 0x6d
      ∷ 0x34 ∷ 0x6c ∷ 0xdb ∷ []
unfolding encrypted seed_part seed_byte seed_g seed_keys seed_key seed_round seed_rounds
    seed_encrypt big from_big
seed_vector = refl
