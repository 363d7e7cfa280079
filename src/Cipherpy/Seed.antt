-- ===== src/Cipherpy/Seed.antt =====
-- `SEED`: the key schedule and the encryption of a block. A difference that can be below zero has a
-- multiple of 2 ^ 32 added, since `G` reads 32 bits.
use python_proxy.Base.{
  ℕ, suc, ◌+◌, ◌-◌, ◌*◌, ◌/◌, ◌%◌, ◌^◌, ◌==◌, if◌then◌else◌, Option, none, some, List, [], ◌∷◌,
  ◌++◌, bit_and, bit_or, bit_xor, length, take, drop, get_or, Bytes, big, from_big,
}

-- `S0`, `S1` and `M`.
abbrev pub seed_s0 : List ℕ
seed_s0 =
    169 ∷ 133 ∷ 214 ∷ 211 ∷ 84 ∷ 29 ∷ 172 ∷ 37 ∷ 93 ∷ 67 ∷ 24 ∷ 30 ∷ 81 ∷ 252 ∷ 202 ∷ 99 ∷ 40 ∷ 68
    ∷ 32 ∷ 157 ∷ 224 ∷ 226 ∷ 200 ∷ 23 ∷ 165 ∷ 143 ∷ 3 ∷ 123 ∷ 187 ∷ 19 ∷ 210 ∷ 238 ∷ 112 ∷ 140 ∷ 63
    ∷ 168 ∷ 50 ∷ 221 ∷ 246 ∷ 116 ∷ 236 ∷ 149 ∷ 11 ∷ 87 ∷ 92 ∷ 91 ∷ 189 ∷ 1 ∷ 36 ∷ 28 ∷ 115 ∷ 152
    ∷ 16 ∷ 204 ∷ 242 ∷ 217 ∷ 44 ∷ 231 ∷ 114 ∷ 131 ∷ 155 ∷ 209 ∷ 134 ∷ 201 ∷ 96 ∷ 80 ∷ 163 ∷ 235 ∷ 13
    ∷ 182 ∷ 158 ∷ 79 ∷ 183 ∷ 90 ∷ 198 ∷ 120 ∷ 166 ∷ 18 ∷ 175 ∷ 213 ∷ 97 ∷ 195 ∷ 180 ∷ 65 ∷ 82 ∷ 125
    ∷ 141 ∷ 8 ∷ 31 ∷ 153 ∷ 0 ∷ 25 ∷ 4 ∷ 83 ∷ 247 ∷ 225 ∷ 253 ∷ 118 ∷ 47 ∷ 39 ∷ 176 ∷ 139 ∷ 14 ∷ 171
    ∷ 162 ∷ 110 ∷ 147 ∷ 77 ∷ 105 ∷ 124 ∷ 9 ∷ 10 ∷ 191 ∷ 239 ∷ 243 ∷ 197 ∷ 135 ∷ 20 ∷ 254 ∷ 100 ∷ 222
    ∷ 46 ∷ 75 ∷ 26 ∷ 6 ∷ 33 ∷ 107 ∷ 102 ∷ 2 ∷ 245 ∷ 146 ∷ 138 ∷ 12 ∷ 179 ∷ 126 ∷ 208 ∷ 122 ∷ 71
    ∷ 150 ∷ 229 ∷ 38 ∷ 128 ∷ 173 ∷ 223 ∷ 161 ∷ 48 ∷ 55 ∷ 174 ∷ 54 ∷ 21 ∷ 34 ∷ 56 ∷ 244 ∷ 167 ∷ 69
    ∷ 76 ∷ 129 ∷ 233 ∷ 132 ∷ 151 ∷ 53 ∷ 203 ∷ 206 ∷ 60 ∷ 113 ∷ 17 ∷ 199 ∷ 137 ∷ 117 ∷ 251 ∷ 218
    ∷ 248 ∷ 148 ∷ 89 ∷ 130 ∷ 196 ∷ 255 ∷ 73 ∷ 57 ∷ 103 ∷ 192 ∷ 207 ∷ 215 ∷ 184 ∷ 15 ∷ 142 ∷ 66 ∷ 35
    ∷ 145 ∷ 108 ∷ 219 ∷ 164 ∷ 52 ∷ 241 ∷ 72 ∷ 194 ∷ 111 ∷ 61 ∷ 45 ∷ 64 ∷ 190 ∷ 62 ∷ 188 ∷ 193 ∷ 170
    ∷ 186 ∷ 78 ∷ 85 ∷ 59 ∷ 220 ∷ 104 ∷ 127 ∷ 156 ∷ 216 ∷ 74 ∷ 86 ∷ 119 ∷ 160 ∷ 237 ∷ 70 ∷ 181 ∷ 43
    ∷ 101 ∷ 250 ∷ 227 ∷ 185 ∷ 177 ∷ 159 ∷ 94 ∷ 249 ∷ 230 ∷ 178 ∷ 49 ∷ 234 ∷ 109 ∷ 95 ∷ 228 ∷ 240
    ∷ 205 ∷ 136 ∷ 22 ∷ 58 ∷ 88 ∷ 212 ∷ 98 ∷ 41 ∷ 7 ∷ 51 ∷ 232 ∷ 27 ∷ 5 ∷ 121 ∷ 144 ∷ 106 ∷ 42 ∷ 154
    ∷ []

abbrev pub seed_s1 : List ℕ
seed_s1 =
    56 ∷ 232 ∷ 45 ∷ 166 ∷ 207 ∷ 222 ∷ 179 ∷ 184 ∷ 175 ∷ 96 ∷ 85 ∷ 199 ∷ 68 ∷ 111 ∷ 107 ∷ 91 ∷ 195
    ∷ 98 ∷ 51 ∷ 181 ∷ 41 ∷ 160 ∷ 226 ∷ 167 ∷ 211 ∷ 145 ∷ 17 ∷ 6 ∷ 28 ∷ 188 ∷ 54 ∷ 75 ∷ 239 ∷ 136
    ∷ 108 ∷ 168 ∷ 23 ∷ 196 ∷ 22 ∷ 244 ∷ 194 ∷ 69 ∷ 225 ∷ 214 ∷ 63 ∷ 61 ∷ 142 ∷ 152 ∷ 40 ∷ 78 ∷ 246
    ∷ 62 ∷ 165 ∷ 249 ∷ 13 ∷ 223 ∷ 216 ∷ 43 ∷ 102 ∷ 122 ∷ 39 ∷ 47 ∷ 241 ∷ 114 ∷ 66 ∷ 212 ∷ 65 ∷ 192
    ∷ 115 ∷ 103 ∷ 172 ∷ 139 ∷ 247 ∷ 173 ∷ 128 ∷ 31 ∷ 202 ∷ 44 ∷ 170 ∷ 52 ∷ 210 ∷ 11 ∷ 238 ∷ 233 ∷ 93
    ∷ 148 ∷ 24 ∷ 248 ∷ 87 ∷ 174 ∷ 8 ∷ 197 ∷ 19 ∷ 205 ∷ 134 ∷ 185 ∷ 255 ∷ 125 ∷ 193 ∷ 49 ∷ 245 ∷ 138
    ∷ 106 ∷ 177 ∷ 209 ∷ 32 ∷ 215 ∷ 2 ∷ 34 ∷ 4 ∷ 104 ∷ 113 ∷ 7 ∷ 219 ∷ 157 ∷ 153 ∷ 97 ∷ 190 ∷ 230
    ∷ 89 ∷ 221 ∷ 81 ∷ 144 ∷ 220 ∷ 154 ∷ 163 ∷ 171 ∷ 208 ∷ 129 ∷ 15 ∷ 71 ∷ 26 ∷ 227 ∷ 236 ∷ 141 ∷ 191
    ∷ 150 ∷ 123 ∷ 92 ∷ 162 ∷ 161 ∷ 99 ∷ 35 ∷ 77 ∷ 200 ∷ 158 ∷ 156 ∷ 58 ∷ 12 ∷ 46 ∷ 186 ∷ 110 ∷ 159
    ∷ 90 ∷ 242 ∷ 146 ∷ 243 ∷ 73 ∷ 120 ∷ 204 ∷ 21 ∷ 251 ∷ 112 ∷ 117 ∷ 127 ∷ 53 ∷ 16 ∷ 3 ∷ 100 ∷ 109
    ∷ 198 ∷ 116 ∷ 213 ∷ 180 ∷ 234 ∷ 9 ∷ 118 ∷ 25 ∷ 254 ∷ 64 ∷ 18 ∷ 224 ∷ 189 ∷ 5 ∷ 250 ∷ 1 ∷ 240
    ∷ 42 ∷ 94 ∷ 169 ∷ 86 ∷ 67 ∷ 133 ∷ 20 ∷ 137 ∷ 155 ∷ 176 ∷ 229 ∷ 72 ∷ 121 ∷ 151 ∷ 252 ∷ 30 ∷ 130
    ∷ 33 ∷ 140 ∷ 27 ∷ 95 ∷ 119 ∷ 84 ∷ 178 ∷ 29 ∷ 37 ∷ 79 ∷ 0 ∷ 70 ∷ 237 ∷ 88 ∷ 82 ∷ 235 ∷ 126 ∷ 218
    ∷ 201 ∷ 253 ∷ 48 ∷ 149 ∷ 101 ∷ 60 ∷ 182 ∷ 228 ∷ 187 ∷ 124 ∷ 14 ∷ 80 ∷ 57 ∷ 38 ∷ 50 ∷ 132 ∷ 105
    ∷ 147 ∷ 55 ∷ 231 ∷ 36 ∷ 164 ∷ 203 ∷ 83 ∷ 10 ∷ 135 ∷ 217 ∷ 76 ∷ 131 ∷ 143 ∷ 206 ∷ 59 ∷ 74 ∷ 183
    ∷ []

abbrev pub seed_masks : List ℕ
seed_masks = 0xfc ∷ 0xf3 ∷ 0xcf ∷ 0x3f ∷ []

-- `S[x>>8*n&0xff]&M[i]`.
unfoldable pub seed_part : List ℕ → ℕ → ℕ → ℕ → ℕ
seed_part s x n i = bit_and (get_or s (x / 2 ^ (8 * n) % 256) 0) (get_or seed_masks (i % 4) 0)

unfoldable pub seed_byte : ℕ → ℕ → ℕ
unfolding seed_part
seed_byte x i =
    bit_xor
      (bit_xor (bit_xor (seed_part seed_s0 x 0 i) (seed_part seed_s1 x 1 (i + 1)))
        (seed_part seed_s0 x 2 (i + 2)))
      (seed_part seed_s1 x 3 (i + 3))

-- `G`.
unfoldable pub seed_g : ℕ → ℕ
unfolding seed_byte
seed_g x = seed_byte x 0 + seed_byte x 1 * 2 ^ 8 + seed_byte x 2 * 2 ^ 16 + seed_byte x 3 * 2 ^ 24

-- The constants `kc`.
abbrev pub seed_constants : List ℕ
seed_constants =
    0x9e3779b9 ∷ 0x3c6ef373 ∷ 0x78dde6e6 ∷ 0xf1bbcdcc ∷ 0xe3779b99 ∷ 0xc6ef3733 ∷ 0x8dde6e67
    ∷ 0x1bbcdccf ∷ 0x3779b99e ∷ 0x6ef3733c ∷ 0xdde6e678 ∷ 0xbbcdccf1 ∷ 0x779b99e3 ∷ 0xef3733c6
    ∷ 0xde6e678d ∷ 0xbcdccf1b ∷ []

abbrev pub left_8 : ℕ → ℕ
left_8 key = bit_or (key * 2 ^ 8) (key / 2 ^ 56) % 2 ^ 64

abbrev pub right_8 : ℕ → ℕ
right_8 key = bit_or (key * 2 ^ 56) (key / 2 ^ 8) % 2 ^ 64

-- The `for` of `__init__`, from `i` on.
abbrev pub seed_pair : ℕ → ℕ → ℕ → ℕ × ℕ
seed_pair kc key0 key1 =
    (seed_g (key0 / 2 ^ 32 + key1 / 2 ^ 32 + 2 ^ 32 - kc), seed_g (key0 + 2 ^ 64 - key1 + kc))

unfoldable pub seed_keys : ℕ → List ℕ → ℕ → ℕ → List (ℕ × ℕ)
unfolding seed_g
seed_keys i [] key0 key1 = []
seed_keys i (kc ∷ kcs) key0 key1 =
    seed_pair kc key0 key1
    ∷ seed_keys (suc i) kcs (if bit_and i 1 == 1 then key0 else right_8 key0)
        (if bit_and i 1 == 1 then left_8 key1 else key1)

-- `struct.unpack('>QQ', key)`.
unfoldable pub seed_key : Bytes → Option (List (ℕ × ℕ))
unfolding seed_keys
seed_key key =
    if length key == 16
    then some (seed_keys 0 seed_constants (from_big (take 8 key)) (from_big (drop 8 key)))
    else none

pub record Words : Type 0 where
  pub s0 : ℕ
  pub s1 : ℕ
  pub s2 : ℕ
  pub s3 : ℕ

unfoldable pub seed_round : ℕ × ℕ → Words → Words
unfolding seed_g
seed_round (k0, k1) s =
    let t0 = seed_g (bit_xor (bit_xor (bit_xor s.s2 k0) s.s3) k1) in
    let t1 = seed_g (t0 + bit_xor s.s2 k0) in
    let t2 = seed_g (t1 + t0) in
    record { s0 = s.s2; s1 = s.s3; s2 = bit_xor s.s0 (t2 + t1); s3 = bit_xor s.s1 t2 }

unfoldable pub seed_rounds : List (ℕ × ℕ) → Words → Words
unfolding seed_round
seed_rounds [] s = s
seed_rounds (k ∷ ks) s = seed_rounds ks (seed_round k s)

-- `struct.unpack('>4I', s)` and `struct.pack`. A block has 16 bytes.
abbrev pub seed_words : Bytes → Words
seed_words s = record {
  s0 = from_big (take 4 s);
  s1 = from_big (take 4 (drop 4 s));
  s2 = from_big (take 4 (drop 8 s));
  s3 = from_big (drop 12 s);
}

abbrev pub seed_output : Words → Bytes
seed_output s = big 4 (s.s2 % 2 ^ 32) ++ (big 4 s.s3 ++ (big 4 (s.s0 % 2 ^ 32) ++ big 4 s.s1))

unfoldable pub seed_encrypt : List (ℕ × ℕ) → Bytes → Bytes
unfolding seed_rounds
seed_encrypt e s = seed_output (seed_rounds e (seed_words s))
