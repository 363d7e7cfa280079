-- ===== src/Cipherpy/Aes.antt =====
-- The class `AES`: the key schedule and the encryption of a block.
pub mod Schedule
pub mod Block
use python_proxy.Base.{
  ℕ, zero, suc, ◌+◌, ◌-◌, ◌*◌, ◌/◌, ◌%◌, Option, none, some, List, [], ◌∷◌, ◌++◌, map, bit_and,
  bit_or, bit_xor, ◌==◌, not, ◌&&◌, ltb, if◌then◌else◌, length, take, drop, get_or, to_big, Bytes,
}

-- The substitution box, and `Rcon`, as `base64.b64decode` gives them.
unfoldable pub g1 : Bytes
g1 =
    99 ∷ 124 ∷ 119 ∷ 123 ∷ 242 ∷ 107 ∷ 111 ∷ 197 ∷ 48 ∷ 1 ∷ 103 ∷ 43 ∷ 254 ∷ 215 ∷ 171 ∷ 118 ∷ 202
    ∷ 130 ∷ 201 ∷ 125 ∷ 250 ∷ 89 ∷ 71 ∷ 240 ∷ 173 ∷ 212 ∷ 162 ∷ 175 ∷ 156 ∷ 164 ∷ 114 ∷ 192 ∷ 183
    ∷ 253 ∷ 147 ∷ 38 ∷ 54 ∷ 63 ∷ 247 ∷ 204 ∷ 52 ∷ 165 ∷ 229 ∷ 241 ∷ 113 ∷ 216 ∷ 49 ∷ 21 ∷ 4 ∷ 199
    ∷ 35 ∷ 195 ∷ 24 ∷ 150 ∷ 5 ∷ 154 ∷ 7 ∷ 18 ∷ 128 ∷ 226 ∷ 235 ∷ 39 ∷ 178 ∷ 117 ∷ 9 ∷ 131 ∷ 44 ∷ 26
    ∷ 27 ∷ 110 ∷ 90 ∷ 160 ∷ 82 ∷ 59 ∷ 214 ∷ 179 ∷ 41 ∷ 227 ∷ 47 ∷ 132 ∷ 83 ∷ 209 ∷ 0 ∷ 237 ∷ 32
    ∷ 252 ∷ 177 ∷ 91 ∷ 106 ∷ 203 ∷ 190 ∷ 57 ∷ 74 ∷ 76 ∷ 88 ∷ 207 ∷ 208 ∷ 239 ∷ 170 ∷ 251 ∷ 67 ∷ 77
    ∷ 51 ∷ 133 ∷ 69 ∷ 249 ∷ 2 ∷ 127 ∷ 80 ∷ 60 ∷ 159 ∷ 168 ∷ 81 ∷ 163 ∷ 64 ∷ 143 ∷ 146 ∷ 157 ∷ 56
    ∷ 245 ∷ 188 ∷ 182 ∷ 218 ∷ 33 ∷ 16 ∷ 255 ∷ 243 ∷ 210 ∷ 205 ∷ 12 ∷ 19 ∷ 236 ∷ 95 ∷ 151 ∷ 68 ∷ 23
    ∷ 196 ∷ 167 ∷ 126 ∷ 61 ∷ 100 ∷ 93 ∷ 25 ∷ 115 ∷ 96 ∷ 129 ∷ 79 ∷ 220 ∷ 34 ∷ 42 ∷ 144 ∷ 136 ∷ 70
    ∷ 238 ∷ 184 ∷ 20 ∷ 222 ∷ 94 ∷ 11 ∷ 219 ∷ 224 ∷ 50 ∷ 58 ∷ 10 ∷ 73 ∷ 6 ∷ 36 ∷ 92 ∷ 194 ∷ 211 ∷ 172
    ∷ 98 ∷ 145 ∷ 149 ∷ 228 ∷ 121 ∷ 231 ∷ 200 ∷ 55 ∷ 109 ∷ 141 ∷ 213 ∷ 78 ∷ 169 ∷ 108 ∷ 86 ∷ 244
    ∷ 234 ∷ 101 ∷ 122 ∷ 174 ∷ 8 ∷ 186 ∷ 120 ∷ 37 ∷ 46 ∷ 28 ∷ 166 ∷ 180 ∷ 198 ∷ 232 ∷ 221 ∷ 116 ∷ 31
    ∷ 75 ∷ 189 ∷ 139 ∷ 138 ∷ 112 ∷ 62 ∷ 181 ∷ 102 ∷ 72 ∷ 3 ∷ 246 ∷ 14 ∷ 97 ∷ 53 ∷ 87 ∷ 185 ∷ 134
    ∷ 193 ∷ 29 ∷ 158 ∷ 225 ∷ 248 ∷ 152 ∷ 17 ∷ 105 ∷ 217 ∷ 142 ∷ 148 ∷ 155 ∷ 30 ∷ 135 ∷ 233 ∷ 206
    ∷ 85 ∷ 40 ∷ 223 ∷ 140 ∷ 161 ∷ 137 ∷ 13 ∷ 191 ∷ 230 ∷ 66 ∷ 104 ∷ 65 ∷ 153 ∷ 45 ∷ 15 ∷ 176 ∷ 84
    ∷ 187 ∷ 22 ∷ []

unfoldable pub rcon : Bytes
rcon =
    141 ∷ 1 ∷ 2 ∷ 4 ∷ 8 ∷ 16 ∷ 32 ∷ 64 ∷ 128 ∷ 27 ∷ 54 ∷ 108 ∷ 216 ∷ 171 ∷ 77 ∷ 154 ∷ 47 ∷ 94 ∷ 188
    ∷ 99 ∷ 198 ∷ 151 ∷ 53 ∷ 106 ∷ 212 ∷ 179 ∷ 125 ∷ 250 ∷ 239 ∷ 197 ∷ 145 ∷ 57 ∷ 114 ∷ 228 ∷ 211
    ∷ 189 ∷ 97 ∷ 194 ∷ 159 ∷ 37 ∷ 74 ∷ 148 ∷ 51 ∷ 102 ∷ 204 ∷ 131 ∷ 29 ∷ 58 ∷ 116 ∷ 232 ∷ 203 ∷ []

-- `a<<1&0xff^0x1b if a&0x80 else a<<1`.
abbrev pub doubled : ℕ → ℕ
doubled a = if bit_and a 0x80 == 0 then a * 2 else bit_xor (bit_and (a * 2) 0xff) 0x1b

unfoldable pub g2 : Bytes
unfolding g1
g2 = map doubled g1

unfoldable pub g3 : Bytes
unfolding g1
g3 = map (λ a. bit_xor a (doubled a)) g1

abbrev pub positions : List ℕ
positions = 0 ∷ 1 ∷ 2 ∷ 3 ∷ 4 ∷ 5 ∷ 6 ∷ 7 ∷ 8 ∷ 9 ∷ 10 ∷ 11 ∷ 12 ∷ 13 ∷ 14 ∷ 15 ∷ []

-- The entries of `shifts` for `j`: with `k` of 0, 3, 2 and 1.
unfoldable pub shift : ℕ → ℕ → ℕ
shift j k = bit_or (bit_and (j + k) 3) (bit_and ((j / 4 + bit_and (j + k) 3) * 4) 12)

-- `{16:10, 24:12, 32:14}[size]`; `none` is the KeyError.
unfoldable pub rounds_of : ℕ → Option ℕ
rounds_of size =
    if size == 16
    then some 10
    else if size == 24
    then some 12
    else if size == 32
    then some 14
    else none

-- `[self.g1[i] for i in t]`.
abbrev pub substituted : Bytes → Bytes
substituted t = map (λ i. get_or g1 i 0) t

-- `t[0] ^= r`.
abbrev pub xor_first : ℕ → Bytes → Bytes
xor_first r [] = []
xor_first r (b ∷ t) = bit_xor b r ∷ t

abbrev pub rotated : ℕ → ℕ → Bytes → Bytes
rotated size n t =
    if n % size == 0
    then xor_first (get_or rcon (n / size % 51) 0) (substituted (drop 1 t ++ take 1 t))
    else t

-- `t` of a round of the `while`, for a key schedule of `n` bytes.
unfoldable pub schedule_word : ℕ → ℕ → Bytes → Bytes
schedule_word size n t =
    let t' = rotated size n t in if size == 32 && n % size == 16 then substituted t' else t'

-- `m^ekey[i-size] for i, m in enumerate(t)`, where the negative index counts from the end.
unfoldable pub xor_back : Bytes → ℕ → Bytes → Bytes
xor_back ekey i [] = []
xor_back ekey i (m ∷ t) = bit_xor m (get_or ekey i 0) ∷ xor_back ekey (i + 1) t

unfoldable pub extend_key : ℕ → Bytes → Bytes
extend_key size ekey =
    let n = length ekey in
    ekey ++ xor_back ekey (n - size) (schedule_word size n (drop (n - 4) ekey))

-- The `while` of `__init__`, with fuel.
unfoldable pub expand_key : ℕ → ℕ → ℕ → Bytes → Bytes
expand_key size limit zero ekey = ekey
expand_key size limit (suc fuel) ekey =
    let longer = expand_key size limit fuel (extend_key size ekey) in
    if ltb (length ekey) limit then longer else ekey

-- `tuple(ekey[i*16:i*16+16] for i in range(nbr+1))`.
unfoldable pub round_keys : ℕ → Bytes → List Bytes
round_keys zero ekey = []
round_keys (suc n) ekey = take 16 ekey ∷ round_keys n (drop 16 ekey)

abbrev pub keys_of : Bytes → Option ℕ → Option (List Bytes)
keys_of key none = none
keys_of key (some nbr) =
    some (round_keys (nbr + 1) (expand_key (length key) (16 * (nbr + 1)) (16 * (nbr + 1)) key))

-- `__init__`: the attribute `ekey`.
unfoldable pub aes_new : Bytes → Option (List Bytes)
aes_new key = keys_of key (rounds_of (length key))

-- One round, and the last one.
unfoldable pub aes_round : Bytes → Bytes → Bytes
aes_round key s =
    map
      (λ j.
        bit_xor
          (bit_xor
            (bit_xor
              (bit_xor (get_or g2 (get_or s (shift j 0) 0) 0)
                (get_or g1 (get_or s (shift j 3) 0) 0))
              (get_or g1 (get_or s (shift j 2) 0) 0))
            (get_or g3 (get_or s (shift j 1) 0) 0))
          (get_or key j 0))
      positions

unfoldable pub last_round : Bytes → Bytes → Bytes
last_round key s =
    map (λ j. bit_xor (get_or g1 (get_or s (shift j 0) 0) 0) (get_or key j 0)) positions

-- The rounds with all keys but the last, then the last round.
unfoldable pub aes_rounds : List Bytes → Bytes → Bytes
aes_rounds [] s = s
aes_rounds (key ∷ []) s = last_round key s
aes_rounds (key ∷ next ∷ keys) s = aes_rounds (next ∷ keys) (aes_round key s)

unfoldable pub aes_block : List Bytes → Bytes → Bytes
aes_block [] block = block
aes_block (key ∷ keys) block =
    aes_rounds keys (map (λ j. bit_xor (get_or block j 0) (get_or key j 0)) positions)

abbrev pub block_of : List Bytes → Option Bytes → Option Bytes
block_of ekey none = none
block_of ekey (some block) = some (aes_block ekey block)

-- `encrypt` of a number.
unfoldable pub aes_encrypt : List Bytes → ℕ → Option Bytes
aes_encrypt ekey n = block_of ekey (to_big 16 n)
