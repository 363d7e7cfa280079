-- ===== src/Cipherpy/Rc2.antt =====
-- `RC2`: the key schedule and the encryption of a block. A key has KEY_LENGTH bytes.
use python_proxy.Base.{
  ℕ, zero, suc, ◌+◌, ◌-◌, ◌*◌, ◌/◌, ◌%◌, ◌^◌, List, [], ◌∷◌, ◌++◌, bit_and, bit_or, bit_xor, length,
  take, drop, get_or, set, Bytes, little, from_little,
}
use python_proxy.Cipherpy.Rc4.{range_from}

-- `S`.
abbrev pub rc2_table : List ℕ
rc2_table =
    217 ∷ 120 ∷ 249 ∷ 196 ∷ 25 ∷ 221 ∷ 181 ∷ 237 ∷ 40 ∷ 233 ∷ 253 ∷ 121 ∷ 74 ∷ 160 ∷ 216 ∷ 157 ∷ 198
    ∷ 126 ∷ 55 ∷ 131 ∷ 43 ∷ 118 ∷ 83 ∷ 142 ∷ 98 ∷ 76 ∷ 100 ∷ 136 ∷ 68 ∷ 139 ∷ 251 ∷ 162 ∷ 23 ∷ 154
    ∷ 89 ∷ 245 ∷ 135 ∷ 179 ∷ 79 ∷ 19 ∷ 97 ∷ 69 ∷ 109 ∷ 141 ∷ 9 ∷ 129 ∷ 125 ∷ 50 ∷ 189 ∷ 143 ∷ 64
    ∷ 235 ∷ 134 ∷ 183 ∷ 123 ∷ 11 ∷ 240 ∷ 149 ∷ 33 ∷ 34 ∷ 92 ∷ 107 ∷ 78 ∷ 130 ∷ 84 ∷ 214 ∷ 101 ∷ 147
    ∷ 206 ∷ 96 ∷ 178 ∷ 28 ∷ 115 ∷ 86 ∷ 192 ∷ 20 ∷ 167 ∷ 140 ∷ 241 ∷ 220 ∷ 18 ∷ 117 ∷ 202 ∷ 31 ∷ 59
    ∷ 190 ∷ 228 ∷ 209 ∷ 66 ∷ 61 ∷ 212 ∷ 48 ∷ 163 ∷ 60 ∷ 182 ∷ 38 ∷ 111 ∷ 191 ∷ 14 ∷ 218 ∷ 70 ∷ 105
    ∷ 7 ∷ 87 ∷ 39 ∷ 242 ∷ 29 ∷ 155 ∷ 188 ∷ 148 ∷ 67 ∷ 3 ∷ 248 ∷ 17 ∷ 199 ∷ 246 ∷ 144 ∷ 239 ∷ 62
    ∷ 231 ∷ 6 ∷ 195 ∷ 213 ∷ 47 ∷ 200 ∷ 102 ∷ 30 ∷ 215 ∷ 8 ∷ 232 ∷ 234 ∷ 222 ∷ 128 ∷ 82 ∷ 238 ∷ 247
    ∷ 132 ∷ 170 ∷ 114 ∷ 172 ∷ 53 ∷ 77 ∷ 106 ∷ 42 ∷ 150 ∷ 26 ∷ 210 ∷ 113 ∷ 90 ∷ 21 ∷ 73 ∷ 116 ∷ 75
    ∷ 159 ∷ 208 ∷ 94 ∷ 4 ∷ 24 ∷ 164 ∷ 236 ∷ 194 ∷ 224 ∷ 65 ∷ 110 ∷ 15 ∷ 81 ∷ 203 ∷ 204 ∷ 36 ∷ 145
    ∷ 175 ∷ 80 ∷ 161 ∷ 244 ∷ 112 ∷ 57 ∷ 153 ∷ 124 ∷ 58 ∷ 133 ∷ 35 ∷ 184 ∷ 180 ∷ 122 ∷ 252 ∷ 2 ∷ 54
    ∷ 91 ∷ 37 ∷ 85 ∷ 151 ∷ 49 ∷ 45 ∷ 93 ∷ 250 ∷ 152 ∷ 227 ∷ 138 ∷ 146 ∷ 174 ∷ 5 ∷ 223 ∷ 41 ∷ 16
    ∷ 103 ∷ 108 ∷ 186 ∷ 201 ∷ 211 ∷ 0 ∷ 230 ∷ 207 ∷ 225 ∷ 158 ∷ 168 ∷ 44 ∷ 99 ∷ 22 ∷ 1 ∷ 63 ∷ 88
    ∷ 226 ∷ 137 ∷ 169 ∷ 13 ∷ 56 ∷ 52 ∷ 27 ∷ 171 ∷ 51 ∷ 255 ∷ 176 ∷ 187 ∷ 72 ∷ 12 ∷ 95 ∷ 185 ∷ 177
    ∷ 205 ∷ 46 ∷ 197 ∷ 243 ∷ 219 ∷ 71 ∷ 229 ∷ 165 ∷ 156 ∷ 119 ∷ 10 ∷ 166 ∷ 32 ∷ 104 ∷ 254 ∷ 127
    ∷ 193 ∷ 173 ∷ []

-- `self.S[i]`.
unfoldable pub rc2_byte : ℕ → ℕ
rc2_byte i = get_or rc2_table i 0

-- The three steps of the key schedule, where `n` is the length of the key.
unfoldable pub rc2_extend : ℕ → ℕ → Bytes → Bytes
unfolding rc2_byte
rc2_extend zero n e = e
rc2_extend (suc count) n e =
    rc2_extend count n
      (e ++ (rc2_byte (bit_and (get_or e (length e - 1) 0 + get_or e (length e - n) 0) 0xff) ∷ []))

unfoldable pub rc2_middle : ℕ → Bytes → Bytes
unfolding rc2_byte
rc2_middle n e = set e (length e - n) (rc2_byte (get_or e (length e - n) 0))

unfoldable pub rc2_back : ℕ → ℕ → Bytes → Bytes
unfolding rc2_byte
rc2_back zero n e = e
rc2_back (suc i) n e =
    rc2_back i n (set e i (rc2_byte (bit_xor (get_or e (i + 1) 0) (get_or e (i + n) 0))))

-- `struct.unpack('<64H', e)`, and `'<4H'`.
unfoldable pub little_words : ℕ → Bytes → List ℕ
little_words zero bytes = []
little_words (suc n) bytes = from_little (take 2 bytes) ∷ little_words n (drop 2 bytes)

unfoldable pub rc2_key : Bytes → List ℕ
unfolding rc2_extend rc2_middle rc2_back little_words
rc2_key key = little_words 64 (
    rc2_back (128 - length key) (length key)
      (rc2_middle (length key) (rc2_extend (128 - length key) (length key) key)))

-- `B`: a number mixes, and a negative one, here with 4 added, mashes.
pub data Turn : Type 0 where
  mix mash : ℕ → Turn

abbrev pub mixes : List ℕ → List Turn
mixes [] = []
mixes (j ∷ js) = mix j ∷ mixes js

abbrev pub mashes : List Turn
mashes = mash 0 ∷ mash 1 ∷ mash 2 ∷ mash 3 ∷ []

abbrev pub rc2_turns : List Turn
rc2_turns =
    mixes (range_from 0 20)
    ++ (mashes ++ (mixes (range_from 20 24) ++ (mashes ++ mixes (range_from 44 20))))

-- `~a & b`.
abbrev pub but : ℕ → ℕ → ℕ
but a b = b - bit_and a b

abbrev pub word : List ℕ → ℕ → ℕ
word s j = get_or s (j % 4) 0

abbrev pub mix_sum : List ℕ → List ℕ → ℕ → ℕ
mix_sum e s j =
    word s j
    + get_or e j 0
    + bit_and (word s (j + 3)) (word s (j + 2))
    + but (word s (j + 3)) (word s (j + 1))

abbrev pub rotate_16 : ℕ → ℕ → ℕ
rotate_16 a n = bit_or (a * 2 ^ (n + 1) % 65536) (a % 65536 / 2 ^ (15 - n))

unfoldable pub rc2_turn : List ℕ → List ℕ → Turn → List ℕ
rc2_turn e s (mix j) = set s (j % 4) (rotate_16 (mix_sum e s j) (j % 4 * 4 / 3))
rc2_turn e s (mash r) = set s r (word s r + get_or e (bit_and (word s (r + 3)) 0x3f) 0)

unfoldable pub rc2_run : List ℕ → List Turn → List ℕ → List ℕ
unfolding rc2_turn
rc2_run e [] s = s
rc2_run e (t ∷ turns) s = rc2_run e turns (rc2_turn e s t)

abbrev pub pack_words : List ℕ → Bytes
pack_words [] = []
pack_words (w ∷ ws) = little 2 w ++ pack_words ws

unfoldable pub rc2_encrypt : List ℕ → Bytes → Bytes
unfolding rc2_run little_words range_from
rc2_encrypt e s = pack_words (rc2_run e rc2_turns (little_words 4 s))
