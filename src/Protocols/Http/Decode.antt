-- ===== src/Protocols/Http/Decode.antt =====
-- `bytes.decode()`: strict UTF-8, as Python defines it. A text is the list of its code points.
use python_proxy.Base.{
  ℕ, zero, suc, ◌+◌, ◌-◌, ◌*◌, ◌==◌, ◌&&◌, Option, none, some, [], ◌∷◌, leb, ltb, if◌then◌else◌,
  Bytes,
}

-- How many bytes of a character are still to come, the range of the next one, and the character so far.
pub record Utf8 : Type 0 where
  pub need : ℕ
  pub low : ℕ
  pub high : ℕ
  pub char : ℕ

abbrev utf8 : ℕ → ℕ → ℕ → ℕ → Utf8
utf8 need low high char = record { need = need; low = low; high = high; char = char }

abbrev pub utf8_start : Utf8
utf8_start = utf8 0 0 0 0

-- The first byte of a character. The ranges shut out what is longer than it need be, the surrogates,
-- and what is beyond U+10FFFF.
abbrev pub lead_byte : ℕ → Option Utf8
lead_byte b =
    if ltb b 128
    then some (utf8 0 0 0 b)
    else if leb 194 b && ltb b 224
    then some (utf8 1 128 192 (b - 192))
    else if leb 224 b && ltb b 240
    then some (utf8 2 (if b == 224 then 160 else 128) (if b == 237 then 160 else 192) (b - 224))
    else if leb 240 b && ltb b 245
    then some (utf8 3 (if b == 240 then 144 else 128) (if b == 244 then 144 else 192) (b - 240))
    else none

-- A byte behind it, with `need` more to come.
abbrev pub next_utf8 : ℕ → ℕ → Utf8 → Option Utf8
next_utf8 need b s =
    if leb s.low b && ltb b s.high then some (utf8 need 128 192 (s.char * 64 + (b - 128))) else none

abbrev pub utf8_at : ℕ → ℕ → Utf8 → Option Utf8
utf8_at zero b s = lead_byte b
utf8_at (suc need) b s = next_utf8 need b s

abbrev pub cons_text : ℕ → Option Bytes → Option Bytes
cons_text c none = none
cons_text c (some text) = some (c ∷ text)

-- The character is complete, or more bytes are needed.
abbrev pub put_char : (Utf8 → Option Bytes) → ℕ → Utf8 → Option Bytes
put_char rest zero s = cons_text s.char (rest utf8_start)
put_char rest (suc need) s = rest s

abbrev pub then_decode : (Utf8 → Option Bytes) → Option Utf8 → Option Bytes
then_decode rest none = none
then_decode rest (some s) = put_char rest s.need s

abbrev pub decode_end : ℕ → Option Bytes
decode_end zero = some []
decode_end (suc need) = none

unfoldable pub decode_from : Bytes → Utf8 → Option Bytes
decode_from [] s = decode_end s.need
decode_from (b ∷ bytes) s = then_decode (decode_from bytes) (utf8_at s.need b s)

unfoldable pub decode : Bytes → Option Bytes
unfolding decode_from
decode bytes = decode_from bytes utf8_start
