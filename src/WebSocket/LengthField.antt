-- ===== src/WebSocket/LengthField.antt =====
-- The length field of `write_frame`, as `feed_data` reads it.
use python_proxy.Base.{
  ℕ, ◌^◌, ◌<◌, ◌≡◌, refl, Bool, true, false, Option, some, [], ◌∷◌, ◌++◌, bit_or, ◌==◌, ltb,
  Bool-cases, ltb→lt, inl, inr, ◌⊎◌, length, take, take-append_self, Bytes, arith, if◌then◌else◌,
  big, to_big-lt, length-big, from_big, from_big-big,
}
use python_proxy.WebSocket.Frame.{second_field}
use python_proxy.WebSocket.Reader.{marker, is_set, extension_size, payload_length}
use python_proxy.WebSocket.Mask.{marker_masked, marker_plain, flag_masked, flag_plain}

-- `field` is a second byte with the extension that it announces, and stands for `n`.
pub record IsLengthField (masked : Bool) (n : ℕ) (field : Option Bytes) : Type 0 where
  pub second : ℕ
  pub extended : Bytes
  pub shape : field ≡ some (second ∷ extended)
  pub flag : is_set second 0x80 ≡ masked
  pub size : length extended ≡ extension_size (marker second)
  pub value :
      (first : ℕ) (rest : Bytes)
      → payload_length (marker second) (first ∷ second ∷ extended ++ rest) ≡ n
  pub top : (marker second == 127) ≡ false ⊎ (n < 2 ^ 63)

short_field :
    (masked : Bool) (n : ℕ)
    → n < 126
    → IsLengthField masked n (some ((if masked then bit_or n 0x80 else n) ∷ []))
unfolding payload_length
short_field true n h =
    let m : marker (bit_or n 0x80) ≡ n = marker_masked n (omega arith) in
    record {
      second = bit_or n 0x80;
      extended = [];
      shape = refl;
      flag = flag_masked n (omega arith);
      size = rw m (ground arith);
      value = λ first rest. rw m (ground arith);
      top = inl (rw m (ground arith));
    }
short_field false n h =
    let m : marker n ≡ n = marker_plain n (omega arith) in
    record {
      second = n;
      extended = [];
      shape = refl;
      flag = flag_plain n (omega arith);
      size = rw m (ground arith);
      value = λ first rest. rw m (ground arith);
      top = inl (rw m (ground arith));
    }

from_big-take :
    (size n : ℕ) (rest : Bytes) → n < 256 ^ size → from_big (take size (big size n ++ rest)) ≡ n
from_big-take size n rest h =
    rw (take-append_self size (big size n) rest (length-big size n)) (from_big-big size n h)

two_byte_field :
    (masked : Bool) (n : ℕ)
    → n < 65536
    → IsLengthField masked n (some ((if masked then 0xfe else 0x7e) ∷ big 2 n))
unfolding payload_length
two_byte_field true n h = record {
  second = 0xfe;
  extended = big 2 n;
  shape = refl;
  flag = refl;
  size = length-big 2 n;
  value = λ first rest. from_big-take 2 n rest h;
  top = inl refl;
}
two_byte_field false n h = record {
  second = 0x7e;
  extended = big 2 n;
  shape = refl;
  flag = refl;
  size = length-big 2 n;
  value = λ first rest. from_big-take 2 n rest h;
  top = inl refl;
}

eight_byte_field :
    (masked : Bool) (n : ℕ)
    → n < 2 ^ 63
    → IsLengthField masked n (some ((if masked then 0xff else 0x7f) ∷ big 8 n))
unfolding payload_length
eight_byte_field true n h = record {
  second = 0xff;
  extended = big 8 n;
  shape = refl;
  flag = refl;
  size = length-big 8 n;
  value = λ first rest. from_big-take 8 n rest (omega arith);
  top = inr h;
}
eight_byte_field false n h = record {
  second = 0x7f;
  extended = big 8 n;
  shape = refl;
  flag = refl;
  size = length-big 8 n;
  value = λ first rest. from_big-take 8 n rest (omega arith);
  top = inr h;
}

-- Every length below 2 ^ 63 is written so that it is read back.
pub second_field-IsLengthField :
    (masked : Bool) (n : ℕ) → n < 2 ^ 63 → IsLengthField masked n (second_field masked n)
unfolding second_field
second_field-IsLengthField masked n h = elim (Bool-cases (ltb n 126)) [
  | inl short ↦ rw short (short_field masked n (ltb→lt _ _ short))
  | inr longer ↦ rw longer (elim (Bool-cases (ltb n 65536)) [
    | inl two ↦
        rw (two, to_big-lt 2 n (ltb→lt n 65536 two)) (two_byte_field masked n (ltb→lt n 65536 two))
    | inr more ↦ rw (more, to_big-lt 8 n (omega arith)) (eight_byte_field masked n h)
  ])
]
