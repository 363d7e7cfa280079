-- ===== src/Protocols/Http/Netloc.antt =====
-- pproxy/config.py: `netloc_split`, with no default host. `none` is the ValueError of `int`; the host is
-- empty where the code gives None.
use python_proxy.Base.{
  ℕ, Bool, true, Option, none, some, [], ◌∷◌, ◌&&◌, ◌||◌, ◌==◌, leb, if◌then◌else◌, reverse, Bytes,
}

abbrev pub between : ℕ → ℕ → ℕ → Bool
between low high b = leb low b && leb b high

abbrev pub is_digit : ℕ → Bool
is_digit b = between 48 57 b

abbrev pub is_hex_or_colon : ℕ → Bool
is_hex_or_colon b = is_digit b || (between 65 70 b || (between 97 102 b || b == 58))

unfoldable pub all_bytes : (ℕ → Bool) → Bytes → Bool
all_bytes test [] = true
all_bytes test (b ∷ bytes) = test b && all_bytes test bytes

-- At the first place of a byte.
abbrev pub cut_cons : ℕ → Option (Bytes × Bytes) → Option (Bytes × Bytes)
cut_cons b none = none
cut_cons b (some (front, rest)) = some (b ∷ front, rest)

unfoldable pub cut : ℕ → Bytes → Option (Bytes × Bytes)
cut mark [] = none
cut mark (b ∷ bytes) =
    let rest = cut mark bytes in if b == mark then some ([], bytes) else cut_cons b rest

-- What follows the bracket: nothing, or a colon and digits, if any.
abbrev pub bracket_port : Bytes → Option Bytes
bracket_port [] = some []
bracket_port (b ∷ digits) = if b == 58 && all_bytes is_digit digits then some digits else none

abbrev pub with_port : Bytes → Option Bytes → Option (Bytes × Bytes)
with_port host none = none
with_port host (some port) = some (host, port)

abbrev pub bracketed : Option (Bytes × Bytes) → Option (Bytes × Bytes)
bracketed none = none
bracketed (some (host, rest)) =
    if all_bytes is_hex_or_colon host then with_port host (bracket_port rest) else none

-- The pattern `\[([0-9a-fA-F:]*)\](?::(\d+)?)?`.
abbrev pub match_ipv6 : Bytes → Option (Bytes × Bytes)
match_ipv6 [] = none
match_ipv6 (b ∷ loc) = if b == 91 then bracketed (cut 93 loc) else none

-- `loc.rsplit(':', 1)`, or the host alone.
abbrev pub last_colon : Bytes → Option (Bytes × Bytes) → Bytes × Bytes
last_colon loc none = (loc, [])
last_colon loc (some (port, host)) = (reverse host, reverse port)

abbrev pub host_and_port : Bytes → Option (Bytes × Bytes) → Bytes × Bytes
host_and_port loc (some parts) = parts
host_and_port loc none = last_colon loc (cut 58 (reverse loc))

module _ {P : Type 0} (int_of : Bytes → Option P) where
  abbrev pub number : Bytes → Option P → Bytes → Option (Bytes × Option P)
  number host default_port [] = some (host, default_port)
  number host default_port (b ∷ port) = elim (int_of (b ∷ port)) [
    | none ↦ none
    | some n ↦ some (host, some n)
  ]

  unfoldable pub netloc_split : Option P → Bytes → Option (Bytes × Option P)
  unfolding cut all_bytes
  netloc_split default_port loc =
      let parts = host_and_port loc (match_ipv6 loc) in number parts.0 default_port parts.1
