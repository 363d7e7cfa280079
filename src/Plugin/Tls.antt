-- ===== src/Plugin/Tls.antt =====
-- pproxy/plugin.py: the records of `Tls1__2_Ticket_Auth_Plugin.add_cipher`. `drawn i` is
-- `random.randrange(4096)` for the i-th record.
pub mod Laws
use python_proxy.Base.{
  ℕ, ◌+◌, ◌<◌, Bool, Option, none, some, [], ◌∷◌, ◌++◌, ◌||◌, ltb, if◌then◌else◌, length, take,
  drop, Bytes, from_big, to_big,
}
use python_proxy.Cipherpy.Process.{equal_bytes}
use python_proxy.Protocols.Conn.{Error, protocol}
use python_proxy.Protocols.Address.{packstr}
use python_proxy.Stream.Decoder.{Round, wait, again, fail}
use python_proxy.Plugin.Frames.{Framed, framed, pieces, pack_each}

-- `self.buf[:3] in (b'\x16\x03\x03', b'\x14\x03\x03')`.
abbrev pub is_handshake : Bytes → Bool
is_handshake front = equal_bytes front (22 ∷ 3 ∷ 3 ∷ []) || equal_bytes front (20 ∷ 3 ∷ 3 ∷ [])

abbrev pub take_record : ℕ → Framed → Round Framed Error
take_record l s =
    if is_handshake (take 3 s.buf)
    then again (framed (drop (5 + l) s.buf) s.ret)
    else if equal_bytes (take 3 s.buf) (23 ∷ 3 ∷ 3 ∷ [])
    then again (framed (drop (5 + l) s.buf) (s.ret ++ take l (drop 5 s.buf)))
    else fail protocol s

-- One round of `decrypt`. It waits for as many bytes as the payload has, which leaves out the five of
-- the record's header.
unfoldable pub tls_step : Framed → Round Framed Error
tls_step s =
    if ltb (length s.buf) 5
    then wait s
    else let l = from_big (take 2 (drop 3 s.buf)) in
      if ltb (length s.buf) l then wait s else take_record l s

abbrev pub record_of : Option Bytes → Option Bytes
record_of none = none
record_of (some body) = some (23 ∷ 3 ∷ 3 ∷ body)

-- `pack`.
unfoldable pub tls_pack : ℕ → Bytes → Option Bytes
tls_pack i s = record_of (packstr 2 s)

-- `encrypt`.
unfoldable pub tls_encrypt : (ℕ → ℕ) → Bytes → Option Bytes
unfolding tls_pack
tls_encrypt drawn s = pack_each tls_pack 0 (pieces 2048 (λ i. drawn i + 100) 0 (length s) s)
