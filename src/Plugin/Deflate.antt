-- ===== src/Plugin/Deflate.antt =====
-- pproxy/plugin.py: `Verify_Deflate_Plugin`, over the two functions of zlib, where `none` is an error.
pub mod Laws
use python_proxy.Base.{
  ℕ, ◌≤◌, ◌<◌, ◌≡◌, Bool, Option, none, some, [], ◌∷◌, ◌++◌, ltb, if◌then◌else◌, length, take, drop,
  Bytes, from_big, to_big,
}
use python_proxy.Protocols.Conn.{Error, value_error}
use python_proxy.Stream.Decoder.{Round, wait, again, fail}
use python_proxy.Plugin.Frames.{Framed, framed, pieces, pack_each}

pub record Zlib : Type 0 where
  pub compress : Bytes → Bytes
  pub decompress : Bytes → Option Bytes

-- The documented round trip, the header of the default level, and that a text grows by less than
-- 32700 bytes.
pub record IsZlib (z : Zlib) : Type 0 where
  pub inverse : (s : Bytes) → z.decompress (z.compress s) ≡ some s
  pub tail : Bytes → Bytes
  pub header : (s : Bytes) → z.compress s ≡ 120 ∷ 156 ∷ tail s
  pub size : (s : Bytes) → length s ≤ 32700 → length (z.compress s) < 65536

module _ (z : Zlib) where
  abbrev pub inflated : ℕ → Option Bytes → Framed → Round Framed Error
  inflated l none s = fail value_error s
  inflated l (some text) s = again (framed (drop l s.buf) (s.ret ++ text))

  abbrev pub inflate : ℕ → Framed → Round Framed Error
  inflate l s =
      if ltb (length s.buf) l
      then wait s
      else inflated l (z.decompress (120 ∷ 156 ∷ drop 2 (take l s.buf))) s

  -- One round of `decrypt`.
  unfoldable pub deflate_step : Framed → Round Framed Error
  deflate_step s = if ltb (length s.buf) 2 then wait s else inflate (from_big (take 2 s.buf)) s

  abbrev pub deflated : Bytes → Option Bytes → Option Bytes
  deflated packed none = none
  deflated packed (some size) = some (size ++ drop 2 packed)

  -- `pack`.
  unfoldable pub deflate_pack : ℕ → Bytes → Option Bytes
  deflate_pack i s = deflated (z.compress s) (to_big 2 (length (z.compress s)))

  -- `encrypt`.
  unfoldable pub deflate_encrypt : Bytes → Option Bytes
  unfolding deflate_pack
  deflate_encrypt s = pack_each deflate_pack 0 (pieces 32700 (λ i. 32700) 0 (length s) s)
