-- ===== src/Protocols/Ss.antt =====
-- pproxy/protocols/socks.py: `SS.accept` and `SS.connect`. What `patch_ota_reader` and
-- `patch_ota_writer` install stands in the result, with its first state.
pub mod RoundTrip
use python_proxy.Base.{
  ℕ, Bool, true, false, not, Option, none, some, [], ◌∷◌, ◌++◌, ◌==◌, ◌&&◌, ◌||◌, if◌then◌else◌,
  take, Bytes, bit_and,
}
use python_proxy.Cipherpy.Process.{equal_bytes}
use python_proxy.Protocols.Conn.{
  User, protocol, overflow, Action, ◌>>=◌, ◌>>◌, pure, or_raise, first, require, write,
  read_exactly,
}
use python_proxy.Protocols.Address.{Text, target, socks_address_stream}
use python_proxy.Protocols.Ota.{Ota, ota_start}

-- The cipher of one direction, as far as these two read it.
pub record OtaCipher : Type 0 where
  pub ota : Bool
  pub iv : Bytes
  pub key : Bytes

-- `header[0] & 0x10 == 0x10`.
abbrev pub wants_ota : ℕ → Bool
wants_ota n = bit_and n 16 == 16

-- `ota or not reader_cipher or not reader_cipher.ota`.
abbrev pub may_skip_ota : Option OtaCipher → Bool
may_skip_ota none = true
may_skip_ota (some cipher) = not cipher.ota

module _ (mac : Bytes → Bytes → Bytes) where
  abbrev pub header_sum : OtaCipher → Bytes → Bytes
  header_sum cipher bytes = take 10 (mac (cipher.iv ++ cipher.key) bytes)

  -- `if ota and reader_cipher`.
  abbrev pub check_header : Bool → Option OtaCipher → Bytes → Action (Option Ota)
  check_header false cipher bytes = pure none
  check_header true none bytes = pure none
  check_header true (some cipher) bytes = do
    sum ← read_exactly 10
    require (equal_bytes (header_sum cipher bytes) sum) protocol
    pure (some (ota_start 0 []))

  module _ {H : Type 0} (text : Text H) where
    -- `SS.accept`.
    unfoldable pub ss_accept : User → Option OtaCipher → Action ((User × H × ℕ) × Option Ota)
    ss_accept user reader_cipher = do
      header ← read_exactly 1
      n ← first header
      address ← socks_address_stream text n
      require (wants_ota n || may_skip_ota reader_cipher) protocol
      patched ← check_header (wants_ota n) reader_cipher (header ++ address.2)
      pure ((user, address.0, address.1), patched)

    -- The two branches of `SS.connect`, with the `chunk_id` of the patched writer.
    abbrev pub request_with_ota : OtaCipher → Bytes → Action (Option ℕ)
    request_with_ota cipher rdata = write (rdata ++ header_sum cipher rdata) >> pure (some 0)

    abbrev pub plain_request : Bytes → Action (Option ℕ)
    plain_request rdata = write rdata >> pure none

    abbrev pub send_request : Option OtaCipher → H → ℕ → Action (Option ℕ)
    send_request none host_name port =
        or_raise overflow (target text host_name port) >>= λ request. plain_request (3 ∷ request)
    send_request (some cipher) host_name port =
        or_raise overflow (target text host_name port) >>= λ request.
        if cipher.ota then request_with_ota cipher (19 ∷ request) else plain_request (3 ∷ request)

    -- `SS.connect`.
    unfoldable pub ss_connect : Bytes → H → ℕ → Option OtaCipher → Action (Option ℕ)
    ss_connect rauth host_name port writer_cipher_r =
        write rauth >> send_request writer_cipher_r host_name port
