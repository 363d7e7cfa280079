-- ===== src/Tests/Plugin.antt =====
-- The plugins at concrete bytes.
use python_proxy.Base.{◌≡◌, refl, some, [], ◌∷◌, ◌++◌, replicate, Bytes, big, arith}
use python_proxy.Server.Auth.{AuthTable, auth_table}
use python_proxy.Stream.Decoder.{returned, exhausted, loop, feed}
use python_proxy.Protocols.Conn.{User, conn, ok, err, protocol}
use python_proxy.Protocols.Users.{is_among}
use python_proxy.Plugin.Frames.{framed, decoder}
use python_proxy.Plugin.Simple.{crc32, crc_register, inverted, simple_step, simple_encrypt}
use python_proxy.Plugin.Simple.Laws.{simple_step-exhausted, simple_step-simple_encrypt}
use python_proxy.Plugin.Tls.{tls_step, tls_encrypt}
use python_proxy.Plugin.Tls.Laws.{tls_step-tls_encrypt, tls_step-truncates}
use python_proxy.Plugin.Handshake.{remember, send_hello, read_hello, check_hello}
use python_proxy.Plugin.Handshake.Once.{check_hello-once, header}

-- The check value of CRC-32.
crc32_check :
    crc32 (b'1' ∷ b'2' ∷ b'3' ∷ b'4' ∷ b'5' ∷ b'6' ∷ b'7' ∷ b'8' ∷ b'9' ∷ []) ≡ 0xcbf4_3926
unfolding crc32 crc_register
crc32_check = refl

-- Behind a length field of 0 and a byte 0, bytes that take the register to 0, and any four bytes.
abbrev endless : Bytes
endless = 237 ∷ 38 ∷ 190 ∷ 1 ∷ 2 ∷ 3 ∷ 4 ∷ []

simple_step-exhausted_example :
    loop (decoder simple_step) 1000 (framed (0 ∷ 0 ∷ 0 ∷ endless) []) ≡ exhausted
unfolding inverted crc32 crc_register
simple_step-exhausted_example = simple_step-exhausted 1000 0 endless [] refl

abbrev three : Bytes
three = 1 ∷ 2 ∷ 3 ∷ []

simple_step-simple_encrypt_example :
    (packets : Bytes) × (simple_encrypt (λ i. 9 ∷ []) three ≡ some packets)
    × (feed (decoder simple_step) (framed [] []) packets ≡ returned (framed [] three))
simple_step-simple_encrypt_example =
    simple_step-simple_encrypt (λ i. 9 ∷ []) three (λ i. omega arith)

tls_step-tls_encrypt_example :
    (records : Bytes) × (tls_encrypt (λ i. 50) three ≡ some records)
    × (feed (decoder tls_step) (framed [] []) records ≡ returned (framed [] three))
tls_step-tls_encrypt_example = tls_step-tls_encrypt (λ i. 50) three (λ i. omega arith)

tls_step-truncates_example :
    feed (decoder tls_step) (framed [] []) (23 ∷ 3 ∷ 3 ∷ (big 2 3 ++ (1 ∷ [])))
    ≡ returned (framed [] (1 ∷ []))
tls_step-truncates_example = tls_step-truncates three 1 (omega arith) (omega arith) (omega arith)

abbrev constant_mac : Bytes → Bytes → Bytes
constant_mac key text = replicate 20 7

abbrev table : AuthTable User
table = auth_table 3 100

abbrev random : Bytes
random = replicate 18 5

abbrev session : Bytes
session = replicate 32 6

abbrev hello_header : Bytes
hello_header =
    header constant_mac three (λ k t. refl) random session [] 1000 refl refl (omega arith)

check_hello-once_example :
    (hello : Bytes) × (send_hello constant_mac three 1000 random session [] (conn [] [] table)
      ≡ (ok tt, conn [] hello table))
    × (read_hello (conn (hello ++ three) [] table) ≡ (ok hello_header, conn three [] table))
    × (check_hello constant_mac three 1100 hello_header []
        ≡ (ok session, remember (big 4 1000 ++ random) []))
    × (check_hello constant_mac three 2000 hello_header (remember (big 4 1000 ++ random) [])
        ≡ (err protocol, remember (big 4 1000 ++ random) []))
unfolding is_among big
check_hello-once_example =
    check_hello-once constant_mac three (λ k t. refl) random session [] 1000 refl refl (omega arith)
      1100 2000 three [] [] table (omega arith) refl refl (omega arith)
