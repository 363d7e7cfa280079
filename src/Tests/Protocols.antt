-- ===== src/Tests/Protocols.antt =====
-- The handshakes of SOCKS, Trojan and Shadowsocks at concrete users and hosts. A host name is its
-- bytes here, and an address of IPv4 the text of its four bytes.
use python_proxy.Base.{
  ℕ, ◌%◌, ◌≡◌, refl, ap, Bool, true, false, Option, none, some, List, [], ◌∷◌, ◌++◌, ◌||◌,
  if◌then◌else◌, ltb, length, take, replicate, Bytes, from_little, big, to_big, arith,
}
use python_proxy.Server.Auth.{AuthTable, auth_table, authed, set_authed, no_user}
use python_proxy.Cipherpy.Process.{equal_bytes}
use python_proxy.Cipherpy.Process.Laws.{equal_bytes-eq}
use python_proxy.Stream.Decoder.{returned, raised, feed}
use python_proxy.Protocols.Conn.{
  User, named, anyone, nobody, conn, ok, err, protocol, overflow, authentication, continue,
}
use python_proxy.Protocols.Conn.Keeps.{After}
use python_proxy.Protocols.Address.{Text, IsText}
use python_proxy.Protocols.Address.Laws.{domain_bytes}
use python_proxy.Protocols.Users.{is_among, has_byte}
use python_proxy.Protocols.Users.Signed.{IsKnown, IsSigned}
use python_proxy.Protocols.Trojan.{trojan_guess, trojan_accept, trojan_connect}
use python_proxy.Protocols.Trojan.RoundTrip.{trojan_accept-connect}
use python_proxy.Protocols.Ota.{ota_start, ota_decoder, ota_write, ota_write_each, checksum}
use python_proxy.Protocols.Ota.RoundTrip.{ota_decoder-ota_write, ota_write-overflow}
use python_proxy.Protocols.Ss.{OtaCipher, header_sum, ss_accept, ss_connect}
use python_proxy.Protocols.Ss.RoundTrip.{ss_accept-connect}
use python_proxy.Protocols.Socks4.{socks4_accept}
use python_proxy.Protocols.Socks4.Authenticated.{IsUserid, socks4_accept-IsServed}
use python_proxy.Protocols.Socks5.{login_name, socks5_accept, socks5_connect, socks5_login}
use python_proxy.Protocols.Socks5.Authenticated.{IsOffered, socks5_accept-IsServed}
use python_proxy.Protocols.Socks5.Conversation.{socks5_connect-accept}
use python_proxy.Protocols.Datagram.{accepted, ss_udp_accept, ss_udp_connect}
use python_proxy.Protocols.Datagram.RoundTrip.{ss_udp_accept-connect}

-- A text that has four bytes passes for an address.
abbrev four_bytes : Bytes → Option Bytes
four_bytes (a ∷ b ∷ c ∷ d ∷ []) = some (a ∷ b ∷ c ∷ d ∷ [])
four_bytes other = none

abbrev plain : Text Bytes
plain = record {
  encode = λ h. h;
  decode = some;
  inet_ntoa = some;
  inet_ntop = some;
  inet_aton = four_bytes;
}

four_bytes-length : (h ip : Bytes) → four_bytes h ≡ some ip → length ip ≡ 4
four_bytes-length [] ip e = absurd (cc)
four_bytes-length (a ∷ []) ip e = absurd (cc)
four_bytes-length (a ∷ b ∷ []) ip e = absurd (cc)
four_bytes-length (a ∷ b ∷ c ∷ []) ip e = absurd (cc)
four_bytes-length (a ∷ b ∷ c ∷ d ∷ []) ip e =
    let same : ip ≡ a ∷ b ∷ c ∷ d ∷ [] = cc in ap length same
four_bytes-length (a ∷ b ∷ c ∷ d ∷ x ∷ xs) ip e = absurd (cc)

plain-IsText : IsText plain
plain-IsText = record { decodes = λ h. refl; dotted = four_bytes-length }

abbrev sum_mac : Bytes → Bytes → Bytes
sum_mac key text = replicate 20 (from_little (key ++ text) % 251)

abbrev sum_digest : Bytes → Bytes
sum_digest text = replicate 56 (from_little text % 251)

abbrev host : Bytes
host = b'a' ∷ b'.' ∷ b'd' ∷ b'e' ∷ b'v' ∷ []

abbrev alice : Bytes
alice = b'a' ∷ b'l' ∷ []

abbrev secret : Bytes
secret = b'p' ∷ b'w' ∷ []

abbrev users : List Bytes
users = login_name alice secret ∷ []

abbrev table : AuthTable User
table = auth_table 3 100

alone : (x u : Bytes) → is_among u (x ∷ []) ≡ true → u ≡ x
unfolding is_among
alone x u h = go (equal_bytes u x) refl h
  where
    go : (b : Bool) → equal_bytes u x ≡ b → (b || false) ≡ true → u ≡ x
    go true e k = equal_bytes-eq u x e
    go false e k = absurd (cc)

among_users : is_among (login_name alice secret) users ≡ true
unfolding is_among equal_bytes
among_users = refl

among_alice : is_among alice (alice ∷ []) ≡ true
unfolding is_among equal_bytes
among_alice = refl

unknown : authed 5000 table ≡ no_user
unfolding authed auth_table
unknown = refl

-- A client that may log in without a password, while users are configured, is turned away.
turned_away :
    socks5_login users nobody (0 ∷ []) (conn [] [] table) ≡ (err authentication, conn [] [] table)
unfolding socks5_login has_byte
turned_away = refl

socks5_connect-accept_example :
    (sent : Bytes) × (replies : Bytes) × (socks5_connect plain
        (login_name alice secret)
        host
        443
        (conn (replies ++ []) [] table)
      ≡ (ok tt, conn [] (5 ∷ sent) table))
    × (socks5_accept plain 5000 5001 users (conn (sent ++ (1 ∷ [])) [] table) ≡ (
      ok (named (login_name alice secret), host, 443),
      conn (1 ∷ []) replies (set_authed 5001 (named (login_name alice secret)) table),
    ))
socks5_connect-accept_example =
    socks5_connect-accept alice secret (unfold has_byte in refl) (omega arith) (omega arith) plain
      plain-IsText host 443 (omega arith) (omega arith) users 5000 5001 (1 ∷ []) [] table table
      among_users unknown

abbrev bytes_of_login : Bytes
bytes_of_login =
    1 ∷ 2 ∷ 1 ∷ 2 ∷ b'a' ∷ b'l' ∷ 2 ∷ b'p' ∷ b'w' ∷ 5 ∷ 1 ∷ 0 ∷ 3 ∷ 1 ∷ b'h' ∷ 0 ∷ 80 ∷ []

socks5_accept-IsServed_example :
    After
      (IsSigned users 5000 5001 table (IsOffered bytes_of_login))
      (λ (a : User × Bytes × ℕ) c.
        IsKnown users 5000 5001 table (IsOffered bytes_of_login) a.0
        × (c.table ≡ set_authed 5001 a.0 table))
      (socks5_accept plain 5000 5001 users (conn bytes_of_login [] table))
socks5_accept-IsServed_example =
    socks5_accept-IsServed (login_name alice secret) [] 5000 5001 table plain
      (conn bytes_of_login [] table) refl

abbrev socks4_request : Bytes
socks4_request = 1 ∷ 0 ∷ 80 ∷ 127 ∷ 0 ∷ 0 ∷ 1 ∷ b'a' ∷ b'l' ∷ 0 ∷ []

socks4_accept-IsServed_example :
    After
      (IsSigned (alice ∷ []) 5000 5001 table (IsUserid socks4_request))
      (λ (a : User × Bytes × ℕ) c.
        IsKnown (alice ∷ []) 5000 5001 table (IsUserid socks4_request) a.0
        × (c.table ≡ set_authed 5001 a.0 table))
      (socks4_accept plain 5000 5001 (alice ∷ []) (conn socks4_request [] table))
socks4_accept-IsServed_example =
    socks4_accept-IsServed alice [] 5000 5001 table plain (conn socks4_request [] table) refl

trojan_accept-connect_example :
    (hello : Bytes) × (trojan_connect sum_digest plain alice host 443 (conn [] [] table)
      ≡ (ok tt, conn [] hello table))
    × (continue
          (trojan_accept sum_digest plain)
          (trojan_guess sum_digest 80 (alice ∷ []) (conn (hello ++ (9 ∷ [])) [] table))
        ≡ (ok (named alice, host, 443), conn (9 ∷ []) [] table))
trojan_accept-connect_example =
    trojan_accept-connect sum_digest plain plain-IsText (alice ∷ []) alice host 443 80 (9 ∷ [])
      table among_alice (λ u m e. alone alice u m) refl (omega arith) (omega arith) (omega arith)

abbrev with_ota : OtaCipher
with_ota = record { ota = true; iv = 1 ∷ 2 ∷ []; key = 3 ∷ 4 ∷ [] }

abbrev wrong_sum : Bytes
wrong_sum = 1 ∷ 2 ∷ 3 ∷ 4 ∷ 5 ∷ 6 ∷ 7 ∷ 8 ∷ 9 ∷ 10 ∷ []

ss_accept-connect_example :
    (request : Bytes) × (ss_connect sum_mac plain [] host 443 (some with_ota) (conn [] [] table)
      ≡ (ok (if with_ota.ota then some 0 else none), conn [] ([] ++ request) table))
    × (ss_accept sum_mac plain anyone (some with_ota) (conn (request ++ (9 ∷ [])) [] table) ≡ (
      ok ((anyone, host, 443), if with_ota.ota then some (ota_start 0 []) else none),
      conn (9 ∷ []) [] table,
    ))
    × (ss_accept sum_mac plain anyone
          (some with_ota)
          (conn (19 ∷ (domain_bytes host 443 ++ (wrong_sum ++ (9 ∷ [])))) [] table)
        ≡ (
          if equal_bytes (header_sum sum_mac with_ota (19 ∷ domain_bytes host 443)) wrong_sum
              then ok ((anyone, host, 443), some (ota_start 0 []))
              else err protocol,
          conn (9 ∷ []) [] table,
        ))
ss_accept-connect_example =
    ss_accept-connect plain plain-IsText sum_mac with_ota (λ key bytes. refl) anyone [] host 443
      (9 ∷ []) wrong_sum table (omega arith) (omega arith) refl

abbrev two_messages : List Bytes
two_messages = (1 ∷ 2 ∷ 3 ∷ []) ∷ (7 ∷ []) ∷ []

abbrev framed : Bytes
framed =
    0
    ∷ 3
    ∷ (take 10 (sum_mac (5 ∷ 0 ∷ 0 ∷ 0 ∷ 0 ∷ []) (1 ∷ 2 ∷ 3 ∷ []))
        ++ (1 ∷ 2 ∷ 3 ∷ 0 ∷ 1 ∷ (take 10 (sum_mac (5 ∷ 0 ∷ 0 ∷ 0 ∷ 1 ∷ []) (7 ∷ [])) ++ (7 ∷ []))))

ota_decoder-ota_write_example :
    (feed (ota_decoder sum_mac (5 ∷ [])) (ota_start 0 []) framed
      ≡ returned (ota_start 2 (1 ∷ 2 ∷ 3 ∷ 7 ∷ [])))
    × (feed
          (ota_decoder sum_mac (5 ∷ []))
          (ota_start 0 [])
          (big 2 1 ++ (wrong_sum ++ ((7 ∷ []) ++ [])))
        ≡ (if equal_bytes wrong_sum (take 10 (sum_mac ((5 ∷ []) ++ big 4 0) (7 ∷ [])))
            then feed (ota_decoder sum_mac (5 ∷ [])) (ota_start 1 (7 ∷ [])) []
            else raised protocol (record {
              chunk_id = 0;
              data_len = some 1;
              buffer = wrong_sum ++ ((7 ∷ []) ++ []);
              ret = [];
            })))
unfolding to_big big
ota_decoder-ota_write_example =
    ota_decoder-ota_write sum_mac (5 ∷ []) (λ key bytes. refl) two_messages 0 framed 2 (7 ∷ [])
      wrong_sum [] (unfold ota_write_each ota_write checksum in refl) (omega arith) (omega arith)
      refl

ota_write-overflow_example : ota_write sum_mac (5 ∷ []) (1 ∷ 2 ∷ 3 ∷ []) 7 ≡ (
  if ltb 3 65536
      then ok (big 2 3 ++ (take 10 (sum_mac (5 ∷ big 4 7) (1 ∷ 2 ∷ 3 ∷ [])) ++ (1 ∷ 2 ∷ 3 ∷ [])))
      else err overflow,
  8,
)
ota_write-overflow_example =
    ota_write-overflow sum_mac (5 ∷ []) (1 ∷ 2 ∷ 3 ∷ []) 7 (omega arith) (omega arith)

ss_udp_accept-connect_example :
    (datagram : Bytes) × (ss_udp_connect plain alice host 53 (1 ∷ 2 ∷ []) ≡ some datagram)
    × (ss_udp_accept plain (alice ∷ []) datagram ≡ accepted (named alice) host 53 (1 ∷ 2 ∷ []))
ss_udp_accept-connect_example =
    ss_udp_accept-connect plain plain-IsText (alice ∷ []) alice host 53 (1 ∷ 2 ∷ []) among_alice
      (λ u tail m e. alone alice u m) (omega arith) (omega arith)
