-- ===== src/Tests/Http.antt =====
-- An HTTP request at concrete bytes.
use python_proxy.Base.{ℕ, ◌≡◌, refl, none, some, [], ◌∷◌, Bytes}
use python_proxy.Server.Auth.{AuthTable, auth_table}
use python_proxy.Cipherpy.Process.{equal_bytes}
use python_proxy.Protocols.Conn.{User, nobody, conn}
use python_proxy.Protocols.Conn.Keeps.{After}
use python_proxy.Protocols.Users.{has_byte}
use python_proxy.Protocols.Users.Signed.{IsSigned}
use python_proxy.Protocols.Http.Head.{
  RequestHead, partition, split_lines, take_headers, span, strip, method_line,
  parse_http_request_head,
}
use python_proxy.Protocols.Http.Decode.{decode_from, decode}
use python_proxy.Protocols.Http.Netloc.{cut, all_bytes, netloc_split}
use python_proxy.Protocols.Http.{Web, http_accept}
use python_proxy.Protocols.Http.Authenticated.{IsGiven, IsServed, http_accept-IsServed}

abbrev request_bytes : Bytes
request_bytes =
    80 ∷ 79 ∷ 83 ∷ 84 ∷ 32 ∷ 32 ∷ 47 ∷ 97 ∷ 32 ∷ 98 ∷ 32 ∷ 32 ∷ 72 ∷ 84 ∷ 84 ∷ 80 ∷ 47 ∷ 49 ∷ 46
    ∷ 49 ∷ 13 ∷ 10 ∷ 72 ∷ 111 ∷ 115 ∷ 116 ∷ 58 ∷ 32 ∷ 104 ∷ 13 ∷ 10 ∷ 80 ∷ 114 ∷ 111 ∷ 120 ∷ 121
    ∷ 45 ∷ 65 ∷ 117 ∷ 116 ∷ 104 ∷ 111 ∷ 114 ∷ 105 ∷ 122 ∷ 97 ∷ 116 ∷ 105 ∷ 111 ∷ 110 ∷ 58 ∷ 32 ∷ 107
    ∷ 13 ∷ 10 ∷ 88 ∷ 58 ∷ 32 ∷ 121 ∷ []

abbrev request_parts : RequestHead
request_parts = record {
  method = 80 ∷ 79 ∷ 83 ∷ 84 ∷ [];
  path = 47 ∷ 97 ∷ 32 ∷ 98 ∷ [];
  ver = 72 ∷ 84 ∷ 84 ∷ 80 ∷ 47 ∷ 49 ∷ 46 ∷ 49 ∷ [];
  headers = 72 ∷ 111 ∷ 115 ∷ 116 ∷ 58 ∷ 32 ∷ 104 ∷ 13 ∷ 10 ∷ 88 ∷ 58 ∷ 32 ∷ 121 ∷ [];
  host = 104 ∷ [];
  proxy_authorization = some (107 ∷ []);
  sec_websocket_key = none;
}

-- The header of the proxy is taken out, and its value kept.
request_parsed : parse_http_request_head request_bytes ≡ some request_parts
unfolding parse_http_request_head split_lines take_headers method_line partition span strip
    equal_bytes has_byte
request_parsed = refl

-- A host in brackets, and the port behind the last colon.
ipv6_split :
    netloc_split some none (91 ∷ 58 ∷ 58 ∷ 49 ∷ 93 ∷ 58 ∷ 56 ∷ 48 ∷ [])
    ≡ some (58 ∷ 58 ∷ 49 ∷ [], some (56 ∷ 48 ∷ []))
unfolding netloc_split cut all_bytes
ipv6_split = refl

host_split :
    netloc_split some none (97 ∷ 58 ∷ 98 ∷ 58 ∷ 55 ∷ []) ≡ some (97 ∷ 58 ∷ 98 ∷ [], some (55 ∷ []))
unfolding netloc_split cut all_bytes
host_split = refl

abbrev simple_web : Web ℕ
simple_web = record {
  urlparse = λ p. record { hostname = p; netloc = []; path = p; query = []; relative = p };
  basic = λ user. user;
  int_of = λ text. some 443;
  port_80 = 80;
  length_text = λ text. [];
}

abbrev table : AuthTable User
table = auth_table 3 100

abbrev alice : Bytes
alice = 107 ∷ []

-- Two bytes of one character, a byte that begins none, and a slash that is longer than it need be.
decoded :
    (decode (b'a' ∷ 195 ∷ 169 ∷ []) ≡ some (b'a' ∷ 233 ∷ []))
    × (decode (255 ∷ []) ≡ none)
    × (decode (224 ∷ 128 ∷ 175 ∷ []) ≡ none)
    × (decode (240 ∷ 159 ∷ 152 ∷ 128 ∷ []) ≡ some (0x1f600 ∷ []))
unfolding decode decode_from
decoded = (refl, refl, refl, refl)

http_accept-IsServed_example :
    After
      (IsSigned (alice ∷ []) 5000 5001 table (IsGiven simple_web request_parts))
      (IsServed simple_web alice [] 5000 5001 table request_parts)
      (http_accept simple_web 5000 5001 (alice ∷ []) [] [] nobody request_parts (conn [] [] table))
http_accept-IsServed_example =
    http_accept-IsServed simple_web alice [] 5000 5001 table request_parts [] [] nobody
      (conn [] [] table) refl
