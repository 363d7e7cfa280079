-- ===== src/Protocols/Http.antt =====
-- pproxy/protocols/http.py: the parts of a request, `HTTP.guess` and `HTTP.accept`, and `netloc_split`
-- of pproxy/config.py. A text is its characters, which Latin-1 takes
-- for bytes, and `encode` writes it in UTF-8. `Web` has what the code takes from urllib, base64
-- and `int`.
pub mod Head
pub mod Decode
pub mod Netloc
pub mod Authenticated
use python_proxy.Base.{
  ℕ, ◌+◌, ◌/◌, ◌%◌, ltb, Bool, true, false, not, Option, none, some, List, [], ◌∷◌, ◌++◌, ◌&&◌,
  if◌then◌else◌, Bytes,
}
use python_proxy.Cipherpy.Process.{equal_bytes}
use python_proxy.Protocols.Conn.{
  ok, err, incomplete, User, nobody, anyone, named, truthy, closed, protocol, authentication,
  value_error, Action, ◌>>=◌, ◌>>◌, pure, raise, or_raise, write, read, rollback,
}
use python_proxy.Protocols.Users.{nonempty, is_among, first_user, ask_table, sign_in, sign_in_if}
use python_proxy.Protocols.Http.Head.{RequestHead, partition, parse_http_request_head, read_head}
use python_proxy.Protocols.Http.Decode.{decode}
use python_proxy.Protocols.Http.Netloc.{netloc_split}

pub record Url : Type 0 where
  pub hostname : Bytes
  pub netloc : Bytes
  pub path : Bytes
  pub query : Bytes
  -- `url._replace(netloc='', scheme='').geturl()`.
  pub relative : Bytes

-- `basic user` is `'Basic ' + base64.b64encode(user).decode()`; `P` are the numbers that `int` gives.
pub record Web (P : Type 0) : Type 0 where
  pub urlparse : Bytes → Url
  pub basic : Bytes → Bytes
  pub int_of : Bytes → Option P
  pub port_80 : P
  -- `f'{len(text)}'`.
  pub length_text : Bytes → Bytes

-- What is done once the remote is connected: the client is told so, or its request is passed on.
pub data Connected : Type 0 where
  established request_head : Bytes → Connected

-- `str.encode` of a text whose characters are below 256.
abbrev pub encode_char : ℕ → Bytes → Bytes
encode_char c rest = if ltb c 128 then c ∷ rest else (192 + c / 64) ∷ (128 + c % 64) ∷ rest

unfoldable pub encode : Bytes → Bytes
encode [] = []
encode (c ∷ chars) = encode_char c (encode chars)

abbrev pub get_method : Bytes
get_method = b'G' ∷ b'E' ∷ b'T' ∷ []

abbrev pub connect_method : Bytes
connect_method = b'C' ∷ b'O' ∷ b'N' ∷ b'N' ∷ b'E' ∷ b'C' ∷ b'T' ∷ []

abbrev pub either : Bytes → Bytes → Bytes
either [] other = other
either (b ∷ bytes) other = b ∷ bytes

-- The replies behind the version: a page with its length, the demand of a login, and a tunnel.
abbrev pub crlf_twice : Bytes
crlf_twice = 13 ∷ 10 ∷ 13 ∷ 10 ∷ []

abbrev pub ok_reply : Bytes
ok_reply =
    32 ∷ 50 ∷ 48 ∷ 48 ∷ 32 ∷ 79 ∷ 75 ∷ 13 ∷ 10 ∷ 67 ∷ 111 ∷ 110 ∷ 110 ∷ 101 ∷ 99 ∷ 116 ∷ 105 ∷ 111
    ∷ 110 ∷ 58 ∷ 32 ∷ 99 ∷ 108 ∷ 111 ∷ 115 ∷ 101 ∷ 13 ∷ 10 ∷ 67 ∷ 111 ∷ 110 ∷ 116 ∷ 101 ∷ 110 ∷ 116
    ∷ 45 ∷ 84 ∷ 121 ∷ 112 ∷ 101 ∷ 58 ∷ 32 ∷ 116 ∷ 101 ∷ 120 ∷ 116 ∷ 47 ∷ 112 ∷ 108 ∷ 97 ∷ 105 ∷ 110
    ∷ 13 ∷ 10 ∷ 67 ∷ 97 ∷ 99 ∷ 104 ∷ 101 ∷ 45 ∷ 67 ∷ 111 ∷ 110 ∷ 116 ∷ 114 ∷ 111 ∷ 108 ∷ 58 ∷ 32
    ∷ 109 ∷ 97 ∷ 120 ∷ 45 ∷ 97 ∷ 103 ∷ 101 ∷ 61 ∷ 57 ∷ 48 ∷ 48 ∷ 13 ∷ 10 ∷ 67 ∷ 111 ∷ 110 ∷ 116
    ∷ 101 ∷ 110 ∷ 116 ∷ 45 ∷ 76 ∷ 101 ∷ 110 ∷ 103 ∷ 116 ∷ 104 ∷ 58 ∷ 32 ∷ []

abbrev pub required_reply : Bytes
required_reply =
    32 ∷ 52 ∷ 48 ∷ 55 ∷ 32 ∷ 80 ∷ 114 ∷ 111 ∷ 120 ∷ 121 ∷ 32 ∷ 65 ∷ 117 ∷ 116 ∷ 104 ∷ 101 ∷ 110
    ∷ 116 ∷ 105 ∷ 99 ∷ 97 ∷ 116 ∷ 105 ∷ 111 ∷ 110 ∷ 32 ∷ 82 ∷ 101 ∷ 113 ∷ 117 ∷ 105 ∷ 114 ∷ 101
    ∷ 100 ∷ 13 ∷ 10 ∷ 67 ∷ 111 ∷ 110 ∷ 110 ∷ 101 ∷ 99 ∷ 116 ∷ 105 ∷ 111 ∷ 110 ∷ 58 ∷ 32 ∷ 99 ∷ 108
    ∷ 111 ∷ 115 ∷ 101 ∷ 13 ∷ 10 ∷ 80 ∷ 114 ∷ 111 ∷ 120 ∷ 121 ∷ 45 ∷ 65 ∷ 117 ∷ 116 ∷ 104 ∷ 101 ∷ 110
    ∷ 116 ∷ 105 ∷ 99 ∷ 97 ∷ 116 ∷ 101 ∷ 58 ∷ 32 ∷ 66 ∷ 97 ∷ 115 ∷ 105 ∷ 99 ∷ 32 ∷ 114 ∷ 101 ∷ 97
    ∷ 108 ∷ 109 ∷ 61 ∷ 34 ∷ 115 ∷ 105 ∷ 109 ∷ 112 ∷ 108 ∷ 101 ∷ 34 ∷ 13 ∷ 10 ∷ 13 ∷ 10 ∷ []

abbrev pub connected_reply : Bytes
connected_reply =
    32 ∷ 50 ∷ 48 ∷ 48 ∷ 32 ∷ 67 ∷ 111 ∷ 110 ∷ 110 ∷ 101 ∷ 99 ∷ 116 ∷ 105 ∷ 111 ∷ 110 ∷ 32 ∷ 101
    ∷ 115 ∷ 116 ∷ 97 ∷ 98 ∷ 108 ∷ 105 ∷ 115 ∷ 104 ∷ 101 ∷ 100 ∷ 13 ∷ 10 ∷ 67 ∷ 111 ∷ 110 ∷ 110 ∷ 101
    ∷ 99 ∷ 116 ∷ 105 ∷ 111 ∷ 110 ∷ 58 ∷ 32 ∷ 99 ∷ 108 ∷ 111 ∷ 115 ∷ 101 ∷ 13 ∷ 10 ∷ 13 ∷ 10 ∷ []

module _ {P : Type 0} (web : Web P) where
  -- The user of a page: by the query, where users are configured.
  abbrev pub named_or_nobody : Option Bytes → User
  named_or_nobody none = nobody
  named_or_nobody (some user) = named user

  -- `next(filter(lambda x: x.decode() == url.query, users), None)`: a user that is no UTF-8 raises
  -- UnicodeDecodeError, a ValueError, where the search gets to it.
  abbrev pub try_user : Bytes → Bytes → Action (Option Bytes) → Option Bytes → Action (Option Bytes)
  try_user query user rest none = raise value_error
  try_user query user rest (some text) = if equal_bytes text query then pure (some user) else rest

  unfoldable pub queried_user : Bytes → List Bytes → Action (Option Bytes)
  queried_user query [] = pure none
  queried_user query (user ∷ users) = try_user query user (queried_user query users) (decode user)

  abbrev pub page_user : List Bytes → Bytes → Action User
  page_user [] query = pure anyone
  page_user (u ∷ users) query =
      queried_user query (u ∷ users) >>= λ found. pure (named_or_nobody found)

  abbrev pub send_page :
      ℕ → List Bytes → User → Bytes → Bytes → Action (User × Bytes × Option P × Connected)
  send_page granted users user ver text = do
    sign_in_if (nonempty users) granted user
    write (encode ver ++ (ok_reply ++ (web.length_text text ++ crlf_twice)))
    write text
    raise closed

  -- `for payload_path, text in httpget.items()`, where a text depends on the host.
  unfoldable pub find_page :
      ℕ
      → List Bytes
      → Url
      → Bytes
      → Bytes
      → List (Bytes × (Bytes → Bytes))
      → Action (User × Bytes × Option P × Connected)
  unfolding queried_user
  find_page granted users url ver host [] = raise protocol
  find_page granted users url ver host (page ∷ pages) =
      let rest = find_page granted users url ver host pages in
      if equal_bytes page.0 url.path
      then (page_user users url.query >>= λ user.
          if truthy user then send_page granted users user ver (page.1 host) else rest)
      else rest

  -- `if users: ...`.
  abbrev pub matches : Option Bytes → Bytes → Bool
  matches none user = false
  matches (some pauth) user = equal_bytes (web.basic user) pauth

  abbrev pub login_by_header : Bytes → Option Bytes → Action User
  login_by_header ver none = write (encode ver ++ required_reply) >> raise authentication
  login_by_header ver (some user) = pure (named user)

  abbrev pub http_user : Bytes → Option Bytes → List Bytes → User → Action User
  http_user ver pauth users user =
      if truthy user then pure user else login_by_header ver (first_user (matches pauth) users)

  abbrev pub http_login : ℕ → ℕ → Bytes → Option Bytes → User → List Bytes → Action User
  http_login asked granted ver pauth user [] = pure user
  http_login asked granted ver pauth user (u ∷ users) = do
    known ← ask_table asked
    login ← http_user ver pauth (u ∷ users) known
    sign_in granted login
    pure login

  -- The two ends of the function: a tunnel, and a request that is passed on.
  abbrev pub tunnel : Bytes → RequestHead → User → Action (User × Bytes × Option P × Connected)
  tunnel authority head user = do
    target ← or_raise value_error (netloc_split web.int_of none (either authority head.path))
    pure (user, target.0, target.1, established (encode head.ver ++ connected_reply))

  abbrev pub new_head : RequestHead → Url → Bytes
  new_head head url =
      encode (head.method ++ (32 ∷ (url.relative ++ (32 ∷ head.ver))))
      ++ (13 ∷ 10 ∷ (head.headers ++ crlf_twice))

  abbrev pub pass_on : RequestHead → Url → User → Action (User × Bytes × Option P × Connected)
  pass_on head url user = do
    target ←
        or_raise value_error
          (netloc_split web.int_of (some web.port_80) (either url.netloc head.host))
    pure (user, target.0, target.1, request_head (new_head head url))

  abbrev pub http_target :
      Bytes → RequestHead → Url → User → Action (User × Bytes × Option P × Connected)
  http_target authority head url user =
      if equal_bytes head.method connect_method
      then tunnel authority head user
      else pass_on head url user

  -- `http_accept`.
  unfoldable pub http_accept :
      ℕ
      → ℕ
      → List Bytes
      → List (Bytes × (Bytes → Bytes))
      → Bytes
      → User
      → RequestHead
      → Action (User × Bytes × Option P × Connected)
  unfolding find_page
  http_accept asked granted users httpget authority user head =
      let url = web.urlparse head.path in
      if equal_bytes head.method get_method && not (nonempty url.hostname)
      then find_page granted users url head.ver head.host httpget
      else (http_login asked granted head.ver head.proxy_authorization user users
          >>= http_target authority head url)

  -- `HTTP.accept`.
  unfoldable pub http1_accept :
      ℕ
      → ℕ
      → List Bytes
      → List (Bytes × (Bytes → Bytes))
      → User
      → Action (User × Bytes × Option P × Connected)
  unfolding http_accept
  http1_accept asked granted users httpget user = do
    lines ← read_head
    head ← or_raise protocol (parse_http_request_head lines)
    http_accept asked granted users httpget [] user head

-- `HTTP.guess`.
abbrev pub http_starts : List Bytes
http_starts =
    (b'G' ∷ b'E' ∷ b'T' ∷ b' ' ∷ [])
    ∷ (b'H' ∷ b'E' ∷ b'A' ∷ b'D' ∷ [])
    ∷ (b'P' ∷ b'O' ∷ b'S' ∷ b'T' ∷ [])
    ∷ (b'P' ∷ b'U' ∷ b'T' ∷ b' ' ∷ [])
    ∷ (b'D' ∷ b'E' ∷ b'L' ∷ b'E' ∷ [])
    ∷ (b'C' ∷ b'O' ∷ b'N' ∷ b'N' ∷ [])
    ∷ (b'O' ∷ b'P' ∷ b'T' ∷ b'I' ∷ [])
    ∷ (b'T' ∷ b'R' ∷ b'A' ∷ b'C' ∷ [])
    ∷ (b'P' ∷ b'A' ∷ b'T' ∷ b'C' ∷ [])
    ∷ []

unfoldable pub http_guess : ℕ → Action User
http_guess arrived = read arrived 4 >>= λ header.
    rollback header >> pure (if is_among header http_starts then anyone else nobody)

-- `HTTP.connect`. `authority` is the text of the host and the port, and `basic rauth` what stands
-- behind `Proxy-Authorization: `; an empty `rauth` is `None`.
abbrev pub version_host : Bytes
version_host =
    32 ∷ 72 ∷ 84 ∷ 84 ∷ 80 ∷ 47 ∷ 49 ∷ 46 ∷ 49 ∷ 13 ∷ 10 ∷ 72 ∷ 111 ∷ 115 ∷ 116 ∷ 58 ∷ 32 ∷ []

abbrev pub proxy_authorization_field : Bytes
proxy_authorization_field =
    13 ∷ 10 ∷ 80 ∷ 114 ∷ 111 ∷ 120 ∷ 121 ∷ 45 ∷ 65 ∷ 117 ∷ 116 ∷ 104 ∷ 111 ∷ 114 ∷ 105 ∷ 122 ∷ 97
    ∷ 116 ∷ 105 ∷ 111 ∷ 110 ∷ 58 ∷ 32 ∷ []

abbrev pub authorization_of : (Bytes → Bytes) → Bytes → Bytes
authorization_of basic [] = []
authorization_of basic (b ∷ rauth) = proxy_authorization_field ++ basic (b ∷ rauth)

-- `transport.read_until`, with the mark dropped.
abbrev pub behind_head : Option (Bytes × Bytes) → Action Bytes
behind_head none c = (err incomplete, c)
behind_head (some (front, rest)) c = (ok front, record c { input = rest })

unfoldable pub http_connect : (Bytes → Bytes) → Bytes → Bytes → Action Bytes
http_connect basic authority rauth = do
  write (
      encode (connect_method ++ (32 ∷ (authority ++ (version_host ++ authority))))
      ++ (authorization_of basic rauth ++ crlf_twice))
  λ c. behind_head (partition crlf_twice c.input) c
