-- ===== src/Protocols/Http/Head.antt =====
-- pproxy/protocols/http.py: `parse_http_request_head`, with the pattern HTTP_METHOD_LINE, and the read of
-- a request.
use python_proxy.Base.{
  ℕ, zero, suc, ◌+◌, Bool, true, false, Option, none, some, List, [], ◌∷◌, ◌++◌, ◌&&◌, ◌==◌, ltb,
  leb, if◌then◌else◌, length, take, drop, reverse, Bytes,
}
use python_proxy.Cipherpy.Process.{equal_bytes}
use python_proxy.Protocols.Conn.{incomplete, value_error, Action, ok, err}
use python_proxy.Protocols.Users.{has_byte}

-- `bytes.startswith`.
abbrev pub starts_with : Bytes → Bytes → Bool
starts_with mark bytes = equal_bytes mark (take (length mark) bytes)

-- The bytes in front of the first place where the mark stands, and those behind it.
abbrev pub before_byte : ℕ → Option (Bytes × Bytes) → Option (Bytes × Bytes)
before_byte b none = none
before_byte b (some (front, rest)) = some (b ∷ front, rest)

unfoldable pub partition : Bytes → Bytes → Option (Bytes × Bytes)
partition mark [] = none
partition mark (b ∷ bytes) =
    let rest = partition mark bytes in
    if starts_with mark (b ∷ bytes)
    then some ([], drop (length mark) (b ∷ bytes))
    else before_byte b rest

-- `split(b'\r\n')`: the fuel is the length of the text.
abbrev pub line_end : Bytes
line_end = 13 ∷ 10 ∷ []

abbrev pub line_of : (Bytes → List Bytes) → Bytes → Option (Bytes × Bytes) → List Bytes
line_of rest bytes none = bytes ∷ []
line_of rest bytes (some (front, behind)) = front ∷ rest behind

unfoldable pub split_lines : ℕ → Bytes → List Bytes
unfolding partition
split_lines zero bytes = bytes ∷ []
split_lines (suc fuel) bytes = line_of (split_lines fuel) bytes (partition line_end bytes)

-- `b'\r\n'.join(lines)`.
abbrev pub join_lines : List Bytes → Bytes
join_lines [] = []
join_lines (l ∷ []) = l
join_lines (l ∷ m ∷ lines) = l ++ (line_end ++ join_lines (m ∷ lines))

-- `HTTP_METHOD_LINE.match`: a run without a space, spaces, a text without a line break, spaces, and to
-- the end a run without a space that begins with `HTTP/`. The text is as short as it can be, and a
-- single space where there is nothing else between the runs.
unfoldable pub span : Bytes → Bytes × Bytes
span [] = ([], [])
span (b ∷ bytes) =
    let rest = span bytes in if b == 32 then ([], b ∷ bytes) else (b ∷ rest.0, rest.1)

unfoldable pub strip : Bytes → Bytes
strip [] = []
strip (b ∷ bytes) = let rest = strip bytes in if b == 32 then rest else b ∷ bytes

abbrev pub http_slash : Bytes
http_slash = b'H' ∷ b'T' ∷ b'T' ∷ b'P' ∷ b'/' ∷ []

abbrev pub is_version : Bytes → Bool
is_version ver = starts_with http_slash ver && ltb 5 (length ver)

-- What stands between the runs.
abbrev pub path_of : Bytes → Bytes → Option Bytes
path_of middle [] = if leb 3 (length middle) then some (32 ∷ []) else none
path_of middle (b ∷ core) = if has_byte 10 (b ∷ core) then none else some (b ∷ core)

abbrev pub nonempty_method : Bytes → Bool
nonempty_method [] = false
nonempty_method (b ∷ bytes) = true

abbrev pub with_path : Bytes → Bytes → Option Bytes → Option (Bytes × Bytes × Bytes)
with_path method ver none = none
with_path method ver (some path) = some (method, path, ver)

unfoldable pub method_line : Bytes → Option (Bytes × Bytes × Bytes)
unfolding span strip
method_line line =
    let first = span line in
    let last = span (reverse first.1) in
    let ver = reverse last.0 in
    if nonempty_method first.0 && is_version ver
    then with_path first.0 ver (path_of last.1 (strip (reverse (strip last.1))))
    else none

pub record Fields : Type 0 where
  pub host : Bytes
  pub proxy_authorization : Option Bytes
  pub sec_websocket_key : Option Bytes
  pub kept : List Bytes

abbrev pub host_key : Bytes
host_key = b'H' ∷ b'o' ∷ b's' ∷ b't' ∷ []

abbrev pub authorization_key : Bytes
authorization_key =
    b'P' ∷ b'r' ∷ b'o' ∷ b'x' ∷ b'y' ∷ b'-' ∷ b'A' ∷ b'u' ∷ b't' ∷ b'h' ∷ b'o' ∷ b'r' ∷ b'i' ∷ b'z'
    ∷ b'a' ∷ b't' ∷ b'i' ∷ b'o' ∷ b'n' ∷ []

abbrev pub websocket_key : Bytes
websocket_key =
    b'S' ∷ b'e' ∷ b'c' ∷ b'-' ∷ b'W' ∷ b'e' ∷ b'b' ∷ b'S' ∷ b'o' ∷ b'c' ∷ b'k' ∷ b'e' ∷ b't' ∷ b'-'
    ∷ b'K' ∷ b'e' ∷ b'y' ∷ []

abbrev pub proxy_prefix : Bytes
proxy_prefix = b'P' ∷ b'r' ∷ b'o' ∷ b'x' ∷ b'y' ∷ b'-' ∷ []

abbrev pub take_field : Option (Bytes × Bytes) → Fields → Fields
take_field none f = f
take_field (some (key, value)) f =
    if equal_bytes key host_key
    then record f { host = value }
    else if equal_bytes key authorization_key
    then record f { proxy_authorization = some value }
    else if equal_bytes key websocket_key
    then record f { sec_websocket_key = some value }
    else f

abbrev pub keep : Bytes → Fields → Fields
keep line f = if starts_with proxy_prefix line then f else record f { kept = f.kept ++ (line ∷ []) }

unfoldable pub take_headers : List Bytes → Fields → Fields
unfolding partition
take_headers [] f = f
take_headers (line ∷ lines) f =
    take_headers lines (keep line (take_field (partition (58 ∷ 32 ∷ []) line) f))

pub record RequestHead : Type 0 where
  pub method : Bytes
  pub path : Bytes
  pub ver : Bytes
  pub headers : Bytes
  pub host : Bytes
  pub proxy_authorization : Option Bytes
  pub sec_websocket_key : Option Bytes

abbrev pub head_of : Fields → Option (Bytes × Bytes × Bytes) → Option RequestHead
head_of f none = none
head_of f (some (method, path, ver)) = some (record {
  method = method;
  path = path;
  ver = ver;
  headers = join_lines f.kept;
  host = f.host;
  proxy_authorization = f.proxy_authorization;
  sec_websocket_key = f.sec_websocket_key;
})

abbrev pub no_fields : Fields
no_fields = record { host = []; proxy_authorization = none; sec_websocket_key = none; kept = [] }

abbrev pub parse_lines : List Bytes → Option RequestHead
parse_lines [] = none
parse_lines (line ∷ lines) = head_of (take_headers lines no_fields) (method_line line)

-- `none` is the ProtocolError of a line that does not match.
unfoldable pub parse_http_request_head : Bytes → Option RequestHead
unfolding split_lines take_headers method_line
parse_http_request_head bytes = parse_lines (split_lines (length bytes) bytes)

-- `(await transport.read_until(reader, b'\r\n\r\n', limit=MAX_HTTP_HEADER_SIZE))[:-4]`.
abbrev pub limited : Option (Bytes × Bytes) → Action Bytes
limited none c = (err incomplete, c)
limited (some (front, rest)) c =
    (if ltb 32768 (length front + 4) then err value_error else ok front, record c { input = rest })

unfoldable pub read_head : Action Bytes
unfolding partition
read_head c = limited (partition (13 ∷ 10 ∷ 13 ∷ 10 ∷ []) c.input) c
