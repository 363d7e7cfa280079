-- ===== src/Protocols/Channel.antt =====
-- `BaseProtocol.channel` of pproxy/protocols/base.py and `HTTP.http_channel` of pproxy/protocols/http.py,
-- with `stat_bytes` given to the second. A turn of the loop is one list item.
pub mod Laws
pub mod Forwards
use python_proxy.Base.{
  ℕ, ◌+◌, ◌*◌, Bool, true, false, Option, none, some, List, [], ◌∷◌, ◌++◌, ◌||◌, leb, if◌then◌else◌,
  length, Bytes,
}
use python_proxy.Protocols.Http.{Web, crlf_twice, new_head}
use python_proxy.Protocols.Http.Head.{
  RequestHead, partition, line_end, method_line, parse_http_request_head,
}

-- What `reader.at_eof()` and `writer.is_closing()` say, what `read` gives, what `read_until` gives where
-- the code calls it, and whether `drain` returns. `none` is an exception that the loop catches.
pub record Turn : Type 0 where
  pub at_eof : Bool
  pub is_closing : Bool
  pub got : Option Bytes
  pub head : Option Bytes
  pub drained : Bool

-- `raised` and `lowered` are the calls `stat_conn(1)` and `stat_conn(-1)`, `counted` the sum of
-- `stat_bytes`, and `graceful` the argument of `close_writer`, once it is called.
pub record Channel : Type 0 where
  pub normal_eof : Bool
  pub pending_drain : ℕ
  pub written : Bytes
  pub counted : ℕ
  pub raised : ℕ
  pub lowered : ℕ
  pub graceful : Option Bool

-- `DRAIN_BUFFER_SIZE`.
abbrev pub drain_buffer_size : ℕ
drain_buffer_size = 256 * 1024

unfoldable pub channel_start : Bool → Channel
channel_start at_eof = record {
  normal_eof = at_eof;
  pending_drain = 0;
  written = [];
  counted = 0;
  raised = 1;
  lowered = 0;
  graceful = none;
}

-- The `finally`.
abbrev pub finish : Channel → Channel
finish s = record s { lowered = s.lowered + 1; graceful = some s.normal_eof }

abbrev pub wait_drain : Bool → Channel → Channel
wait_drain true s = record s { pending_drain = 0 }
wait_drain false s = finish s

abbrev pub drain : Bool → Channel → Channel
drain drained s = if leb drain_buffer_size s.pending_drain then wait_drain drained s else s

-- From `stat_bytes(len(data))` on.
abbrev pub forward : Bytes → Bool → Channel → Channel
forward bytes drained s = drain drained (record s {
  counted = s.counted + length bytes;
  written = s.written ++ bytes;
  pending_drain = s.pending_drain + length bytes;
})

-- A chunk with `change` for what the protocol makes of it, where `none` ends the loop.
abbrev pub forward_some : Option Bytes → Bool → Channel → Channel
forward_some none drained s = finish s
forward_some (some bytes) drained s = forward bytes drained s

abbrev pub take_chunk : (Bytes → Channel → Channel) → Option Bytes → Channel → Channel
take_chunk pass none s = finish s
take_chunk pass (some []) s = finish (record s { normal_eof = true })
take_chunk pass (some (b ∷ bytes)) s = pass (b ∷ bytes) s

abbrev pub turn_open : (Bytes → Channel → Channel) → Turn → Option Bool → Channel → Channel
turn_open pass t (some g) s = s
turn_open pass t none s = if t.at_eof || t.is_closing then finish s else take_chunk pass t.got s

-- With `stat_bytes` `None`, what is read goes nowhere.
abbrev pub pass_on : Bool → Turn → Bytes → Channel → Channel
pass_on true t bytes s = forward bytes t.drained s
pass_on false t bytes s = s

unfoldable pub channel : Bool → List Turn → Channel → Channel
channel counts [] s = s
channel counts (t ∷ turns) s = channel counts turns (turn_open (pass_on counts t) t s.graceful s)

module _ {P : Type 0} (web : Web P) where
  -- The chunk with its whole head, the head in its parts, and the head written again.
  abbrev pub whole_head : Bytes → Option Bytes → Option (Bytes × Bytes) → Option Bytes
  whole_head bytes head (some parts) = some bytes
  whole_head bytes none none = none
  whole_head bytes (some more) none = some (bytes ++ more)

  abbrev pub rewrite_parsed : Bytes → Option RequestHead → Option Bytes
  rewrite_parsed rest none = none
  rewrite_parsed rest (some head) = some (new_head web head (web.urlparse head.path) ++ rest)

  abbrev pub rewrite_parts : Option (Bytes × Bytes) → Option Bytes
  rewrite_parts none = none
  rewrite_parts (some (lines, rest)) = rewrite_parsed rest (parse_http_request_head lines)

  abbrev pub rewrite_whole : Option Bytes → Option Bytes
  rewrite_whole none = none
  rewrite_whole (some bytes) = rewrite_parts (partition crlf_twice bytes)

  abbrev pub rewrite_request : Bytes → Option Bytes → Option (Bytes × Bytes × Bytes) → Option Bytes
  rewrite_request bytes head none = some bytes
  rewrite_request bytes head (some line) =
      rewrite_whole (whole_head bytes head (partition crlf_twice bytes))

  abbrev pub rewrite_line : Bytes → Option Bytes → Option (Bytes × Bytes) → Option Bytes
  rewrite_line bytes head none = some bytes
  rewrite_line bytes head (some (line, rest)) = rewrite_request bytes head (method_line line)

  unfoldable pub rewritten : Turn → Bytes → Option Bytes
  rewritten t bytes = rewrite_line bytes t.head (partition line_end bytes)

  abbrev pub pass_http : Turn → Bytes → Channel → Channel
  pass_http t bytes s = forward_some (rewritten t bytes) t.drained s

  unfoldable pub http_channel : List Turn → Channel → Channel
  http_channel [] s = s
  http_channel (t ∷ turns) s = http_channel turns (turn_open (pass_http t) t s.graceful s)
