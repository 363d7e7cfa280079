-- ===== src/Server/Udp.antt =====
-- The UDP associations of `ProxyDirect` (pproxy/server/connections.py): the `udp_` methods, the
-- callbacks of `Protocol`, and the events that the event loop delivers, in any order.
pub mod Lookup
pub mod Serial
pub mod Limit
use python_proxy.Base.{
  ℕ, suc, ◌+◌, ◌≡◌, Bool, true, false, Option, none, some, List, [], ◌∷◌, ◌++◌, ◌==◌, ltb,
  if◌then◌else◌, length, Bytes,
}
use python_proxy.Base.Dict.{Dict, find, put, remove}

-- `UDP_LIMIT` of pproxy/runtime/policy.py.
abbrev pub udp_limit : ℕ
udp_limit = 30

-- One `Protocol`: the client's address, what it has buffered, and whether it has its transport.
pub record Protocol : Type 0 where
  pub client_addr : ℕ
  pub databuf : List Bytes
  pub open_ : Bool

-- The state. A protocol is known by its number in `protocols`. `connections` is the difference of
-- the changes by 1 and by -1. `opening` holds the calls that wait for their endpoint: address and
-- packet. `sent` and `closing` record what was done to the transports, by protocol.
pub record Udp : Type 0 where
  pub udpmap : Dict ℕ
  pub udp_lru : Dict ℕ
  pub raised : ℕ
  pub lowered : ℕ
  pub protocols : Dict Protocol
  pub next : ℕ
  pub opening : List (ℕ × Bytes)
  pub sent : List (ℕ × Bytes)
  pub closing : List ℕ

unfoldable pub empty_udp : Udp
empty_udp = record {
  udpmap = [];
  udp_lru = [];
  raised = 0;
  lowered = 0;
  protocols = [];
  next = 0;
  opening = [];
  sent = [];
  closing = [];
}

-- `OrderedDict.move_to_end` of an entry with this value.
abbrev pub move_to_end : ℕ → ℕ → Dict ℕ → Dict ℕ
move_to_end addr prot lru = remove addr lru ++ (addr, prot) ∷ []

unfoldable pub udp_touch : ℕ → ℕ → Udp → Udp
udp_touch addr prot s = record s {
  udpmap = put addr prot s.udpmap;
  udp_lru = move_to_end addr prot (put addr prot s.udp_lru);
}

abbrev pub lowered_by : Option ℕ → ℕ
lowered_by none = 0
lowered_by (some prot) = 1

-- `udp_discard`; what it returns is `find addr s.udpmap`.
unfoldable pub udp_discard : ℕ → Udp → Udp
udp_discard addr s = record s {
  udp_lru = remove addr s.udp_lru;
  udpmap = remove addr s.udpmap;
  lowered = s.lowered + lowered_by (find addr s.udpmap);
}

-- `if prot.transport: prot.transport.close()`. `none` is the AttributeError of a missing `prot`.
abbrev pub close_transport : ℕ → Option Protocol → Udp → Udp
close_transport prot none s = s
close_transport prot (some p) s =
    if p.open_ then record s { closing = s.closing ++ prot ∷ [] } else s

abbrev pub close_evicted : Option ℕ → Udp → Option Udp
close_evicted none s = none
close_evicted (some prot) s = some (close_transport prot (find prot s.protocols) s)

-- The oldest association goes, unless there are fewer than the limit.
abbrev pub evict_first : Dict ℕ → Udp → Option Udp
evict_first [] s = none
evict_first (e ∷ lru) s = close_evicted (find e.0 s.udpmap) (udp_discard e.0 s)

unfoldable pub udp_evict_if_needed : Udp → Option Udp
udp_evict_if_needed s = if ltb (length s.udp_lru) udp_limit then some s else evict_first s.udp_lru s

-- `new_data_arrived`.
abbrev pub deliver : ℕ → Bytes → Option Protocol → Udp → Udp
deliver prot packet none s = s
deliver prot packet (some p) s = udp_touch p.client_addr prot (
    if p.open_ then record s { sent = s.sent ++ (prot, packet) ∷ [] } else record s {
      protocols = put prot (record p { databuf = p.databuf ++ packet ∷ [] }) s.protocols;
    })

unfoldable pub new_data_arrived : ℕ → Bytes → Udp → Udp
new_data_arrived prot packet s = deliver prot packet (find prot s.protocols) s

abbrev pub wait_for_endpoint : ℕ → Bytes → Option Udp → Option Udp
wait_for_endpoint addr packet none = none
wait_for_endpoint addr packet (some s) =
    some (record s { opening = s.opening ++ (addr, packet) ∷ [] })

-- `udp_open_connection`, up to the `await` of the endpoint.
abbrev pub open_at : ℕ → Bytes → Option ℕ → Udp → Option Udp
open_at addr packet (some prot) s = some (new_data_arrived prot packet s)
open_at addr packet none s =
    wait_for_endpoint addr packet (udp_evict_if_needed (record s { raised = s.raised + 1 }))

unfoldable pub udp_open_connection : ℕ → Bytes → Udp → Option Udp
udp_open_connection addr packet s = open_at addr packet (find addr s.udpmap) s

-- `Protocol.__init__`; `rest` are the calls that still wait for their endpoint.
unfoldable pub construct : ℕ → Bytes → List (ℕ × Bytes) → Udp → Udp
construct addr packet rest s = udp_touch addr s.next (record s {
  protocols =
      put s.next (record { client_addr = addr; databuf = packet ∷ []; open_ = false }) s.protocols;
  next = suc s.next;
  opening = rest;
})

abbrev pub flushed : ℕ → List Bytes → List (ℕ × Bytes)
flushed prot [] = []
flushed prot (packet ∷ packets) = (prot, packet) ∷ flushed prot packets

unfoldable pub connection_made : ℕ → Protocol → Udp → Udp
connection_made prot p s = udp_touch p.client_addr prot (record s {
  protocols = put prot (record p { databuf = []; open_ = true }) s.protocols;
  sent = s.sent ++ flushed prot p.databuf;
})

unfoldable pub datagram_received : ℕ → Protocol → Udp → Udp
datagram_received prot p s = udp_touch p.client_addr prot s

unfoldable pub connection_lost : ℕ → Protocol → Udp → Udp
connection_lost prot p s = udp_discard p.client_addr s

-- What the event loop may do next: a packet of a client arrives, the endpoint of any of the calls
-- that wait is there or cannot be opened, or a callback of a protocol is called, also of one whose
-- association has been evicted.
pub data Step : Udp → Udp → Type 0 where
  packet :
      {s t : Udp} (addr : ℕ) (bytes : Bytes) → udp_open_connection addr bytes s ≡ some t → Step s t
  built :
      {s : Udp} (before behind : List (ℕ × Bytes)) (addr : ℕ) (bytes : Bytes)
      → s.opening ≡ before ++ (addr, bytes) ∷ behind
      → Step s (construct addr bytes (before ++ behind) s)
  failed :
      {s : Udp} (before behind : List (ℕ × Bytes)) (addr : ℕ) (bytes : Bytes)
      → s.opening ≡ before ++ (addr, bytes) ∷ behind
      → Step s (record s { opening = before ++ behind })
  made :
      {s : Udp} (prot : ℕ) (p : Protocol)
      → find prot s.protocols ≡ some p
      → Step s (connection_made prot p s)
  received :
      {s : Udp} (prot : ℕ) (p : Protocol)
      → find prot s.protocols ≡ some p
      → Step s (datagram_received prot p s)
  lost :
      {s : Udp} (prot : ℕ) (p : Protocol)
      → find prot s.protocols ≡ some p
      → Step s (connection_lost prot p s)

pub data Reaches : Udp → Udp → Type 0 where
  here : {s : Udp} → Reaches s s
  after : {s t u : Udp} → Reaches s t → Step t u → Reaches s u
