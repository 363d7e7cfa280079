-- ===== src/Tests/Udp.antt =====
-- A client's packets through the UDP associations.
use python_proxy.Base.{ℕ, ◌+◌, ◌≤◌, ◌≡◌, refl, some, [], ◌∷◌, length, Bytes}
use python_proxy.Base.Dict.{find}
use python_proxy.Server.Udp.{
  udp_limit, Udp, empty_udp, udp_evict_if_needed, udp_open_connection, construct, packet, built,
  Reaches, here, after,
}
use python_proxy.Server.Udp.Lookup.{udp_open_connection-Reaches}
use python_proxy.Server.Udp.Limit.{Serial, opens, SerialRun, serial-udp_limit}
use python_proxy.Server.Udp.Limit

abbrev ping : Bytes
ping = 1 ∷ 2 ∷ []

-- A packet of client 5 waits for its endpoint.
abbrev waiting : Udp
waiting = record {
  udpmap = [];
  udp_lru = [];
  raised = 1;
  lowered = 0;
  protocols = [];
  next = 0;
  opening = (5, ping) ∷ [];
  sent = [];
  closing = [];
}

ping_waits : udp_open_connection 5 ping empty_udp ≡ some waiting
unfolding udp_open_connection udp_evict_if_needed empty_udp
ping_waits = refl

one_open : Udp
one_open = construct 5 ping [] waiting

opened_path : Reaches empty_udp one_open
unfolding one_open
opened_path = after (after here (packet 5 ping ping_waits)) (built [] [] 5 ping refl)

udp_open_connection-Reaches_example :
    ((k : ℕ) → find k one_open.udpmap ≡ find k one_open.udp_lru)
    × ((t : Udp) × (udp_open_connection 5 ping one_open ≡ some t))
udp_open_connection-Reaches_example = udp_open_connection-Reaches one_open 5 ping opened_path

serial_path : SerialRun empty_udp one_open
unfolding one_open empty_udp
serial_path = Limit.after Limit.here (opens {t = waiting} 5 ping refl ping_waits)

serial-udp_limit_example :
    (length one_open.udp_lru ≤ udp_limit)
    × (one_open.raised ≡ one_open.lowered + length one_open.udp_lru)
serial-udp_limit_example = serial-udp_limit one_open serial_path
