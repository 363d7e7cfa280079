-- ===== src/Server/Udp/Limit.antt =====
-- While endpoints are opened one at a time and only live associations are used, the limit holds and
-- the count of connections is right.
use python_proxy.Base.{
  ℕ, suc, ◌+◌, ◌≤◌, ◌≡◌, refl, sym, ap, subst, ◌∙◌, Bool, true, false, Option, none, some, List, [],
  ◌∷◌, ◌++◌, if◌then◌else◌, length, arith, Bytes,
}
use python_proxy.Base.Dict.{find, put, Unique}
use python_proxy.Base.Dict.Laws.{length-remove_le}
use python_proxy.Server.Udp.{
  udp_limit, Protocol, Udp, empty_udp, udp_touch, udp_discard, deliver, new_data_arrived,
  wait_for_endpoint, open_at, udp_evict_if_needed, udp_open_connection, construct, connection_made,
  datagram_received, connection_lost,
}
use python_proxy.Server.Udp.Serial.{
  IsCounted, HasRoom, touch_known, touch_new, discard-IsCounted, evict-HasRoom,
}

-- A step in which a new endpoint is there before the next event, and a callback belongs to the
-- association that its address has now; only a protocol that is lost may be a stale one.
pub data Serial : Udp → Udp → Type 0 where
  opens :
      {s t : Udp} (addr : ℕ) (bytes : Bytes)
      → find addr s.udpmap ≡ none
      → udp_open_connection addr bytes s ≡ some t
      → Serial s (construct addr bytes s.opening t)
  passes :
      {s : Udp} (prot : ℕ) (p : Protocol) (bytes : Bytes)
      → find prot s.protocols ≡ some p
      → find p.client_addr s.udpmap ≡ some prot
      → Serial s (new_data_arrived prot bytes s)
  made :
      {s : Udp} (prot : ℕ) (p : Protocol)
      → find prot s.protocols ≡ some p
      → find p.client_addr s.udpmap ≡ some prot
      → Serial s (connection_made prot p s)
  received :
      {s : Udp} (prot : ℕ) (p : Protocol)
      → find prot s.protocols ≡ some p
      → find p.client_addr s.udpmap ≡ some prot
      → Serial s (datagram_received prot p s)
  lost :
      {s : Udp} (prot : ℕ) (p : Protocol)
      → find prot s.protocols ≡ some p
      → Serial s (connection_lost prot p s)

pub data SerialRun : Udp → Udp → Type 0 where
  here : {s : Udp} → SerialRun s s
  after : {s t u : Udp} → SerialRun s t → Serial t u → SerialRun s u

record IsLimited (s : Udp) : Type 0 where
  pub counted : IsCounted 0 s
  pub limit : length s.udp_lru ≤ udp_limit

-- Fields that the counts do not look at.
recount :
    (extra : ℕ) (s t : Udp)
    → s.udpmap ≡ t.udpmap
    → s.udp_lru ≡ t.udp_lru
    → s.raised ≡ t.raised
    → s.lowered ≡ t.lowered
    → IsCounted extra s
    → IsCounted extra t
recount extra s t e f g h c = record {
  agrees = λ k. ap (find k) (sym e) ∙ c.agrees k ∙ ap (find k) f;
  unique = subst Unique f c.unique;
  count = omega (arith, c.count, g, h, ap length f);
}

touch-IsLimited :
    (addr prot old : ℕ) (s t : Udp)
    → s.udpmap ≡ t.udpmap
    → s.udp_lru ≡ t.udp_lru
    → s.raised ≡ t.raised
    → s.lowered ≡ t.lowered
    → find addr s.udpmap ≡ some old
    → IsLimited s
    → IsLimited (udp_touch addr prot t)
touch-IsLimited addr prot old s t e f g h there l =
    let k =
      touch_known addr prot old 0 t (ap (find addr) (sym e) ∙ there)
        (recount 0 s t e f g h l.counted) in
    record { counted = k.0; limit = omega (arith, k.1, l.limit, ap length f) }

waits_inv :
    (addr : ℕ) (bytes : Bytes) (o : Option Udp) (t : Udp)
    → wait_for_endpoint addr bytes o ≡ some t
    → (u : Udp) × (o ≡ some u) × (record u { opening = u.opening ++ (addr, bytes) ∷ [] } ≡ t)
waits_inv addr bytes none t e = absurd (cc)
waits_inv addr bytes (some u) t e = (u, refl, cc)

-- The count is raised before anything else.
raised_by_one : Udp → Udp
raised_by_one s = record s { raised = s.raised + 1 }

raised-IsCounted : (s : Udp) → IsCounted 0 s → IsCounted 1 (raised_by_one s)
unfolding raised_by_one
raised-IsCounted s c = record {
  agrees = c.agrees;
  unique = c.unique;
  count = omega (arith, c.count);
}

constructed :
    (addr : ℕ) (bytes : Bytes) (s u : Udp) (waiting rest : List (ℕ × Bytes))
    → find addr s.udpmap ≡ none
    → HasRoom 1 s u
    → IsLimited (construct addr bytes rest (record u { opening = waiting }))
unfolding construct
constructed addr bytes s u waiting rest absent room =
    let t : Udp = record u {
      protocols =
          put u.next (record { client_addr = addr; databuf = bytes ∷ []; open_ = false })
            u.protocols;
      next = suc u.next;
      opening = rest;
    } in
    let k =
      touch_new addr u.next 0 t (room.absent addr absent)
        (recount 1 u t refl refl refl refl room.counted) in
    record { counted = k.0; limit = omega (arith, k.1, room.room) }

opens-IsLimited :
    (addr : ℕ) (bytes : Bytes) (s t : Udp)
    → find addr s.udpmap ≡ none
    → udp_open_connection addr bytes s ≡ some t
    → IsLimited s
    → IsLimited (construct addr bytes s.opening t)
unfolding udp_open_connection raised_by_one
opens-IsLimited addr bytes s t absent e l =
    let waits : wait_for_endpoint addr bytes (udp_evict_if_needed (raised_by_one s)) ≡ some t =
      ap (λ o. open_at addr bytes o s) (sym absent) ∙ e in
    let evicted = waits_inv addr bytes (udp_evict_if_needed (raised_by_one s)) t waits in
    let u = evicted.0 in
    let room =
      evict-HasRoom 1 (raised_by_one s) u l.limit (raised-IsCounted s l.counted) evicted.1 in
    subst (λ (z : Udp). IsLimited (construct addr bytes s.opening z)) evicted.2
      (constructed addr bytes (raised_by_one s) u (u.opening ++ (addr, bytes) ∷ []) s.opening absent
        room)

passes-IsLimited :
    (prot : ℕ) (p : Protocol) (bytes : Bytes) (s : Udp)
    → find prot s.protocols ≡ some p
    → find p.client_addr s.udpmap ≡ some prot
    → IsLimited s
    → IsLimited (new_data_arrived prot bytes s)
unfolding new_data_arrived
passes-IsLimited prot p bytes s e there l =
    subst (λ o. IsLimited (deliver prot bytes o s)) (sym e) (go p.open_)
  where
    go :
        (b : Bool)
        → IsLimited (
            udp_touch p.client_addr prot (
              if b then record s { sent = s.sent ++ (prot, bytes) ∷ [] } else record s {
                protocols = put prot (record p { databuf = p.databuf ++ bytes ∷ [] }) s.protocols;
              }))
    go true = touch-IsLimited p.client_addr prot prot s _ refl refl refl refl there l
    go false = touch-IsLimited p.client_addr prot prot s _ refl refl refl refl there l

lost-IsLimited : (addr : ℕ) (s : Udp) → IsLimited s → IsLimited (udp_discard addr s)
unfolding udp_discard
lost-IsLimited addr s l = record {
  counted = discard-IsCounted addr 0 s l.counted;
  limit = omega (arith, length-remove_le addr s.udp_lru, l.limit);
}

Serial-IsLimited : {s t : Udp} → IsLimited s → Serial s t → IsLimited t
unfolding connection_made datagram_received connection_lost
Serial-IsLimited {s} {t} l (opens {t = u} addr bytes absent e) =
    opens-IsLimited addr bytes s u absent e l
Serial-IsLimited {s} l (passes prot p bytes e there) = passes-IsLimited prot p bytes s e there l
Serial-IsLimited {s} l (made prot p e there) =
    touch-IsLimited p.client_addr prot prot s _ refl refl refl refl there l
Serial-IsLimited {s} l (received prot p e there) =
    touch-IsLimited p.client_addr prot prot s s refl refl refl refl there l
Serial-IsLimited {s} l (lost prot p e) = lost-IsLimited p.client_addr s l

run-IsLimited : {s t : Udp} → IsLimited s → SerialRun s t → IsLimited t
run-IsLimited l here = l
run-IsLimited l (after path step) = Serial-IsLimited (run-IsLimited l path) step

empty-IsLimited : IsLimited empty_udp
unfolding empty_udp
empty-IsLimited = record {
  counted = record { agrees = λ k. refl; unique = tt; count = omega arith };
  limit = omega arith;
}

-- In every serial run from the start, there are never more associations than UDP_LIMIT, and the
-- number of connections, what was raised less what was lowered, is the number of associations.
pub serial-udp_limit :
    (s : Udp)
    → SerialRun empty_udp s
    → (length s.udp_lru ≤ udp_limit) × (s.raised ≡ s.lowered + length s.udp_lru)
serial-udp_limit s path =
    let l = run-IsLimited empty-IsLimited path in (l.limit, omega (arith, l.counted.count))
