-- ===== src/Server/Udp/Lookup.antt =====
-- The two maps of the associations agree, whatever happens, so that eviction always finds one.
use python_proxy.Base.{
  ℕ, ◌+◌, ◌≡◌, refl, sym, ap, subst, ◌∙◌, Bool, true, false, Option, none, some, [], ◌∷◌, ◌++◌,
  ◌==◌, ==_iff, ltb, if◌then◌else◌, length, Bytes,
}
use python_proxy.Base.Dict.{Dict, find, put, remove}
use python_proxy.Base.Dict.Laws.{find-put, find-remove, find-snoc}
use python_proxy.Server.Udp.{
  udp_limit, Protocol, Udp, empty_udp, udp_touch, udp_discard, close_transport, close_evicted,
  evict_first, udp_evict_if_needed, deliver, new_data_arrived, wait_for_endpoint, open_at,
  udp_open_connection, construct, connection_made, datagram_received, connection_lost, Step, packet,
  built, failed, made, received, lost, Reaches, here, after,
}

abbrev pub Agrees : Udp → Type 0
Agrees s = (addr : ℕ) → find addr s.udpmap ≡ find addr s.udp_lru

pub same_key : (k : ℕ) → (k == k) ≡ true
same_key k = (==_iff k k).1 refl

pub gone : (addr : ℕ) (d : Dict ℕ) → find addr (remove addr d) ≡ none
gone addr d = find-remove addr addr d ∙ rw (same_key addr) refl

touched :
    (a : Bool) (prot : ℕ) (x y : Option ℕ)
    → x ≡ y
    → (if a then some prot else x)
      ≡ (if a then some prot else (if a then none else (if a then some prot else y)))
touched true prot x y e = refl
touched false prot x y e = e

pub udp_touch-Agrees : (addr prot : ℕ) (s : Udp) → Agrees s → Agrees (udp_touch addr prot s)
unfolding udp_touch
udp_touch-Agrees addr prot s h k =
    let lru = put addr prot s.udp_lru in
    find-put addr k prot s.udpmap
    ∙ touched (addr == k) prot (find k s.udpmap) (find k s.udp_lru) (h k)
    ∙ sym (
        find-snoc addr k prot (remove addr lru) (gone addr lru)
        ∙ ap (λ z. if addr == k then some prot else z)
            (find-remove addr k lru
              ∙ ap (λ z. if addr == k then none else z) (find-put addr k prot s.udp_lru)))

pub udp_discard-Agrees : (addr : ℕ) (s : Udp) → Agrees s → Agrees (udp_discard addr s)
unfolding udp_discard
udp_discard-Agrees addr s h k =
    find-remove addr k s.udpmap
    ∙ ap (λ z. if addr == k then none else z) (h k)
    ∙ sym (find-remove addr k s.udp_lru)

close_transport-Agrees :
    (prot : ℕ) (o : Option Protocol) (s : Udp) → Agrees s → Agrees (close_transport prot o s)
close_transport-Agrees prot none s h = h
close_transport-Agrees prot (some p) s h = go p.open_
  where
    go : (b : Bool) → Agrees (if b then record s { closing = s.closing ++ prot ∷ [] } else s)
    go true = h
    go false = h

-- A result that is there, and agrees.
pub record Runs (o : Option Udp) : Type 0 where
  pub state : Udp
  pub succeeds : o ≡ some state
  pub agrees : Agrees state

close_evicted-Runs :
    (o : Option ℕ) (prot : ℕ) (s : Udp) → o ≡ some prot → Agrees s → Runs (close_evicted o s)
close_evicted-Runs none prot s e h = absurd (cc)
close_evicted-Runs (some p) prot s e h = record {
  state = close_transport p (find p s.protocols) s;
  succeeds = refl;
  agrees = close_transport-Agrees p (find p s.protocols) s h;
}

evict_first-Runs :
    (lru : Dict ℕ) (s : Udp)
    → s.udp_lru ≡ lru
    → ltb (length lru) udp_limit ≡ false
    → Agrees s
    → Runs (evict_first lru s)
evict_first-Runs [] s e full h = absurd (cc)
evict_first-Runs (x ∷ lru) s e full h =
    let there : find x.0 s.udpmap ≡ some x.1 = found in
    close_evicted-Runs (find x.0 s.udpmap) x.1 (udp_discard x.0 s) there
      (udp_discard-Agrees x.0 s h)
  where
    first : find x.0 (x ∷ lru) ≡ some x.1
    first = rw (same_key x.0) refl

    found : find x.0 s.udpmap ≡ some x.1
    found = h x.0 ∙ ap (find x.0) e ∙ first

pub udp_evict_if_needed-Runs : (s : Udp) → Agrees s → Runs (udp_evict_if_needed s)
unfolding udp_evict_if_needed
udp_evict_if_needed-Runs s h = go (ltb (length s.udp_lru) udp_limit) refl
  where
    go :
        (b : Bool)
        → ltb (length s.udp_lru) udp_limit ≡ b
        → Runs (if b then some s else evict_first s.udp_lru s)
    go true e = record { state = s; succeeds = refl; agrees = h }
    go false e = evict_first-Runs s.udp_lru s refl e h

new_data_arrived-Agrees :
    (prot : ℕ) (bytes : Bytes) (s : Udp) → Agrees s → Agrees (new_data_arrived prot bytes s)
unfolding new_data_arrived
new_data_arrived-Agrees prot bytes s h = go (find prot s.protocols)
  where
    buffered :
        (p : Protocol) (b : Bool)
        → Agrees (
            if b then record s { sent = s.sent ++ (prot, bytes) ∷ [] } else record s {
              protocols = put prot (record p { databuf = p.databuf ++ bytes ∷ [] }) s.protocols;
            })
    buffered p true = h
    buffered p false = h

    go : (o : Option Protocol) → Agrees (deliver prot bytes o s)
    go none = h
    go (some p) = udp_touch-Agrees p.client_addr prot _ (buffered p p.open_)

waits-Runs :
    (addr : ℕ) (bytes : Bytes) (o : Option Udp) → Runs o → Runs (wait_for_endpoint addr bytes o)
waits-Runs addr bytes none r = absurd (cc r.succeeds)
waits-Runs addr bytes (some s) r = record {
  state = record s { opening = s.opening ++ (addr, bytes) ∷ [] };
  succeeds = refl;
  agrees = go s r.state r.succeeds r.agrees;
}
  where
    go : (s t : Udp) → some s ≡ some t → Agrees t → Agrees s
    go s t e h = subst Agrees {x = t} {y = s} (cc e) h

udp_open_connection-Runs :
    (addr : ℕ) (bytes : Bytes) (s : Udp) → Agrees s → Runs (udp_open_connection addr bytes s)
unfolding udp_open_connection
udp_open_connection-Runs addr bytes s h = go (find addr s.udpmap)
  where
    go : (o : Option ℕ) → Runs (open_at addr bytes o s)
    go (some prot) = record {
      state = new_data_arrived prot bytes s;
      succeeds = refl;
      agrees = new_data_arrived-Agrees prot bytes s h;
    }
    go none =
        waits-Runs addr bytes _ (udp_evict_if_needed-Runs (record s { raised = s.raised + 1 }) h)

step-Agrees : {s t : Udp} → Agrees s → Step s t → Agrees t
unfolding construct connection_made datagram_received connection_lost
step-Agrees {s} {t} h (packet addr bytes e) =
    let r = udp_open_connection-Runs addr bytes s h in
    subst Agrees {x = r.state} {y = t} (cc (e, r.succeeds)) r.agrees
step-Agrees {s} h (built before behind addr bytes e) = udp_touch-Agrees addr s.next _ h
step-Agrees h (failed before behind addr bytes e) = h
step-Agrees h (made prot p e) = udp_touch-Agrees p.client_addr prot _ h
step-Agrees {s} h (received prot p e) = udp_touch-Agrees p.client_addr prot s h
step-Agrees {s} h (lost prot p e) = udp_discard-Agrees p.client_addr s h

reaches-Agrees : {s t : Udp} → Agrees s → Reaches s t → Agrees t
reaches-Agrees h here = h
reaches-Agrees h (after path step) = step-Agrees (reaches-Agrees h path) step

-- In every state that the events can lead to, in any order, `udpmap` and `udp_lru` hold the same
-- associations, and the packet of any client is handled without an exception: where an association
-- has to be evicted, there is one to evict.
pub udp_open_connection-Reaches :
    (s : Udp) (addr : ℕ) (bytes : Bytes)
    → Reaches empty_udp s
    → ((k : ℕ) → find k s.udpmap ≡ find k s.udp_lru)
      × ((t : Udp) × (udp_open_connection addr bytes s ≡ some t))
udp_open_connection-Reaches s addr bytes path =
    let h = reaches-Agrees {s = empty_udp} (unfold empty_udp in (λ k. refl)) path in
    let r = udp_open_connection-Runs addr bytes s h in (h, (r.state, r.succeeds))
