-- ===== src/Server/Udp/Serial.antt =====
-- How the operations on the associations act on the count of connections and on their number.
use python_proxy.Base.{
  ℕ, ◌+◌, ◌≤◌, ◌<◌, ◌≡◌, refl, sym, ap, subst, ◌∙◌, Bool, true, false, Option, none, some, [], ◌∷◌,
  ◌++◌, ◌==◌, ltb, ltb→lt, if◌then◌else◌, length, length-append, arith,
}
use python_proxy.Base.Dict.{Dict, find, put, remove, Unique}
use python_proxy.Base.Dict.Laws.{
  find-remove, remove-put, remove-absent, length-remove, remove-Unique, snoc-Unique,
}
use python_proxy.Server.Udp.{
  udp_limit, Protocol, Udp, udp_touch, udp_discard, move_to_end, lowered_by, close_transport,
  close_evicted, evict_first, udp_evict_if_needed,
}
use python_proxy.Server.Udp.Lookup.{Agrees, gone, same_key, udp_touch-Agrees, udp_discard-Agrees}

-- `extra` calls have raised the count and wait for their endpoint.
pub record IsCounted (extra : ℕ) (s : Udp) : Type 0 where
  pub agrees : Agrees s
  pub unique : Unique s.udp_lru
  pub count : s.raised ≡ s.lowered + length s.udp_lru + extra

length-moved :
    (addr prot : ℕ) (lru : Dict ℕ)
    → length (move_to_end addr prot (put addr prot lru)) ≡ length (remove addr lru) + 1
length-moved addr prot lru =
    length-append (remove addr (put addr prot lru)) ((addr, prot) ∷ [])
    ∙ ap (λ (d : Dict ℕ). length d + 1) (remove-put addr prot lru)

moved-Unique :
    (addr prot : ℕ) (lru : Dict ℕ) → Unique lru → Unique (move_to_end addr prot (put addr prot lru))
moved-Unique addr prot lru u =
    subst (λ (d : Dict ℕ). Unique (d ++ (addr, prot) ∷ [])) (sym (remove-put addr prot lru))
      (snoc-Unique addr prot (remove addr lru) (remove-Unique addr lru u) (gone addr lru))

-- Touching an association that is there keeps the count, and a new one adds to the map what a call
-- has raised before.
pub touch_known :
    (addr prot old extra : ℕ) (s : Udp)
    → find addr s.udpmap ≡ some old
    → IsCounted extra s
    → IsCounted extra (udp_touch addr prot s)
      × (length (udp_touch addr prot s).udp_lru ≡ length s.udp_lru)
unfolding udp_touch
touch_known addr prot old extra s e c = (
  record {
    agrees = udp_touch-Agrees addr prot s c.agrees;
    unique = unfold udp_touch in moved-Unique addr prot s.udp_lru c.unique;
    count = c.count ∙ ap (λ (n : ℕ). s.lowered + n + extra) (sym size);
  },
  size,
)
  where
    known : length (remove addr s.udp_lru) + 1 ≡ length s.udp_lru
    known = length-remove addr old s.udp_lru c.unique (sym (c.agrees addr) ∙ e)

    size : length (udp_touch addr prot s).udp_lru ≡ length s.udp_lru
    size = unfold udp_touch in (length-moved addr prot s.udp_lru ∙ known)

pub touch_new :
    (addr prot extra : ℕ) (s : Udp)
    → find addr s.udpmap ≡ none
    → IsCounted (extra + 1) s
    → IsCounted extra (udp_touch addr prot s)
      × (length (udp_touch addr prot s).udp_lru ≡ length s.udp_lru + 1)
unfolding udp_touch
touch_new addr prot extra s e c = (
  record {
    agrees = udp_touch-Agrees addr prot s c.agrees;
    unique = unfold udp_touch in moved-Unique addr prot s.udp_lru c.unique;
    count = c.count ∙ added ∙ ap (λ (n : ℕ). s.lowered + n + extra) (sym size);
  },
  size,
)
  where
    absent : remove addr s.udp_lru ≡ s.udp_lru
    absent = remove-absent addr s.udp_lru (sym (c.agrees addr) ∙ e)

    size : length (udp_touch addr prot s).udp_lru ≡ length s.udp_lru + 1
    size =
        unfold udp_touch in
        (length-moved addr prot s.udp_lru ∙ ap (λ (d : Dict ℕ). length d + 1) absent)

    added : s.lowered + length s.udp_lru + (extra + 1) ≡ s.lowered + (length s.udp_lru + 1) + extra
    added = omega arith

discarded :
    (addr extra : ℕ) (o : Option ℕ) (s : Udp)
    → find addr s.udpmap ≡ o
    → IsCounted extra s
    → s.lowered + lowered_by o + length (remove addr s.udp_lru) ≡ s.lowered + length s.udp_lru
discarded addr extra none s e c =
    ap (λ (d : Dict ℕ). s.lowered + 0 + length d)
      (remove-absent addr s.udp_lru (sym (c.agrees addr) ∙ e))
    ∙ omega arith
discarded addr extra (some old) s e c =
    omega (arith, length-remove addr old s.udp_lru c.unique (sym (c.agrees addr) ∙ e))

pub discard-IsCounted :
    (addr extra : ℕ) (s : Udp) → IsCounted extra s → IsCounted extra (udp_discard addr s)
discard-IsCounted addr extra s c = record {
  agrees = udp_discard-Agrees addr s c.agrees;
  unique = unfold udp_discard in remove-Unique addr s.udp_lru c.unique;
  count =
      unfold udp_discard in
      (c.count
        ∙ ap (λ (n : ℕ). n + extra) (sym (discarded addr extra (find addr s.udpmap) s refl c)));
}

-- What eviction leaves: room for one more.
pub record HasRoom (extra : ℕ) (was now : Udp) : Type 0 where
  pub counted : IsCounted extra now
  pub room : length now.udp_lru < udp_limit
  pub absent : (k : ℕ) → find k was.udpmap ≡ none → find k now.udpmap ≡ none

close_transport-HasRoom :
    (extra prot : ℕ) (o : Option Protocol) (was s : Udp)
    → HasRoom extra was s
    → HasRoom extra was (close_transport prot o s)
close_transport-HasRoom extra prot none was s h = h
close_transport-HasRoom extra prot (some p) was s h = go p.open_
  where
    go :
        (b : Bool)
        → HasRoom extra was (if b then record s { closing = s.closing ++ prot ∷ [] } else s)
    go true = record {
      counted = record {
        agrees = h.counted.agrees;
        unique = h.counted.unique;
        count = h.counted.count;
      };
      room = h.room;
      absent = h.absent;
    }
    go false = h

close_evicted-HasRoom :
    (extra : ℕ) (o : Option ℕ) (was s t : Udp)
    → close_evicted o s ≡ some t
    → HasRoom extra was s
    → HasRoom extra was t
close_evicted-HasRoom extra none was s t e h = absurd (cc)
close_evicted-HasRoom extra (some prot) was s t e h =
    subst (HasRoom extra was) {x = close_transport prot (find prot s.protocols) s} {y = t} (cc e)
      (close_transport-HasRoom extra prot (find prot s.protocols) was s h)

still_absent : (addr k : ℕ) (d : Dict ℕ) → find k d ≡ none → find k (remove addr d) ≡ none
still_absent addr k d e = find-remove addr k d ∙ go (addr == k)
  where
    go : (b : Bool) → (if b then none else find k d) ≡ none
    go true = refl
    go false = e

evict_first-HasRoom :
    (extra : ℕ) (lru : Dict ℕ) (s t : Udp)
    → s.udp_lru ≡ lru
    → length lru ≤ udp_limit
    → IsCounted extra s
    → evict_first lru s ≡ some t
    → HasRoom extra s t
evict_first-HasRoom extra [] s t e full c f = absurd (cc)
evict_first-HasRoom extra (x ∷ lru) s t e full c f =
    close_evicted-HasRoom extra (find x.0 s.udpmap) s (udp_discard x.0 s) t f (record {
      counted = discard-IsCounted x.0 extra s c;
      room = smaller;
      absent = λ k h. unfold udp_discard in still_absent x.0 k s.udpmap h;
    })
  where
    there : find x.0 s.udp_lru ≡ some x.1
    there = ap (find x.0) e ∙ rw (same_key x.0) refl

    smaller : length (udp_discard x.0 s).udp_lru < udp_limit
    smaller =
        unfold udp_discard in
        omega (arith, length-remove x.0 x.1 s.udp_lru c.unique there, ap length e, full)

pub evict-HasRoom :
    (extra : ℕ) (s t : Udp)
    → length s.udp_lru ≤ udp_limit
    → IsCounted extra s
    → udp_evict_if_needed s ≡ some t
    → HasRoom extra s t
unfolding udp_evict_if_needed
evict-HasRoom extra s t full c e = go (ltb (length s.udp_lru) udp_limit) refl e
  where
    go :
        (b : Bool)
        → ltb (length s.udp_lru) udp_limit ≡ b
        → (if b then some s else evict_first s.udp_lru s) ≡ some t
        → HasRoom extra s t
    go true h f =
        subst (HasRoom extra s) {x = s} {y = t} (cc f)
          (record { counted = c; room = ltb→lt _ _ h; absent = λ k z. z })
    go false h f = evict_first-HasRoom extra s.udp_lru s t refl full c f
