-- ===== src/H2/Session/Laws.antt =====
-- The limit of the streams, and that no stream is lost.
use python_proxy.Base.{
  ℕ, ◌+◌, ◌<◌, ◌≤◌, ◌≡◌, refl, Bool, true, false, Bool-cases, inl, inr, Option, none, some, List,
  [], ◌∷◌, ◌++◌, ◌==◌, leb, if◌then◌else◌, length, map, Bytes, length-append, length-map, arith,
}
use python_proxy.Base.Dict.{Dict, find, put, Unique}
use python_proxy.Base.Dict.Laws.{length-remove, remove-Unique}
use python_proxy.Base.Dict.Put.{length-put_present, length-put_absent, put-Unique}
use python_proxy.H2.Stream.{Headers, Stream, get_stream, window_update}
use python_proxy.H2.Session.{
  Event, request_received, settings_acknowledged, connection_terminated, other, data_received,
  stream_ended, stream_reset, window_updated, Session, Verdict, goes_on, stops, invalid_state,
  stream_limit, set_headers, request, receive, end_stream, ended_stream, wake, update_one, update,
  handle_event, next_event, handle_events,
}

-- At most MAX_STREAMS streams, no number twice, and each handler that was started has its stream,
-- open or ended.
pub record IsSession (s : Session) : Type 0 where
  pub limit : length s.streams ≤ stream_limit
  pub apart : Unique s.streams
  pub counted : length s.tasks ≡ length s.streams + length s.ended

replaced :
    (id : ℕ) (old new : Stream) (s : Session)
    → find id s.streams ≡ some old
    → IsSession s
    → IsSession (record s { streams = put id new s.streams })
replaced id old new s e h =
    let same = length-put_present id new old s.streams e in
    record {
      limit = omega (arith, same, h.limit);
      apart = put-Unique id new s.streams h.apart;
      counted = omega (arith, same, h.counted);
    }

set_headers-IsSession :
    (id : ℕ) (headers : Headers) (o : Option Headers) (stream : Stream) (s : Session)
    → find id s.streams ≡ some stream
    → IsSession s
    → IsSession (set_headers id headers o stream s).1
set_headers-IsSession id headers none stream s e h = replaced id stream _ s e h
set_headers-IsSession id headers (some old) stream s e h = h

request-IsSession :
    (id : ℕ) (headers : Headers) (o : Option Stream) (s : Session)
    → find id s.streams ≡ o
    → IsSession s
    → IsSession (request id headers o s).1
request-IsSession id headers (some stream) s e h =
    set_headers-IsSession id headers stream.headers stream s e h
request-IsSession id headers none s e h = elim (Bool-cases (leb stream_limit (length s.streams))) [
  | inl full ↦ rw full (record { limit = h.limit; apart = h.apart; counted = h.counted })
  | inr free ↦
      let low = below (length s.streams) free in
      let more = length-put_absent id (record get_stream { headers = some headers }) s.streams e in
      rw free (record {
        limit = omega (arith, more, low);
        apart = put-Unique id (record get_stream { headers = some headers }) s.streams h.apart;
        counted = omega (arith, more, length-append s.tasks (id ∷ []), h.counted);
      })
]
  where
    below : (n : ℕ) → leb stream_limit n ≡ false → n < stream_limit
    below n f = ground arith

receive-IsSession :
    (id : ℕ) (bytes : Bytes) (o : Option Stream) (s : Session)
    → find id s.streams ≡ o
    → IsSession s
    → IsSession (receive id bytes o s).1
receive-IsSession id bytes none s e h = h
receive-IsSession id bytes (some stream) s e h =
    let k = replaced id stream (record stream { fed = stream.fed ++ bytes }) s e h in
    record { limit = k.limit; apart = k.apart; counted = k.counted }

end_stream-IsSession :
    (id : ℕ) (o : Option Stream) (s : Session)
    → find id s.streams ≡ o
    → IsSession s
    → IsSession (end_stream id o s).1
end_stream-IsSession id none s e h = h
end_stream-IsSession id (some stream) s e h =
    let less = length-remove id stream s.streams h.apart e in
    let one = length-append s.ended ((id, ended_stream stream) ∷ []) in
    record {
      limit = omega (arith, less, h.limit);
      apart = remove-Unique id s.streams h.apart;
      counted = omega (arith, less, one, h.counted);
    }

find-wake : (id : ℕ) (d : Dict Stream) → find id d ≡ none → find id (map wake d) ≡ none
find-wake id [] h = refl
find-wake id (e ∷ d) h = go (e.0 == id) h (find-wake id d)
  where
    go :
        (b : Bool)
        → (if b then some e.1 else find id d) ≡ none
        → (find id d ≡ none → find id (map wake d) ≡ none)
        → (if b then some (window_update e.1) else find id (map wake d)) ≡ none
    go true f ih = absurd (cc)
    go false f ih = ih f

wake-Unique : (d : Dict Stream) → Unique d → Unique (map wake d)
wake-Unique [] u = tt
wake-Unique (e ∷ d) u = (find-wake e.0 d u.0, wake-Unique d u.1)

update-IsSession : (id : ℕ) (s : Session) → IsSession s → IsSession (update id s)
update-IsSession id s h = elim (Bool-cases (id == 0)) [
  | inl e ↦
      let same = length-map s.streams wake in
      rw e (record {
        limit = omega (arith, same, h.limit);
        apart = wake-Unique s.streams h.apart;
        counted = omega (arith, same, h.counted);
      })
  | inr e ↦ rw e (go (find id s.streams) refl)
]
  where
    go :
        (o : Option Stream)
        → find id s.streams ≡ o
        → IsSession (record s { streams = update_one id o s.streams })
    go none f = h
    go (some stream) f = replaced id stream (window_update stream) s f h

handle_event-IsSession :
    (client_side : Bool) (event : Event) (s : Session)
    → IsSession s
    → IsSession (handle_event client_side event s).1
unfolding handle_event
handle_event-IsSession true (request_received id headers) s h = h
handle_event-IsSession false (request_received id headers) s h =
    request-IsSession id headers (find id s.streams) s refl h
handle_event-IsSession true settings_acknowledged s h = record {
  limit = h.limit;
  apart = h.apart;
  counted = h.counted;
}
handle_event-IsSession false settings_acknowledged s h = h
handle_event-IsSession client_side (data_received id bytes) s h =
    receive-IsSession id bytes (find id s.streams) s refl h
handle_event-IsSession client_side (stream_ended id) s h =
    end_stream-IsSession id (find id s.streams) s refl h
handle_event-IsSession client_side (stream_reset id) s h =
    end_stream-IsSession id (find id s.streams) s refl h
handle_event-IsSession client_side connection_terminated s h = h
handle_event-IsSession client_side (window_updated id) s h = update-IsSession id s h
handle_event-IsSession client_side other s h = h

-- Any events, in any order, keep the invariant: at most 1024 streams are open, no number twice, and
-- the handlers that were started are as many as the streams that are open or have ended. It holds
-- where the loop stops too, and where a second header block raises.
pub handle_events-IsSession :
    (client_side : Bool) (events : List Event) (s : Session)
    → IsSession s
    → IsSession (handle_events client_side events s).1
unfolding handle_events
handle_events-IsSession client_side [] s h = h
handle_events-IsSession client_side (event ∷ events) s h =
    go (handle_event client_side event s) (handle_event-IsSession client_side event s h)
      (handle_events-IsSession client_side events)
  where
    go :
        (p : Verdict × Session)
        → IsSession p.1
        → ((t : Session) → IsSession t → IsSession (handle_events client_side events t).1)
        → IsSession (next_event (handle_events client_side events) p).1
    go (goes_on, t) k ih = ih t k
    go (stops, t) k ih = k
    go (invalid_state, t) k ih = k
