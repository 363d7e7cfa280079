-- ===== src/Tests/Channel.antt =====
-- Runs of the two channels at concrete turns.
use python_proxy.Base.{ℕ, ◌≡◌, true, false, Option, none, some, List, [], ◌∷◌, refl, Bytes}
use python_proxy.Protocols.Http.{Web, Url}
use python_proxy.Protocols.Channel.{Turn, channel_start, channel, http_channel}
use python_proxy.Protocols.Channel.Laws.{IsRelay, channel-IsRelay}
use python_proxy.Protocols.Channel.Forwards.{forwarded, channel-forwarded}

abbrev gives : Option Bytes → Turn
gives got = record { at_eof = false; is_closing = false; got = got; head = none; drained = true }

-- Two chunks, the end of the input, and a chunk that nobody reads.
abbrev two_chunks : List Turn
two_chunks =
    gives (some (1 ∷ 2 ∷ [])) ∷ gives (some (3 ∷ [])) ∷ gives (some []) ∷ gives (some (4 ∷ [])) ∷ []

abbrev plain_url : Bytes → Url
plain_url p = record { hostname = []; netloc = []; path = p; query = []; relative = p }

abbrev plain_web : Web ℕ
plain_web = record {
  urlparse = plain_url;
  basic = λ user. user;
  int_of = λ text. none;
  port_80 = 80;
  length_text = λ text. [];
}

two_forwarded : forwarded two_chunks ≡ 1 ∷ 2 ∷ 3 ∷ []
unfolding forwarded
two_forwarded = refl

closed_gracefully : (channel true two_chunks (channel_start false)).graceful ≡ some true
unfolding channel channel_start
closed_gracefully = refl

channel-forwarded_example :
    (channel true two_chunks (channel_start false)).written ≡ forwarded two_chunks
channel-forwarded_example = channel-forwarded false two_chunks (refl, (refl, (refl, (refl, tt))))

channel-IsRelay_example :
    IsRelay (channel true two_chunks (channel_start false))
    × IsRelay (http_channel plain_web two_chunks (channel_start false))
channel-IsRelay_example = channel-IsRelay plain_web true false two_chunks
