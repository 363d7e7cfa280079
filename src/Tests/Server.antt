-- ===== src/Tests/Server.antt =====
-- Runs of pproxy/server/common.py on short lists of remotes.
use python_proxy.Base.{ℕ, ◌≡◌, refl, true, false, none, some, [], ◌∷◌, Bytes}
use python_proxy.Server.Schedule.{
  Remote, lc, chosen, filter_cond, schedule, matches, least, least_from, match_rule,
}
use python_proxy.Server.Schedule.RoundRobin.{turns, turns-each}

abbrev host : Bytes
host = b'h' ∷ b'o' ∷ b's' ∷ b't' ∷ []

abbrev busy : Remote
busy = record { name = 0; alive = true; rule = none; connections = 3 }

abbrev idle_one : Remote
idle_one = record { name = 1; alive = true; rule = none; connections = 0 }

abbrev dead : Remote
dead = record { name = 2; alive = false; rule = none; connections = 0 }

abbrev first_index : ℕ → ℕ
first_index n = 0

busy_then_idle :
    (schedule first_index (busy ∷ idle_one ∷ []) lc host 80).choice ≡ chosen (some idle_one)
unfolding schedule least least_from matches filter_cond match_rule
busy_then_idle = refl

turns-each_example :
    turns first_index host 80 2 (busy ∷ idle_one ∷ [])
    ≡ record { picks = some busy ∷ some idle_one ∷ []; remotes = busy ∷ idle_one ∷ [] }
turns-each_example =
    turns-each first_index host 80 (busy ∷ idle_one ∷ [])
      (unfold filter_cond match_rule in (refl, (refl, tt)))
