-- ===== src/Server/Schedule.antt =====
-- pproxy/server/common.py: `schedule`, with `match_rule` and `connections` of the remotes that it
-- reads (pproxy/server/connections.py). A compiled rule is the function that `re.compile(...).match`
-- gives, `random.choice` is a parameter that picks an index.
pub mod Eligible
pub mod RoundRobin
use python_proxy.Base.{
  ℕ, zero, suc, ◌+◌, ◌/◌, ◌%◌, Bool, true, false, ◌&&◌, ◌||◌, Option, none, some, List, [], ◌∷◌,
  ◌++◌, ltb, if◌then◌else◌, length, get_elem?, Bytes,
}

-- `str(port)`, as bytes, with fuel for its digits.
pub digits_of : ℕ → ℕ → Bytes → Bytes
digits_of zero n acc = acc
digits_of (suc fuel) n acc =
    let rest = digits_of fuel (n / 10) ((b'0' + n % 10) ∷ acc) in
    if ltb n 10 then (b'0' + n % 10) ∷ acc else rest

pub decimal : ℕ → Bytes
decimal n = digits_of (suc n) n []

-- The fields of a remote that `schedule` reads.
pub record Remote : Type 0 where
  pub name : ℕ
  pub alive : Bool
  pub rule : Option (Bytes → Bool)
  pub connections : ℕ

unfoldable pub match_rule : Remote → Bytes → ℕ → Bool
match_rule r host port = elim r.rule [ none ↦ true | some f ↦ f host || f (decimal port) ]

pub data Algorithm : Type 0 where
  fa rr rc lc other : Algorithm

-- The choice, or the ConfigurationError.
pub data Choice : Type 0 where
  chosen : Option Remote → Choice
  unknown_algorithm : Choice

-- The list of remotes is changed in place.
pub record Scheduled : Type 0 where
  pub choice : Choice
  pub remotes : List Remote

unfoldable pub filter_cond : Bytes → ℕ → Remote → Bool
filter_cond host port option = option.alive && match_rule option host port

module _ (cond : Remote → Bool) where
  unfoldable pub first_match : List Remote → Option Remote
  first_match [] = none
  first_match (r ∷ rs) = if cond r then some r else first_match rs

  unfoldable pub matches : List Remote → List Remote
  matches [] = []
  matches (r ∷ rs) = if cond r then r ∷ matches rs else matches rs

  -- The `for` of round robin: what stands before the first match is `seen`, in order.
  unfoldable pub rotate_from : List Remote → List Remote → Scheduled
  rotate_from seen [] = record { choice = unknown_algorithm; remotes = seen }
  rotate_from seen (r ∷ rs) =
      if cond r
      then record { choice = chosen (some r); remotes = (seen ++ rs) ++ r ∷ [] }
      else rotate_from (seen ++ r ∷ []) rs

-- `min(..., key=connections)` keeps the first of equal ones.
unfoldable pub least_from : Remote → List Remote → Remote
least_from best [] = best
least_from best (r ∷ rs) = least_from (if ltb r.connections best.connections then r else best) rs

unfoldable pub least : List Remote → Option Remote
unfolding least_from
least [] = none
least (r ∷ rs) = some (least_from r rs)

abbrev pub choice_at : (ℕ → ℕ) → List Remote → Option Remote
choice_at random [] = none
choice_at random (r ∷ rs) = get_elem? (r ∷ rs) (random (length (r ∷ rs)))

unfoldable pub schedule : (ℕ → ℕ) → List Remote → Algorithm → Bytes → ℕ → Scheduled
schedule random rserver fa host port = record {
  choice = chosen (first_match (filter_cond host port) rserver);
  remotes = rserver;
}
schedule random rserver rr host port = rotate_from (filter_cond host port) [] rserver
schedule random rserver rc host port = record {
  choice = chosen (choice_at random (matches (filter_cond host port) rserver));
  remotes = rserver;
}
schedule random rserver lc host port = record {
  choice = chosen (least (matches (filter_cond host port) rserver));
  remotes = rserver;
}
schedule random rserver other host port = record { choice = unknown_algorithm; remotes = rserver }
