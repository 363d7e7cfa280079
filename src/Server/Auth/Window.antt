-- ===== src/Server/Auth/Window.antt =====
-- The window in which `AuthTable` knows a user.
use python_proxy.Base.{
  ℕ, ◌-◌, ◌<◌, ◌≡◌, refl, ap, ap₂, ◌∙◌, false, Option, some, ==_iff, leb, if◌then◌else◌, arith,
}
use python_proxy.Base.Dict.{Dict, find, put}
use python_proxy.Base.Dict.Laws.{find-put}
use python_proxy.Server.Auth.{
  AuthTable, auth_table, known_user, no_user, key_error, get, user_of, authed, set_authed,
}

found : {V : Type 0} (k : ℕ) (v : V) (d : Dict V) → find k (put k v d) ≡ some v
found k v d = find-put k k v d ∙ ap (λ b. if b then some v else find k d) ((==_iff k k).1 refl)

-- A user that was authenticated at `then_` is given until the window of `authtime` is over, and not
-- after it, whatever the table held before; and a new table gives no user once the clock is beyond
-- `authtime`.
pub authed-set_authed :
    {U : Type 0} (then_ now : ℕ) (user : U) (t : AuthTable U) (remote_ip authtime : ℕ)
    → authtime < now
    → (authed now (set_authed then_ user t)
        ≡ (if leb (now - then_) t.authtime then known_user user else no_user))
      × (authed {U = U} now (auth_table remote_ip authtime) ≡ no_user)
unfolding authed set_authed auth_table
authed-set_authed {U} then_ now user t remote_ip authtime h = (
  ap₂ (λ o (p : Option U). if leb (now - get o) t.authtime then user_of p else no_user)
      (found t.remote_ip then_ t.auth) (found t.remote_ip user t.user),
  ap (λ b. if b then key_error else no_user) late,
)
  where
    late : leb (now - 0) authtime ≡ false
    late = ground (arith, h)
