-- ===== src/Server/Auth.antt =====
-- pproxy/server/common.py: `AuthTable`, over a type of users. Addresses are numbers, and so is
-- `time.time()`, in ticks of a clock.
pub mod Window
use python_proxy.Base.{ℕ, ◌-◌, Bool, Option, none, some, [], leb, if◌then◌else◌}
use python_proxy.Base.Dict.{Dict, find, put}

pub record AuthTable (U : Type 0) : Type 0 where
  pub remote_ip : ℕ
  pub authtime : ℕ
  pub auth : Dict ℕ
  pub user : Dict U

unfoldable pub auth_table : {U : Type 0} → ℕ → ℕ → AuthTable U
auth_table remote_ip authtime = record {
  remote_ip = remote_ip;
  authtime = authtime;
  auth = [];
  user = [];
}

-- What `authed` gives; `key_error` is the exception of `self._user[...]`.
pub data Authed (U : Type 0) : Type 0 where
  known_user : U → Authed U
  no_user key_error : Authed U

abbrev pub get : Option ℕ → ℕ
get none = 0
get (some time) = time

abbrev pub user_of : {U : Type 0} → Option U → Authed U
user_of none = key_error
user_of (some user) = known_user user

-- A difference of times below zero is within every window, as 0 is.
unfoldable pub authed : {U : Type 0} → ℕ → AuthTable U → Authed U
authed now t =
    if leb (now - get (find t.remote_ip t.auth)) t.authtime
    then user_of (find t.remote_ip t.user)
    else no_user

unfoldable pub set_authed : {U : Type 0} → ℕ → U → AuthTable U → AuthTable U
set_authed now user t = record t {
  auth = put t.remote_ip now t.auth;
  user = put t.remote_ip user t.user;
}
