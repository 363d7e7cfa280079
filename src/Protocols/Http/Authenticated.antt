-- ===== src/Protocols/Http/Authenticated.antt =====
-- `http_accept` serves nobody who is not known, where users are configured.
use python_proxy.Base.{
  ℕ, ◌≡◌, refl, sym, ap, ◌∙◌, ◌⊎◌, inl, inr, Bool, true, false, not, Bool-cases, Option, none, some,
  List, [], ◌∷◌, ◌&&◌, if◌then◌else◌, Bytes,
}
use python_proxy.Server.Auth.{AuthTable, set_authed}
use python_proxy.Cipherpy.Process.{equal_bytes}
use python_proxy.Cipherpy.Process.Laws.{equal_bytes-eq}
use python_proxy.Protocols.Conn.{
  User, named, truthy, value_error, Conn, Action, Result, ok, err, ◌>>=◌, continue, or_raise,
}
use python_proxy.Protocols.Conn.Keeps.{After, After-continue, After-weaken}
use python_proxy.Protocols.Users.{is_among, first_user, nonempty}
use python_proxy.Protocols.Users.Laws.{
  is_among-head, is_among-tail, first_user-is_among, first_user-passes,
}
use python_proxy.Protocols.Users.Signed.{
  IsKnown, IsSigned, IsAsked, IsAnswered, ask_table-IsAsked, truthy-IsKnown,
}
use python_proxy.Protocols.Http.Head.{RequestHead}
use python_proxy.Protocols.Http.Decode.{decode}
use python_proxy.Protocols.Http.Netloc.{netloc_split}
use python_proxy.Protocols.Http.{
  Web, Url, Connected, get_method, connect_method, either, try_user, queried_user, page_user,
  named_or_nobody, send_page, find_page, matches, login_by_header, http_user, http_login, tunnel,
  pass_on, http_target, http_accept,
}

-- The header carries the user, and the query of the target is the user.
module _ {P : Type 0} (web : Web P) (head : RequestHead) where
  abbrev pub IsCarried : Bytes → Type 0
  IsCarried name = head.proxy_authorization ≡ some (web.basic name)

  abbrev pub IsQueried : Bytes → Type 0
  IsQueried name = decode name ≡ some (web.urlparse head.path).query

  abbrev pub IsGiven : Bytes → Type 0
  IsGiven name = IsCarried name ⊎ IsQueried name

module _ {P : Type 0} (web : Web P) (u : Bytes) (us : List Bytes) (asked granted : ℕ)
    (t : AuthTable User) (head : RequestHead) where
  abbrev users : List Bytes
  users = u ∷ us

  abbrev url : Url
  url = web.urlparse head.path

  abbrev T : AuthTable User → Type 0
  T = IsSigned users asked granted t (IsGiven web head)

  abbrev pub IsServed : User × Bytes × Option P × Connected → Conn → Type 0
  IsServed a c =
      IsKnown users asked granted t (IsCarried web head) a.0 × (c.table ≡ set_authed granted a.0 t)

  abbrev IsEntered : User → Conn → Type 0
  IsEntered user c =
      IsKnown users asked granted t (IsCarried web head) user
      × (c.table ≡ set_authed granted user t)

  given :
      (user : User)
      → IsKnown users asked granted t (IsCarried web head) user
      → IsKnown users asked granted t (IsGiven web head) user
  given user (inl (name, e, among, carried)) = inl (name, e, among, inl carried)
  given user (inr known) = inr known

  -- What the search by the query finds.
  abbrev IsFound : List Bytes → Option Bytes → Conn → Type 0
  IsFound us none c = c.table ≡ t
  IsFound us (some x) c = (is_among x us ≡ true) × IsQueried web head x × (c.table ≡ t)

  queried_user-IsFound :
      (us : List Bytes) (c : Conn)
      → c.table ≡ t
      → After T (IsFound us) (queried_user web url.query us c)
  unfolding queried_user
  queried_user-IsFound [] c e = e
  queried_user-IsFound (x ∷ us) c e = go (decode x) refl (queried_user-IsFound us c e)
    where
      later :
          (p : Result (Option Bytes) × Conn) → After T (IsFound us) p → After T (IsFound (x ∷ us)) p
      later (ok none, d) h = h
      later (ok (some y), d) h = (is_among-tail y x us h.0, h.1, h.2)
      later (err f, d) h = h

      go :
          (o : Option Bytes)
          → decode x ≡ o
          → After T (IsFound us) (queried_user web url.query us c)
          → After T
              (IsFound (x ∷ us))
              (try_user web url.query x (queried_user web url.query us) o c)
      go none f ih = inl e
      go (some text) f ih = elim (Bool-cases (equal_bytes text url.query)) [
        | inl same ↦
            rw same (is_among-head x us, f ∙ ap some (equal_bytes-eq text url.query same), e)
        | inr other ↦ rw other (later (queried_user web url.query us c) ih)
      ]

  find_page-IsServed :
      (ver host : Bytes) (pages : List (Bytes × (Bytes → Bytes))) (c : Conn)
      → c.table ≡ t
      → After T IsServed (find_page web granted users url ver host pages c)
  unfolding find_page
  find_page-IsServed ver host [] c e = inl e
  find_page-IsServed ver host (page ∷ pages) c e =
      go (equal_bytes page.0 url.path) (λ d f. find_page-IsServed ver host pages d f)
    where
      rest : Action (User × Bytes × Option P × Connected)
      rest = find_page web granted users url ver host pages

      served :
          (found : Option Bytes) (d : Conn)
          → IsFound users found d
          → ((d : Conn) → d.table ≡ t → After T IsServed (rest d))
          → After T IsServed (
              (if truthy (named_or_nobody web found)
                  then send_page web granted users (named_or_nobody web found) ver (page.1 host)
                  else rest)
                d)
      served none d h ih = ih d h
      served (some []) d h ih = ih d h.2
      served (some (b ∷ x)) d h ih = inr (
        named (b ∷ x),
        inl (b ∷ x, refl, h.0, inr h.1),
        ap (set_authed granted (named (b ∷ x))) h.2,
      )

      go :
          (b : Bool)
          → ((d : Conn) → d.table ≡ t → After T IsServed (rest d))
          → After T IsServed (
              (if b
                  then (page_user web users url.query >>= λ user.
                      if truthy user
                      then send_page web granted users user ver (page.1 host)
                      else rest)
                  else rest)
                c)
      go true ih =
          let Page : User → Conn → Type 0 = λ user d.
            (found : Option Bytes) × (user ≡ named_or_nobody web found) × IsFound users found d in
          After-continue T Page IsServed _ (page_user web users url.query c)
            (After-continue T (IsFound users) Page _ _ (queried_user-IsFound users c e)
              (λ found d h. (found, refl, h)))
            (λ user d k. rw k.1 (served k.0 d k.2 ih))
      go false ih = ih c e

  http_user-IsKnown :
      (ver : Bytes) (user : User) (c : Conn)
      → IsAsked users asked granted t (IsCarried web head) user c
      → After T
          (λ login c. IsKnown users asked granted t (IsCarried web head) login × (c.table ≡ t))
          (http_user web ver head.proxy_authorization users user c)
  http_user-IsKnown ver user c h = elim (Bool-cases (truthy user)) [
    | inl e ↦ rw e (truthy-IsKnown users asked granted t (IsCarried web head) user h.0 e, h.1)
    | inr e ↦ rw e (go (first_user (matches web head.proxy_authorization) users) refl)
  ]
    where
      carried : (x : Bytes) (o : Option Bytes) → matches web o x ≡ true → o ≡ some (web.basic x)
      carried x none f = absurd (cc)
      carried x (some pauth) f = ap some (sym (equal_bytes-eq (web.basic x) pauth f))

      go :
          (o : Option Bytes)
          → first_user (matches web head.proxy_authorization) users ≡ o
          → After T
              (λ login c. IsKnown users asked granted t (IsCarried web head) login × (c.table ≡ t))
              (login_by_header web ver o c)
      go none e = inl h.1
      go (some x) e =
          let test = matches web head.proxy_authorization in
          (
            inl (
              x,
              refl,
              first_user-is_among test x users e,
              carried x head.proxy_authorization (first_user-passes test x users e),
            ),
            h.1,
          )

  http_login-IsEntered :
      (ver : Bytes) (user : User) (c : Conn)
      → c.table ≡ t
      → After T IsEntered (http_login web asked granted ver head.proxy_authorization user users c)
  http_login-IsEntered ver user c e =
      After-continue T (IsAnswered users asked granted t (IsCarried web head) c) IsEntered _ _
        (After-weaken (λ t'. t' ≡ t) T (IsAnswered users asked granted t (IsCarried web head) c) _
          (λ t'. inl) (ask_table-IsAsked users asked granted t (IsCarried web head) c e))
        (λ known c h.
          After-continue T
            (λ login c. IsKnown users asked granted t (IsCarried web head) login × (c.table ≡ t))
            IsEntered _ _ (http_user-IsKnown ver known c h.0)
            (λ login c k. (k.0, ap (set_authed granted login) k.1)))

  http_target-IsServed :
      (authority : Bytes) (user : User) (c : Conn)
      → IsEntered user c
      → After T IsServed (http_target web authority head url user c)
  http_target-IsServed authority user c h = go (equal_bytes head.method connect_method)
    where
      answer :
          (o : Option (Bytes × Option P)) (k : Bytes × Option P → Connected)
          → After T IsServed (
              continue
                (λ target c. (ok (user, target.0, target.1, k target), c))
                (or_raise value_error o c))
      answer none k = inr (user, given user h.0, h.1)
      answer (some target) k = h

      go :
          (b : Bool)
          → After T IsServed
              ((if b then tunnel web authority head user else pass_on web head url user) c)
      go true = answer (netloc_split web.int_of none (either authority head.path)) _
      go false = answer (netloc_split web.int_of (some web.port_80) (either url.netloc head.host)) _

  -- Where users are configured, `http_accept` returns only for a user of the list whose Basic login is the
  -- `Proxy-Authorization` of the head, or for whom the table knew when it was asked, and it signs exactly
  -- that user in. Where it raises, also behind a page that it served, the table is as it was, or such a
  -- user was signed in, or a user of the list whose text is the query of the target.
  pub http_accept-IsServed :
      (httpget : List (Bytes × (Bytes → Bytes))) (authority : Bytes) (user : User) (c : Conn)
      → c.table ≡ t
      → After T IsServed (http_accept web asked granted users httpget authority user head c)
  unfolding http_accept
  http_accept-IsServed httpget authority user c e =
      go (equal_bytes head.method get_method && not (nonempty url.hostname))
    where
      go :
          (b : Bool)
          → After T IsServed (
              (if b
                  then find_page web granted users url head.ver head.host httpget
                  else (http_login web asked granted head.ver head.proxy_authorization user users
                      >>= http_target web authority head url))
                c)
      go true = find_page-IsServed head.ver head.host httpget c e
      go false =
          After-continue T IsEntered IsServed _ _ (http_login-IsEntered head.ver user c e)
            (http_target-IsServed authority)
