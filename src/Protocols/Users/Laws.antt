-- ===== src/Protocols/Users/Laws.antt =====
-- Searching the configured users.
use python_proxy.Base.{
  ◌≡◌, refl, ap, ◌∙◌, inl, inr, Bool, true, false, Bool-cases, some, List, [], ◌∷◌, ◌||◌,
  if◌then◌else◌, Bytes,
}
use python_proxy.Cipherpy.Process.{equal_bytes}
use python_proxy.Cipherpy.Process.Laws.{equal_bytes_refl, equal_bytes-eq}
use python_proxy.Protocols.Users.{is_among, first_user}

pub is_among-head : (u : Bytes) (users : List Bytes) → is_among u (u ∷ users) ≡ true
unfolding is_among
is_among-head u users = ap (λ b. b || is_among u users) (equal_bytes_refl u)

pub is_among-tail :
    (x u : Bytes) (users : List Bytes) → is_among x users ≡ true → is_among x (u ∷ users) ≡ true
unfolding is_among
is_among-tail x u users h = rw h (go (equal_bytes x u))
  where
    go : (b : Bool) → (b || true) ≡ true
    go true = refl
    go false = refl

-- The user in question is found where nobody else passes the test.
pub first_user-some :
    (test : Bytes → Bool) (x : Bytes) (users : List Bytes)
    → is_among x users ≡ true
    → test x ≡ true
    → ((u : Bytes) → is_among u users ≡ true → test u ≡ true → u ≡ x)
    → first_user test users ≡ some x
unfolding first_user is_among
first_user-some test x [] h t only = absurd (cc)
first_user-some test x (u ∷ users) h t only = elim (Bool-cases (test u)) [
  | inl e ↦ rw e (ap some (only u (is_among-head u users) e))
  | inr e ↦ rw e (
      first_user-some test x users (behind e (equal_bytes x u) refl h) t
        (λ v m. only v (is_among-tail v u users m)))
]
  where
    behind :
        test u ≡ false
        → (b : Bool) → equal_bytes x u ≡ b
        → (b || is_among x users) ≡ true
        → is_among x users ≡ true
    behind f false e k = k
    behind f true e k = absurd (cc (ap test (equal_bytes-eq x u e)))

-- Whoever is found is one of the users.
pub first_user-is_among :
    (test : Bytes → Bool) (x : Bytes) (users : List Bytes)
    → first_user test users ≡ some x
    → is_among x users ≡ true
unfolding first_user
first_user-is_among test x [] h = absurd (cc)
first_user-is_among test x (u ∷ users) h = go (test u) h (first_user-is_among test x users)
  where
    go :
        (b : Bool)
        → (if b then some u else first_user test users) ≡ some x
        → (first_user test users ≡ some x → is_among x users ≡ true)
        → is_among x (u ∷ users) ≡ true
    go true k ih =
        let same : x ≡ u = cc in ap (λ y. is_among y (u ∷ users)) same ∙ is_among-head u users
    go false k ih = is_among-tail x u users (ih k)

-- Whoever is found passes the test.
pub first_user-passes :
    (test : Bytes → Bool) (x : Bytes) (users : List Bytes)
    → first_user test users ≡ some x
    → test x ≡ true
unfolding first_user
first_user-passes test x [] h = absurd (cc)
first_user-passes test x (u ∷ users) h = go (test u) refl h (first_user-passes test x users)
  where
    go :
        (b : Bool)
        → test u ≡ b
        → (if b then some u else first_user test users) ≡ some x
        → (first_user test users ≡ some x → test x ≡ true)
        → test x ≡ true
    go true e k ih = let same : x ≡ u = cc in ap test same ∙ e
    go false e k ih = ih k
