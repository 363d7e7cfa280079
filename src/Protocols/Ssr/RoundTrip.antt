-- ===== src/Protocols/Ssr/RoundTrip.antt =====
-- What a ShadowsocksR client sends is recognised and read.
use python_proxy.Base.{
  ℕ, zero, suc, ◌-◌, ◌<◌, ◌≤◌, ◌≡◌, refl, ap, ◌∙◌, true, false, Bool, some, List, [], ◌∷◌, ◌++◌,
  append_assoc, ltb, if◌then◌else◌, ◌||◌, min, length, take, Bytes, take-append_self, arith,
}
use python_proxy.Server.Auth.{AuthTable}
use python_proxy.Cipherpy.Process.{equal_bytes}
use python_proxy.Cipherpy.Process.Laws.{equal_bytes_refl, equal_bytes-eq}
use python_proxy.Protocols.Conn.{User, named, conn, ok, continue}
use python_proxy.Protocols.Conn.Laws.{read_exactly-append, read_byte-cons, read-rollback}
use python_proxy.Protocols.Address.{Text, IsText}
use python_proxy.Protocols.Address.Laws.{domain_bytes, target-lt, stream-domain}
use python_proxy.Protocols.Users.{first_user, is_among, starts}
use python_proxy.Protocols.Users.Laws.{first_user-some}
use python_proxy.Protocols.Ssr.{
  longest, consume, ssr_guess_user, ssr_guess, ssr_accept, ssr_connect,
}

take-append_past :
    (n : ℕ) (a b : Bytes) → length a ≤ n → take n (a ++ b) ≡ a ++ take (n - length a) b
take-append_past n [] b h = ap (λ (m : ℕ). take m b) (omega arith)
take-append_past zero (x ∷ a) b h = absurd (omega arith)
take-append_past (suc n) (x ∷ a) b h =
    ap (λ t. x ∷ t) (take-append_past n a b (omega arith))
    ∙ ap (λ (m : ℕ). x ∷ (a ++ take m b)) (omega arith)

length-longest :
    (u : Bytes) (users : List Bytes) → is_among u users ≡ true → length u ≤ longest users
unfolding is_among longest
length-longest u [] h = absurd (cc)
length-longest u (v ∷ users) h = go (equal_bytes u v) refl h (λ k. length-longest u users k)
  where
    big : length v ≤ (if ltb (longest users) (length v) then length v else longest users)
    big = ground arith

    rest : longest users ≤ (if ltb (longest users) (length v) then length v else longest users)
    rest = ground arith

    go :
        (b : Bool)
        → equal_bytes u v ≡ b
        → (b || is_among u users) ≡ true
        → (is_among u users ≡ true → length u ≤ longest users)
        → length u ≤ (if ltb (longest users) (length v) then length v else longest users)
    go true e k ih = rw (equal_bytes-eq u v e) big
    go false e k ih = let less = ih k in omega (arith, less, rest)

module _ {H : Type 0} (text : Text H) (law : IsText text) where
  -- What `connect` writes for one of the users, `guess` and `accept` read back, up to the last byte:
  -- the user, the host name and the port. It wants that no other user's name begins that user's
  -- bytes, and that as many bytes as the longest name has have arrived.
  pub ssr_accept-connect :
      (users : List Bytes) (rauth : Bytes) (h : H) (port arrived : ℕ) (rest : Bytes)
      (t : AuthTable User)
      → is_among rauth users ≡ true
      → ((u tail : Bytes) → is_among u users ≡ true → starts (rauth ++ tail) u ≡ true → u ≡ rauth)
      → length (text.encode h) < 256
      → port < 65536
      → longest users ≤ arrived
      → (hello : Bytes) × (ssr_connect text rauth h port (conn [] [] t) ≡ (ok tt, conn [] hello t))
        × (continue (ssr_accept text) (ssr_guess arrived users (conn (hello ++ rest) [] t))
            ≡ (ok (named rauth, h, port), conn rest [] t))
  unfolding ssr_connect ssr_guess ssr_accept is_among
  ssr_accept-connect [] rauth h port arrived rest t among only small fits enough = absurd (cc)
  ssr_accept-connect (u ∷ us) rauth h port arrived rest t among only small fits enough =
      let users = u ∷ us in
      let request = 3 ∷ domain_bytes (text.encode h) port in
      let input = conn ((rauth ++ request) ++ rest) [] t in
      let all : min arrived (longest users) ≡ longest users = omega (arith, enough) in
      let enough_ = length-longest rauth users among in
      let header : take (longest users) ((rauth ++ request) ++ rest)
          ≡ rauth ++ take (longest users - length rauth) (request ++ rest) =
        rw (append_assoc rauth request rest)
          (take-append_past (longest users) rauth (request ++ rest) enough_) in
      let tail = take (longest users - length rauth) (request ++ rest) in
      let found : first_user (starts (rauth ++ tail)) users ≡ some rauth =
        first_user-some (starts (rauth ++ tail)) rauth users among
          (rw (take-append_self (length rauth) rauth tail refl) (equal_bytes_refl rauth))
          (λ v m e. only v tail m e) in
      let took : consume (some rauth) input ≡ (ok (named rauth), conn (request ++ rest) [] t) =
        rw
          (
            append_assoc rauth request rest,
            read_exactly-append (length rauth) rauth (request ++ rest) [] t refl,
          )
          refl in
      (
        rauth ++ request,
        rw (target-lt text h port small fits) refl,
        ap (continue (ssr_accept text)) (
              read-rollback arrived (longest users) (ssr_guess_user users) input
              ∙ ap (λ n. ssr_guess_user users (take n input.input) input) all
              ∙ ap (λ x. ssr_guess_user users x input) header
              ∙ ap (λ o. consume o input) found
              ∙ took)
            ∙ rw
                (
                  read_byte-cons 3 (domain_bytes (text.encode h) port ++ rest) [] t,
                  stream-domain text law h port rest [] t fits,
                )
                refl,
      )
