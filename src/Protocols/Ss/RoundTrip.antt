-- ===== src/Protocols/Ss/RoundTrip.antt =====
-- What a Shadowsocks client sends is read, and both sides agree on the patches of OTA.
use python_proxy.Base.{
  ℕ, ◌<◌, ◌≡◌, refl, Bool-cases, inl, inr, Bool, true, false, none, some, [], ◌∷◌, ◌++◌,
  append_assoc, if◌then◌else◌, length, Bytes, length-take, arith,
}
use python_proxy.Server.Auth.{AuthTable}
use python_proxy.Cipherpy.Process.{equal_bytes}
use python_proxy.Cipherpy.Process.Laws.{equal_bytes_refl}
use python_proxy.Protocols.Conn.{User, conn, ok, err, protocol}
use python_proxy.Protocols.Conn.Laws.{read_exactly-append}
use python_proxy.Protocols.Address.{Text, IsText, socks_address_stream}
use python_proxy.Protocols.Address.Laws.{domain_bytes, target-lt, stream-domain}
use python_proxy.Protocols.Ota.{ota_start}
use python_proxy.Protocols.Ss.{OtaCipher, header_sum, ss_accept, ss_connect}

module _ {H : Type 0} (text : Text H) (law : IsText text) where
  stream-domain_ota :
      (h : H) (port : ℕ) (rest out : Bytes) (t : AuthTable User)
      → port < 65536
      → socks_address_stream text 19 (conn (domain_bytes (text.encode h) port ++ rest) out t)
        ≡ (ok (h, port, domain_bytes (text.encode h) port), conn rest out t)
  unfolding socks_address_stream
  stream-domain_ota h port rest out t fits =
      unfold socks_address_stream in stream-domain text law h port rest out t fits

  module _ (mac : Bytes → Bytes → Bytes) (cipher : OtaCipher)
      (digest : (key bytes : Bytes) → length (mac key bytes) ≡ 20) where
    abbrev ss_request : Bool → H → ℕ → Bytes
    ss_request false h port = 3 ∷ domain_bytes (text.encode h) port
    ss_request true h port =
        let request = 19 ∷ domain_bytes (text.encode h) port in
        request ++ header_sum mac cipher request

    accept_request :
        (ota : Bool) (user : User) (h : H) (port : ℕ) (rest : Bytes) (t : AuthTable User)
        → cipher.ota ≡ ota
        → port < 65536
        → ss_accept mac text user (some cipher) (conn (ss_request ota h port ++ rest) [] t)
          ≡ (ok ((user, h, port), if ota then some (ota_start 0 []) else none), conn rest [] t)
    unfolding ss_accept
    accept_request false user h port rest t e fits =
        let v = domain_bytes (text.encode h) port in
        rw
          (
            read_exactly-append 1 (3 ∷ []) (v ++ rest) [] t refl,
            stream-domain text law h port rest [] t fits,
            e,
          )
          refl
    accept_request true user h port rest t e fits =
        let v = domain_bytes (text.encode h) port in
        let sum = header_sum mac cipher (19 ∷ v) in
        let ten : length sum ≡ 10 = omega (
          arith,
          length-take 10 (mac (cipher.iv ++ cipher.key) (19 ∷ v)),
          digest (cipher.iv ++ cipher.key) (19 ∷ v),
        ) in
        rw
          (
            append_assoc (19 ∷ v) sum rest,
            read_exactly-append 1 (19 ∷ []) (v ++ (sum ++ rest)) [] t refl,
            stream-domain_ota h port (sum ++ rest) [] t fits,
            read_exactly-append 10 sum rest [] t ten,
            equal_bytes_refl sum,
          )
          refl

    connect_request :
        (ota : Bool) (rauth : Bytes) (h : H) (port : ℕ) (t : AuthTable User)
        → cipher.ota ≡ ota
        → length (text.encode h) < 256
        → port < 65536
        → ss_connect mac text rauth h port (some cipher) (conn [] [] t)
          ≡ (ok (if ota then some 0 else none), conn [] (rauth ++ ss_request ota h port) t)
    unfolding ss_connect
    connect_request false rauth h port t e small fits =
        rw (target-lt text h port small fits, e) refl
    connect_request true rauth h port t e small fits = rw (target-lt text h port small fits, e) refl

    -- A request of OTA with any ten bytes behind it.
    accept-checked :
        (user : User) (h : H) (port : ℕ) (rest sum : Bytes) (t : AuthTable User)
        → port < 65536
        → length sum ≡ 10
        → ss_accept mac text user
            (some cipher)
            (conn (19 ∷ (domain_bytes (text.encode h) port ++ (sum ++ rest))) [] t)
          ≡ (
            if equal_bytes (header_sum mac cipher (19 ∷ domain_bytes (text.encode h) port)) sum
                then ok ((user, h, port), some (ota_start 0 []))
                else err protocol,
            conn rest [] t,
          )
    unfolding ss_accept
    accept-checked user h port rest sum t fits ten =
        let v = domain_bytes (text.encode h) port in
        rw
          (
            read_exactly-append 1 (19 ∷ []) (v ++ (sum ++ rest)) [] t refl,
            stream-domain_ota h port (sum ++ rest) [] t fits,
            read_exactly-append 10 sum rest [] t ten,
          )
          (elim (Bool-cases (equal_bytes (header_sum mac cipher (19 ∷ v)) sum)) [
            | inl e ↦ rw e refl
            | inr e ↦ rw e refl
          ])

    -- With a digest of 20 bytes, a port below 65536 and a host name of less than 256 bytes:
    -- `connect` writes the user's name and a request that `accept`, with the same cipher, reads
    -- back to the host name and the port. With OTA the reader that is installed starts at the
    -- chunk number of the writer that is installed, 0; without it neither is installed. A request
    -- of OTA for this host and port with any ten bytes behind it is accepted where these are the
    -- first ten of its digest, and raises ProtocolError where they are not.
    pub ss_accept-connect :
        (user : User) (rauth : Bytes) (h : H) (port : ℕ) (rest sum : Bytes) (t : AuthTable User)
        → length (text.encode h) < 256
        → port < 65536
        → length sum ≡ 10
        → (request : Bytes) × (ss_connect mac text rauth h port (some cipher) (conn [] [] t)
            ≡ (ok (if cipher.ota then some 0 else none), conn [] (rauth ++ request) t))
          × (ss_accept mac text user (some cipher) (conn (request ++ rest) [] t) ≡ (
            ok ((user, h, port), if cipher.ota then some (ota_start 0 []) else none),
            conn rest [] t,
          ))
          × (ss_accept mac text user
                (some cipher)
                (conn (19 ∷ (domain_bytes (text.encode h) port ++ (sum ++ rest))) [] t)
              ≡ (
                if equal_bytes (header_sum mac cipher (19 ∷ domain_bytes (text.encode h) port)) sum
                    then ok ((user, h, port), some (ota_start 0 []))
                    else err protocol,
                conn rest [] t,
              ))
    ss_accept-connect user rauth h port rest sum t small fits ten = (
      ss_request cipher.ota h port,
      connect_request cipher.ota rauth h port t refl small fits,
      accept_request cipher.ota user h port rest t refl fits,
      accept-checked user h port rest sum t fits ten,
    )
