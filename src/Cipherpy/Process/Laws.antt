-- ===== src/Cipherpy/Process/Laws.antt =====
-- `process` with an encryption that undoes itself and a tag is an AEAD backend, and accepts exactly
-- what it seals.
use python_proxy.Base.{
  ℕ, ◌≡◌, ◌≤◌, ◌↔◌, refl, sym, ap, ap₂, ◌∙◌, Bool, true, false, Option, none, some, [], ◌∷◌, Bytes,
  IsBytes, length, arith,
}
use python_proxy.Cipher.Aead.{IsBackend, IsSealed, packet_limit}
use python_proxy.Cipherpy.Process.{
  equal_bytes, require, with_tag, tagged, process, checked, process_tagged, process_backend,
  IsCrypt, IsMac,
}

pub equal_bytes_refl : (a : Bytes) → equal_bytes a a ≡ true
unfolding equal_bytes
equal_bytes_refl [] = refl
equal_bytes_refl (a ∷ as_) = ground (arith, equal_bytes_refl as_)

pub equal_bytes-eq : (a b : Bytes) → equal_bytes a b ≡ true → a ≡ b
unfolding equal_bytes
equal_bytes-eq [] [] h = refl
equal_bytes-eq [] (b ∷ bs) h = absurd (cc)
equal_bytes-eq (a ∷ as_) [] h = absurd (cc)
equal_bytes-eq (a ∷ as_) (b ∷ bs) h =
    ap₂ ◌∷◌ (ground (arith)) (equal_bytes-eq as_ bs (ground arith))

module _ (crypt : Bytes → Bytes → Option Bytes) (mac : Bytes → Bytes → Option Bytes) where
  process-some :
      (nonce s coded tag : Bytes)
      → crypt nonce s ≡ some coded
      → mac nonce coded ≡ some tag
      → process crypt mac nonce s ≡ some (coded, tag)
  unfolding process
  process-some nonce s coded tag e f = rw (e, f) refl

  process_tagged-some :
      (nonce s tag plain : Bytes)
      → mac nonce s ≡ some tag
      → crypt nonce s ≡ some plain
      → process_tagged crypt mac nonce s tag ≡ some plain
  unfolding process_tagged
  process_tagged-some nonce s tag plain e f = rw (e, equal_bytes_refl tag, f) refl

  sealed :
      (nonce_length tag_length : ℕ) (nonce s : Bytes) (c : IsCrypt crypt mac nonce s)
      → IsMac crypt mac tag_length nonce c.result
      → IsSealed (process_backend crypt mac nonce_length tag_length) nonce s
  sealed nonce_length tag_length nonce s c m =
      let e = process-some nonce s c.result m.tag c.succeeds m.computes in
      record {
        succeeds = rw e refl;
        text_length = rw e c.size;
        tags = rw e m.size;
        opens = rw e (process_tagged-some nonce c.result m.tag s m.computes c.undone);
      }

  pub process-IsBackend :
      (nonce_length tag_length : ℕ)
      → ((nonce s : Bytes)
          → length nonce ≡ nonce_length
          → IsBytes nonce
          → IsCrypt crypt mac nonce s)
      → ((nonce s : Bytes)
          → length nonce ≡ nonce_length
          → IsBytes nonce
          → length s ≤ packet_limit
          → IsMac crypt mac tag_length nonce s)
      → IsBackend (process_backend crypt mac nonce_length tag_length)
  process-IsBackend nonce_length tag_length crypts macs = record {
    seals = λ nonce s e bytes fits.
        let c = crypts nonce s e bytes in
        sealed nonce_length tag_length nonce s c
          (macs nonce c.result e bytes (omega (arith, c.size)));
  }

  with_tag_inv :
      (coded chunk tag : Bytes) (o : Option Bytes)
      → with_tag crypt mac coded o ≡ some (chunk, tag)
      → (coded ≡ chunk) × (o ≡ some tag)
  with_tag_inv coded chunk tag none e = absurd (cc)
  with_tag_inv coded chunk tag (some t) e = (cc, cc)

  tagged_inv :
      (nonce chunk tag : Bytes) (o : Option Bytes)
      → tagged crypt mac nonce o ≡ some (chunk, tag)
      → (o ≡ some chunk) × (mac nonce chunk ≡ some tag)
  tagged_inv nonce chunk tag none e = absurd (cc)
  tagged_inv nonce chunk tag (some coded) e =
      let k = with_tag_inv coded chunk tag (mac nonce coded) e in
      (ap some k.0, ap (mac nonce) (sym k.0) ∙ k.1)

  require_inv :
      (b : Bool) (o : Option Bytes) (plain : Bytes)
      → require b o ≡ some plain
      → (b ≡ true) × (o ≡ some plain)
  require_inv true o plain e = (refl, e)
  require_inv false o plain e = absurd (cc)

  checked_inv :
      (o : Option Bytes) (tag plain : Bytes) (p : Option Bytes)
      → checked crypt mac o tag p ≡ some plain
      → (o ≡ some tag) × (p ≡ some plain)
  checked_inv none tag plain p e = absurd (cc)
  checked_inv (some expected) tag plain p e =
      let k = require_inv (equal_bytes tag expected) p plain e in
      (ap some (sym (equal_bytes-eq tag expected k.0)), k.1)

  -- At a nonce whose encryption undoes itself, a chunk with a tag is accepted as a text exactly when
  -- sealing the text gives this chunk and this tag: nothing else gets through.
  pub process_tagged-process_iff :
      (nonce chunk tag plain : Bytes)
      → ((s : Bytes) → IsCrypt crypt mac nonce s)
      → (process_tagged crypt mac nonce chunk tag ≡ some plain)
        ↔ (process crypt mac nonce plain ≡ some (chunk, tag))
  unfolding process_tagged process
  process_tagged-process_iff nonce chunk tag plain crypts = (accepted, given)
    where
      accepted :
          checked crypt mac (mac nonce chunk) tag (crypt nonce chunk) ≡ some plain
          → tagged crypt mac nonce (crypt nonce plain) ≡ some (chunk, tag)
      accepted e =
          let k = checked_inv (mac nonce chunk) tag plain (crypt nonce chunk) e in
          let c = crypts chunk in
          let same : c.result ≡ plain = cc (c.succeeds, k.1) in
          rw (ap (crypt nonce) (sym same) ∙ c.undone, k.0) refl

      given :
          tagged crypt mac nonce (crypt nonce plain) ≡ some (chunk, tag)
          → checked crypt mac (mac nonce chunk) tag (crypt nonce chunk) ≡ some plain
      given e =
          let k = tagged_inv nonce chunk tag (crypt nonce plain) e in
          let c = crypts plain in
          let same : c.result ≡ chunk = cc (c.succeeds, k.0) in
          rw (k.1, equal_bytes_refl tag) (ap (crypt nonce) (sym same) ∙ c.undone)
