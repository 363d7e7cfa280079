-- ===== src/Protocols/Conn/Reads.antt =====
-- What the reads of a handshake take from the front of the input.
use python_proxy.Base.{
  ℕ, ◌≡◌, refl, sym, subst, ap, Bool, true, false, Bool-cases, inl, inr, Option, none, some, [],
  ◌∷◌, ◌++◌, ◌==◌, ==_iff, leb, if◌then◌else◌, length, length-take, take-append-drop, Bytes, arith,
}
use python_proxy.Server.Auth.{AuthTable}
use python_proxy.Protocols.Conn.{
  User, Error, Conn, Result, Action, continue, first, require, read_exactly, read_byte, read_before,
  split_cons, split_until, until_end,
}
use python_proxy.Protocols.Conn.Keeps.{After, After-continue, After-weaken}
use python_proxy.Protocols.Users.{has_byte}

-- The table of a connection, where an action raises.
abbrev pub Was : Conn → AuthTable User → Type 0
Was c t = t ≡ c.table

abbrev pub IsRead : Conn → ℕ → Bytes → Conn → Type 0
IsRead c n a d = (c.input ≡ a ++ d.input) × (length a ≡ n) × (d.table ≡ c.table)

abbrev pub IsTaken : Conn → ℕ → Conn → Type 0
IsTaken c b d = (c.input ≡ b ∷ d.input) × (d.table ≡ c.table)

abbrev pub IsFront : Conn → ℕ → Bytes → Conn → Type 0
IsFront c mark a d =
    (c.input ≡ a ++ (mark ∷ d.input)) × (has_byte mark a ≡ false) × (d.table ≡ c.table)

abbrev pub IsHeld : Conn → Bool → Unit {0} → Conn → Type 0
IsHeld c b done d = (b ≡ true) × (d.input ≡ c.input) × (d.table ≡ c.table)

-- An action in front of another, where the table of its connection is good enough for a raise.
pub After-Was :
    {A B : Type 0} (T : AuthTable User → Type 0) (P : A → Conn → Type 0) (Q : B → Conn → Type 0)
    (f : A → Action B) (p : Result A × Conn) (c : Conn)
    → T c.table
    → After (Was c) P p
    → ((a : A) (d : Conn) → P a d → After T Q (f a d))
    → After T Q (continue f p)
After-Was T P Q f p c h r k =
    After-continue T P Q f p (After-weaken (Was c) T P p (λ t e. subst T (sym e) h) r) k

pub read_exactly-IsRead : (n : ℕ) (c : Conn) → After (Was c) (IsRead c n) (read_exactly n c)
unfolding read_exactly
read_exactly-IsRead n c = elim (Bool-cases (leb n (length c.input))) [
  | inl e ↦ rw e (sym (take-append-drop n c.input), ground (arith, length-take n c.input), refl)
  | inr e ↦ rw e refl
]

pub read_byte-IsTaken : (c : Conn) → After (Was c) (IsTaken c) (read_byte c)
unfolding read_byte
read_byte-IsTaken c =
    After-continue (Was c) (IsRead c 1) (IsTaken c) first (read_exactly 1 c)
      (read_exactly-IsRead 1 c) go
  where
    go : (a : Bytes) (d : Conn) → IsRead c 1 a d → After (Was c) (IsTaken c) (first a d)
    go [] d h = absurd (omega (arith, h.1))
    go (b ∷ []) d h = (h.0, h.2)
    go (b ∷ x ∷ a) d h = absurd (omega (arith, h.1))

pub require-IsTrue : (b : Bool) (e : Error) (c : Conn) → After (Was c) (IsHeld c b) (require b e c)
require-IsTrue true e c = (refl, refl, refl)
require-IsTrue false e c = refl

-- What stands in front of the mark has no such byte.
split_until-some :
    (mark : ℕ) (x a rest : Bytes)
    → split_until mark x ≡ some (a, rest)
    → (x ≡ a ++ (mark ∷ rest)) × (has_byte mark a ≡ false)
unfolding split_until has_byte
split_until-some mark [] a rest e = absurd (cc)
split_until-some mark (b ∷ x) a rest e =
    go (b == mark) refl (split_until mark x) refl e (split_until-some mark x)
  where
    go :
        (same : Bool)
        → (b == mark) ≡ same
        → (o : Option (Bytes × Bytes)) → split_until mark x ≡ o
        → ◌≡◌ {A = Option (Bytes × Bytes)}
            (if same then some ([], x) else split_cons b o)
            (some (a, rest))
        → ((a rest : Bytes)
            → split_until mark x ≡ some (a, rest)
            → (x ≡ a ++ (mark ∷ rest)) × (has_byte mark a ≡ false))
        → (b ∷ x ≡ a ++ (mark ∷ rest)) × (has_byte mark a ≡ false)
    go true f o g k ih =
        let nothing : a ≡ [] = cc in
        let behind : rest ≡ x = cc in rw (nothing, behind, (==_iff b mark).0 f) (refl, refl)
    go false f none g k ih = absurd (cc)
    go false f (some (front, back)) g k ih =
        let longer : a ≡ b ∷ front = cc in
        let same : rest ≡ back = cc in
        let h = ih front back g in rw (longer, same, f) (ap (λ y. b ∷ y) h.0, h.1)

pub read_before-IsFront :
    (mark : ℕ) (c : Conn) → After (Was c) (IsFront c mark) (read_before mark c)
unfolding read_before
read_before-IsFront mark c = go (split_until mark c.input) refl
  where
    go :
        (o : Option (Bytes × Bytes))
        → split_until mark c.input ≡ o
        → After (Was c) (IsFront c mark) (until_end o c)
    go none e = refl
    go (some (a, rest)) e = let h = split_until-some mark c.input a rest e in (h.0, h.1, refl)
