-- ===== src/Peers/Valid.antt =====
-- What the peers of the database have in common, and the addresses that `create` gives out.
use edgekit.Base.{
  and_intro, or_parts, and_parts, inr, inl, Bool-cases, eq_iff, refl, arith, ◌&&◌, str_eq, [], ◌∷◌,
  ◌||◌, ◌++◌, false, ◌≡◌, true, not, map, ◌==◌, any, all, Bool, List,
}
use edgekit.Models.{replace_peer, clashes, Peer}

-- Two rows that share no key.
abbrev pub apart : Peer → Peer → Bool
apart p q = not (
    p.id == q.id
    || str_eq p.name q.name
    || str_eq p.address q.address
    || str_eq p.public_key q.public_key)

-- No two rows share an id, a name, an address or a public key.
unfoldable pub all_apart : List Peer → Bool
all_apart [] = true
all_apart (p ∷ ps) = all (apart p) ps && all_apart ps

apart-last :
    (p q : Peer)
    → (q.id == p.id) ≡ false
    → (not (q.id == p.id)
        && (str_eq q.name p.name || str_eq q.address p.address || str_eq q.public_key p.public_key))
      ≡ false
    → apart q p ≡ true
apart-last p q new fine = ground arith

all-last :
    (p q : Peer) (ps : List Peer)
    → all (apart q) ps ≡ true
    → apart q p ≡ true
    → all (apart q) (ps ++ (p ∷ [])) ≡ true
all-last p q [] h l = ground arith
all-last p q (r ∷ ps) h l = ground (arith, all-last p q ps)

-- A row with a new id that the unique columns admit.
pub all_apart-append :
    (p : Peer) (ps : List Peer)
    → any (λ i. i == p.id) (map (λ (q : Peer). q.id) ps) ≡ false
    → clashes p ps ≡ false
    → all_apart ps ≡ true
    → all_apart (ps ++ (p ∷ [])) ≡ true
unfolding all_apart clashes
all_apart-append p [] new fine h = refl
all_apart-append p (q ∷ ps) new fine h =
    ground (arith, all-last p q ps, apart-last p q, all_apart-append p ps)

apart-replaced :
    (p q : Peer) (ps : List Peer)
    → (q.id == p.id) ≡ false
    → (not (q.id == p.id)
        && (str_eq q.name p.name || str_eq q.address p.address || str_eq q.public_key p.public_key))
      ≡ false
    → all (apart q) ps ≡ true
    → all (apart q) (replace_peer p ps) ≡ true
unfolding replace_peer
apart-replaced p q [] other fine h = refl
apart-replaced p q (r ∷ ps) other fine h = ground (arith, apart-last p q, apart-replaced p q ps)

-- The rows after the replaced one have other ids, and keep their places.
replace_peer-absent :
    (p q : Peer) (ps : List Peer)
    → (q.id == p.id) ≡ true
    → all (apart q) ps ≡ true
    → replace_peer p ps ≡ ps
unfolding replace_peer
replace_peer-absent p q [] same h = refl
replace_peer-absent p q (r ∷ ps) same h = ground (arith, replace_peer-absent p q ps)

apart-first :
    (p q r : Peer)
    → (q.id == p.id) ≡ true
    → apart q r ≡ true
    → (not (r.id == p.id)
        && (str_eq r.name p.name || str_eq r.address p.address || str_eq r.public_key p.public_key))
      ≡ false
    → apart p r ≡ true
apart-first p q r same h fine = ground (
  arith,
  eq_iff r.name p.name,
  eq_iff p.name r.name,
  eq_iff r.address p.address,
  eq_iff p.address r.address,
  eq_iff r.public_key p.public_key,
  eq_iff p.public_key r.public_key,
)

all-apart-first :
    (p q : Peer) (ps : List Peer)
    → (q.id == p.id) ≡ true
    → all (apart q) ps ≡ true
    → clashes p ps ≡ false
    → all (apart p) ps ≡ true
unfolding clashes
all-apart-first p q [] same h fine = refl
all-apart-first p q (r ∷ ps) same h fine =
    let hs = and_parts _ _ h in
    let fs = or_parts _ _ fine in
    and_intro _ _ (apart-first p q r same hs.0 fs.0) (all-apart-first p q ps same hs.1 fs.1)

-- A changed row that the unique columns admit.
pub all_apart-replace_peer :
    (p : Peer) (ps : List Peer)
    → clashes p ps ≡ false
    → all_apart ps ≡ true
    → all_apart (replace_peer p ps) ≡ true
unfolding all_apart clashes replace_peer
all_apart-replace_peer p [] fine h = refl
all_apart-replace_peer p (q ∷ ps) fine h = elim (Bool-cases (q.id == p.id)) [
  | inl same ↦
      let hs = and_parts _ _ h in
      let fs = or_parts _ _ fine in
      rw (same, replace_peer-absent p q ps same hs.0)
        (and_intro _ _ (all-apart-first p q ps same hs.0 fs.1) hs.1)
  | inr other ↦
      let hs = and_parts _ _ h in
      let fs = or_parts _ _ fine in
      rw other (
        and_intro _ _ (apart-replaced p q ps other fs.0 hs.0)
          (all_apart-replace_peer p ps fs.1 hs.1))
]
