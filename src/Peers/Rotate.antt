-- ===== src/Peers/Rotate.antt =====
-- `rotate_keys` keeps the rows apart.
use edgekit.Base.{
  ◌>>◌, Option, ◌⊎◌, ◌∙◌, ==→eq, find-passes, Triple-weaken, Triple-known, none, [], ◌∷◌, ◌==◌,
  arith, some, ◌>>=◌, refl, After, sym, subst, ap, inr, true, inl, Keeps-within, false, Triple-bind,
  Bool-cases, String, Keeps, ◌≡◌, Triple, Exec, List, ℕ,
}
use edgekit.System.Wireguard.{generate_preshared_key, generate_keypair, KeyPair, Network, Addresses}
use edgekit.Peers.Valid.{all_apart-replace_peer, all_apart}
use edgekit.Peers.Service.{on_host, save_peer, rotate_keys, assign, get, peer_or_unknown, World}
use edgekit.Models.{replace_peer, get_peer, clashes, Peer, Database}
use edgekit.System.Shell.{Host}

clashes-after :
    (p q : Peer) (ps : List Peer)
    → p.id ≡ q.id
    → clashes p (replace_peer q ps) ≡ false
    → clashes p ps ≡ false
unfolding clashes replace_peer
clashes-after p q [] e fine = refl
clashes-after p q (r ∷ ps) e fine = ground (arith, clashes-after p q ps)

replace_peer-again :
    (p q : Peer) (ps : List Peer)
    → p.id ≡ q.id
    → replace_peer p (replace_peer q ps) ≡ replace_peer p ps
unfolding replace_peer
replace_peer-again p q [] e = refl
replace_peer-again p q (r ∷ ps) e = elim (Bool-cases (r.id == p.id)) [
  | inl same ↦ ground (arith, replace_peer-again p q ps)
  | inr other ↦ ground (arith, replace_peer-again p q ps)
]

module _ (H : Host) (A : Addresses) (network : Network) (new_id : List ℕ → ℕ) (db0 : Database) where
  abbrev Here : Type 0
  Here = World H A network new_id

  abbrev Untouched : Here → Type 0
  Untouched s = s.db ≡ db0

  abbrev rekeyed : KeyPair → Peer → Database
  rekeyed pair row = record db0 {
    peers =
        replace_peer
          (record row { private_key = some pair.private_key; public_key = pair.public_key })
          db0.peers;
  }

  -- The peer stands in the place of the row with its id.
  pub record Replaced (p : Peer) (s : Here) : Type 0 where
    pub peers : s.db.peers ≡ replace_peer p db0.peers
    pub hosts : s.db.hosts ≡ db0.hosts
    pub apart : all_apart db0.peers ≡ true → all_apart s.db.peers ≡ true

  -- The row has another pair of keys, and that is the only change.
  pub record Rekeyed (peer_id : ℕ) (s : Here) : Type 0 where
    pub row : Peer
    pub pair : KeyPair
    pub found : get_peer peer_id db0 ≡ some row
    pub changed : s.db ≡ rekeyed pair row

  -- Only the keys differ.
  abbrev Renewed : Peer → Peer → Type 0
  Renewed row q = q ≡ record row {
    private_key = q.private_key;
    public_key = q.public_key;
    preshared_key = q.preshared_key;
  }

  -- The row of the id with other keys.
  pub record Rotated (peer_id : ℕ) (q : Peer) : Type 0 where
    pub row : Peer
    pub found : get_peer peer_id db0 ≡ some row
    pub renewed : Renewed row q

  kept_apart :
      (p q : Peer) (db : Database)
      → db ≡ record db0 { peers = replace_peer q db0.peers }
      → p.id ≡ q.id
      → clashes p db.peers ≡ false
      → all_apart db0.peers ≡ true
      → all_apart (replace_peer p db0.peers) ≡ true
  kept_apart p q db e same fine h =
      all_apart-replace_peer p db0.peers
        (clashes-after p q db0.peers same
          (subst (λ (d : Database). clashes p d.peers ≡ false) e fine))
        h

  rewritten :
      (p q : Peer) (db : Database)
      → db ≡ record db0 { peers = replace_peer q db0.peers }
      → p.id ≡ q.id
      → replace_peer p db.peers ≡ replace_peer p db0.peers
  rewritten p q db e same =
      ap (λ (d : Database). replace_peer p d.peers) e ∙ replace_peer-again p q db0.peers same

  save_peer-Replaced :
      (actor action : String) (p q : Peer)
      → p.id ≡ q.id
      → Triple
          (λ s. s.db ≡ record db0 { peers = replace_peer q db0.peers })
          (save_peer H A network new_id actor action p)
          (λ r s. (r ≡ p) × Replaced r s)
          (λ _ s. s.db ≡ record db0 { peers = replace_peer q db0.peers })
  unfolding save_peer
  save_peer-Replaced actor action p q same = record {
    at = λ s h. elim (Bool-cases (clashes p s.db.peers)) [
      | inl e ↦ rw e h
      | inr e ↦ rw e (
        refl,
        record {
          peers = rewritten p q s.db h same;
          hosts = ap (λ (d : Database). d.hosts) h;
          apart = λ a.
              subst (λ ps. all_apart ps ≡ true) (sym (rewritten p q s.db h same))
                (kept_apart p q s.db h same e a);
        },
      )
    ];
  }

  on_host-Keeps :
      {B : Type 0} (db : Database) (m : Exec H.State B)
      → Keeps (λ (s : Here). s.db ≡ db) (on_host H A network new_id m)
  on_host-Keeps db m = Keeps-within _ _ _ m (λ t s p. p)

  abbrev with_pair : KeyPair → Peer → Peer
  with_pair pair peer = record peer {
    private_key = some pair.private_key;
    public_key = pair.public_key;
  }

  -- What follows the first assignment.
  abbrev rotated : String → KeyPair → Peer → Exec Here Peer
  rotated actor pair peer = do
    preshared ← on_host H A network new_id (generate_preshared_key H)
    save_peer H A network new_id actor "peer.rotate_keys"
        (record (with_pair pair peer) { preshared_key = some preshared })

  rotated-Replaced :
      (actor : String) (pair : KeyPair) (peer : Peer) (peer_id : ℕ)
      → get_peer peer_id db0 ≡ some peer
      → Triple
          (λ s. s.db ≡ rekeyed pair peer)
          (rotated actor pair peer)
          (λ q s. Renewed peer q × Replaced q s)
          (λ _. Rekeyed peer_id)
  rotated-Replaced actor pair peer peer_id found =
      Triple-weaken _
        (Triple-bind (λ _ s. s.db ≡ rekeyed pair peer) _ _ (on_host-Keeps _ _)
          (λ preshared.
            Triple-weaken _ (save_peer-Replaced actor "peer.rotate_keys" _ _ refl) (λ s h. h)
              (λ q s h. (subst (Renewed peer) (sym h.0) refl, h.1)) (λ e s h. h)))
        (λ s h. h) (λ q s h. h)
        (λ e s h. record { row = peer; pair = pair; found = found; changed = h })

  abbrev rotation : String → Peer → Exec Here Peer
  rotation actor peer = do
    pair ← on_host H A network new_id (generate_keypair H)
    assign H A network new_id (with_pair pair peer)
    rotated actor pair peer

  assign-Rekeyed :
      (pair : KeyPair) (peer : Peer)
      → Triple Untouched
          (assign H A network new_id (with_pair pair peer))
          (λ _ s. s.db ≡ rekeyed pair peer)
          (λ _ _. ⊥)
  unfolding assign
  assign-Rekeyed pair peer = record {
    at = λ s h.
        ap (λ (d : Database). record d { peers = replace_peer (with_pair pair peer) d.peers }) h;
  }

  rotation-Replaced :
      (actor : String) (peer : Peer) (peer_id : ℕ)
      → get_peer peer_id db0 ≡ some peer
      → Triple Untouched
          (rotation actor peer)
          (λ q s. Renewed peer q × Replaced q s)
          (λ _ s. Untouched s ⊎ Rekeyed peer_id s)
  rotation-Replaced actor peer peer_id found =
      Triple-bind (λ _. Untouched) _ _
        (Triple-weaken _ (on_host-Keeps db0 _) (λ s h. h) (λ q s h. h) (λ e s h. inl h))
        (λ pair.
          Triple-bind (λ _ s. s.db ≡ rekeyed pair peer) _ _
            (Triple-weaken _ (assign-Rekeyed pair peer) (λ s h. h) (λ q s h. h) (λ e s h. absurd h))
            (λ _.
              Triple-weaken _ (rotated-Replaced actor pair peer peer_id found) (λ s h. h)
                (λ q s h. h) (λ e s h. inr h)))

  get-row :
      (peer_id : ℕ)
      → Triple Untouched
          (get H A network new_id peer_id)
          (λ p s. Untouched s × (get_peer peer_id db0 ≡ some p))
          (λ _. Untouched)
  unfolding get
  get-row peer_id = record {
    at = λ s h. row (get_peer peer_id s.db) s h (ap (get_peer peer_id) (sym h));
  }
    where
      row :
          (o : Option Peer) (s : Here)
          → Untouched s
          → get_peer peer_id db0 ≡ o
          → After
              (λ p s. Untouched s × (get_peer peer_id db0 ≡ some p))
              (λ _. Untouched)
              (peer_or_unknown o, s)
      row none s h e = h
      row (some p) s h e = (h, e)

  row_id : (peer_id : ℕ) (p : Peer) → get_peer peer_id db0 ≡ some p → p.id ≡ peer_id
  row_id peer_id p e =
      ==→eq p.id peer_id (find-passes (λ (q : Peer). q.id == peer_id) db0.peers p e)

  -- On return, the row of the id has been replaced by the peer that is returned, which differs from it
  -- in its keys at most, and no other row of peers or hosts has changed; if no two peers shared an id, a name, an address
  -- or a key, this is still so. On an exception the database is as it was, or the row of the id has
  -- another private and public key and nothing else has changed.
  pub rotate_keys-Replaced :
      (peer_id : ℕ) (actor : String)
      → Triple Untouched
          (rotate_keys H A network new_id peer_id actor)
          (λ q s. (q.id ≡ peer_id) × Rotated peer_id q × Replaced q s)
          (λ _ s. Untouched s ⊎ Rekeyed peer_id s)
  unfolding rotate_keys
  rotate_keys-Replaced peer_id actor =
      Triple-bind (λ p s. Untouched s × (get_peer peer_id db0 ≡ some p)) _ _
        (Triple-weaken _ (get-row peer_id) (λ s h. h) (λ q s h. h) (λ e s h. inl h))
        (λ peer.
          Triple-known _ (λ s h. h.1)
            (λ found.
              Triple-weaken _ (rotation-Replaced actor peer peer_id found) (λ s h. h.0)
                (λ q s h. (
                  ap (λ (p : Peer). p.id) h.0 ∙ row_id peer_id peer found,
                  record { row = peer; found = found; renewed = h.0 },
                  h.1,
                ))
                (λ e s h. h)))
