-- ===== src/Peers/Delete.antt =====
-- `delete` never leaves a proxy host pointing at a peer that is gone.
use edgekit.Peers.Service.{peer_or_unknown, remove, refuse_if, get, delete, World, serves}
use edgekit.Base.{
  Exec, find-passes, ==→eq, inr, After, inl, Triple-bind, ◌>>◌, ap, Bool-cases, sym, Triple, String,
  subst, refl, [], arith, ◌∷◌, some, false, true, none, ◌≡◌, not, ◌==◌, any, ◌≢◌, find, all, Bool,
  keep, Option, List, ℕ,
}
use edgekit.Models.{get_peer, ProxyHost, Peer, Database}
use edgekit.System.Wireguard.{Network, Addresses}
use edgekit.System.Shell.{Host}

-- The host's peer, if it has one, is among the peers.
abbrev pub known : List Peer → ProxyHost → Bool
known ps h = elim h.peer_id [ none ↦ true | some id ↦ any (λ p. p.id == id) ps ]

-- `peer_id` is a foreign key.
unfoldable pub all_served : Database → Bool
all_served db = all (known db.peers) db.hosts

any-keep :
    (id n : ℕ) (ps : List Peer)
    → n ≢ id
    → any (λ p. p.id == n) ps ≡ true
    → any (λ p. p.id == n) (keep (λ p. not (p.id == id)) ps) ≡ true
unfolding keep
any-keep id n [] ne h = h
any-keep id n (p ∷ ps) ne h = ground (arith, any-keep id n ps)

known-keep :
    (id : ℕ) (ps : List Peer) (o : Option ℕ)
    → elim o [ none ↦ false | some n ↦ n == id ] ≡ false
    → elim o [ none ↦ true | some n ↦ any (λ (p : Peer). p.id == n) ps ] ≡ true
    → elim o [
      | none ↦ true
      | some n ↦ any (λ (p : Peer). p.id == n) (keep (λ p. not (p.id == id)) ps)
    ]
      ≡ true
known-keep id ps none unserved h = refl
known-keep id ps (some n) unserved h = any-keep id n ps (λ e. absurd (ground (arith, e))) h

all-known-keep :
    (id : ℕ) (ps : List Peer) (hs : List ProxyHost)
    → any (serves id) hs ≡ false
    → all (known ps) hs ≡ true
    → all (known (keep (λ p. not (p.id == id)) ps)) hs ≡ true
all-known-keep id ps [] un h = refl
all-known-keep id ps (g ∷ hs) un h =
    ground (arith, known-keep id ps g.peer_id, all-known-keep id ps hs)

find-keep :
    (id : ℕ) (ps : List Peer) → find (λ p. p.id == id) (keep (λ p. not (p.id == id)) ps) ≡ none
unfolding keep
find-keep id [] = refl
find-keep id (p ∷ ps) = ground (arith, find-keep id ps)

module _ (H : Host) (A : Addresses) (network : Network) (new_id : List ℕ → ℕ) (db0 : Database) where
  abbrev Here : Type 0
  Here = World H A network new_id

  -- The row is gone, and nothing else of the peers and hosts has changed.
  pub record Removed (peer_id : ℕ) (s : Here) : Type 0 where
    pub peers : s.db.peers ≡ keep (λ p. not (p.id == peer_id)) db0.peers
    pub hosts : s.db.hosts ≡ db0.hosts
    pub settings : s.db.settings ≡ db0.settings
    pub gone : get_peer peer_id s.db ≡ none
    pub served : all_served db0 ≡ true → all_served s.db ≡ true

  After-get :
      (peer_id : ℕ) (o : Option Peer) (s : Here)
      → get_peer peer_id s.db ≡ o
      → s.db ≡ db0
      → After (λ p s. (s.db ≡ db0) × (p.id ≡ peer_id)) (λ e s. s.db ≡ db0) (peer_or_unknown o, s)
  After-get peer_id none s e h = h
  After-get peer_id (some p) s e h =
      (h, ==→eq p.id peer_id (find-passes (λ (p : Peer). p.id == peer_id) s.db.peers p e))

  pub get-found :
      (peer_id : ℕ)
      → Triple
          (λ (s : Here). s.db ≡ db0)
          (get H A network new_id peer_id)
          (λ p s. (s.db ≡ db0) × (p.id ≡ peer_id))
          (λ e s. s.db ≡ db0)
  unfolding get
  get-found peer_id = record { at = λ s h. After-get peer_id (get_peer peer_id s.db) s refl h }

  refuse_if-passed :
      (test : Database → Bool) (why : String)
      → Triple
          (λ (s : Here). s.db ≡ db0)
          (refuse_if H A network new_id test why)
          (λ _ s. (s.db ≡ db0) × (test db0 ≡ false))
          (λ e s. s.db ≡ db0)
  unfolding refuse_if
  refuse_if-passed test why = record {
    at = λ s h. elim (Bool-cases (test s.db)) [
      | inl e ↦ rw e h
      | inr e ↦ rw e (h, subst (λ d. test d ≡ false) h e)
    ];
  }

  all_served-drop :
      (id : ℕ) (db : Database)
      → db ≡ db0
      → any (serves id) db0.hosts ≡ false
      → all_served db0 ≡ true
      → all (known (keep (λ p. not (p.id == id)) db.peers)) db.hosts ≡ true
  unfolding all_served
  all_served-drop id db e un h =
      subst (λ (d : Database). all (known (keep (λ p. not (p.id == id)) d.peers)) d.hosts ≡ true)
        (sym e) (all-known-keep id db0.peers db0.hosts un h)

  remove-Removed :
      (actor : String) (peer : Peer)
      → any (serves peer.id) db0.hosts ≡ false
      → Triple
          (λ (s : Here). s.db ≡ db0)
          (remove H A network new_id actor peer)
          (λ _. Removed peer.id)
          (λ e s. s.db ≡ db0)
  unfolding remove all_served
  remove-Removed actor peer un = record {
    at = λ s h. record {
      peers = ap (λ (d : Database). keep (λ p. not (p.id == peer.id)) d.peers) h;
      hosts = ap (λ (d : Database). d.hosts) h;
      settings = ap (λ (d : Database). d.settings) h;
      gone = find-keep peer.id s.db.peers;
      served = all_served-drop peer.id s.db h un;
    };
  }

  abbrev removal : String → Peer → Exec Here String
  removal actor p =
      refuse_if H A network new_id (λ db. any (serves p.id) db.hosts) "serves hosts"
      >> remove H A network new_id actor p

  removal-Removed :
      (actor : String) (p : Peer)
      → Triple (λ (s : Here). s.db ≡ db0) (removal actor p) (λ _. Removed p.id) (λ e s. s.db ≡ db0)
  removal-Removed actor p =
      Triple-bind (λ _ s. (s.db ≡ db0) × (any (serves p.id) db0.hosts ≡ false)) _ _
        (refuse_if-passed _ _) (λ _. record { at = λ s h. (remove-Removed actor p h.1).at s h.0 })

  -- On return, the peer's row is gone, the other peers, the hosts and the settings are as they were,
  -- and if every host's peer was among the peers, it still is. On an exception the database is as it
  -- was.
  pub delete-Removed :
      (peer_id : ℕ) (actor : String)
      → Triple
          (λ (s : Here). s.db ≡ db0)
          (delete H A network new_id peer_id actor)
          (λ _. Removed peer_id)
          (λ e s. s.db ≡ db0)
  unfolding delete
  delete-Removed peer_id actor =
      Triple-bind (λ p s. (s.db ≡ db0) × (p.id ≡ peer_id)) _ _ (get-found peer_id)
        (λ p. record {
          at = λ s h.
              subst (λ id. After (λ _. Removed id) (λ e s. s.db ≡ db0) (removal actor p s)) h.1
                ((removal-Removed actor p).at s h.0);
        })
