-- ===== src/Peers/Create.antt =====
-- `create` adds one well-formed peer, or nothing.
use edgekit.Base.{
  Keeps-within, Triple-gets-bind, Triple-bind, sym, Triple-lift-bind, subst, ap, inr, Triple, map,
  inl, ◌==◌, keeps_rules, Bool-cases, any, [], Keeps, ◌∷◌, true, String, Exec, Bool, ◌++◌, All,
  false, member, ◌≤◌, List, ◌≡◌, ℕ,
}
use edgekit.Peers.Addresses.{choose_address-Tunnel, Tunnel}
use edgekit.Peers.Service.{
  addresses_of, NewPeer, create, on_host, refuse_if, choose_preshared_key, choose_keys, add_peer,
  World,
}
use edgekit.Peers.Valid.{all_apart-append, all_apart}
use edgekit.Models.{clashes, Peer, Database}
use edgekit.System.Wireguard.{Network, Addresses}
use edgekit.System.Shell.{Host}

module _ (H : Host) (A : Addresses) (show_injective : (a b : ℕ) → A.show a ≡ A.show b → a ≡ b)
    (network : Network) (new_id : List ℕ → ℕ) (small : network.prefixlen ≤ 30)
    (fresh : (ids : List ℕ) → member (new_id ids) ids ≡ false) where
  abbrev Here : Type 0
  Here = World H A network new_id

  -- Rows apart from each other, each with an address of the tunnel.
  pub record IsValid (ps : List Peer) : Type 0 where
    pub distinct : all_apart ps ≡ true
    pub addressed : All (λ (p : Peer). Tunnel H A show_injective network new_id p.address) ps

  All-append :
      (ps : List Peer) (p : Peer)
      → All (λ (q : Peer). Tunnel H A show_injective network new_id q.address) ps
      → Tunnel H A show_injective network new_id p.address
      → All (λ (q : Peer). Tunnel H A show_injective network new_id q.address) (ps ++ (p ∷ []))
  All-append [] p h t = (t, tt)
  All-append (q ∷ ps) p h t = (h.0, All-append ps p h.1 t)

  module _ (db0 : Database) where
    abbrev pub Untouched : Here → Type 0
    Untouched s = s.db ≡ db0

    -- The peer stands last, after the peers that were there; hosts and settings are as they were.
    pub record Added (p : Peer) (s : Here) : Type 0 where
      pub peers : s.db.peers ≡ db0.peers ++ (p ∷ [])
      pub hosts : s.db.hosts ≡ db0.hosts
      pub settings : s.db.settings ≡ db0.settings
      pub valid : IsValid db0.peers → IsValid s.db.peers

    on_host-Keeps :
        {B : Type 0} (m : Exec H.State B) → Keeps Untouched (on_host H A network new_id m)
    on_host-Keeps m = Keeps-within _ _ _ m (λ t s p. p)

    refuse_if-Keeps :
        (test : Database → Bool) (why : String)
        → Keeps Untouched (refuse_if H A network new_id test why)
    unfolding refuse_if
    refuse_if-Keeps test why = record {
      at = λ s h. elim (Bool-cases (test s.db)) [ inl e ↦ rw e h | inr e ↦ rw e h ];
    }

    choose_keys-Keeps : (key : String) → Keeps Untouched (choose_keys H A network new_id key)
    unfolding choose_keys
    choose_keys-Keeps key = search (keeps_rules, on_host-Keeps)

    choose_preshared_key-Keeps :
        (b : Bool) → Keeps Untouched (choose_preshared_key H A network new_id b)
    unfolding choose_preshared_key
    choose_preshared_key-Keeps true = search (keeps_rules, on_host-Keeps)
    choose_preshared_key-Keeps false = search (keeps_rules)

    grown :
        (db : Database) (p : Peer)
        → db ≡ db0
        → any (λ i. i == p.id) (map (λ (q : Peer). q.id) db0.peers) ≡ false
        → clashes p db.peers ≡ false
        → Tunnel H A show_injective network new_id p.address
        → IsValid db0.peers
        → IsValid (db.peers ++ (p ∷ []))
    grown db p h new fine t v =
        subst (λ (d : Database). IsValid (d.peers ++ (p ∷ []))) (sym h)
          (record {
            distinct =
                all_apart-append p db0.peers new
                  (subst (λ (d : Database). clashes p d.peers ≡ false) h fine) v.distinct;
            addressed = All-append db0.peers p v.addressed t;
          })

    add_peer-Added :
        (actor : String) (p : Peer)
        → any (λ i. i == p.id) (map (λ (q : Peer). q.id) db0.peers) ≡ false
        → Tunnel H A show_injective network new_id p.address
        → Triple Untouched (add_peer H A network new_id actor p) Added (λ _. Untouched)
    unfolding add_peer
    add_peer-Added actor p new t = record {
      at = λ s h. elim (Bool-cases (clashes p s.db.peers)) [
        | inl e ↦ rw e h
        | inr e ↦ rw e (record {
          peers = ap (λ (d : Database). d.peers ++ (p ∷ [])) h;
          hosts = ap (λ (d : Database). d.hosts) h;
          settings = ap (λ (d : Database). d.settings) h;
          valid = grown s.db p h new e t;
        })
      ];
    }

    -- New ids are fresh, addresses look different, the prefix has at most 30 bits. On return, the
    -- peers are those that were there and then the new one, hosts and settings are as they were, and
    -- if no two peers shared an id, a name, an address or a key, and each had an address of the
    -- tunnel other than the hub's, this is still so. On an exception the database is as it was.
    pub create-Added :
        (new : NewPeer) → Triple Untouched (create H A network new_id new) Added (λ _. Untouched)
    unfolding create
    create-Added new =
        Triple-lift-bind _ _ (λ e s h. h)
          (λ name _.
            Triple-bind (λ _. Untouched) _ _ (refuse_if-Keeps _ _)
              (λ _.
                Triple-lift-bind _ _ (λ e s h. h)
                  (λ extra _.
                    Triple-gets-bind _ _ (addresses_of db0.peers)
                      (λ s h. ap (λ (d : Database). addresses_of d.peers) h)
                      (Triple-lift-bind _ _ (λ e s h. h)
                        (λ address chosen.
                          Triple-bind (λ _. Untouched) _ _ (choose_keys-Keeps new.public_key)
                            (λ keys.
                              Triple-bind (λ _. Untouched) _ _ (refuse_if-Keeps _ _)
                                (λ _.
                                  Triple-bind (λ _. Untouched) _ _
                                    (choose_preshared_key-Keeps new.use_preshared_key)
                                    (λ preshared.
                                      Triple-gets-bind _ _ (map (λ (p : Peer). p.id) db0.peers)
                                        (λ s h.
                                          ap (λ (d : Database). map (λ (p : Peer). p.id) d.peers) h)
                                        (add_peer-Added new.actor _ (fresh _) (
                                          choose_address-Tunnel H A show_injective network new_id
                                            new.address _ address small chosen))))))))))
