-- ===== src/Peers/Service.antt =====
-- `PeerService` of services/peers.py.
use edgekit.System.Wireguard.{
  hosts, show_ip, valid_key, next_free_address, in_network, generate_keypair,
  generate_preshared_key, Ip, Network, Addresses,
}
use edgekit.Base.{
  strip, gets, contains, ◌++◌, raise, any, ◌>>◌, true, integrity_error, ◌==◌, str_eq, pure,
  peer_error, not, lift, [], ◌>>=◌, within, raised, ok, keep, if◌then◌else◌, false, ◌∷◌, Outcome,
  Exec, none, map, some, Bool, String, Option, List, ℕ,
}
use edgekit.Models.{replace_peer, clashes, audited, get_peer, ProxyHost, Database, Peer}
use edgekit.Peers.Names.{validate_name, validate_extra_allowed_ips}
use edgekit.System.Shell.{Host}
use mathlib.Core.Option

-- What is supplied for a new peer; an empty text stands for `None` too.
pub record NewPeer : Type 0 where
  pub name : String
  pub description : String
  pub address : String
  pub public_key : String
  pub extra_allowed_ips : String
  pub keepalive : ℕ
  pub use_preshared_key : Bool
  pub actor : String

-- The changes of an update; none leaves a field alone.
pub record PeerChanges : Type 0 where
  pub description : Option String
  pub extra_allowed_ips : Option String
  pub keepalive : Option ℕ
  pub enabled : Option Bool
  pub actor : String

abbrev pub addresses_of : List Peer → List String
addresses_of = map (λ p. p.address)

abbrev pub or_old {ℓ} : {A : Type ℓ} → Option A → A → A
or_old none old = old
or_old (some new) old = new

-- `peer.hosts`
abbrev pub serves : ℕ → ProxyHost → Bool
serves id h = elim h.peer_id [ none ↦ false | some p ↦ p == id ]

abbrev pub drop_peer : ℕ → Database → Database
drop_peer id db = record db { peers = keep (λ p. not (p.id == id)) db.peers }

abbrev pub peer_or_unknown : Option Peer → Outcome Peer
peer_or_unknown none = raised (peer_error "unknown")
peer_or_unknown (some p) = ok p

module _ (H : Host) (A : Addresses) (network : Network) (new_id : List ℕ → ℕ) where
  pub record World : Type 0 where
    pub db : Database
    pub host : H.State

  -- An action on the host alone.
  abbrev pub on_host : {B : Type 0} → Exec H.State B → Exec World B
  on_host = within (λ s. s.host) (λ h s. record s { host = h })

  -- `str(next(network.hosts()))`
  unfoldable pub hub_ip : String
  hub_ip = hub_of (hosts network)
    where
      hub_of : List ℕ → String
      hub_of [] = ""
      hub_of (a ∷ rest) = A.show a

  unfoldable pub get : ℕ → Exec World Peer
  get peer_id s = (peer_or_unknown (get_peer peer_id s.db), s)

  abbrev pub parsed_address : Option Ip → List String → Outcome String
  parsed_address none taken = raised (peer_error "address")
  parsed_address (some ip) taken =
      if not (in_network ip network)
      then raised (peer_error "outside")
      else if str_eq (show_ip A ip) hub_ip
      then raised (peer_error "hub")
      else if contains (show_ip A ip) taken
      then raised (peer_error "assigned")
      else ok (show_ip A ip)

  -- `_validate_address`
  unfoldable pub validate_address : String → List String → Outcome String
  validate_address address taken = parsed_address (A.parse address) taken

  unfoldable pub choose_address : String → List String → Outcome String
  choose_address address taken =
      if str_eq address ""
      then next_free_address A network taken
      else validate_address address taken

  abbrev Keys : Type 0
  Keys = Option String × String

  unfoldable pub choose_keys : String → Exec World Keys
  choose_keys public_key =
      if str_eq public_key ""
      then (on_host (generate_keypair H) >>= λ k. pure (some k.private_key, k.public_key))
      else if valid_key public_key
      then pure (none, public_key)
      else raise (peer_error "key")

  unfoldable pub choose_preshared_key : Bool → Exec World (Option String)
  choose_preshared_key true = on_host (generate_preshared_key H) >>= λ k. pure (some k)
  choose_preshared_key false = pure none

  -- `session.add(peer)`, `session.flush()`, and the audit entry.
  unfoldable pub add_peer : String → Peer → Exec World Peer
  add_peer actor peer s = if clashes peer s.db.peers then (raised integrity_error, s) else (
    ok peer,
    record s {
      db =
          audited actor "peer.create" peer.name (record s.db { peers = s.db.peers ++ (peer ∷ []) });
    },
  )

  -- `if test: raise PeerError(…)` on the database.
  unfoldable pub refuse_if : (Database → Bool) → String → Exec World (Unit {0})
  refuse_if test why s = if test s.db then (raised (peer_error why), s) else (ok tt, s)

  unfoldable pub create : NewPeer → Exec World Peer
  create new = do
    name ← lift (validate_name new.name)
    refuse_if (λ db. any (λ p. str_eq p.name name) db.peers) "name taken"
    extra ← lift (validate_extra_allowed_ips A new.extra_allowed_ips)
    taken ← gets (λ s. addresses_of s.db.peers)
    address ← lift (choose_address new.address taken)
    keys ← choose_keys new.public_key
    refuse_if (λ db. any (λ p. str_eq p.public_key keys.1) db.peers) "key taken"
    preshared ← choose_preshared_key new.use_preshared_key
    ids ← gets (λ s. map (λ (p : Peer). p.id) s.db.peers)
    add_peer new.actor (record {
      id = new_id ids;
      name = name;
      description = strip new.description;
      address = address;
      public_key = keys.1;
      private_key = keys.0;
      preshared_key = preshared;
      extra_allowed_ips = extra;
      keepalive = new.keepalive;
      enabled = true;
    })

  -- `session.flush()` of a changed peer, and the audit entry.
  unfoldable pub save_peer : String → String → Peer → Exec World Peer
  save_peer actor action peer s = if clashes peer s.db.peers then (raised integrity_error, s) else (
    ok peer,
    record s {
      db = audited actor action peer.name (record s.db { peers = replace_peer peer s.db.peers });
    },
  )

  abbrev checked_extra : Option String → String → Outcome String
  checked_extra none old = ok old
  checked_extra (some value) old = validate_extra_allowed_ips A value

  -- An attribute of a row is assigned: the session sees it from then on.
  unfoldable pub assign : Peer → Exec World (Unit {0})
  assign peer s = (ok tt, record s { db = record s.db { peers = replace_peer peer s.db.peers } })

  unfoldable pub update : ℕ → PeerChanges → Exec World Peer
  update peer_id c = do
    peer ← get peer_id
    let described : Peer = record peer {
      description = or_old (Option.map strip c.description) peer.description;
    }
    assign described
    extra ← lift (checked_extra c.extra_allowed_ips peer.extra_allowed_ips)
    save_peer c.actor "peer.update" (record described {
      extra_allowed_ips = extra;
      keepalive = or_old c.keepalive peer.keepalive;
      enabled = or_old c.enabled peer.enabled;
    })

  -- `session.delete(peer)`, and the audit entry.
  unfoldable pub remove : String → Peer → Exec World String
  remove actor peer s = (
    ok peer.name,
    record s { db = audited actor "peer.delete" peer.name (drop_peer peer.id s.db) },
  )

  unfoldable pub delete : ℕ → String → Exec World String
  delete peer_id actor = do
    peer ← get peer_id
    refuse_if (λ db. any (serves peer.id) db.hosts) "serves hosts"
    remove actor peer

  unfoldable pub rotate_keys : ℕ → String → Exec World Peer
  rotate_keys peer_id actor = do
    peer ← get peer_id
    pair ← on_host (generate_keypair H)
    let keyed : Peer = record peer {
      private_key = some pair.private_key;
      public_key = pair.public_key;
    }
    assign keyed
    preshared ← on_host (generate_preshared_key H)
    save_peer actor "peer.rotate_keys" (record keyed { preshared_key = some preshared })
