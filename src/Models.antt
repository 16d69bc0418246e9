-- ===== src/Models.antt =====
-- models.py: the rows of the database, without their timestamps, and the parts of a session that
-- the services call. A primary key is chosen by the database: `new_id`, a parameter, gives one for
-- the keys in use.
use edgekit.Base.{
  ◌||◌, str_eq, ◌&&◌, not, [], ◌==◌, true, if◌then◌else◌, any, ◌∷◌, ◌++◌, find, Bool, String,
  Option, List, ℕ,
}
use edgekit.Base.Dict.{Dict}

pub record Peer : Type 0 where
  pub id : ℕ
  pub name : String
  pub description : String
  pub address : String
  pub public_key : String
  pub private_key : Option String
  pub preshared_key : Option String
  pub extra_allowed_ips : String
  pub keepalive : ℕ
  pub enabled : Bool

pub record ProxyHost : Type 0 where
  pub id : ℕ
  pub domain : String
  pub peer_id : Option ℕ
  pub forward_host : String
  pub forward_port : ℕ
  pub scheme : String
  pub force_ssl : Bool
  pub http2 : Bool
  pub websockets : Bool
  pub block_exploits : Bool
  pub npm_host_id : Option ℕ
  pub npm_certificate_id : Option ℕ
  pub cloudflare_record_id : Option String

pub record AuditLog : Type 0 where
  pub actor : String
  pub action : String
  pub target : String
  pub success : Bool

pub record Database : Type 0 where
  pub peers : List Peer
  pub hosts : List ProxyHost
  pub settings : Dict String
  pub audit : List AuditLog

-- `session.get(Peer, id)`
abbrev pub get_peer : ℕ → Database → Option Peer
get_peer id db = find (λ p. p.id == id) db.peers

abbrev pub get_host : ℕ → Database → Option ProxyHost
get_host id db = find (λ h. h.id == id) db.hosts

-- A row with the same key takes the changed one's place.
unfoldable pub replace_peer : Peer → List Peer → List Peer
replace_peer p [] = []
replace_peer p (q ∷ ps) = (if q.id == p.id then p else q) ∷ replace_peer p ps

unfoldable pub replace_host : ProxyHost → List ProxyHost → List ProxyHost
replace_host h [] = []
replace_host h (g ∷ hs) = (if g.id == h.id then h else g) ∷ replace_host h hs

-- `unique=True` of `name`, `address` and `public_key`: another row has one of them.
unfoldable pub clashes : Peer → List Peer → Bool
clashes p = any (λ q.
    not (q.id == p.id)
    && (str_eq q.name p.name || str_eq q.address p.address || str_eq q.public_key p.public_key))

-- `session.add(AuditLog(…))`
abbrev pub audited : String → String → String → Database → Database
audited actor action target db = record db {
  audit =
      db.audit ++ (record { actor = actor; action = action; target = target; success = true } ∷ []);
}
