-- ===== src/Hosts/Edit.antt =====
-- `create`, `update` and `delete` of `HostService` in services/hosts.py.
use edgekit.Cloudflare.Client.{catch_cloudflare}
use edgekit.Base.{
  zero, map, attempt, ◌>>◌, ◌==◌, gets, [], ◌∷◌, ◌||◌, ◌&&◌, suc, not, none, lift, ◌>>=◌, ◌++◌,
  str_eq, some, pure, keep, host_error, any, raised, ok, if◌then◌else◌, Outcome, Exec, Bool, String,
  Option, ℕ,
}
use edgekit.Npm.Hosts.{delete_proxy_host}
use edgekit.Peers.Service.{or_old}
use edgekit.Hosts.Service.{push, on_npm, on_dns, audit, assign, npm_client, get, World, Env}
use edgekit.Hosts.Names.{validate_domain, validate_port}
use edgekit.Models.{get_peer, Peer, Database, ProxyHost}

pub record NewHost : Type 0 where
  pub domain : String
  pub forward_port : ℕ
  pub peer_id : Option ℕ
  -- an empty text stands for `None` too
  pub forward_host : String
  pub scheme : String
  pub force_ssl : Bool
  pub http2 : Bool
  pub websockets : Bool
  pub block_exploits : Bool
  pub manage_dns : Bool
  pub actor : String

-- `peer_id` has three cases: none is "unset", `some none` is `None`.
pub record HostChanges : Type 0 where
  pub peer_id : Option (Option ℕ)
  pub forward_host : String
  pub forward_port : Option ℕ
  pub scheme : Option String
  pub force_ssl : Option Bool
  pub http2 : Option Bool
  pub websockets : Option Bool
  pub block_exploits : Option Bool
  pub manage_dns : Bool
  pub actor : String

unfoldable pub check_scheme : String → Outcome (Unit {0})
check_scheme scheme =
    if str_eq scheme "http" || str_eq scheme "https" then ok tt else raised (host_error "scheme")

-- The peer of the id, as id and address.
abbrev pub peer_target : Option Peer → Outcome (Option ℕ × String)
peer_target none = raised (host_error "no peer")
peer_target (some p) = ok (some p.id, p.address)

unfoldable pub choose_target : Option ℕ → String → Database → Outcome (Option ℕ × String)
choose_target none forward_host db = ok (none, forward_host)
choose_target (some id) forward_host db = peer_target (get_peer id db)

unfoldable pub require_target : Option ℕ × String → Outcome (Option ℕ × String)
require_target (id, host) = if str_eq host "" then raised (host_error "target") else ok (id, host)

abbrev retarget : ProxyHost → Outcome (Option ℕ × String) → Outcome ProxyHost
retarget h (raised e) = raised e
retarget h (ok (id, address)) = ok (record h { peer_id = id; forward_host = address })

-- The assignments of the peer, and of the host it forwards to.
unfoldable pub with_peer : Option (Option ℕ) → ProxyHost → Database → Outcome ProxyHost
with_peer none h db = ok h
with_peer (some none) h db = ok (record h { peer_id = none })
with_peer (some (some id)) h db = retarget h (peer_target (get_peer id db))

abbrev pub checked_port : Option ℕ → ℕ → Outcome ℕ
checked_port none old = ok old
checked_port (some port) old = validate_port port

abbrev pub checked_scheme : Option String → Outcome (Unit {0})
checked_scheme none = ok tt
checked_scheme (some scheme) = check_scheme scheme

module _ (E : Env) where
  unfoldable pub refuse_domain : String → Exec (World E) (Unit {0})
  refuse_domain domain w =
      if any (λ h. str_eq h.domain domain) w.db.hosts
      then (raised (host_error "domain taken"), w)
      else (ok tt, w)

  -- `session.add(host)`, `session.flush()`
  unfoldable pub add_host : ProxyHost → Exec (World E) (Unit {0})
  add_host h w = (ok tt, record w { db = record w.db { hosts = w.db.hosts ++ (h ∷ []) } })

  unfoldable pub create : NewHost → Exec (World E) ProxyHost
  create new = do
    domain ← lift (validate_domain E.lower new.domain)
    port ← lift (validate_port new.forward_port)
    lift (check_scheme new.scheme)
    refuse_domain domain
    db ← gets (λ w. w.db)
    chosen ← lift (choose_target new.peer_id new.forward_host db)
    target ← lift (require_target chosen)
    let h : ProxyHost = record {
      id = E.new_id (map (λ (g : ProxyHost). g.id) db.hosts);
      domain = domain;
      peer_id = target.0;
      forward_host = target.1;
      forward_port = port;
      scheme = new.scheme;
      force_ssl = new.force_ssl;
      http2 = new.http2;
      websockets = new.websockets;
      block_exploits = new.block_exploits;
      npm_host_id = none;
      npm_certificate_id = none;
      cloudflare_record_id = none;
    }
    add_host h
    pushed ← push E new.manage_dns h
    audit E new.actor "host.create" domain
    pure pushed

  -- Each group of assignments, up to the next test that may raise.
  unfoldable pub update : ℕ → HostChanges → Exec (World E) ProxyHost
  update host_id c = do
    host ← get E host_id
    db ← gets (λ w. w.db)
    moved ← lift (with_peer c.peer_id host db)
    let forwarded : ProxyHost = record moved {
      forward_host = if str_eq c.forward_host "" then moved.forward_host else c.forward_host;
    }
    assign E forwarded
    port ← lift (checked_port c.forward_port forwarded.forward_port)
    assign E (record forwarded { forward_port = port })
    lift (checked_scheme c.scheme)
    let changed : ProxyHost = record forwarded {
      forward_port = port;
      scheme = or_old c.scheme forwarded.scheme;
      force_ssl = or_old c.force_ssl forwarded.force_ssl;
      http2 = or_old c.http2 forwarded.http2;
      websockets = or_old c.websockets forwarded.websockets;
      block_exploits = or_old c.block_exploits forwarded.block_exploits;
    }
    assign E changed
    pushed ← push E c.manage_dns changed
    audit E c.actor "host.update" pushed.domain
    pure pushed

  -- Deleting the host in NPM is best-effort, but not opening the client.
  unfoldable pub delete_in_npm : Option ℕ → Exec (World E) (Unit {0})
  delete_in_npm none = pure tt
  delete_in_npm (some zero) = pure tt
  delete_in_npm (some (suc n)) =
      npm_client E >> attempt (on_npm E (delete_proxy_host E.server (suc n))) (λ _. pure tt)

  unfoldable pub delete_record : Option String → Exec (World E) (Unit {0})
  delete_record none = pure tt
  delete_record (some id) =
      if E.config.dns_configured && not (str_eq id "")
      then catch_cloudflare (on_dns E (E.dns.delete_dns_record id)) (λ _. pure tt)
      else pure tt

  unfoldable pub remove_row : ℕ → Exec (World E) (Unit {0})
  remove_row id w =
      (ok tt, record w { db = record w.db { hosts = keep (λ h. not (h.id == id)) w.db.hosts } })

  unfoldable pub delete : ℕ → Bool → String → Exec (World E) String
  delete host_id remove_dns actor = do
    host ← get E host_id
    delete_in_npm host.npm_host_id
    if remove_dns then delete_record host.cloudflare_record_id else pure tt
    remove_row host.id
    audit E actor "host.delete" host.domain
    pure host.domain
