-- ===== src/Hosts/Resync.antt =====
-- `attach_certificate`, `resync_all` and `repoint_peer_hosts` of `HostService` in services/hosts.py.
-- A row of the loop is read where the loop comes to it: it is one object of the session.
use edgekit.Base.{
  raised, ◌++◌, raise, ok, none, for_each, ◌>>◌, ◌==◌, lift, [], ◌∷◌, ◌&&◌, str_eq, not, keep,
  ◌>>=◌, true, some, pure, if◌then◌else◌, gets, attempt, map, host_error, false, String, Outcome,
  Exec, Bool, Option, List, Failure, ℕ,
}
use edgekit.Peers.Service.{serves}
use edgekit.Hosts.Service.{get, assign, push, certificate_id, World, Env}
use edgekit.Npm.Client.{is_npm}
use edgekit.Models.{ProxyHost, Peer}

-- `isinstance(exc, (HostError, NPMError))`
unfoldable pub is_host_or_npm : Failure → Bool
is_host_or_npm (host_error why) = true
is_host_or_npm e = is_npm e

-- `a == b` of columns that may be empty.
abbrev pub same_id : Option ℕ → Option ℕ → Bool
same_id none none = true
same_id (some m) (some n) = m == n
same_id _ _ = false

-- `bool(column)`
abbrev pub set_id : Option ℕ → Bool
set_id none = false
set_id (some n) = not (n == 0)

abbrev pub ids_of : List ProxyHost → List ℕ
ids_of = map (λ h. h.id)

-- What a loop has collected: the hosts that were pushed and the ones that failed, by domain.
pub record Report : Type 0 where
  pub moved : List String
  pub failures : List String

abbrev pub report_of : Bool → String → Report
report_of true domain = record { moved = []; failures = domain ∷ [] }
report_of false domain = record { moved = domain ∷ []; failures = [] }

-- `if failures: raise HostError(…)`
abbrev pub moved_or_raise : List String → List String → Outcome (List String)
moved_or_raise [] moved = ok moved
moved_or_raise (f ∷ fs) moved = raised (host_error "attach")

module _ (E : Env) where
  -- `try: await self._push(host, manage_dns=False)`; true if it failed.
  unfoldable pub push_fails : ProxyHost → Exec (World E) Bool
  push_fails host =
      attempt (push E false host >> pure false)
        (λ e. if is_host_or_npm e then pure true else raise e)

  -- One round; a host that serves with the certificate already is passed over.
  unfoldable pub attach_one : Option ℕ → ProxyHost → Exec (World E) Report
  attach_one current host =
      if set_id host.npm_host_id && same_id host.npm_certificate_id current
      then pure (record { moved = []; failures = [] })
      else (push_fails host >>= λ failed. pure (report_of failed host.domain))

  unfoldable pub attach_each : Option ℕ → List ℕ → Exec (World E) Report
  attach_each current [] = pure (record { moved = []; failures = [] })
  attach_each current (id ∷ ids) = do
    host ← get E id
    first ← attach_one current host
    rest ← attach_each current ids
    pure (record { moved = first.moved ++ rest.moved; failures = first.failures ++ rest.failures })

  unfoldable pub attach_certificate : Exec (World E) (List String)
  attach_certificate = do
    number ← gets (λ w. certificate_id E.unicode w.db)
    current ← lift number
    ids ← gets (λ w. ids_of (E.by_domain w.db.hosts))
    report ← attach_each current ids
    lift (moved_or_raise report.failures report.moved)

  -- `outcomes[host.domain]`: true for "ok".
  unfoldable pub resync_one : ProxyHost → Exec (World E) (String × Bool)
  resync_one host =
      attempt (push E true host >> pure (host.domain, true)) (λ _. pure (host.domain, false))

  unfoldable pub resync_each : List ℕ → Exec (World E) (List (String × Bool))
  resync_each [] = pure []
  resync_each (id ∷ ids) = do
    host ← get E id
    first ← resync_one host
    rest ← resync_each ids
    pure (first ∷ rest)

  unfoldable pub resync_all : Exec (World E) (List (String × Bool))
  resync_all = gets (λ w. ids_of (E.by_domain w.db.hosts)) >>= resync_each

  unfoldable pub repoint_one : Peer → ProxyHost → Exec (World E) (Unit {0})
  repoint_one peer host =
      if str_eq host.forward_host peer.address
      then pure tt
      else (assign E (record host { forward_host = peer.address })
          >> (push E false (record host { forward_host = peer.address }) >> pure tt))

  unfoldable pub repoint_peer_hosts : Peer → Exec (World E) (Unit {0})
  repoint_peer_hosts peer =
      gets (λ w. keep (serves peer.id) w.db.hosts) >>= λ hosts. for_each hosts (repoint_one peer)
