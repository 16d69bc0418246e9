-- ===== src/Hosts/Service.antt =====
-- `HostService` of services/hosts.py: the methods for one host. The state is the session's view of
-- the database, the proxy manager, the DNS zone and the host that runs the containers.
use edgekit.Base.Digits.{Unicode, int_or_raise}
use edgekit.Hosts.Settings.{setting_cert_id, get_setting}
use edgekit.Cloudflare.Client.{catch_cloudflare}
use edgekit.Base.{
  digits_value, is_numeric, ◌||◌, pure, lift, host_error, [], List, ◌&&◌, true, str_eq, raised,
  raise, gets, false, Char, ◌>>◌, ◌>>=◌, within, some, ok, if◌then◌else◌, Outcome, none, String,
  Option, Exec, Bool, ℕ,
}
use edgekit.Npm.Hosts.{
  restore_proxy_host, delete_proxy_host, upsert_proxy_host, find_proxy_host, ProxyHostSpec,
}
use edgekit.Npm.Certificates.{own_id}
use edgekit.Base.Json.{int_of, truthy, num, Json}
use edgekit.Npm.Client.{catch_npm, Link}
use edgekit.System.Docker.{nginx_config_test}
use edgekit.Models.{replace_host, audited, get_host, ProxyHost, Database}
use edgekit.System.Shell.{Host}
use edgekit.Npm.Api.{Server}
use edgekit.Base.Json

-- `upsert_a_record` and `delete_dns_record` of the Cloudflare client, for the configured zone,
-- address and proxying: the id of the record, if the answer has one.
pub record Dns : Type 1 where
  pub State : Type 0
  pub upsert_a_record : String → Exec State (Option String)
  pub delete_dns_record : String → Exec State (Unit {0})

pub record Config : Type 0 where
  -- `cf.enabled and cf.api_token and cf.zone_id`
  pub dns_configured : Bool
  pub admin_email : String
  pub admin_password : String
  pub container_name : String

pub record Env : Type 1 where
  pub config : Config
  pub server : Server
  pub dns : Dns
  pub host : Host
  -- `json.loads`, none where it raises
  pub loads : String → Option Json
  -- `lower`, `isdigit` and `int` beyond ASCII
  pub lower : Char → String
  pub unicode : Unicode
  -- the key of a new row, given those in use
  pub new_id : List ℕ → ℕ
  -- `ORDER BY domain`
  pub by_domain : List ProxyHost → List ProxyHost

abbrev pub some_number : Outcome ℕ → Outcome (Option ℕ)
some_number (ok n) = ok (some n)
some_number (raised e) = raised e

-- `int(raw) if raw.isdigit() else None`, without the bound of 4300 digits, which `str` has as well
unfoldable pub number_in : Unicode → String → Outcome (Option ℕ)
number_in U raw =
    if is_numeric raw
    then ok (some (digits_value 0 raw))
    else if U.other_isdigit raw
    then some_number (int_or_raise (U.other_int raw))
    else ok none

-- `certificate_id`
unfoldable pub certificate_id : Unicode → Database → Outcome (Option ℕ)
certificate_id U db = number_in U (get_setting setting_cert_id db)

-- What `result.get("id")` is in a column of numbers.
unfoldable pub id_field : Json → Option ℕ
id_field id = elim id [ num n ↦ some n | _ ↦ none ]

-- `ok is False`
abbrev pub is_rejected : Option Bool → Bool
is_rejected (some false) = true
is_rejected _ = false

unfoldable pub spec_of : ProxyHost → Option ℕ → ProxyHostSpec
spec_of h cert = record {
  domain = h.domain;
  forward_host = h.forward_host;
  forward_port = h.forward_port;
  scheme = h.scheme;
  certificate_id = cert;
  force_ssl = h.force_ssl;
  http2 = h.http2;
  websockets = h.websockets;
  block_exploits = h.block_exploits;
  hsts = false;
  advanced_config = "";
  extra_domains = [];
}

abbrev pub host_or_unknown : Option ProxyHost → Outcome ProxyHost
host_or_unknown none = raised (host_error "unknown")
host_or_unknown (some h) = ok h

module _ (E : Env) where
  pub record World : Type 0 where
    pub db : Database
    pub link : Link E.server
    pub zone : E.dns.State
    pub host : E.host.State

  abbrev pub on_npm : {B : Type 0} → Exec (Link E.server) B → Exec World B
  on_npm = within (λ w. w.link) (λ l w. record w { link = l })

  abbrev pub on_dns : {B : Type 0} → Exec E.dns.State B → Exec World B
  on_dns = within (λ w. w.zone) (λ z w. record w { zone = z })

  abbrev pub on_host : {B : Type 0} → Exec E.host.State B → Exec World B
  on_host = within (λ w. w.host) (λ h w. record w { host = h })

  unfoldable pub get : ℕ → Exec World ProxyHost
  get host_id w = (host_or_unknown (get_host host_id w.db), w)

  -- Attributes of a row are assigned: the session sees them from then on.
  unfoldable pub assign : ProxyHost → Exec World (Unit {0})
  assign h w = (ok tt, record w { db = record w.db { hosts = replace_host h w.db.hosts } })

  -- `_npm_client`: a client without a token.
  abbrev fresh_client : World → World
  fresh_client w = record w {
    link = record w.link {
      client = record {
        email = E.config.admin_email;
        password = E.config.admin_password;
        token = none;
      };
    };
  }

  unfoldable pub npm_client : Exec World (Unit {0})
  npm_client w =
      if str_eq E.config.admin_email "" || str_eq E.config.admin_password ""
      then (raised (host_error "credentials"), w)
      else (ok tt, fresh_client w)

  -- A host that NPM has only just been given is deleted.
  unfoldable pub undo_new : Json → Exec World (Unit {0})
  undo_new result =
      let id = Json.get "id" result in
      if truthy id
      then (lift (int_of id) >>= λ n. on_npm (delete_proxy_host E.server n))
      else pure tt

  unfoldable pub undo : Option Json → Json → Exec World (Unit {0})
  undo none result = undo_new result
  undo (some previous) result =
      if truthy previous
      then (lift (own_id previous) >>= λ n.
          on_npm (restore_proxy_host E.server n previous) >> pure tt)
      else undo_new result

  unfoldable pub verify_or_rollback : Option Json → Json → Exec World (Unit {0})
  verify_or_rollback previous result = do
    verdict ← on_host (nginx_config_test E.host E.loads E.config.container_name)
    if is_rejected verdict
        then (catch_npm (undo previous result) (λ _. raise (host_error "not rolled back"))
            >> raise (host_error "rolled back"))
        else pure tt

  -- The DNS half of `_push`.
  unfoldable pub apply_dns : Bool → ProxyHost → Exec World ProxyHost
  apply_dns manage_dns host =
      if manage_dns && E.config.dns_configured
      then catch_cloudflare
          (on_dns (E.dns.upsert_a_record host.domain) >>= λ id.
            assign (record host { cloudflare_record_id = id })
            >> pure (record host { cloudflare_record_id = id }))
          (λ _. pure host)
      else pure host

  unfoldable pub push_npm : ProxyHost → Option ℕ → Exec World ProxyHost
  push_npm host cert = do
    npm_client
    previous ← on_npm (find_proxy_host E.server host.domain)
    result ← on_npm (upsert_proxy_host E.server (spec_of host cert))
    verify_or_rollback previous result
    id ← lift (Json.get_of "id" result)
    assign (record host { npm_host_id = id_field id; npm_certificate_id = cert })
    pure (record host { npm_host_id = id_field id; npm_certificate_id = cert })

  -- `_push`
  unfoldable pub push : Bool → ProxyHost → Exec World ProxyHost
  push manage_dns host = do
    named ← apply_dns manage_dns host
    number ← gets (λ w. certificate_id E.unicode w.db)
    cert ← lift number
    push_npm named cert

  unfoldable pub audit : String → String → String → Exec World (Unit {0})
  audit actor action target w = (ok tt, record w { db = audited actor action target w.db })
