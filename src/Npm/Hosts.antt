-- ===== src/Npm/Hosts.antt =====
-- The proxy-host methods of `NPMClient`, and `ProxyHostSpec`.
use edgekit.Base.{
  ℕ, String, Bool, false, ◌&&◌, Option, none, some, List, [], ◌∷◌, contains, if◌then◌else◌,
}
use edgekit.Base.{Exec, pure, lift, ◌>>=◌, ◌>>◌}
use edgekit.Base.Json
use edgekit.Base.Json.{Json, null, flag, num, text, arr, nil, object, entries, texts, text_items}
use edgekit.Npm.Api.{Server, Request, Verb, proxy_hosts, proxy_host, proxy_host_switch}
use edgekit.Npm.Client.{Link, request}

pub record ProxyHostSpec : Type 0 where
  pub domain : String
  pub forward_host : String
  pub forward_port : ℕ
  pub scheme : String
  pub certificate_id : Option ℕ
  pub force_ssl : Bool
  pub http2 : Bool
  pub websockets : Bool
  pub block_exploits : Bool
  pub hsts : Bool
  pub advanced_config : String
  pub extra_domains : List String

-- `self.certificate_id or 0`
unfoldable pub cert_or_zero : Option ℕ → ℕ
cert_or_zero none = 0
cert_or_zero (some n) = n

-- `bool(self.certificate_id)`
unfoldable pub ssl_on : Option ℕ → Bool
ssl_on none = false
ssl_on (some n) = Json.truthy (num n)

unfoldable pub payload : ProxyHostSpec → Json
payload s =
    let ssl = ssl_on s.certificate_id in
    object (
      ("domain_names", arr (text_items (s.domain ∷ s.extra_domains)))
      ∷ ("forward_scheme", text s.scheme)
      ∷ ("forward_host", text s.forward_host)
      ∷ ("forward_port", num s.forward_port)
      ∷ ("certificate_id", num (cert_or_zero s.certificate_id))
      ∷ ("ssl_forced", flag (s.force_ssl && ssl))
      ∷ ("http2_support", flag (s.http2 && ssl))
      ∷ ("hsts_enabled", flag (s.hsts && ssl))
      ∷ ("hsts_subdomains", flag false)
      ∷ ("block_exploits", flag s.block_exploits)
      ∷ ("caching_enabled", flag false)
      ∷ ("allow_websocket_upgrade", flag s.websockets)
      ∷ ("access_list_id", num 0)
      ∷ ("advanced_config", text s.advanced_config)
      ∷ ("locations", arr nil)
      ∷ ("meta", object (("letsencrypt_agree", flag false) ∷ ("dns_challenge", flag false) ∷ []))
      ∷ [])

-- WRITABLE_HOST_FIELDS
abbrev pub writable_host_fields : List String
writable_host_fields =
    "domain_names" ∷ "forward_scheme" ∷ "forward_host" ∷ "forward_port" ∷ "certificate_id"
    ∷ "ssl_forced" ∷ "http2_support" ∷ "hsts_enabled" ∷ "hsts_subdomains" ∷ "block_exploits"
    ∷ "caching_enabled" ∷ "allow_websocket_upgrade" ∷ "access_list_id" ∷ "advanced_config"
    ∷ "locations" ∷ []

-- `{k: snapshot[k] for k in keys if k in snapshot}`
unfoldable pub selected : List String → Json → List (String × Json)
selected [] snapshot = []
selected (k ∷ keys) snapshot =
    let rest = selected keys snapshot in
    if Json.has_key k snapshot then (k, Json.get k snapshot) ∷ rest else rest

unfoldable pub restore_payload : Json → Json
restore_payload snapshot = object (selected writable_host_fields snapshot)

-- `domain in (host.get("domain_names") or [])`
unfoldable pub names_domain : String → Json → Bool
names_domain domain host = contains domain (texts (Json.get "domain_names" host))

unfoldable pub first_named : String → List Json → Option Json
first_named domain [] = none
first_named domain (h ∷ hosts) =
    let rest = first_named domain hosts in if names_domain domain h then some h else rest

module _ (S : Server) where
  abbrev pub list_hosts_request : Request
  list_hosts_request = record { verb = Verb.get; endpoint = proxy_hosts; payload = null }

  -- `await self._request("GET", "/nginx/proxy-hosts") or []`
  unfoldable pub list_proxy_hosts : Exec (Link S) (List Json)
  list_proxy_hosts = request S list_hosts_request >>= λ j. pure (entries j)

  unfoldable pub find_proxy_host : String → Exec (Link S) (Option Json)
  find_proxy_host domain = list_proxy_hosts >>= λ hosts. pure (first_named domain hosts)

  abbrev pub create_host_request : ProxyHostSpec → Request
  create_host_request spec = record {
    verb = Verb.post;
    endpoint = proxy_hosts;
    payload = payload spec;
  }

  abbrev pub update_host_request : Json → ProxyHostSpec → Request
  update_host_request id spec = record {
    verb = Verb.put;
    endpoint = proxy_host id;
    payload = payload spec;
  }

  -- One request, by whether the domain is configured already.
  unfoldable pub upsert_existing : ProxyHostSpec → Option Json → Exec (Link S) Json
  upsert_existing spec none = request S (create_host_request spec)
  upsert_existing spec (some host) =
      lift (Json.item "id" host) >>= λ id. request S (update_host_request id spec)

  unfoldable pub upsert_proxy_host : ProxyHostSpec → Exec (Link S) Json
  upsert_proxy_host spec = find_proxy_host spec.domain >>= upsert_existing spec

  abbrev pub restore_request : ℕ → Json → Request
  restore_request host_id snapshot = record {
    verb = Verb.put;
    endpoint = proxy_host (num host_id);
    payload = restore_payload snapshot;
  }

  unfoldable pub restore_proxy_host : ℕ → Json → Exec (Link S) Json
  restore_proxy_host host_id snapshot = request S (restore_request host_id snapshot)

  abbrev pub delete_host_request : ℕ → Request
  delete_host_request host_id = record {
    verb = Verb.delete;
    endpoint = proxy_host (num host_id);
    payload = null;
  }

  unfoldable pub delete_proxy_host : ℕ → Exec (Link S) (Unit {0})
  delete_proxy_host host_id = request S (delete_host_request host_id) >> pure tt

  unfoldable pub set_proxy_host_enabled : ℕ → Bool → Exec (Link S) (Unit {0})
  set_proxy_host_enabled host_id enabled =
      request S (record {
        verb = Verb.post;
        endpoint = proxy_host_switch (num host_id) enabled;
        payload = null;
      })
      >> pure tt
