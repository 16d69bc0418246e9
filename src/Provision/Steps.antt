-- ===== src/Provision/Steps.antt =====
-- Steps of services/provision.py: the keys of the hub, the firewall, Cloudflare and the certificate. A
-- step gives none where it raises SkipStep; the texts that it reports are not kept.
use edgekit.Base.{
  map, true, value_error, false, ◌<>◌, str_eq, some, runtime_error, raised, lift, [], ◌||◌, ◌>>◌,
  raise, not, none, ◌∷◌, ◌>>=◌, ◌&&◌, within, ok, if◌then◌else◌, gets, Outcome, Option, String,
  List, Exec, Bool, pure,
}
use edgekit.Certificates.Names.{coverage_warnings, validate_pair, Warning, Pem}
use edgekit.Firewall.Rules.{rules_present, apply_rules, write_rules, Files, Names}
use edgekit.Firewall.Enable.{allow_docker_to_panel, open_host_ports}
use edgekit.Cloudflare.Zone.{require_zone_permissions, set_ssl_mode, Capability}
use edgekit.Certificates.Flows.{install_manual_certificate, install_letsencrypt, issue_and_install}
use edgekit.Cloudflare.Records.{reconcile_proxy_status, upsert_a_record}
use edgekit.Cloudflare.Client.{get_zone_id, verify_token, Api, Account}
use edgekit.Firewall.Bridges.{detect_proxy_bridge, DockerBridge, Config}
use edgekit.Base.Json.{text, Json}
use edgekit.System.Wireguard.{KeyPair, generate_keypair, derive_public_key}
use edgekit.System.Shell.{Host}
use edgekit.Certificates.Install.{Env, World, Draw, Report}

pub data KeyReport : Type 0 where
  reused derived generated : KeyReport

pub record Hub (H : Host) : Type 0 where
  pub host : H.State
  -- `config.wireguard.private_key` and `public_key`
  pub keys : KeyPair

module _ (H : Host) where
  abbrev pub on_host : {A : Type 0} → Exec H.State A → Exec (Hub H) A
  on_host = within (λ s. s.host) (λ h s. record s { host = h })

  abbrev pub set_keys : KeyPair → Exec (Hub H) (Unit {0})
  set_keys k s = (ok tt, record s { keys = k })

  unfoldable pub derive_key : KeyPair → Exec (Hub H) KeyReport
  derive_key k = do
    public_key ← on_host (derive_public_key H k.private_key)
    set_keys (record { private_key = k.private_key; public_key = public_key })
    pure derived

  unfoldable pub generate_key : Exec (Hub H) KeyReport
  generate_key = do keypair ← on_host (generate_keypair H); set_keys keypair; pure generated

  unfoldable pub hub_keys_from : KeyPair → Exec (Hub H) KeyReport
  hub_keys_from k =
      if not (str_eq k.private_key "") && not (str_eq k.public_key "")
      then pure reused
      else (if not (str_eq k.private_key "") && str_eq k.public_key ""
          then derive_key k
          else generate_key)

  unfoldable pub step_hub_keys : Exec (Hub H) KeyReport
  step_hub_keys = gets (λ s. s.keys) >>= hub_keys_from

-- What the firewall step reports: the configuration with the bridge's subnet, and what was opened.
pub record Bridged : Type 0 where
  pub config : Config
  pub opened_ports : List String
  pub panel_sources : List String

module _ (H : Host) (f : Files) (render : Names → String × String) where
  abbrev pub names_of : Config → DockerBridge → Names
  names_of c b = record {
    docker_subnet = b.subnet;
    wg_subnet = c.wg_subnet;
    wg_if = c.wg_if;
    docker_if = b.interface;
  }

  abbrev pub with_bridge : Config → DockerBridge → Config
  with_bridge c b = record c { docker_bridge_subnet = b.subnet }

  unfoldable pub open_after : Config → Bool → Exec H.State (Option Bridged)
  open_after c false = raise runtime_error
  open_after c true = do
    ports ← open_host_ports H f c.listen_port c.http_port c.https_port
    sources ← allow_docker_to_panel H c
    pure (some (record { config = c; opened_ports = ports; panel_sources = sources }))

  -- `render` gives the script and the unit from the two templates.
  unfoldable pub bridge_firewall : Config → DockerBridge → Exec H.State (Option Bridged)
  bridge_firewall c b = do
    write_rules H f (render (names_of c b)).0 (render (names_of c b)).1
    apply_rules H f
    there ← rules_present H (names_of c b)
    open_after (with_bridge c b) there

  unfoldable pub step_firewall : Bool → Config → Exec H.State (Option Bridged)
  step_firewall skip_docker c =
      if skip_docker then pure none else (detect_proxy_bridge H c >>= bridge_firewall c)

pub record Domain : Type 0 where
  -- `cf.enabled`, `cf.api_token`
  pub enabled : Bool
  pub api_token : String
  pub zone_name : String
  pub zone_id : String

abbrev pub text_or_raise : Json → Outcome String
text_or_raise (text s) = ok s
text_or_raise _ = raised value_error

module _ (A : Api) (account : Account) where
  abbrev pub is_configured : Domain → Bool
  is_configured d = d.enabled && not (str_eq d.zone_id "")

  abbrev pub with_zone : String → Domain → Domain
  with_zone zone_id d = record d { zone_id = zone_id }

  unfoldable pub verify_zone : Domain → Exec A.State (Option (Domain × List Capability))
  verify_zone d = do
    verify_token A account
    answer ← get_zone_id A account d.zone_name
    zone_id ← lift (text_or_raise answer)
    report ← require_zone_permissions A account zone_id
    pure (some (with_zone zone_id d, report))

  unfoldable pub step_cloudflare_zone :
      Bool → Domain → Exec A.State (Option (Domain × List Capability))
  step_cloudflare_zone skip_cloudflare d =
      if skip_cloudflare || str_eq d.zone_name ""
      then pure none
      else (if not (d.enabled && not (str_eq d.api_token ""))
          then raise runtime_error
          else verify_zone d)

  unfoldable pub upsert_names : String → String → Bool → List String → Exec A.State (Unit {0})
  upsert_names zone_id ip proxied [] = pure tt
  upsert_names zone_id ip proxied (name ∷ names) =
      upsert_a_record A account zone_id name ip proxied 1 >>= λ r.
      upsert_names zone_id ip proxied names

  -- The labels of the records that were switched.
  unfoldable pub publish : String → Bool → Domain → Exec A.State (Option (List Json))
  publish ip proxied d = do
    upsert_names d.zone_id ip proxied (d.zone_name ∷ ("*." <> d.zone_name) ∷ [])
    changed ← reconcile_proxy_status A account d.zone_id ip proxied
    pure (some changed)

  unfoldable pub step_cloudflare_dns :
      Bool → String → Bool → Domain → Exec A.State (Option (List Json))
  step_cloudflare_dns skip_cloudflare ip proxied d =
      if skip_cloudflare || not (is_configured d) then pure none else publish ip proxied d

  unfoldable pub step_cloudflare_ssl : Bool → Bool → Domain → Exec A.State (Option Json)
  step_cloudflare_ssl skip_cloudflare proxied d =
      if skip_cloudflare || not (is_configured d) || not proxied
      then pure none
      else (set_ssl_mode A account d.zone_id "strict" >>= λ mode. pure (some mode))

-- The stored pair: `tls.present`, the two texts and `tls.name`.
pub record Tls : Type 0 where
  pub present : Bool
  pub certificate : String
  pub certificate_key : String
  pub name : String

module _ (E : Env) (P : Pem) (draw : Draw) where
  abbrev pub some_report : Report → Option (Report × List (Warning E.lower))
  some_report r = some (r, [])

  unfoldable pub install_stored : Tls → Exec (World E) (Option (Report × List (Warning E.lower)))
  install_stored t = do
    info ← lift (validate_pair P draw.now t.certificate t.certificate_key)
    hosts ← gets (λ w. w.db.hosts)
    outcome ← install_manual_certificate E t.name false "system" t.certificate t.certificate_key
    pure (
        some
          (outcome, coverage_warnings E.lower info E.config.zone_name (map (λ h. h.domain) hosts)))

  unfoldable pub install_origin_certificate :
      Bool → Bool → Tls → Exec (World E) (Option (Report × List (Warning E.lower)))
  install_origin_certificate skip_cloudflare configured t =
      if t.present
      then install_stored t
      else (if skip_cloudflare || not configured
          then pure none
          else (issue_and_install E draw false "system" >>= λ r. pure (some_report r)))

  unfoldable pub install_direct : Bool → Exec (World E) (Option (Report × List (Warning E.lower)))
  install_direct skip_cloudflare =
      if skip_cloudflare
      then raise runtime_error
      else (install_letsencrypt E draw.now false "system" >>= λ r. pure (some_report r))

  -- `configured` is `cf.enabled and cf.zone_id`.
  unfoldable pub step_certificate :
      Bool → Bool → Bool → Bool → Tls → Exec (World E) (Option (Report × List (Warning E.lower)))
  step_certificate skip_docker dns_proxied skip_cloudflare configured t =
      if skip_docker
      then pure none
      else (if dns_proxied
          then install_origin_certificate skip_cloudflare configured t
          else install_direct skip_cloudflare)
