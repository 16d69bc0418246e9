-- ===== src/Cloudflare/Zone.antt =====
-- The permissions, the TLS mode and the origin certificates of `CloudflareClient` in
-- services/cloudflare.py, and the DNS calls that the proxy hosts make.
use edgekit.Base.Json.{text_items, arr, object, null, text, num, Json}
use edgekit.Cloudflare.Client.{
  always_use_https, Resource, request_with, origin_certificates, ssl, fetch, request,
  catch_cloudflare, Call, dns_records, Account, Api,
}
use edgekit.Npm.Api.{Verb}
use edgekit.Base.{
  false, ◌>>◌, true, raise, keep, cloudflare_error, str_eq, raised, lift, [], ◌∷◌, ◌>>=◌, pure, ok,
  not, Exec, ◌&&◌, if◌then◌else◌, Outcome, String, List, Bool, ℕ,
}
use edgekit.Cloudflare.Records.{is_text}
use edgekit.Base.Json

pub record Capability : Type 0 where
  pub label : String
  pub permission : String
  pub granted : Bool
  pub required : Bool

pub record Probe : Type 0 where
  pub label : String
  pub permission : String
  pub path : Resource
  pub params : List (String × Json)
  pub required : Bool

unfoldable pub probes : String → List Probe
probes zone_id =
    record {
      label = "DNS records";
      permission = "DNS:Edit";
      path = dns_records zone_id;
      params = ("per_page", num 1) ∷ [];
      required = true;
    }
    ∷ record {
      label = "SSL/TLS mode";
      permission = "Zone Settings:Edit";
      path = ssl zone_id;
      params = [];
      required = true;
    }
    ∷ record {
      label = "Origin certificates";
      permission = "SSL and Certificates:Edit";
      path = origin_certificates;
      params = ("zone_id", text zone_id) ∷ [];
      required = false;
    }
    ∷ []

abbrev pub is_missing : Capability → Bool
is_missing c = c.required && not c.granted

abbrev pub report_or_raise : List Capability → List Capability → Outcome (List Capability)
report_or_raise [] report = ok report
report_or_raise (c ∷ cs) report = raised (cloudflare_error [])

pub record OriginCertificate : Type 0 where
  pub certificate_pem : Json
  pub private_key_pem : String
  pub hostnames : List String
  pub expires_on : Json

-- `result.get("value", default)`
unfoldable pub value_or : Json → Json → Json
value_or other result = if Json.has_key "value" result then Json.get "value" result else other

module _ (A : Api) (account : Account) where
  unfoldable pub probe_one : Probe → Exec A.State Capability
  probe_one p =
      catch_cloudflare
        (request A account (fetch A account p.path p.params)
          >> pure (record {
            label = p.label;
            permission = p.permission;
            granted = true;
            required = p.required;
          }))
        (λ _. pure (record {
          label = p.label;
          permission = p.permission;
          granted = false;
          required = p.required;
        }))

  unfoldable pub probe_each : List Probe → Exec A.State (List Capability)
  probe_each [] = pure []
  probe_each (p ∷ ps) = do first ← probe_one p; rest ← probe_each ps; pure (first ∷ rest)

  unfoldable pub check_zone_permissions : String → Exec A.State (List Capability)
  check_zone_permissions zone_id = probe_each (probes zone_id)

  unfoldable pub require_zone_permissions : String → Exec A.State (List Capability)
  require_zone_permissions zone_id = check_zone_permissions zone_id >>= λ report.
      lift (report_or_raise (keep is_missing report) report)

  unfoldable pub get_ssl_mode : String → Exec A.State Json
  get_ssl_mode zone_id =
      request A account (fetch A account (ssl zone_id) []) >>= λ j. pure (value_or (text "") j)

  unfoldable pub set_ssl_mode : String → String → Exec A.State Json
  set_ssl_mode zone_id mode = get_ssl_mode zone_id >>= λ current.
      if is_text mode current
      then pure current
      else (request A account (record {
        verb = Verb.patch;
        path = ssl zone_id;
        params = null;
        payload = object (("value", text mode) ∷ []);
      })
          >>= λ j. pure (value_or (text mode) j))

  unfoldable pub set_always_use_https : String → Bool → Exec A.State (Unit {0})
  set_always_use_https zone_id enabled =
      request A account (record {
        verb = Verb.patch;
        path = always_use_https zone_id;
        params = null;
        payload = object (("value", text (if enabled then "on" else "off")) ∷ []);
      })
      >> pure tt

  abbrev origin_call : List String → ℕ → String → Call
  origin_call hostnames validity_days csr_pem = record {
    verb = Verb.post;
    path = origin_certificates;
    params = null;
    payload = object (
        ("hostnames", arr (text_items hostnames))
        ∷ ("requested_validity", num validity_days)
        ∷ ("request_type", text "origin-rsa")
        ∷ ("csr", text csr_pem)
        ∷ []);
  }

  -- `generate_csr` draws a key: the request for a certificate and the key are arguments.
  unfoldable pub create_origin_certificate :
      List String → ℕ → String → String → Exec A.State OriginCertificate
  create_origin_certificate hostnames validity_days csr_pem key_pem = do
    result ←
        catch_cloudflare (request A account (origin_call hostnames validity_days csr_pem)) (λ e.
          if str_eq account.origin_ca_key ""
          then raise (cloudflare_error [])
          else request_with A account true (origin_call hostnames validity_days csr_pem))
    certificate ← lift (Json.item "certificate" result)
    pure (record {
      certificate_pem = certificate;
      private_key_pem = key_pem;
      hostnames = hostnames;
      expires_on = Json.get "expires_on" result;
    })
