-- ===== src/Certificates/Install.antt =====
-- `issue_and_install`, `install_manual_certificate` and `install_letsencrypt` of
-- services/certificates.py. The state is the database, the proxy manager and Cloudflare. Waiting
-- with progress reports (`_reporting_progress`) is waiting for the request.
use edgekit.Base.{
  false, digits_value, value_error, not, ◌||◌, raised, lift, Char, ◌==◌, str_eq, none, is_numeric,
  gets, ◌>>◌, ◌>>=◌, within, some, pure, ok, if◌then◌else◌, Outcome, String, Option, Exec, Bool, ℕ,
}
use edgekit.Npm.Certificates.{certificate_exists, repoint_hosts, upload_custom_certificate}
use edgekit.Hosts.Settings.{
  setting_cert_expiry, setting_cert_name, set_setting, setting_cert_kind, setting_cert_id,
  setting_cert_fingerprint, get_setting,
}
use edgekit.Base.Json.{int_of, text, num, Json}
use edgekit.Models.{audited, Database}
use edgekit.Cloudflare.Client.{Account, Api}
use edgekit.Base.Decimal.{decimal}
use edgekit.Npm.Client.{Link}
use edgekit.Npm.Api.{Server}

pub record Config : Type 0 where
  -- `cf_config.enabled`, `cf_config.api_token`
  pub cloudflare_enabled : Bool
  pub api_token : String
  pub zone_name : String
  pub validity_days : ℕ
  pub admin_email : String
  pub admin_password : String
  pub hostname : String

pub record Env : Type 1 where
  pub config : Config
  pub server : Server
  pub api : Api
  pub account : Account
  -- `lower` beyond ASCII
  pub lower : Char → String
  -- `certificate_expiry`, `certificate_fingerprint`: what `x509` reads in a PEM text
  pub expiry : String → Option ℕ
  pub fingerprint : String → Outcome String
  -- `datetime.fromisoformat`, with UTC where no zone is named, and `isoformat`
  pub fromisoformat : String → Option ℕ
  pub isoformat : ℕ → String
  -- `str` of a JSON value that is neither a number nor a text
  pub other_text : Json → String

-- The key and the request for a certificate that `generate_csr` draws, and the clock.
pub record Draw : Type 0 where
  pub csr_pem : String
  pub key_pem : String
  pub now : ℕ

abbrev pub day : ℕ
day = 86_400_000_000

pub data Status : Type 0 where
  skipped issued installed unchanged : Status

pub record Report : Type 0 where
  pub status : Status
  pub certificate_id : String
  pub expires : String

abbrev pub kind_origin : String
kind_origin = "origin"

abbrev pub kind_letsencrypt : String
kind_letsencrypt = "letsencrypt"

-- `get_setting(session, SETTING_CERT_KIND) or KIND_ORIGIN`
unfoldable pub recorded_kind : Database → String
recorded_kind db =
    let kind = get_setting setting_cert_kind db in if str_eq kind "" then kind_origin else kind

-- `result["certificate"].encode()`
abbrev pub pem_text : Json → Outcome String
pem_text (text s) = ok s
pem_text _ = raised value_error

abbrev pub action_of : Status → String
action_of issued = "certificate.issue"
action_of _ = "certificate.install"

module _ (E : Env) where
  pub record World : Type 0 where
    pub db : Database
    pub link : Link E.server
    pub cloudflare : E.api.State

  abbrev pub on_npm : {B : Type 0} → Exec (Link E.server) B → Exec World B
  on_npm = within (λ w. w.link) (λ l w. record w { link = l })

  abbrev pub on_cloudflare : {B : Type 0} → Exec E.api.State B → Exec World B
  on_cloudflare = within (λ w. w.cloudflare) (λ c w. record w { cloudflare = c })

  -- `NPMClient(npm_config.api_base, npm_config.admin_email, npm_config.admin_password)`
  unfoldable pub npm_client : Exec World (Unit {0})
  npm_client w = (
    ok tt,
    record w {
      link = record w.link {
        client = record {
          email = E.config.admin_email;
          password = E.config.admin_password;
          token = none;
        };
      };
    },
  )

  -- `str(cert_id)`
  unfoldable pub id_text : Json → String
  id_text (num n) = decimal n
  id_text (text s) = s
  id_text j = E.other_text j

  -- `_move_hosts`, when the ids are read
  unfoldable pub move_from : ℕ → ℕ → Exec World (Unit {0})
  move_from previous new =
      if previous == new then pure tt else on_npm (repoint_hosts E.server previous (num new))

  unfoldable pub move_hosts : String → Json → Exec World (Unit {0})
  move_hosts previous_id new_id =
      if is_numeric previous_id
      then (lift (int_of new_id) >>= λ n. move_from (digits_value 0 previous_id) n)
      else pure tt

  abbrev pub expires_text : Option ℕ → String
  expires_text none = ""
  expires_text (some t) = E.isoformat t

  unfoldable pub save : String → String → Exec World (Unit {0})
  save key value w = (ok tt, record w { db = set_setting key value w.db })

  -- No fingerprint for a certificate that the proxy manager holds by itself.
  unfoldable pub print_of : Option String → Outcome String
  print_of none = ok ""
  print_of (some pem) = if str_eq pem "" then ok "" else E.fingerprint pem

  -- `_record`; the fingerprint may raise after three settings.
  unfoldable pub record_certificate :
      Json → String → Option ℕ → Option String → String → Exec World (Unit {0})
  record_certificate cert_id name expires certificate_pem kind = do
    save setting_cert_id (id_text cert_id)
    save setting_cert_name name
    save setting_cert_expiry (expires_text expires)
    print ← lift (print_of certificate_pem)
    save setting_cert_fingerprint print
    save setting_cert_kind kind

  unfoldable pub audit : String → String → String → Exec World (Unit {0})
  audit actor action target w = (ok tt, record w { db = audited actor action target w.db })

  -- The last two steps of an installation.
  unfoldable pub report : Status → Json → Option ℕ → Exec World Report
  report status cert_id expires =
      pure (record {
        status = status;
        certificate_id = id_text cert_id;
        expires = expires_text expires;
      })

  -- `_already_installed`
  unfoldable pub recorded_print_matches : String → Database → Outcome Bool
  recorded_print_matches certificate_pem db =
      let print = get_setting setting_cert_fingerprint db in
      if str_eq (get_setting setting_cert_id db) ""
        || str_eq print ""
        || not (str_eq (recorded_kind db) kind_origin)
      then ok false
      else elim (E.fingerprint certificate_pem) [
        | ok new ↦ ok (str_eq print new)
        | raised e ↦ raised e
      ]

  unfoldable pub already_installed : String → Exec World (Option String)
  already_installed certificate_pem = do
    recorded ← gets (λ w. get_setting setting_cert_id w.db)
    matches ← gets (λ w. recorded_print_matches certificate_pem w.db)
    same ← lift matches
    if same
        then (do
          id ← lift (int_of (text recorded))
          there ← on_npm (certificate_exists E.server id)
          pure (if there then some recorded else none))
        else pure none

  -- Uploading, moving the hosts, and writing down what was installed.
  unfoldable pub upload_and_record :
      Status → String → String → String → String → String → Exec World Report
  upload_and_record status actor previous_id name certificate_pem key_pem = do
    cert_id ← on_npm (upload_custom_certificate E.server name certificate_pem key_pem)
    move_hosts previous_id cert_id
    record_certificate cert_id name (E.expiry certificate_pem) (some certificate_pem) kind_origin
    audit actor (action_of status) name
    report status cert_id (E.expiry certificate_pem)
