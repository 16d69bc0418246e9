-- ===== src/Certificates/Flows.antt =====
-- The three installations of services/certificates.py, as a whole.
use edgekit.Certificates.Install.{
  report, kind_letsencrypt, record_certificate, installed, upload_and_record, move_hosts,
  expires_text, skipped, pem_text, issued, already_installed, npm_client, day, unchanged, on_npm,
  id_text, on_cloudflare, kind_origin, audit, recorded_kind, Report, World, Status, Draw, Env,
}
use edgekit.Base.{
  runtime_error, ◌>>◌, ◌*◌, none, lift, ◌+◌, certificate_error, ◌==◌, ◌<>◌, true, strip, raised,
  raise, ltb, gets, attempt, ◌||◌, ◌>>=◌, some, pure, not, code, ◌&&◌, str_eq, ok, if◌then◌else◌,
  false, String, Exec, Bool, Outcome, Option, Failure, ℕ,
}
use edgekit.Npm.Letsencrypt.{
  find_letsencrypt_certificate, create_letsencrypt_certificate, Challenge,
}
use edgekit.Npm.Certificates.{own_id}
use edgekit.Hosts.Settings.{setting_cert_expiry, setting_cert_id, get_setting}
use edgekit.Certificates.Names.{
  is_placeholder_email, certificate_name, certificate_hostnames, letsencrypt_name,
}
use edgekit.Cloudflare.Zone.{create_origin_certificate}
use edgekit.Npm.Client.{is_http, is_npm}
use edgekit.Base.Json.{truthy, num, Json}
use edgekit.Models.{Database}
use edgekit.Base.Json

-- `int(cert_id)`, as a number of JSON.
abbrev pub number_of : Outcome ℕ → Outcome Json
number_of (ok n) = ok (num n)
number_of (raised e) = raised e

-- `isinstance(exc, (NPMError, httpx.HTTPError))`
unfoldable pub is_npm_or_http : Failure → Bool
is_npm_or_http e = is_npm e || is_http e

-- The seconds that an expiry is away; `expires - now > dt.timedelta(days=days)`.
abbrev pub far_off : ℕ → ℕ → Option ℕ → Bool
far_off now days none = false
far_off now days (some t) = ltb (now + days * day) t

module _ (E : Env) where
  -- `name or certificate_name(config.cloudflare.zone_name or config.server.hostname)`
  abbrev zone_or_host : String
  zone_or_host = if str_eq E.config.zone_name "" then E.config.hostname else E.config.zone_name

  unfoldable pub name_or_default : String → String
  name_or_default name = if str_eq name "" then certificate_name zone_or_host else name

  -- The id that is installed already, or an upload.
  unfoldable pub keep_or_upload :
      String → String → String → String → String → Option String → Exec (World E) Report
  keep_or_upload actor previous_id name certificate_pem key_pem (some id) = pure (record {
    status = unchanged;
    certificate_id = id;
    expires = expires_text E (E.expiry certificate_pem);
  })
  keep_or_upload actor previous_id name certificate_pem key_pem none =
      upload_and_record E installed actor previous_id name certificate_pem key_pem

  unfoldable pub install_manual_certificate :
      String → Bool → String → String → String → Exec (World E) Report
  install_manual_certificate name force actor certificate_pem key_pem = do
    previous_id ← gets (λ w. get_setting setting_cert_id w.db)
    npm_client E
    unchanged_id ← (if force then pure none else already_installed E certificate_pem)
    keep_or_upload actor previous_id (name_or_default name) certificate_pem key_pem unchanged_id

  -- An origin certificate is recorded that is valid for more than thirty days.
  unfoldable pub still_valid : ℕ → Database → Bool
  still_valid now db =
      str_eq (recorded_kind db) kind_origin
      && not (str_eq (get_setting setting_cert_id db) "")
      && not (str_eq (get_setting setting_cert_expiry db) "")
      && far_off now 30 (E.fromisoformat (get_setting setting_cert_expiry db))

  abbrev pub issue_configured : Bool
  issue_configured =
      E.config.cloudflare_enabled
      && not (str_eq E.config.api_token "")
      && not (str_eq E.config.zone_name "")

  unfoldable pub issue : Draw → String → String → Exec (World E) Report
  issue draw actor previous_id = do
    cert ← on_cloudflare E (
        create_origin_certificate E.api E.account (certificate_hostnames E.config.zone_name)
          E.config.validity_days draw.csr_pem draw.key_pem)
    npm_client E
    pem ← lift (pem_text cert.certificate_pem)
    upload_and_record E issued actor previous_id (certificate_name E.config.zone_name) pem
        cert.private_key_pem

  unfoldable pub skip_or_issue : Draw → Bool → String → Exec (World E) Report
  skip_or_issue draw force actor = do
    previous_id ← gets (λ w. get_setting setting_cert_id w.db)
    expiry ← gets (λ w. get_setting setting_cert_expiry w.db)
    valid ← gets (λ w. still_valid draw.now w.db)
    if not force && valid
        then pure (record { status = skipped; certificate_id = previous_id; expires = expiry })
        else issue draw actor previous_id

  unfoldable pub issue_and_install : Draw → Bool → String → Exec (World E) Report
  issue_and_install draw force actor =
      if issue_configured then skip_or_issue draw force actor else raise runtime_error

  -- `parse_npm_timestamp`
  abbrev first_space_to_T : String → String
  first_space_to_T String.[] = ""
  first_space_to_T (String.◌∷◌ c s) =
      if code c == 32 then "T" <> s else String.◌∷◌ c (first_space_to_T s)

  abbrev z_to_utc : String → String
  z_to_utc String.[] = ""
  z_to_utc (String.◌∷◌ c s) =
      let rest = z_to_utc s in if code c == 90 then "+00:00" <> rest else String.◌∷◌ c rest

  unfoldable pub parse_npm_timestamp : Json → Option ℕ
  parse_npm_timestamp value =
      if truthy value
      then E.fromisoformat (z_to_utc (first_space_to_T (strip (id_text E value))))
      else none

  unfoldable pub challenge : Challenge
  challenge = record {
    nice_name = letsencrypt_name E.config.zone_name;
    domains = certificate_hostnames E.config.zone_name;
    dns_provider = "cloudflare";
    dns_credentials = "dns_cloudflare_api_token=" <> E.config.api_token;
    email = E.config.admin_email;
    propagation_seconds = 30;
  }

  pub record Obtained : Type 0 where
    pub cert_id : ℕ
    pub status : Status
    pub expires : Option ℕ

  unfoldable pub obtain : Exec (World E) Obtained
  obtain = do
    created ←
        attempt (on_npm E (create_letsencrypt_certificate E.server challenge))
          (λ e. if is_npm_or_http e then raise (certificate_error "letsencrypt") else raise e)
    id ← lift (own_id created)
    pure (record {
      cert_id = id;
      status = issued;
      expires = parse_npm_timestamp (Json.get "expires_on" created);
    })

  abbrev existing_expiry : Json → Option ℕ
  existing_expiry existing = parse_npm_timestamp (Json.get "expires_on" existing)

  abbrev none_or_far : ℕ → Option ℕ → Bool
  none_or_far now none = true
  none_or_far now (some t) = far_off now 30 (some t)

  -- A certificate is reused unless it is about to expire.
  unfoldable pub reusable : ℕ → Json → Bool
  reusable now existing = truthy existing && none_or_far now (existing_expiry existing)

  unfoldable pub reuse_or_obtain : ℕ → Option Json → Exec (World E) Obtained
  reuse_or_obtain now none = obtain
  reuse_or_obtain now (some existing) =
      if reusable now existing
      then (lift (own_id existing) >>= λ id.
          pure (record { cert_id = id; status = unchanged; expires = existing_expiry existing }))
      else obtain

  abbrev pub audit_unless_unchanged : Status → String → Exec (World E) (Unit {0})
  audit_unless_unchanged unchanged actor = pure tt
  audit_unless_unchanged _ actor =
      audit E actor "certificate.letsencrypt" (letsencrypt_name E.config.zone_name)

  -- Moving the hosts, and writing down what is installed.
  unfoldable pub finish : String → String → Obtained → Exec (World E) Report
  finish previous_id actor obtained = do
    move_hosts E previous_id (num obtained.cert_id)
    record_certificate E (num obtained.cert_id) (letsencrypt_name E.config.zone_name)
        obtained.expires none kind_letsencrypt
    audit_unless_unchanged obtained.status actor
    report E obtained.status (num obtained.cert_id) obtained.expires

  unfoldable pub install_configured : ℕ → Bool → String → Exec (World E) Report
  install_configured now force actor = do
    previous_id ← gets (λ w. get_setting setting_cert_id w.db)
    npm_client E
    existing ←
        (if force
          then pure none
          else on_npm E (find_letsencrypt_certificate E.server E.lower challenge.domains))
    obtained ← reuse_or_obtain now existing
    finish previous_id actor obtained

  -- `now` is the reading of the clock.
  unfoldable pub install_letsencrypt : ℕ → Bool → String → Exec (World E) Report
  install_letsencrypt now force actor =
      if str_eq E.config.api_token "" || str_eq E.config.zone_name ""
      then raise (certificate_error "token")
      else if is_placeholder_email E.lower E.config.admin_email
      then raise (certificate_error "email")
      else install_configured now force actor
