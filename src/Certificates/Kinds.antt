-- ===== src/Certificates/Kinds.antt =====
-- The kind of certificate that each installation writes down.
use edgekit.Base.{
  Triple-any, Triple-bind, Triple-pure, Triple-if, Triple-raise, Triple-lift-bind, Triple-weaken,
  Triple, Keeps, Exec, Option, some, none, String, Bool, ℕ, ◌≡◌, ◌||◌, ◌&&◌, not, str_eq,
}
use edgekit.Hosts.Settings.{setting_cert_kind, get_setting, get_setting-set_setting}
use edgekit.Certificates.Install.{
  World, Env, Report, Status, Draw, save, record_certificate, audit, report, upload_and_record,
  kind_origin, kind_letsencrypt, installed, issued, skipped, unchanged,
}
use edgekit.Certificates.Flows.{
  install_configured, install_letsencrypt, finish, audit_unless_unchanged, Obtained, keep_or_upload,
  install_manual_certificate, issue, skip_or_issue, issue_and_install, issue_configured,
}
use edgekit.Certificates.Names.{is_placeholder_email}
use edgekit.Base.Json.{Json}

module _ {E : Env} where
  abbrev pub KindIs : String → World E → Type 0
  KindIs kind w = get_setting setting_cert_kind w.db ≡ kind

  -- With that status, an origin certificate is written down.
  abbrev pub Origin : Status → Report → World E → Type 0
  Origin s r w = r.status ≡ s → KindIs kind_origin w

  abbrev Any : World E → Type 0
  Any w = Unit {0}

  record_certificate-KindIs :
      (cert_id : Json) (name : String) (expires : Option ℕ) (pem : Option String) (kind : String)
      → Triple Any
          (record_certificate E cert_id name expires pem kind)
          (λ _. KindIs kind)
          (λ _. Any)
  unfolding record_certificate save
  record_certificate-KindIs cert_id name expires pem kind =
      Triple-bind (λ _. Any) _ _ (Triple-any _ (λ e w. tt))
        (λ _.
          Triple-bind (λ _. Any) _ _ (Triple-any _ (λ e w. tt))
            (λ _.
              Triple-bind (λ _. Any) _ _ (Triple-any _ (λ e w. tt))
                (λ _.
                  Triple-lift-bind _ _ (λ e w h. tt)
                    (λ print e.
                      Triple-bind (λ _. Any) _ _ (Triple-any _ (λ e w. tt))
                        (λ _. record {
                          at = λ w h.
                              get_setting-set_setting setting_cert_kind setting_cert_kind kind w.db;
                        })))))

  audit-KindIs :
      (kind actor action target : String) → Keeps (KindIs kind) (audit E actor action target)
  unfolding audit get_setting
  audit-KindIs kind actor action target = record { at = λ w h. h }

  reported :
      (kind : String) (status : Status) (cert_id : Json) (expires : Option ℕ)
      → Triple (KindIs kind) (report E status cert_id expires) (λ _. KindIs kind) (λ _. Any)
  unfolding report
  reported kind status cert_id expires = Triple-pure _ (λ w h. h)

  audited :
      (kind : String) (m : Exec (World E) (Unit {0}))
      → Keeps (KindIs kind) m
      → Triple (KindIs kind) m (λ _. KindIs kind) (λ _. Any)
  audited kind m k = Triple-weaken m k (λ w h. h) (λ a w h. h) (λ e w h. tt)

  upload_and_record-KindIs :
      (status : Status) (actor previous_id name certificate_pem key_pem : String)
      → Triple Any
          (upload_and_record E status actor previous_id name certificate_pem key_pem)
          (λ _. KindIs kind_origin)
          (λ _. Any)
  unfolding upload_and_record
  upload_and_record-KindIs status actor previous_id name certificate_pem key_pem =
      Triple-bind (λ _. Any) _ _ (Triple-any _ (λ e w. tt))
        (λ cert_id.
          Triple-bind (λ _. Any) _ _ (Triple-any _ (λ e w. tt))
            (λ _.
              Triple-bind (λ _. KindIs kind_origin) _ _
                (record_certificate-KindIs cert_id name _ _ _)
                (λ _.
                  Triple-bind (λ _. KindIs kind_origin) _ _
                    (audited _ _ (audit-KindIs _ actor _ name))
                    (λ _. reported _ status cert_id _))))

  keep_or_upload-Origin :
      (actor previous_id name certificate_pem key_pem : String) (o : Option String)
      → Triple Any
          (keep_or_upload E actor previous_id name certificate_pem key_pem o)
          (Origin installed)
          (λ _. Any)
  unfolding keep_or_upload
  keep_or_upload-Origin actor previous_id name certificate_pem key_pem (some id) =
      Triple-pure _ (λ w h e. absurd (cc e))
  keep_or_upload-Origin actor previous_id name certificate_pem key_pem none =
      Triple-weaken _
        (upload_and_record-KindIs installed actor previous_id name certificate_pem key_pem)
        (λ w h. h) (λ r w h e. h) (λ e w h. h)

  pub install_manual_certificate-Origin :
      (name : String) (force : Bool) (actor certificate_pem key_pem : String)
      → Triple
          (λ _. Unit {0})
          (install_manual_certificate E name force actor certificate_pem key_pem)
          (Origin installed)
          (λ _ _. Unit {0})
  unfolding install_manual_certificate
  install_manual_certificate-Origin name force actor certificate_pem key_pem =
      Triple-bind (λ _. Any) _ _ (Triple-any _ (λ e w. tt))
        (λ previous_id.
          Triple-bind (λ _. Any) _ _ (Triple-any _ (λ e w. tt))
            (λ _.
              Triple-bind (λ _. Any) _ _ (Triple-any _ (λ e w. tt))
                (λ o. keep_or_upload-Origin actor previous_id _ certificate_pem key_pem o)))

  issue-Origin :
      (draw : Draw) (actor previous_id : String)
      → Triple Any (issue E draw actor previous_id) (Origin issued) (λ _. Any)
  unfolding issue
  issue-Origin draw actor previous_id =
      Triple-bind (λ _. Any) _ _ (Triple-any _ (λ e w. tt))
        (λ cert.
          Triple-bind (λ _. Any) _ _ (Triple-any _ (λ e w. tt))
            (λ _.
              Triple-lift-bind _ _ (λ e w h. tt)
                (λ pem e.
                  Triple-weaken _ (upload_and_record-KindIs issued actor previous_id _ pem _)
                    (λ w h. h) (λ r w h e. h) (λ e w h. h))))

  skip_or_issue-Origin :
      (draw : Draw) (force : Bool) (actor : String)
      → Triple Any (skip_or_issue E draw force actor) (Origin issued) (λ _. Any)
  unfolding skip_or_issue
  skip_or_issue-Origin draw force actor =
      Triple-bind (λ _. Any) _ _ (Triple-any _ (λ e w. tt))
        (λ previous_id.
          Triple-bind (λ _. Any) _ _ (Triple-any _ (λ e w. tt))
            (λ expiry.
              Triple-bind (λ _. Any) _ _ (Triple-any _ (λ e w. tt))
                (λ valid.
                  Triple-if (not force && valid) _ _ (λ _. Triple-pure _ (λ w h e. absurd (cc e)))
                    (λ _. issue-Origin draw actor previous_id))))

  pub issue_and_install-Origin :
      (draw : Draw) (force : Bool) (actor : String)
      → Triple
          (λ _. Unit {0})
          (issue_and_install E draw force actor)
          (Origin issued)
          (λ _ _. Unit {0})
  unfolding issue_and_install
  issue_and_install-Origin draw force actor =
      Triple-if (issue_configured E) _ _ (λ _. skip_or_issue-Origin draw force actor)
        (λ _. Triple-raise _ (λ w h. tt))

  audited_unless-KindIs :
      (kind : String) (status : Status) (actor : String)
      → Triple (KindIs kind) (audit_unless_unchanged E status actor) (λ _. KindIs kind) (λ _. Any)
  audited_unless-KindIs kind unchanged actor = Triple-pure tt (λ w h. h)
  audited_unless-KindIs kind skipped actor = audited kind _ (audit-KindIs kind actor _ _)
  audited_unless-KindIs kind issued actor = audited kind _ (audit-KindIs kind actor _ _)
  audited_unless-KindIs kind installed actor = audited kind _ (audit-KindIs kind actor _ _)

  finish-KindIs :
      (previous_id actor : String) (o : Obtained E)
      → Triple Any (finish E previous_id actor o) (λ _. KindIs kind_letsencrypt) (λ _. Any)
  unfolding finish
  finish-KindIs previous_id actor o =
      Triple-bind (λ _. Any) _ _ (Triple-any _ (λ e w. tt))
        (λ _.
          Triple-bind (λ _. KindIs kind_letsencrypt) _ _ (record_certificate-KindIs _ _ _ _ _)
            (λ _.
              Triple-bind (λ _. KindIs kind_letsencrypt) _ _
                (audited_unless-KindIs _ o.status actor) (λ _. reported _ o.status _ _)))

  install_configured-KindIs :
      (now : ℕ) (force : Bool) (actor : String)
      → Triple Any (install_configured E now force actor) (λ _. KindIs kind_letsencrypt) (λ _. Any)
  unfolding install_configured
  install_configured-KindIs now force actor =
      Triple-bind (λ _. Any) _ _ (Triple-any _ (λ e w. tt))
        (λ previous_id.
          Triple-bind (λ _. Any) _ _ (Triple-any _ (λ e w. tt))
            (λ _.
              Triple-bind (λ _. Any) _ _ (Triple-any _ (λ e w. tt))
                (λ existing.
                  Triple-bind (λ _. Any) _ _ (Triple-any _ (λ e w. tt))
                    (λ obtained. finish-KindIs previous_id actor obtained))))

  pub install_letsencrypt-KindIs :
      (now : ℕ) (force : Bool) (actor : String)
      → Triple
          (λ _. Unit {0})
          (install_letsencrypt E now force actor)
          (λ _. KindIs kind_letsencrypt)
          (λ _ _. Unit {0})
  unfolding install_letsencrypt
  install_letsencrypt-KindIs now force actor =
      Triple-if (str_eq E.config.api_token "" || str_eq E.config.zone_name "") _ _
        (λ _. Triple-raise _ (λ w h. tt))
        (λ _.
          Triple-if (is_placeholder_email E.lower E.config.admin_email) _ _
            (λ _. Triple-raise _ (λ w h. tt)) (λ _. install_configured-KindIs now force actor))
