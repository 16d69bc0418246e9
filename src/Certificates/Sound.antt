-- ===== src/Certificates/Sound.antt =====
-- Installing an origin certificate leaves no host on a certificate that is gone.
use edgekit.Base.{
  ◌&&◌, Triple-raise, not, Triple-pure, Triple-lift-bind, Triple-if, some, Keeps-within, Option,
  Exec, Keeps-pure, Keeps-if, none, Triple-bind, Keeps-lift, pure, Keeps-gets, if◌then◌else◌,
  Keeps-bind, ◌≡◌, Triple, String, Keeps, Bool, ℕ,
}
use edgekit.Certificates.Kept.{upload_and_record-Sound, on_npm-Keeps, npm_client-Keeps, Sound, Kept}
use edgekit.Certificates.Flows.{
  issue_configured, skip_or_issue, keep_or_upload, issue_and_install, issue,
  install_manual_certificate,
}
use edgekit.Certificates.Install.{
  issued, on_cloudflare, Draw, installed, World, Report, already_installed, Status, Env,
}
use edgekit.Npm.Certificates.Reads.{NoDangling-Stable, list_certificates-Keeps, NoDangling}
use edgekit.Npm.Client.{Link}
use edgekit.Npm.Certificates.{certificate_exists}
use edgekit.Npm.Laws.{IsNpm, View}
use edgekit.Npm.Api.{Server}

module _ {S : Server} {V : View S} (laws : IsNpm V) where
  certificate_exists-Keeps :
      (id : ℕ) → Keeps (λ (s : Link S). NoDangling V s.server) (certificate_exists S id)
  unfolding certificate_exists
  certificate_exists-Keeps id =
      Keeps-bind _ _ (list_certificates-Keeps laws (NoDangling V) NoDangling-Stable)
        (λ certs. Keeps-lift _)

module _ {E : Env} {V : View E.server} (laws : IsNpm V) where
  already_installed-Keeps : (pem : String) → Keeps (Kept laws) (already_installed E pem)
  unfolding already_installed
  already_installed-Keeps pem = Keeps-bind _ _ (Keeps-gets _) (λ recorded.
      Keeps-bind _ _ (Keeps-gets _) (λ matches. Keeps-bind _ _ (Keeps-lift matches) (λ same.
        Keeps-if same _ _
          (Keeps-bind _ _ (Keeps-lift _) (λ id.
            Keeps-bind _ _ (on_npm-Keeps laws (NoDangling V) _ (certificate_exists-Keeps laws id))
              (λ there. Keeps-pure _)))
          (Keeps-pure none))))

  -- No upload took place.
  Sound-other :
      (s : Status) (r : Report)
      → (r.status ≡ s → ⊥)
      → (w : World E) → Kept laws w
      → Sound laws s r w
  Sound-other s r other w h = record { kept = h; serving = λ e. absurd (other e) }

  checked-Keeps :
      (force : Bool) (pem : String)
      → Keeps (Kept laws) (if force then pure none else already_installed E pem)
  checked-Keeps force pem = Keeps-if force _ _ (Keeps-pure none) (already_installed-Keeps pem)

  keep_or_upload-Sound :
      (actor previous_id name certificate_pem key_pem : String) (o : Option String)
      → Triple
          (Kept laws)
          (keep_or_upload E actor previous_id name certificate_pem key_pem o)
          (Sound laws installed)
          (λ e. Kept laws)
  unfolding keep_or_upload
  keep_or_upload-Sound actor previous_id name certificate_pem key_pem (some id) =
      Triple-pure _ (λ w h. Sound-other installed _ (λ e. cc e) w h)
  keep_or_upload-Sound actor previous_id name certificate_pem key_pem none =
      upload_and_record-Sound laws installed installed actor previous_id name certificate_pem
        key_pem

  -- By the laws of the proxy manager: if every host serves with a certificate that is there, every host still does after a certificate
  -- was installed by hand, whether this returns or raises. When it returns "installed", the setting
  -- that the hosts read is the number of a certificate that is there.
  pub install_manual_certificate-Sound :
      (name : String) (force : Bool) (actor certificate_pem key_pem : String)
      → Triple
          (Kept laws)
          (install_manual_certificate E name force actor certificate_pem key_pem)
          (Sound laws installed)
          (λ e. Kept laws)
  unfolding install_manual_certificate
  install_manual_certificate-Sound name force actor certificate_pem key_pem =
      Triple-bind (λ _. Kept laws) _ _ (Keeps-gets _)
        (λ previous_id.
          Triple-bind (λ _. Kept laws) _ _ (npm_client-Keeps laws (NoDangling V))
            (λ _.
              Triple-bind (λ _. Kept laws) _ _ (checked-Keeps force certificate_pem)
                (λ o. keep_or_upload-Sound actor previous_id _ certificate_pem key_pem o)))

  -- What is done at Cloudflare leaves the proxy manager alone.
  on_cloudflare-Keeps :
      {B : Type 0} (m : Exec E.api.State B) → Keeps (Kept laws) (on_cloudflare E m)
  on_cloudflare-Keeps m = Keeps-within _ _ _ m (λ t w h. h)

  issue-Sound :
      (draw : Draw) (actor previous_id : String)
      → Triple (Kept laws) (issue E draw actor previous_id) (Sound laws issued) (λ e. Kept laws)
  unfolding issue
  issue-Sound draw actor previous_id =
      Triple-bind (λ _. Kept laws) _ _ (on_cloudflare-Keeps _)
        (λ cert.
          Triple-bind (λ _. Kept laws) _ _ (npm_client-Keeps laws (NoDangling V))
            (λ _.
              Triple-lift-bind _ _ (λ e w h. h)
                (λ pem e. upload_and_record-Sound laws issued issued actor previous_id _ pem _)))

  skip_or_issue-Sound :
      (draw : Draw) (force : Bool) (actor : String)
      → Triple (Kept laws) (skip_or_issue E draw force actor) (Sound laws issued) (λ e. Kept laws)
  unfolding skip_or_issue
  skip_or_issue-Sound draw force actor =
      Triple-bind (λ _. Kept laws) _ _ (Keeps-gets _)
        (λ previous_id.
          Triple-bind (λ _. Kept laws) _ _ (Keeps-gets _)
            (λ expiry.
              Triple-bind (λ _. Kept laws) _ _ (Keeps-gets _)
                (λ valid.
                  Triple-if (not force && valid) _ _
                    (λ _. Triple-pure _ (λ w h. Sound-other issued _ (λ e. cc e) w h))
                    (λ _. issue-Sound draw actor previous_id))))

  -- By the laws of the proxy manager: if every host serves with a certificate that is there, every host still does after
  -- `issue_and_install`, whether it returns or raises. When it returns "issued", the setting that the
  -- hosts read is the number of a certificate that is there.
  pub issue_and_install-Sound :
      (draw : Draw) (force : Bool) (actor : String)
      → Triple
          (Kept laws)
          (issue_and_install E draw force actor)
          (Sound laws issued)
          (λ e. Kept laws)
  unfolding issue_and_install
  issue_and_install-Sound draw force actor =
      Triple-if (issue_configured E) _ _ (λ _. skip_or_issue-Sound draw force actor)
        (λ _. Triple-raise _ (λ w h. h))
