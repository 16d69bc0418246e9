-- ===== src/Provision/Certified.antt =====
-- The certificate that `step_certificate` installs in each TLS mode.
use edgekit.Base.{
  ◌||◌, ◌&&◌, not, none, some, true, false, Bool, Option, List, ◌≡◌, Triple, Exec, Triple-bind,
  Triple-pure, Triple-if, Triple-raise, Triple-weaken, Triple-both, Triple-lift-bind, Keeps-gets,
  arith, pure, ◌>>=◌, [],
}
use edgekit.Provision.Steps.{
  install_direct, install_stored, install_origin_certificate, step_certificate, Tls,
}
use edgekit.Certificates.Kept.{Kept, Serving, Sound}
use edgekit.Certificates.Kinds.{
  KindIs, Origin, install_manual_certificate-Origin, issue_and_install-Origin,
  install_letsencrypt-KindIs,
}
use edgekit.Certificates.Names.{Pem, CertificateInfo, Warning}
use edgekit.Certificates.Pairs.{Usable, validate_pair-Usable}
use edgekit.Npm.Laws.{IsNpm, View}
use edgekit.Certificates.Install.{Env, World, Draw, Report, installed, issued, kind_letsencrypt}
use edgekit.Certificates.Sound.{install_manual_certificate-Sound, issue_and_install-Sound}
use edgekit.Certificates.Direct.{install_letsencrypt-Serving}

abbrev pub Answer : Env → Type 0
Answer E = Option (Report × List (Warning E.lower))

nowhere :
    (skip_docker dns_proxied present skip_cloudflare configured : Bool)
    → dns_proxied ≡ true
    → present ≡ false
    → skip_cloudflare || not configured ≡ true
    → skip_docker || dns_proxied && not present && (skip_cloudflare || not configured) ≡ true
nowhere skip_docker dns_proxied present skip_cloudflare configured proxied absent off = ground arith

module _ {E : Env} {V : View E.server} (laws : IsNpm V) (P : Pem) (draw : Draw) where
  -- What a step that returns has done, by its flags, the mode, and the stored pair.
  pub data Certified (skip_docker dns_proxied skip_cloudflare configured : Bool) (t : Tls)
      (w : World E) : Answer E → Type 0 where
    -- nothing, where it was to be skipped or there is no way to a certificate
    left_out :
        skip_docker || dns_proxied && not t.present && (skip_cloudflare || not configured) ≡ true
        → Certified skip_docker dns_proxied skip_cloudflare configured t w none
    -- in direct mode, a certificate by a DNS challenge, with its number and kind in the database
    challenged :
        (r : Report) (warnings : List (Warning E.lower))
        → dns_proxied ≡ false
        → Serving laws w
        → KindIs kind_letsencrypt w
        → Certified skip_docker dns_proxied skip_cloudflare configured t w (some (r, warnings))
    -- behind Cloudflare, the stored pair, which is fit for use
    stored :
        (r : Report) (warnings : List (Warning E.lower)) (info : CertificateInfo)
        → dns_proxied ≡ true
        → Usable P draw.now t.certificate t.certificate_key info
        → Sound laws installed r w
        → Origin installed r w
        → Certified skip_docker dns_proxied skip_cloudflare configured t w (some (r, warnings))
    -- behind Cloudflare without a stored pair, an origin certificate that the API issues
    created :
        (r : Report) (warnings : List (Warning E.lower))
        → dns_proxied ≡ true
        → t.present ≡ false
        → Sound laws issued r w
        → Origin issued r w
        → Certified skip_docker dns_proxied skip_cloudflare configured t w (some (r, warnings))

  reported :
      {A B : Type 0} {Q : A → World E → Type 0} {Q' : B → World E → Type 0} (m : Exec (World E) A)
      (g : A → B)
      → Triple (Kept laws) m Q (λ e. Kept laws)
      → ((a : A) (w : World E) → Q a w → Q' (g a) w)
      → Triple (Kept laws) (m >>= λ a. pure (g a)) Q' (λ e. Kept laws)
  reported m g k stronger = Triple-bind _ _ _ k (λ a. Triple-pure (g a) (λ w h. stronger a w h))

  -- The laws of an installation, and the kind that it writes down.
  and_kind :
      {A : Type 0} {Q Q' : A → World E → Type 0} (m : Exec (World E) A)
      → Triple (Kept laws) m Q (λ e. Kept laws)
      → Triple (λ _. Unit {0}) m Q' (λ _ _. Unit {0})
      → Triple (Kept laws) m (λ r w. Q r w × Q' r w) (λ e. Kept laws)
  and_kind m sound kind =
      Triple-weaken m
        (Triple-both m sound (Triple-weaken m kind (λ w h. tt) (λ r w h. h) (λ e w h. h)))
        (λ w h. h) (λ r w h. h) (λ e w h. h.0)

  module _ (skip_docker dns_proxied skip_cloudflare configured : Bool) (t : Tls) where
    abbrev Done : Answer E → World E → Type 0
    Done r w = Kept laws w × Certified skip_docker dns_proxied skip_cloudflare configured t w r

    install_stored-Done :
        dns_proxied ≡ true → Triple (Kept laws) (install_stored E P draw t) Done (λ e. Kept laws)
    unfolding install_stored
    install_stored-Done proxied =
        Triple-lift-bind _ _ (λ e w h. h)
          (λ info valid.
            Triple-bind (λ _. Kept laws) _ _ (Keeps-gets _)
              (λ hosts.
                reported _ _
                  (and_kind _
                    (install_manual_certificate-Sound laws t.name false "system" t.certificate
                      t.certificate_key)
                    (install_manual_certificate-Origin t.name false "system" t.certificate
                      t.certificate_key))
                  (λ r w h. (
                    h.0.kept,
                    stored r _ info proxied
                        ((validate_pair-Usable P draw.now t.certificate t.certificate_key info).0
                          valid)
                        h.0 h.1,
                  ))))

    install_origin_certificate-Done :
        dns_proxied ≡ true
        → Triple
            (Kept laws)
            (install_origin_certificate E P draw skip_cloudflare configured t)
            Done
            (λ e. Kept laws)
    unfolding install_origin_certificate
    install_origin_certificate-Done proxied =
        Triple-if t.present _ _ (λ _. install_stored-Done proxied)
          (λ absent.
            Triple-if (skip_cloudflare || not configured) _ _
              (λ off.
                Triple-pure none
                  (λ w h. (h, left_out (nowhere skip_docker _ _ _ _ proxied absent off))))
              (λ on.
                reported _ _
                  (and_kind _ (issue_and_install-Sound laws draw false "system")
                    (issue_and_install-Origin draw false "system"))
                  (λ r w h. (h.0.kept, created r [] proxied absent h.0 h.1))))

    install_direct-Done :
        dns_proxied ≡ false
        → Triple (Kept laws) (install_direct E P draw skip_cloudflare) Done (λ e. Kept laws)
    unfolding install_direct
    install_direct-Done direct =
        Triple-if skip_cloudflare _ _ (λ _. Triple-raise _ (λ w h. h))
          (λ _.
            reported _ _
              (and_kind _ (install_letsencrypt-Serving laws draw.now false "system")
                (install_letsencrypt-KindIs draw.now false "system"))
              (λ r w h. (h.0.0, challenged r [] direct h.0.1 h.1)))

    -- By the laws of the proxy manager: if every host serves with a certificate that is there, every
    -- host still does after `step_certificate`, whether it returns or raises. When it returns, it was to
    -- be skipped, or had no way to a certificate behind Cloudflare; or in direct mode, the database names
    -- a certificate that is there and has the kind "letsencrypt"; or behind Cloudflare, either the
    -- stored pair is a certificate and its key that has not expired, or none is stored, and if a
    -- certificate was installed or issued, the database names one that is there and has the kind
    -- "origin".
    pub step_certificate-Certified :
        Triple
          (Kept laws)
          (step_certificate E P draw skip_docker dns_proxied skip_cloudflare configured t)
          (λ r w. Kept laws w × Certified skip_docker dns_proxied skip_cloudflare configured t w r)
          (λ e. Kept laws)
    unfolding step_certificate
    step_certificate-Certified =
        Triple-if skip_docker _ _
          (λ skip. Triple-pure none (λ w h. (h, left_out (ground (arith, skip)))))
          (λ _. Triple-if dns_proxied _ _ install_origin_certificate-Done install_direct-Done)
