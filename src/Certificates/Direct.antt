-- ===== src/Certificates/Direct.antt =====
-- `install_letsencrypt`, for direct mode: what it keeps and establishes.
use edgekit.Certificates.Names.{is_placeholder_email}
use edgekit.Base.{
  ◌||◌, str_eq, Keeps-gets, refl, ap, Triple-raise, Triple-pure, Triple-if, true, some, none,
  Triple-within, Triple-lift-bind, Keeps-pure, subst, pure, Triple-weaken, Triple-attempt, ◌>>=◌,
  ok, if◌then◌else◌, Triple-bind, ◌≡◌, lift, Keeps, Triple, String, Option, Bool, ℕ,
}
use edgekit.Certificates.Flows.{
  install_configured, reusable, install_letsencrypt, finish, is_npm_or_http, challenge,
  audit_unless_unchanged, reuse_or_obtain, obtain, Obtained,
}
use edgekit.Certificates.Kept.{
  Serving-Named, record-Named, npm_client-Keeps, move_hosts-Keeps, Serving, audit-Named, Named,
  Kept, Held,
}
use edgekit.Npm.Certificates.Reads.{NoDangling}
use edgekit.Certificates.Install.{
  report, installed, issued, skipped, unchanged, on_npm, World, Status, Env,
}
use edgekit.Npm.Certificates.{int_or_raise, own_id}
use edgekit.Npm.Challenge.{
  find_letsencrypt_certificate-exists, create_letsencrypt_certificate-exists, IfSome,
}
use edgekit.Npm.Letsencrypt.{find_letsencrypt_certificate}
use edgekit.Base.Json.{num, Json}
use edgekit.Npm.Laws.{NamesCert, IsNpm, View}
use edgekit.Base.Json

own_id-item : (j : Json) (n : ℕ) → Json.item "id" j ≡ ok (num n) → own_id j ≡ ok n
unfolding own_id Json.int_of
own_id-item j n e = ap int_or_raise e

module _ {E : Env} {V : View E.server} (laws : IsNpm V) where
  -- The certificate that was found or obtained is there.
  abbrev Ready : Obtained E → World E → Type 0
  Ready o w = Held laws o.cert_id w

  abbrev Names : Json → World E → Type 0
  Names j w = Kept laws w × NamesCert V w.link.server j

  Names-Held : (j : Json) (m : ℕ) (w : World E) → own_id j ≡ ok m → Names j w → Held laws m w
  Names-Held j m w e h = record {
    intact = h.0;
    held =
        subst (λ n. V.has_cert w.link.server n ≡ true) (same_number (own_id-item j h.1.0 h.1.1))
          h.1.2;
  }
    where
      same_number : {n : ℕ} → own_id j ≡ ok n → n ≡ m
      same_number p = cc

  identified :
      (j : Json) (status : Status) (expires : Option ℕ)
      → Triple
          (Names j)
          (lift (own_id j) >>= λ id.
            pure (record { cert_id = id; status = status; expires = expires }))
          Ready
          (λ e. Kept laws)
  identified j status expires =
      Triple-lift-bind (own_id j) _ (λ e w h. h.0)
        (λ m e. Triple-pure _ (λ w h. Names-Held j m w e h))

  obtain-Ready : Triple (Kept laws) (obtain E) Ready (λ e. Kept laws)
  unfolding obtain
  obtain-Ready =
      Triple-bind Names _ _
        (Triple-attempt (λ e. Kept laws) _ _
          (Triple-within _ _ _ (λ t w. refl)
            (create_letsencrypt_certificate-exists laws (challenge E)))
          (λ e.
            Triple-if (is_npm_or_http e) _ _ (λ _. Triple-raise _ (λ w h. h))
              (λ _. Triple-raise e (λ w h. h))))
        (λ created. identified created issued _)

  reuse_or_obtain-Ready :
      (now : ℕ) (o : Option Json)
      → Triple
          (λ w. Kept laws w × IfSome (NamesCert V w.link.server) o)
          (reuse_or_obtain E now o)
          Ready
          (λ e. Kept laws)
  unfolding reuse_or_obtain
  reuse_or_obtain-Ready now none =
      Triple-weaken _ obtain-Ready (λ w h. h.0) (λ a w h. h) (λ e w h. h)
  reuse_or_obtain-Ready now (some existing) =
      Triple-if (reusable E now existing) _ _ (λ _. identified existing unchanged _)
        (λ _. Triple-weaken _ obtain-Ready (λ w h. h.0) (λ a w h. h) (λ e w h. h))

  found-Names :
      (force : Bool)
      → Triple
          (Kept laws)
          (if force
            then pure none
            else on_npm E (find_letsencrypt_certificate E.server E.lower (challenge E).domains))
          (λ o w. Kept laws w × IfSome (NamesCert V w.link.server) o)
          (λ e. Kept laws)
  found-Names force =
      Triple-if force _ _ (λ _. Triple-pure none (λ w h. (h, tt)))
        (λ _.
          Triple-within _ _ _ (λ t w. refl)
            (find_letsencrypt_certificate-exists laws E.lower (challenge E).domains))

  audited-Named :
      (n : ℕ) (status : Status) (actor : String)
      → Keeps (Named laws n) (audit_unless_unchanged E status actor)
  audited-Named n unchanged actor = Keeps-pure tt
  audited-Named n skipped actor = audit-Named laws n actor _ _
  audited-Named n issued actor = audit-Named laws n actor _ _
  audited-Named n installed actor = audit-Named laws n actor _ _

  -- What follows once the certificate is there.
  finish-Serving :
      (previous_id actor : String) (o : Obtained E)
      → Triple
          (Ready o)
          (finish E previous_id actor o)
          (λ r w. Kept laws w × Serving laws w)
          (λ e. Kept laws)
  unfolding finish report
  finish-Serving previous_id actor o =
      Triple-bind (λ _. Held laws o.cert_id) _ _
        (Triple-weaken _ (move_hosts-Keeps laws o.cert_id previous_id) (λ w h. h) (λ a w h. h)
          (λ e w h. h.intact))
        (λ _.
          Triple-bind (λ _. Named laws o.cert_id) _ _ (record-Named laws o.cert_id _ _ _ _)
            (λ _.
              Triple-bind (λ _. Named laws o.cert_id) _ _
                (Triple-weaken _ (audited-Named o.cert_id o.status actor) (λ w h. h) (λ a w h. h)
                  (λ e w h. h.0.intact))
                (λ _. Triple-pure _ (λ w h. (h.0.intact, Serving-Named laws o.cert_id w h)))))

  install_configured-Serving :
      (now : ℕ) (force : Bool) (actor : String)
      → Triple
          (Kept laws)
          (install_configured E now force actor)
          (λ r w. Kept laws w × Serving laws w)
          (λ e. Kept laws)
  unfolding install_configured
  install_configured-Serving now force actor =
      Triple-bind (λ _. Kept laws) _ _ (Keeps-gets _)
        (λ previous_id.
          Triple-bind (λ _. Kept laws) _ _ (npm_client-Keeps laws (NoDangling V))
            (λ _.
              Triple-bind (λ o w. Kept laws w × IfSome (NamesCert V w.link.server) o) _ _
                (found-Names force)
                (λ existing.
                  Triple-bind Ready _ _ (reuse_or_obtain-Ready now existing)
                    (λ obtained. finish-Serving previous_id actor obtained))))

  -- By the laws of the proxy manager: if every host serves with a certificate that is there, every host still does after
  -- `install_letsencrypt`, whether it returns or raises. When it returns, whether with a certificate
  -- that was found or a new one, the setting that the hosts read is the number of a certificate that
  -- is there.
  pub install_letsencrypt-Serving :
      (now : ℕ) (force : Bool) (actor : String)
      → Triple
          (Kept laws)
          (install_letsencrypt E now force actor)
          (λ r w. Kept laws w × Serving laws w)
          (λ e. Kept laws)
  unfolding install_letsencrypt
  install_letsencrypt-Serving now force actor =
      Triple-if (str_eq E.config.api_token "" || str_eq E.config.zone_name "") _ _
        (λ _. Triple-raise _ (λ w h. h))
        (λ _.
          Triple-if (is_placeholder_email E.lower E.config.admin_email) _ _
            (λ _. Triple-raise _ (λ w h. h)) (λ _. install_configured-Serving now force actor))
