-- ===== src/Npm/Certificates/NoDangling.antt =====
-- `upload_custom_certificate` never leaves a proxy host on a certificate that is gone.
use edgekit.Base.{
  refl, pure, for_each, ◌>>◌, sym, Triple-for_each, Triple-lift, Outcome, Exec, After, Triple-pure,
  Triple-bind, Triple-weaken, subst, Keeps, Triple, List, ℕ, ◌≡◌, String, ok,
}
use edgekit.Npm.Certificates.Moves.{sweep_old-Keeps, repoint_old-Keeps}
use edgekit.Npm.Certificates.Fresh.{upload_or_delete-Triple, create-Triple, Created, Fresh}
use edgekit.Npm.Certificates.Reads.{
  find_certificates-Keeps, NoDangling-Stable, On, NoDangling, Holding,
}
use edgekit.Npm.Certificates.{upload_custom_certificate, sweep_old, repoint_old, upload_or_delete}
use edgekit.Npm.Client.{Link}
use edgekit.Npm.Api.{Server}
use edgekit.Npm.Laws.{View, IsNpm}
use edgekit.Base.Json.{Json, num}
use edgekit.Base.Json

module _ {S : Server} {V : View S} (laws : IsNpm V) where
  -- The result is the number of a certificate that is there.
  abbrev pub Installed : Json → Link S → Type 0
  Installed id s = (n : ℕ) × (id ≡ num n) × Holding V n s.server

  loses_hold :
      (n : ℕ) (m : Exec (Link S) (Unit {0}))
      → Keeps (On laws (Holding V n)) m
      → Triple (On laws (Holding V n)) m (λ _. On laws (Holding V n)) (λ e. On laws (NoDangling V))
  loses_hold n m k = Triple-weaken m k (λ s p. p) (λ a s p. p) (λ e s p. p.intact)

  -- The steps after the new record has been created.
  abbrev remaining : List Json → String → String → Json → Exec (Link S) Json
  remaining superseded cert key cert_id = do
    upload_or_delete S cert_id cert key
    for_each superseded (repoint_old S cert_id)
    for_each superseded (sweep_old S cert_id)
    pure cert_id

  remaining-Triple :
      (n : ℕ) (superseded : List Json) (cert key : String)
      → Triple
          (On laws (Fresh laws n))
          (remaining superseded cert key (num n))
          Installed
          (λ e. On laws (NoDangling V))
  remaining-Triple n superseded cert key =
      Triple-bind (λ _. On laws (Holding V n)) _ _ (upload_or_delete-Triple laws n cert key)
        (λ _.
          Triple-bind (λ _. On laws (Holding V n)) _ _
            (loses_hold n _ (Triple-for_each superseded _ (repoint_old-Keeps laws n)))
            (λ _.
              Triple-bind (λ _. On laws (Holding V n)) _ _
                (loses_hold n _ (Triple-for_each superseded _ (sweep_old-Keeps laws n)))
                (λ _. Triple-pure (num n) (λ s p. (n, refl, p)))))

  -- The same at the id as the server gave it.
  remaining_at_id :
      (superseded : List Json) (cert key : String) (id : Json)
      → Triple
          (λ s. (n : ℕ) × (id ≡ num n) × Fresh laws n s.server)
          (remaining superseded cert key id)
          Installed
          (λ e. On laws (NoDangling V))
  remaining_at_id superseded cert key id = record {
    at = λ s c.
        subst
          (λ (k : Json).
            After Installed (λ e. On laws (NoDangling V)) (remaining superseded cert key k s))
          (sym c.1) ((remaining-Triple c.0 superseded cert key).at s c.2);
  }

  created_id : {n : ℕ} {id : Json} {r : Outcome Json} → r ≡ ok (num n) → r ≡ ok id → id ≡ num n
  created_id p q = cc

  -- From a state in which every host serves with a certificate that is there, every host still does
  -- after the upload, whether it returns or raises; and the id that it returns is a certificate.
  pub upload_custom_certificate-NoDangling :
      (nice_name certificate_pem key_pem : String)
      → Triple
          (λ (s : Link S). NoDangling V s.server)
          (upload_custom_certificate S nice_name certificate_pem key_pem)
          Installed
          (λ e s. NoDangling V s.server)
  unfolding upload_custom_certificate
  upload_custom_certificate-NoDangling nice_name certificate_pem key_pem =
      Triple-bind (λ _. On laws (NoDangling V)) _ _
        (find_certificates-Keeps laws (NoDangling V) NoDangling-Stable nice_name)
        (λ superseded.
          Triple-bind (λ j s. Created laws j s.server) _ _ (create-Triple laws nice_name)
            (λ created.
              Triple-bind (λ id s. (n : ℕ) × (id ≡ num n) × Fresh laws n s.server) _ _
                (Triple-lift (Json.item "id" created) (λ id s c e. (c.0, created_id c.1 e, c.2))
                  (λ e s c. c.2.0.intact))
                (remaining_at_id superseded certificate_pem key_pem)))
