-- ===== src/Certificates/Kept.antt =====
-- What installing a certificate keeps and establishes.
use edgekit.Hosts.Service.{number_in, certificate_id}
use edgekit.Base.Digits.{Unicode}
use edgekit.Hosts.Settings.{set_setting, get_setting-set_setting, setting_cert_id, get_setting}
use edgekit.Base.{
  sym, After, ◌>>◌, Triple-pure, Triple-weaken, digits_value, subst, is_numeric, ok, refl, ◌∙◌,
  Triple-lift-bind, false, Triple-bind, Keeps-pure, ◌==◌, true, Triple-within, str_eq, some, Triple,
  Option, Keeps-if, ◌≡◌, String, Keeps, Exec, ℕ,
}
use edgekit.Npm.Certificates.Reads.{NoDangling, Holding}
use edgekit.Certificates.Install.{
  action_of, kind_origin, upload_and_record, report, audit, on_npm, id_text, Report, save,
  record_certificate, npm_client, move_hosts, move_from, World, Status, Env,
}
use edgekit.Npm.Certificates.NoDangling.{upload_custom_certificate-NoDangling, Installed}
use edgekit.Base.Json.{Json, num}
use edgekit.Npm.Certificates.Moves.{repoint_hosts-Keeps}
use edgekit.Base.Decimal.{digits_value-decimal, decimal}
use edgekit.Npm.Client.{Link}
use edgekit.Models.{Database}
use edgekit.Npm.Laws.{IsNpm, View}
use edgekit.Base.Json

-- The number that is written as a setting is the number that the hosts read.
pub certificate_id-decimal :
    (U : Unicode) (n : ℕ) (db : Database)
    → get_setting setting_cert_id db ≡ decimal n
    → certificate_id U db ≡ ok (some n)
unfolding certificate_id number_in
certificate_id-decimal U n db e = let d = digits_value-decimal n in rw (e, d.0, d.1) refl

-- What `_record` writes for the number of a certificate is what `certificate_id` of the hosts reads.
pub certificate_id-set_setting :
    (E : Env) (U : Unicode) (n : ℕ) (db : Database)
    → certificate_id U (set_setting setting_cert_id (id_text E (num n)) db) ≡ ok (some n)
unfolding id_text
certificate_id-set_setting E U n db =
    certificate_id-decimal U n (set_setting setting_cert_id (decimal n) db)
      (get_setting-set_setting setting_cert_id setting_cert_id (decimal n) db)

module _ {E : Env} {V : View E.server} (laws : IsNpm V) where
  abbrev pub Kept : World E → Type 0
  Kept w = NoDangling V w.link.server

  abbrev pub Held : ℕ → World E → Type 0
  Held n w = Holding V n w.link.server

  pub on_npm-Keeps :
      {B : Type 0} (P : E.server.State → Type 0) (m : Exec (Link E.server) B)
      → Keeps (λ s. P s.server) m
      → Keeps (λ w. P w.link.server) (on_npm E m)
  on_npm-Keeps P m k = Triple-within _ _ m (λ t s. refl) k

  -- The database names a certificate that is there.
  pub record Serving (w : World E) : Type 0 where
    pub number : ℕ
    pub recorded : (U : Unicode) → certificate_id U w.db ≡ ok (some number)
    pub exists : V.has_cert w.link.server number ≡ true

  -- No host is left on a certificate that is gone; and with the status `s`, the database names one
  -- that is there.
  pub record Sound (s : Status) (r : Report) (w : World E) : Type 0 where
    pub kept : NoDangling V w.link.server
    pub serving : r.status ≡ s → Serving w

  pub npm_client-Keeps : (P : E.server.State → Type 0) → Keeps (λ w. P w.link.server) (npm_client E)
  unfolding npm_client
  npm_client-Keeps P = record { at = λ w p. p }

  save-Keeps :
      (P : E.server.State → Type 0) (key value : String)
      → Keeps (λ w. P w.link.server) (save E key value)
  unfolding save
  save-Keeps P key value = record { at = λ w p. p }

  move_from-Keeps : (n previous : ℕ) → Keeps (Held n) (move_from E previous n)
  unfolding move_from
  move_from-Keeps n previous =
      Keeps-if (previous == n) _ _ (Keeps-pure tt)
        (on_npm-Keeps (Holding V n) _ (repoint_hosts-Keeps laws n previous))

  pub move_hosts-Keeps :
      (n : ℕ) (previous_id : String) → Keeps (Held n) (move_hosts E previous_id (num n))
  unfolding move_hosts Json.int_of
  move_hosts-Keeps n previous_id =
      Keeps-if (is_numeric previous_id) _ _
        (Triple-lift-bind (ok n) _ (λ e w h. h)
          (λ m e.
            subst (λ k. Keeps (Held n) (move_from E (digits_value 0 previous_id) k)) (ok_inj e)
              (move_from-Keeps n _)))
        (Keeps-pure tt)
    where
      ok_inj : {m : ℕ} → ok n ≡ ok m → n ≡ m
      ok_inj p = cc

  -- The certificate is there, and the setting has its number.
  abbrev pub Named : ℕ → World E → Type 0
  Named n w = Holding V n w.link.server × (get_setting setting_cert_id w.db ≡ decimal n)

  save_id-Named :
      (n : ℕ)
      → Triple (Held n) (save E setting_cert_id (id_text E (num n))) (λ _. Named n) (λ e. Kept)
  unfolding save id_text
  save_id-Named n = record {
    at = λ w h. (h, get_setting-set_setting setting_cert_id setting_cert_id (decimal n) w.db);
  }

  save_other-Named :
      (n : ℕ) (key value : String)
      → str_eq key setting_cert_id ≡ false
      → Triple (Named n) (save E key value) (λ _. Named n) (λ e. Kept)
  unfolding save
  save_other-Named n key value other = record {
    at = λ w h. (h.0, get_setting-set_setting setting_cert_id key value w.db ∙ rw other h.1);
  }

  pub record-Named :
      (n : ℕ) (name : String) (expires : Option ℕ) (pem : Option String) (kind : String)
      → Triple
          (Held n)
          (record_certificate E (num n) name expires pem kind)
          (λ _. Named n)
          (λ e. Kept)
  unfolding record_certificate
  record-Named n name expires pem kind =
      Triple-bind (λ _. Named n) _ _ (save_id-Named n)
        (λ _.
          Triple-bind (λ _. Named n) _ _ (save_other-Named n _ _ refl)
            (λ _.
              Triple-bind (λ _. Named n) _ _ (save_other-Named n _ _ refl)
                (λ _.
                  Triple-lift-bind _ _ (λ e w h. h.0.intact)
                    (λ print e.
                      Triple-bind (λ _. Named n) _ _ (save_other-Named n _ _ refl)
                        (λ _. save_other-Named n _ _ refl)))))

  pub Serving-Named : (n : ℕ) (w : World E) → Named n w → Serving w
  Serving-Named n w h = record {
    number = n;
    recorded = λ U. certificate_id-decimal U n w.db h.1;
    exists = h.0.held;
  }

  Sound-Named : (s : Status) (n : ℕ) (r : Report) (w : World E) → Named n w → Sound s r w
  Sound-Named s n r w h = record { kept = h.0.intact; serving = λ _. Serving-Named n w h }

  pub audit-Named :
      (n : ℕ) (actor action target : String) → Keeps (Named n) (audit E actor action target)
  unfolding audit get_setting
  audit-Named n actor action target = record { at = λ w h. h }

  report-Sound :
      (s status : Status) (n : ℕ) (id : Json) (expires : Option ℕ)
      → Triple (Named n) (report E status id expires) (Sound s) (λ e. Kept)
  unfolding report
  report-Sound s status n id expires = Triple-pure _ (λ w h. Sound-Named s n _ w h)

  -- What follows the upload, at the number of the new certificate.
  abbrev rest_of : Status → String → String → String → String → Json → Exec (World E) Report
  rest_of status actor previous_id name certificate_pem cert_id = do
    move_hosts E previous_id cert_id
    record_certificate E cert_id name (E.expiry certificate_pem) (some certificate_pem) kind_origin
    audit E actor (action_of status) name
    report E status cert_id (E.expiry certificate_pem)

  rest-Sound :
      (s status : Status) (actor previous_id name certificate_pem : String) (n : ℕ)
      → Triple
          (Held n)
          (rest_of status actor previous_id name certificate_pem (num n))
          (Sound s)
          (λ e. Kept)
  rest-Sound s status actor previous_id name certificate_pem n =
      Triple-bind (λ _. Held n) _ _
        (Triple-weaken _ (move_hosts-Keeps n previous_id) (λ w h. h) (λ a w h. h)
          (λ e w h. h.intact))
        (λ _.
          Triple-bind (λ _. Named n) _ _ (record-Named n name _ _ _)
            (λ _.
              Triple-bind (λ _. Named n) _ _
                (Triple-weaken _ (audit-Named n actor _ name) (λ w h. h) (λ a w h. h)
                  (λ e w h. h.0.intact))
                (λ _. report-Sound s status n (num n) _)))

  rest_at_id :
      (s status : Status) (actor previous_id name certificate_pem : String) (id : Json)
      → Triple
          (λ w. Installed laws id w.link)
          (rest_of status actor previous_id name certificate_pem id)
          (Sound s)
          (λ e. Kept)
  rest_at_id s status actor previous_id name certificate_pem id = record {
    at = λ w c.
        subst
          (λ (k : Json).
            After (Sound s) (λ e. Kept) (rest_of status actor previous_id name certificate_pem k w))
          (sym c.1) ((rest-Sound s status actor previous_id name certificate_pem c.0).at w c.2);
  }

  pub upload_and_record-Sound :
      (s status : Status) (actor previous_id name certificate_pem key_pem : String)
      → Triple Kept
          (upload_and_record E status actor previous_id name certificate_pem key_pem)
          (Sound s)
          (λ e. Kept)
  unfolding upload_and_record
  upload_and_record-Sound s status actor previous_id name certificate_pem key_pem =
      Triple-bind (λ id w. Installed laws id w.link) _ _
        (Triple-within _ _ _ (λ t w. refl)
          (upload_custom_certificate-NoDangling laws name certificate_pem key_pem))
        (λ id. rest_at_id s status actor previous_id name certificate_pem id)
