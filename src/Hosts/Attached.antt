-- ===== src/Hosts/Attached.antt =====
-- `attach_certificate` returns only when every host serves with the certificate of the settings.
use edgekit.Base.{
  ap, Triple-lift-bind, refl, Triple-gets, ◌∷◌, Triple-lift, Triple-bind, sym, some, ok, lift, ◌≡◌,
  ◌∙◌, member, [], Triple, String, Option, List, ℕ,
}
use edgekit.Hosts.Progress.{attach_each-Progress, weaker, find-member, Progress}
use edgekit.Hosts.Service.{certificate_id, World, Env}
use edgekit.Hosts.Resync.{attach_certificate, ids_of, moved_or_raise}
use edgekit.Models.{get_host, ProxyHost}

module _ (E : Env) where
  -- Every row serves with the certificate that the settings name.
  pub record Attached (w : World E) : Type 0 where
    pub all_attached :
        (id : ℕ) (h : ProxyHost)
        → get_host id w.db ≡ some h
        → certificate_id E.unicode w.db ≡ ok h.npm_certificate_id

  no_failures :
      (failures moved domains : List String)
      → moved_or_raise failures moved ≡ ok domains
      → failures ≡ []
  no_failures [] moved domains e = refl
  no_failures (f ∷ fs) moved domains e = absurd (cc)

  Attached-Progress :
      (current : Option ℕ) (w : World E) → Progress E current [] (Unit {0}) w → Attached w
  Attached-Progress current w p = record {
    all_attached = λ id h e. p.setting ∙ ap ok (sym (p.served tt id h refl e));
  }

  finish-Attached :
      (current : Option ℕ) (failures moved : List String)
      → Triple
          (Progress E current [] (Unit {0} × (failures ≡ [])))
          (lift (moved_or_raise failures moved))
          (λ _. Attached)
          (λ e _. Unit)
  finish-Attached current failures moved =
      Triple-lift _
        (λ domains w p e. Attached-Progress current w (
          weaker E current [] (Unit {0} × (failures ≡ [])) (Unit {0}) w
            (λ _. (tt, no_failures failures moved domains e)) p))
        (λ e w p. tt)

  module _
      (lists : (hs : List ProxyHost) (id : ℕ)
        → member id (ids_of (E.by_domain hs)) ≡ member id (ids_of hs)) where
    all_pending :
        (current : Option ℕ) (w : World E)
        → certificate_id E.unicode w.db ≡ ok current
        → Progress E current (ids_of (E.by_domain w.db.hosts)) (Unit {0}) w
    all_pending current w e = record {
      setting = e;
      served = λ _ id g absent there.
          absurd (cc (absent, lists w.db.hosts id, find-member id w.db.hosts g there));
    }

    -- The rows that are listed being those of the table, when `attach_certificate` returns, every
    -- proxy host's row has the certificate that the settings name.
    pub attach_certificate-Attached :
        Triple (λ _. Unit {0}) (attach_certificate E) (λ _. Attached) (λ e _. Unit)
    unfolding attach_certificate
    attach_certificate-Attached =
        Triple-bind (λ number w. certificate_id E.unicode w.db ≡ number) _ _
          (Triple-gets _ (λ w _. refl))
          (λ number.
            Triple-lift-bind _ _ (λ e w h. tt)
              (λ current named.
                Triple-bind (λ ids. Progress E current ids (Unit {0})) _ _
                  (Triple-gets _ (λ w h. all_pending current w (h ∙ named)))
                  (λ ids.
                    Triple-bind (λ r. Progress E current [] (Unit {0} × (r.failures ≡ []))) _ _
                      (attach_each-Progress E current ids (Unit {0}))
                      (λ r. finish-Attached current r.failures r.moved))))
