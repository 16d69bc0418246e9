-- ===== src/Hosts/Rows.antt =====
-- What `_push` does to the rows of the database.
use edgekit.Base.{
  ok, Triple-lift-bind, Keeps-lift, ◌∙◌, sym, ◌⊎◌, host_error, raise, subst, inr, [], ◌∷◌, refl,
  inl, Triple-gets-bind, ◌||◌, arith, ap, Triple-pure, ◌>>◌, str_eq, if◌then◌else◌, false,
  Triple-bind, Keeps-within, ◌>>=◌, ◌==◌, keeps_rules, Triple, Bool-cases, ◌≡◌, pure, none, find,
  Keeps, some, List, Exec, Option, ℕ,
}
use edgekit.Hosts.Service.{
  on_npm, on_host, certificate_id, apply_dns, verify_or_rollback, undo_new, undo, push_npm, push,
  npm_client, assign, World, Env,
}
use edgekit.Npm.Client.{catch_npm, Link}
use edgekit.Base.Json.{Json}
use edgekit.Models.{ProxyHost, Database, replace_host}

abbrev pub if_present : Option ProxyHost → ProxyHost → Option ProxyHost
if_present none h = none
if_present (some g) h = some h

-- The row that is read after another, or the same, has been changed.
pub find-replace_host :
    (h : ProxyHost) (hs : List ProxyHost) (id : ℕ)
    → find (λ g. g.id == id) (replace_host h hs)
      ≡ (if h.id == id then if_present (find (λ g. g.id == id) hs) h else find (λ g. g.id == id) hs)
unfolding replace_host
find-replace_host h [] id = ground arith
find-replace_host h (g ∷ hs) id = ground (arith, find-replace_host h hs id)

if_present-some : (o : Option ProxyHost) (h g : ProxyHost) → if_present o h ≡ some g → g ≡ h
if_present-some none h g e = absurd (cc)
if_present-some (some k) h g e = cc

-- A row that is read is the changed one, or one with another id.
pub replaced_row :
    (h : ProxyHost) (hs : List ProxyHost) (id : ℕ) (g : ProxyHost)
    → find (λ k. k.id == id) (replace_host h hs) ≡ some g
    → (g ≡ h) ⊎ (((h.id == id) ≡ false) × (find (λ k. k.id == id) hs ≡ some g))
replaced_row h hs id g e = elim (Bool-cases (h.id == id)) [
  | inl same ↦ inl (
      if_present-some (find (λ k. k.id == id) hs) h g
        (sym (find-replace_host h hs id ∙ rw same refl) ∙ e))
  | inr other ↦ inr (other, sym (find-replace_host h hs id ∙ rw other refl) ∙ e)
]

module _ (E : Env) (db0 : Database) where
  abbrev pub Untouched : World E → Type 0
  Untouched w = w.db ≡ db0

  -- The row of the host, and no other, has changed: it has the certificate of the settings.
  pub record Pushed (id : ℕ) (w : World E) : Type 0 where
    pub row : ProxyHost
    pub same_row : row.id ≡ id
    pub served : certificate_id E.unicode db0 ≡ ok row.npm_certificate_id
    pub now : w.db ≡ record db0 { hosts = replace_host row db0.hosts }

  on_npm-Keeps : {B : Type 0} (m : Exec (Link E.server) B) → Keeps Untouched (on_npm E m)
  on_npm-Keeps m = Keeps-within _ _ _ m (λ t s p. p)

  on_host-Keeps : {B : Type 0} (m : Exec E.host.State B) → Keeps Untouched (on_host E m)
  on_host-Keeps m = Keeps-within _ _ _ m (λ t s p. p)

  npm_client-Keeps : Keeps Untouched (npm_client E)
  unfolding npm_client
  npm_client-Keeps = record {
    at = λ s h.
        elim (Bool-cases (str_eq E.config.admin_email "" || str_eq E.config.admin_password "")) [
          | inl e ↦ rw e h
          | inr e ↦ rw e h
        ];
  }

  undo_new-Keeps : (result : Json) → Keeps Untouched (undo_new E result)
  unfolding undo_new
  undo_new-Keeps result = search (keeps_rules, on_npm-Keeps)

  undo-Keeps : (previous : Option Json) (result : Json) → Keeps Untouched (undo E previous result)
  unfolding undo
  undo-Keeps none result = undo_new-Keeps result
  undo-Keeps (some p) result = search (keeps_rules, on_npm-Keeps, undo_new-Keeps)

  caught-Keeps :
      (previous : Option Json) (result : Json)
      → Keeps Untouched
          (catch_npm (undo E previous result) (λ _. raise (host_error "not rolled back")))
  unfolding catch_npm
  caught-Keeps previous result = search (keeps_rules, undo-Keeps)

  verify_or_rollback-Keeps :
      (previous : Option Json) (result : Json)
      → Keeps Untouched (verify_or_rollback E previous result)
  unfolding verify_or_rollback
  verify_or_rollback-Keeps previous result = search (keeps_rules, on_host-Keeps, caught-Keeps)

  assign-Pushed :
      (h : ProxyHost)
      → certificate_id E.unicode db0 ≡ ok h.npm_certificate_id
      → Triple Untouched (assign E h >> pure h) (λ _. Pushed h.id) (λ e. Untouched)
  unfolding assign pure ◌>>=◌
  assign-Pushed h served = record {
    at = λ w e. record {
      row = h;
      same_row = refl;
      served = served;
      now = ap (λ (d : Database). record d { hosts = replace_host h d.hosts }) e;
    };
  }

  push_npm-Pushed :
      (h : ProxyHost) (cert : Option ℕ)
      → certificate_id E.unicode db0 ≡ ok cert
      → Triple Untouched (push_npm E h cert) (λ _. Pushed h.id) (λ e. Untouched)
  unfolding push_npm
  push_npm-Pushed h cert known =
      Triple-bind (λ _. Untouched) _ _ npm_client-Keeps
        (λ _.
          Triple-bind (λ _. Untouched) _ _ (on_npm-Keeps _)
            (λ previous.
              Triple-bind (λ _. Untouched) _ _ (on_npm-Keeps _)
                (λ result.
                  Triple-bind (λ _. Untouched) _ _ (verify_or_rollback-Keeps previous result)
                    (λ _.
                      Triple-bind (λ _. Untouched) _ _ (Keeps-lift _)
                        (λ id. assign-Pushed _ known)))))

  -- A push without DNS that returns has changed the row of the host's id, which has the certificate
  -- that the settings name, and no other part of the database. One that raises has changed nothing
  -- of the database.
  pub push-Pushed :
      (h : ProxyHost) → Triple Untouched (push E false h) (λ _. Pushed h.id) (λ e. Untouched)
  unfolding push apply_dns
  push-Pushed h =
      Triple-bind (λ a w. (a ≡ h) × Untouched w) _ _ (Triple-pure h (λ w e. (refl, e)))
        (λ a. record {
          at = λ w e.
              (Triple-gets-bind _ _ (certificate_id E.unicode db0)
                  (λ w k. ap (certificate_id E.unicode) k)
                  (Triple-lift-bind _ _ (λ x w h. h)
                    (λ cert known.
                      subst
                        (λ g.
                          Triple Untouched (push_npm E a cert) (λ _. Pushed g.id) (λ e. Untouched))
                        e.0 (push_npm-Pushed a cert known)))).at
                w e.1;
        })
