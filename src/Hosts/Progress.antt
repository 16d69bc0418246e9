-- ===== src/Hosts/Progress.antt =====
-- The loop of `attach_certificate`: which hosts serve with the certificate of the settings.
use edgekit.Base.{
  sym, ok, Triple-raise, and_parts, ◌&&◌, Triple-bind, Triple-attempt, find-passes, Triple-pure,
  Triple-if, Triple, String, Bool, After, ==→eq, none, inr, inl, subst, arith, ◌∙◌, some, refl,
  false, ◌==◌, true, member, ap, [], ◌≡◌, ◌∷◌, find, ◌++◌, Option, List, ℕ,
}
use edgekit.Base.Digits.{Unicode}
use edgekit.Hosts.Settings.{get_setting}
use edgekit.Hosts.Resync.{
  report_of, is_host_or_npm, set_id, push_fails, attach_one, attach_each, ids_of, same_id,
}
use edgekit.Hosts.Rows.{push-Pushed, replaced_row, Pushed}
use edgekit.Hosts.Service.{host_or_unknown, get, World, certificate_id, Env}
use edgekit.Models.{replace_host, get_host, ProxyHost, Database}
use native.Mathlib.Decide.{ℕ_discrete}

certificate_id-cong :
    (U : Unicode) (d e : Database)
    → d.settings ≡ e.settings
    → certificate_id U d ≡ certificate_id U e
unfolding certificate_id get_setting
certificate_id-cong U d e h = rw h refl

same_number : (m n : Option ℕ) → ok m ≡ ok n → m ≡ n
same_number m n e = cc

same_id-eq : (m n : Option ℕ) → same_id m n ≡ true → m ≡ n
same_id-eq none none h = refl
same_id-eq none (some n) h = absurd (cc)
same_id-eq (some m) none h = absurd (cc)
same_id-eq (some m) (some n) h = ap some (==→eq m n h)

pub find-member :
    (id : ℕ) (hs : List ProxyHost) (g : ProxyHost)
    → find (λ h. h.id == id) hs ≡ some g
    → member id (ids_of hs) ≡ true
find-member id [] g e = absurd (cc)
find-member id (h ∷ hs) g e = ground (arith, find-member id hs g)

append-nil : {A : Type 0} (xs ys : List A) → xs ++ ys ≡ [] → (xs ≡ []) × (ys ≡ [])
append-nil [] ys h = (refl, h)
append-nil (x ∷ xs) ys h = absurd (cc)

module _ (E : Env) (current : Option ℕ) where
  -- The settings name `current`, and if `C`, the hosts that are not pending serve with it.
  pub record Progress (pending : List ℕ) (C : Type 0) (w : World E) : Type 0 where
    pub setting : certificate_id E.unicode w.db ≡ ok current
    pub served :
        C
        → (id : ℕ) (g : ProxyHost) → member id pending ≡ false
        → get_host id w.db ≡ some g
        → g.npm_certificate_id ≡ current

  -- Besides, `h` is the row of `id`.
  record At (id : ℕ) (h : ProxyHost) (ids : List ℕ) (C : Type 0) (w : World E) : Type 0 where
    progress : Progress (id ∷ ids) C w
    row : get_host id w.db ≡ some h

  one_served :
      (id : ℕ) (h : ProxyHost) (ids : List ℕ) (C : Type 0) (w : World E)
      → h.npm_certificate_id ≡ current
      → At id h ids C w
      → Progress ids C w
  one_served id h ids C w serves a = record {
    setting = a.progress.setting;
    served = λ c j g absent e. elim (ℕ_discrete id j) [
      | yes p ↦ ap (λ (k : ProxyHost). k.npm_certificate_id) (row_of j g p e) ∙ serves
      | no ne ↦ a.progress.served c j g (ground (arith, ne)) e
    ];
  }
    where
      row_of : (j : ℕ) (g : ProxyHost) → id ≡ j → get_host j w.db ≡ some g → g ≡ h
      row_of j g p e = cc (p, e, a.row)

  Pushed-served :
      (id : ℕ) (ids : List ℕ) (C : Type 0) (w v : World E)
      → Progress (id ∷ ids) C w
      → (p : Pushed E w.db id v) → C
      → (j : ℕ) (g : ProxyHost) → member j ids ≡ false
      → find (λ k. k.id == j) (replace_host p.row w.db.hosts) ≡ some g
      → g.npm_certificate_id ≡ current
  Pushed-served id ids C w v a p c j g absent e = elim (replaced_row p.row w.db.hosts j g e) [
    | inl same ↦
        ap (λ (k : ProxyHost). k.npm_certificate_id) same
        ∙ same_number _ current (sym p.served ∙ a.setting)
    | inr other ↦
        a.served c j g (ground (arith, subst (λ i. (i == j) ≡ false) p.same_row other.0)) other.1
  ]

  Pushed-Progress :
      (id : ℕ) (ids : List ℕ) (C : Type 0) (w v : World E)
      → Progress (id ∷ ids) C w
      → Pushed E w.db id v
      → Progress ids C v
  Pushed-Progress id ids C w v a p = record {
    setting =
        certificate_id-cong E.unicode v.db w.db (ap (λ (d : Database). d.settings) p.now)
        ∙ a.setting;
    served = λ c j g absent e.
        Pushed-served id ids C w v a p c j g absent
          (subst (λ (d : Database). get_host j d ≡ some g) p.now e);
  }

  pub weaker :
      (pending : List ℕ) (C D : Type 0) (w : World E)
      → (D → C)
      → Progress pending C w
      → Progress pending D w
  weaker pending C D w f p = record { setting = p.setting; served = λ d. p.served (f d) }

  -- After a failure nothing is claimed but the setting.
  failed_Progress :
      (pending ids : List ℕ) (C : Type 0) (w v : World E)
      → Progress pending C w
      → v.db ≡ w.db
      → Progress ids (C × (true ≡ false)) v
  failed_Progress pending ids C w v a same = record {
    setting = ap (certificate_id E.unicode) same ∙ a.setting;
    served = λ c. absurd (cc (c.1));
  }

  module _ (id : ℕ) (h : ProxyHost) (ids : List ℕ) (C : Type 0) where
    push_fails_from :
        (w : World E)
        → At id h ids C w
        → Triple
            (λ v. v.db ≡ w.db)
            (push_fails E h)
            (λ b. Progress ids (C × (b ≡ false)))
            (λ e _. Unit)
    unfolding push_fails
    push_fails_from w a =
        Triple-attempt (λ e v. v.db ≡ w.db) _ _
          (Triple-bind (λ _. Pushed E w.db h.id) _ _ (push-Pushed E w.db h)
            (λ _. Triple-pure false (λ v p.
              weaker ids C (C × (false ≡ false)) v (λ c. c.0)
                (Pushed-Progress id ids C w v a.progress (subst (λ i. Pushed E w.db i v) own p)))))
          (λ e.
            Triple-if (is_host_or_npm e) _ _
              (λ _.
                Triple-pure true (λ v same. failed_Progress (id ∷ ids) ids C w v a.progress same))
              (λ _. Triple-raise e (λ v same. tt)))
      where
        own : h.id ≡ id
        own = ==→eq h.id id (find-passes (λ (g : ProxyHost). g.id == id) w.db.hosts h a.row)

    push_fails-Progress :
        Triple (At id h ids C) (push_fails E h) (λ b. Progress ids (C × (b ≡ false))) (λ e _. Unit)
    push_fails-Progress = record { at = λ w a. (push_fails_from w a).at w refl }

    failed_report :
        (b : Bool) (domain : String) → C × ((report_of b domain).failures ≡ []) → C × (b ≡ false)
    failed_report true domain c = (c.0, absurd (cc (c.1)))
    failed_report false domain c = (c.0, refl)

    attach_one-Progress :
        Triple
          (At id h ids C)
          (attach_one E current h)
          (λ r. Progress ids (C × (r.failures ≡ [])))
          (λ e _. Unit)
    unfolding attach_one
    attach_one-Progress =
        Triple-if (set_id h.npm_host_id && same_id h.npm_certificate_id current) _ _
          (λ t. Triple-pure _ (λ w a.
            weaker ids C (C × ([] ≡ [])) w (λ c. c.0)
              (one_served id h ids C w (same_id-eq _ _ ((and_parts _ _ t).1)) a)))
          (λ _.
            Triple-bind (λ b. Progress ids (C × (b ≡ false))) _ _ push_fails-Progress
              (λ b.
                Triple-pure _
                  (λ w p. weaker ids (C × (b ≡ false)) _ w (failed_report b h.domain) p)))

  After-get :
      (id : ℕ) (ids : List ℕ) (C : Type 0) (o : Option ProxyHost) (w : World E)
      → get_host id w.db ≡ o
      → Progress (id ∷ ids) C w
      → After (λ h. At id h ids C) (λ e _. Unit) (host_or_unknown o, w)
  After-get id ids C none w e p = tt
  After-get id ids C (some h) w e p = record { progress = p; row = e }

  get-At :
      (id : ℕ) (ids : List ℕ) (C : Type 0)
      → Triple (Progress (id ∷ ids) C) (get E id) (λ h. At id h ids C) (λ e _. Unit)
  unfolding get
  get-At id ids C = record { at = λ w p. After-get id ids C (get_host id w.db) w refl p }

  split_report :
      (C : Type 0) (xs ys : List String) → C × (xs ++ ys ≡ []) → (C × (xs ≡ [])) × (ys ≡ [])
  split_report C xs ys c = let both = append-nil xs ys c.1 in ((c.0, both.0), both.1)

  pub attach_each-Progress :
      (ids : List ℕ) (C : Type 0)
      → Triple
          (Progress ids C)
          (attach_each E current ids)
          (λ r. Progress [] (C × (r.failures ≡ [])))
          (λ e _. Unit)
  unfolding attach_each
  attach_each-Progress [] C = Triple-pure _ (λ w p. weaker [] C (C × ([] ≡ [])) w (λ c. c.0) p)
  attach_each-Progress (id ∷ ids) C =
      Triple-bind (λ h. At id h ids C) _ _ (get-At id ids C)
        (λ h.
          Triple-bind (λ r. Progress ids (C × (r.failures ≡ []))) _ _
            (attach_one-Progress id h ids C)
            (λ first.
              Triple-bind (λ r. Progress [] ((C × (first.failures ≡ [])) × (r.failures ≡ []))) _ _
                (attach_each-Progress ids (C × (first.failures ≡ [])))
                (λ rest. Triple-pure _ (λ w p.
                  weaker [] ((C × (first.failures ≡ [])) × (rest.failures ≡ [])) _ w
                    (split_report C first.failures rest.failures) p))))
