-- ===== src/Provision/Verified.antt =====
-- `step_verify_https` ends, and what it returns.
use edgekit.Provision.Verify.{
  verify_interval, nothing_yet, verify_window, nothing_left, judged, wait, has_failures, probe_one,
  probe_each, after_round, Web, Run, Progress, assess_each, rounds, step_verify_https,
}
use edgekit.Base.{
  zero, Triple-raise, Triple-weaken, Triple-if, Triple-gets, Triple-known, Triple-bind, suc,
  runtime_error, Triple-pure, Exec, ◌<◌, ◌-◌, ◌+◌, sym, refl, ltb, arith, Triple, ◌≤◌, ◌||◌, ℕ,
  subst, some, none, false, Option, ◌∷◌, inl, inr, ◌⊎◌, map, contains, true, List, ◌≡◌, Bool,
  String, Char,
}
use edgekit.Health.{Mode}
use mathlib.Core.List.{[], ◌∷◌}
use edgekit.Provision.Results.{Has, HasAll, assess_each-Has}

none-some : {g : Progress} → none ≡ some g → ⊥
none-some e = cc

some_inj : {g h : Progress} → some g ≡ some h → g ≡ h
some_inj e = cc

cons_eq : {a b : String} {xs ys : List String} → a ≡ b → xs ≡ ys → a ∷ xs ≡ b ∷ ys
cons_eq p q = cc

impossible : {n : ℕ} → n < 0 → ⊥
impossible h = omega arith

trans_le : {a b c : ℕ} → a ≤ b → b ≤ c → a ≤ c
trans_le p q = omega arith

reflexive : (n : ℕ) → n ≤ n
reflexive n = omega arith

slept : {a b c : ℕ} → a ≤ b → b + 10 ≤ c → a + 10 ≤ c
slept p q = omega arith

closer :
    (deadline lo fuel : ℕ) → lo < deadline → deadline - lo < suc fuel → deadline - (lo + 10) < fuel
closer deadline lo fuel p q = omega arith

in_time : (now fuel : ℕ) → 120 < fuel → (now + 120) - now < fuel
in_time now fuel h = omega arith

before :
    (lo now deadline : ℕ) (b : Bool)
    → lo ≤ now
    → b || ltb deadline (now + 10) ≡ false
    → lo < deadline
before lo now deadline b p q = ground arith

-- The probes are of the hosts that were asked for, and the clock never goes back.
pub record IsWeb (W : Web) : Type 0 where
  pub domain_of : (d : String) (s : W.State) → (W.probe d s).0.domain ≡ d
  pub probe_later : (d : String) (s : W.State) → W.time s ≤ W.time (W.probe d s).1
  pub sleep_later : (n : ℕ) (s : W.State) → W.time s + n ≤ W.time (W.sleep n s)

same_all :
    (domains : List String) (g h : Progress) → some g ≡ some h → HasAll domains h → HasAll domains g
same_all domains g h e all = subst (HasAll domains) (sym (some_inj e)) all

module _ (other : Char → String) (m : Mode) (dns_applied : Bool) where
  module _ {W : Web} (laws : IsWeb W) where
    abbrev Since : ℕ → Run W → Type 0
    Since lo s = lo ≤ W.time s.web

    probe_one-Since :
        (lo : ℕ) (domain : String)
        → Triple
            (Since lo)
            (probe_one other m dns_applied W domain)
            (λ p s. (p.domain ≡ domain) × Since lo s)
            (λ e s. ⊥)
    unfolding probe_one
    probe_one-Since lo domain = record {
      at = λ s h. (laws.domain_of domain s.web, trans_le h (laws.probe_later domain s.web));
    }

    probe_each-Since :
        (lo : ℕ) (domains : List String)
        → Triple
            (Since lo)
            (probe_each other m dns_applied W domains)
            (λ ps s. (map (λ p. p.domain) ps ≡ domains) × Since lo s)
            (λ e s. ⊥)
    unfolding probe_each
    probe_each-Since lo [] = Triple-pure [] (λ s h. (refl, h))
    probe_each-Since lo (d ∷ ds) =
        Triple-bind (λ p s. (p.domain ≡ d) × Since lo s) _ _ (probe_one-Since lo d)
          (λ p.
            Triple-known _ (λ s h. h.0)
              (λ here.
                Triple-bind (λ ps s. (map (λ p. p.domain) ps ≡ ds) × Since lo s) _ _
                  (Triple-weaken _ (probe_each-Since lo ds) (λ s h. h.1) (λ a s h. h) (λ e s h. h))
                  (λ ps. Triple-pure (p ∷ ps) (λ s h. (cons_eq here h.0, h.1)))))

    -- All of the domains have a result.
    abbrev Settled : List String → Option Progress → Run W → Type 0
    Settled domains o s = (g : Progress) × (o ≡ some g) × HasAll domains g

    after_round-Settled :
        (deadline lo : ℕ) (domains : List String) (x : Progress × List String)
        (more : List String → Progress → Exec (Run W) (Option Progress))
        → HasAll domains x.0
        → (lo < deadline → Triple (Since (lo + 10)) (more x.1 x.0) (Settled domains) (λ e s. ⊥))
        → Triple
            (Since lo)
            (after_round other m dns_applied W deadline x more)
            (Settled domains)
            (λ e s. ⊥)
    unfolding after_round wait
    after_round-Settled deadline lo domains (g, again) more all next =
        Triple-bind (λ now s. (lo ≤ now) × Since lo s) _ _ (Triple-gets _ (λ s h. (h, h)))
          (λ now.
            Triple-if
              (nothing_left other m dns_applied W again || ltb deadline (now + verify_interval)) _ _
              (λ stop. Triple-pure (some g) (λ s h. (g, refl, all)))
              (λ go_on.
                Triple-known _ (λ s h. before lo now deadline _ h.0 go_on)
                  (λ early.
                    Triple-bind (λ u. Since (lo + 10)) _ _
                      (record { at = λ s h. slept h.1 (laws.sleep_later 10 s.web) })
                      (λ u. next early))))

    rounds-Settled :
        (fuel deadline lo : ℕ) (domains pending : List String) (g : Progress)
        → deadline - lo < fuel
        → ((d : String) → contains d domains ≡ true → (contains d pending ≡ true) ⊎ Has g d)
        → Triple
            (Since lo)
            (rounds other m dns_applied W fuel deadline pending g)
            (Settled domains)
            (λ e s. ⊥)
    unfolding rounds
    rounds-Settled zero deadline lo domains pending g enough known = elim (impossible enough) [ ]
    rounds-Settled (suc fuel) deadline lo domains pending g enough known =
        Triple-bind (λ ps s. (map (λ p. p.domain) ps ≡ pending) × Since lo s) _ _
          (probe_each-Since lo pending)
          (λ ps.
            Triple-known _ (λ s h. h.0)
              (λ asked.
                let all : HasAll domains (assess_each other m dns_applied ps g).0 = λ d e.
                  assess_each-Has other m dns_applied ps g d
                    (subst (λ ds. (contains d ds ≡ true) ⊎ Has g d) (sym asked) (known d e)) in
                Triple-weaken _
                  (after_round-Settled deadline lo domains (assess_each other m dns_applied ps g) _
                    all
                    (λ early.
                      rounds-Settled fuel deadline (lo + 10) domains _ _
                        (closer deadline lo fuel early enough) (λ d e. inr (all d e))))
                  (λ s h. h.1) (λ a s h. h) (λ e s h. h)))

    -- No check has failed, and every domain has one.
    abbrev pub Verified : List String → Option Progress → Type 0
    Verified domains o =
        (g : Progress) × (o ≡ some g)
        × HasAll domains g
        × (has_failures other m dns_applied g ≡ false)

    judged-Verified :
        (domains : List String) (o : Option Progress)
        → Triple
            (Settled domains o)
            (judged other m dns_applied W o)
            (λ r s. Verified domains r)
            (λ e s. e ≡ runtime_error)
    judged-Verified domains none = Triple-known _ (λ s h. none-some h.1) (λ e. elim e [ ])
    judged-Verified domains (some g) =
        Triple-known _ (λ s h. same_all domains g h.0 h.1 h.2)
          (λ all.
            Triple-bind (λ u s. Unit {0}) _ _ (record { at = λ s h. tt })
              (λ u.
                Triple-if (has_failures other m dns_applied g) _ _
                  (λ bad. Triple-raise runtime_error (λ s h. refl))
                  (λ fine_all. Triple-pure (some g) (λ s h. (g, refl, all, fine_all)))))

    -- Probes being of the hosts that were asked for, and the clock never going back, with more fuel than
    -- the seconds of the window, `step_verify_https` does not run out: it returns a
    -- result for each of the domains, none of which is a failure, or it raises.
    pub step_verify_https-Verified :
        (fuel : ℕ) (domains : List String)
        → 120 < fuel
        → Triple
            (λ s. Unit {0})
            (step_verify_https other m dns_applied W fuel domains)
            (λ o s. Verified domains o)
            (λ e s. e ≡ runtime_error)
    unfolding step_verify_https
    step_verify_https-Verified fuel domains enough =
        Triple-bind (λ now. Since now) _ _ (Triple-gets _ (λ s h. reflexive (W.time s.web)))
          (λ now.
            Triple-bind (Settled domains) _ _
              (Triple-weaken _
                (rounds-Settled fuel (now + verify_window) now domains domains nothing_yet
                  (in_time now fuel enough) (λ d e. inl e))
                (λ s h. h) (λ a s h. h) (λ e s. elim [ ]))
              (judged-Verified domains))
