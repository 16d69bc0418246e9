-- ===== src/Provision/Results.antt =====
-- The domains that a round of `step_verify_https` has a result for.
use edgekit.Provision.Verify.{Progress, assess_each, noted}
use edgekit.Base.{
  sym, refl, if◌then◌else◌, ◌||◌, subst, some, false, Option, ◌∷◌, inl, inr, ◌⊎◌, map, str_eq,
  contains, true, List, ◌≡◌, Bool, is_some, String, Char,
}
use edgekit.Health.{assess_public, Check, PublicProbe, Mode}
use edgekit.Base.Dict.{lookup-insert}
use mathlib.Core.List.{[], ◌∷◌}
use edgekit.Base.Dict

abbrev pub Has : Progress → String → Type 0
Has g d = is_some (Dict.lookup d g.results) ≡ true

false-true : false ≡ true → ⊥
false-true e = cc

abbrev pub HasAll : List String → Progress → Type 0
HasAll domains g = (d : String) → contains d domains ≡ true → Has g d

there_if :
    (b : Bool) (v : Check) (o : Option Check)
    → (b ≡ true) ⊎ (is_some o ≡ true)
    → is_some (if b then some v else o) ≡ true
there_if true v o h = refl
there_if false v o (inl e) = elim (false-true e) [ ]
there_if false v o (inr e) = e

or_cases : (a b : Bool) → a || b ≡ true → (a ≡ true) ⊎ (b ≡ true)
or_cases true b e = inl refl
or_cases false b e = inr e

module _ (other : Char → String) (m : Mode) (dns_applied : Bool) where
  noted-Has :
      (p : PublicProbe) (g : Progress) (d : String)
      → (str_eq p.domain d ≡ true) ⊎ Has g d
      → Has (noted other m dns_applied p g) d
  unfolding noted
  noted-Has p g d h =
      subst (λ o. is_some o ≡ true)
        (sym (lookup-insert p.domain d (assess_public other p m).0 g.results))
        (there_if (str_eq p.domain d) _ (Dict.lookup d g.results) h)

  pub assess_each-Has :
      (ps : List PublicProbe) (g : Progress) (d : String)
      → (contains d (map (λ p. p.domain) ps) ≡ true) ⊎ Has g d
      → Has (assess_each other m dns_applied ps g).0 d
  unfolding assess_each
  assess_each-Has [] g d (inr h) = h
  assess_each-Has [] g d (inl e) = elim (false-true e) [ ]
  assess_each-Has (p ∷ ps) g d (inr h) =
      assess_each-Has ps (noted other m dns_applied p g) d (inr (noted-Has p g d (inr h)))
  assess_each-Has (p ∷ ps) g d (inl e) =
      assess_each-Has ps (noted other m dns_applied p g) d
        (elim (or_cases (str_eq p.domain d) (contains d (map (λ q. q.domain) ps)) e) [
          | inl here ↦ inr (noted-Has p g d (inl here))
          | inr there ↦ inl there
        ])
