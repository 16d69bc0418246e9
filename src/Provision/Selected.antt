-- ===== src/Provision/Selected.antt =====
-- Which steps `run` takes when it is given keys.
use edgekit.Base.{
  refl, arith, true, false, [], ◌∷◌, ◌≡◌, String, none, some, List, contains, str_eq, eq_iff, sym,
  Bool-cases, inl, inr,
}
use mathlib.Core.List.{Memᴰ}
use edgekit.Provision.{run_step, Site, Step, run_steps, is_wanted}
use edgekit.Provision.Runs.{after_step-same}

contains-Mem : (t : String) (keys : List String) → Memᴰ t keys → contains t keys ≡ true
contains-Mem t _ (Memᴰ.head {x} {xs} e) = rw ((eq_iff x t).1 (sym e)) refl
contains-Mem t _ (Memᴰ.tail {x} {xs} m) = ground (arith, contains-Mem t xs m)

Mem-contains : (t : String) (keys : List String) → contains t keys ≡ true → Memᴰ t keys
Mem-contains t [] h = absurd (cc h)
Mem-contains t (k ∷ keys) h = elim (Bool-cases (str_eq k t)) [
  | inl e ↦ Memᴰ.head (sym ((eq_iff k t).0 e))
  | inr e ↦ Memᴰ.tail (Mem-contains t keys (ground (arith, e, h)))
]

not-contains : (t : String) (keys : List String) → (Memᴰ t keys → ⊥) → contains t keys ≡ false
not-contains t keys h = elim (Bool-cases (contains t keys)) [
  | inl e ↦ absurd (h (Mem-contains t keys e))
  | inr e ↦ e
]

module _ (S : Site) where
  -- Of a list of steps, those with a key among `keys`, in their order.
  pub data Selected (keys : List String) : List (Step S) → List (Step S) → Type 0 where
    nothing : Selected keys [] []
    taken :
        {step : Step S} {steps chosen : List (Step S)}
        → Memᴰ step.key keys
        → Selected keys steps chosen
        → Selected keys (step ∷ steps) (step ∷ chosen)
    passed :
        {step : Step S} {steps chosen : List (Step S)}
        → (Memᴰ step.key keys → ⊥)
        → Selected keys steps chosen
        → Selected keys (step ∷ steps) chosen

  -- Given keys, `run` does to the world and reports what it does and reports without keys on the
  -- steps of the list whose keys are among them, in their order.
  pub run_steps-only :
      (keys : List String) (steps chosen : List (Step S)) (w : S.World)
      → Selected keys steps chosen
      → run_steps S (some keys) steps w ≡ run_steps S none chosen w
  unfolding run_steps is_wanted
  run_steps-only keys _ _ w nothing = refl
  run_steps-only keys _ _ w (taken {step} {steps} {chosen} among rest) =
      rw (contains-Mem step.key keys among)
        (after_step-same S (run_step S step w) _ _ (λ v. run_steps-only keys steps chosen v rest))
  run_steps-only keys _ _ w (passed {step} {steps} {chosen} other rest) =
      rw (not-contains step.key keys other) (run_steps-only keys steps chosen w rest)
