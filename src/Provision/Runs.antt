-- ===== src/Provision/Runs.antt =====
-- Which steps a run takes, in which order, and where it stops.
use edgekit.Base.{
  ◌||◌, inr, ◌∙◌, inl, Bool, true, false, ap, Bool-cases, [], ◌∷◌, ◌≡◌, ◌++◌, any, none,
  if◌then◌else◌, List,
}
use edgekit.Provision.{run_step, and_then, Site, Step, StepResult, run_steps, is_fatal, is_wanted}
use mathlib.Core.Path.{refl}

false-true : false ≡ true → ⊥
false-true e = cc

module _ (S : Site) where
  -- What a run of more steps gives, after the results and the world so far: nothing more where one of
  -- them was fatal.
  abbrev pub onward :
      List StepResult × S.World → (S.World → List StepResult × S.World) → List StepResult × S.World
  onward (rs, w) more =
      if any is_fatal rs then (rs, w) else (let (rs', w') = more w in (rs ++ rs', w'))

  -- How a run goes on after the result of a step.
  abbrev pub after_step :
      StepResult × S.World → (S.World → List StepResult × S.World) → List StepResult × S.World
  after_step (r, w) rest = if is_fatal r then (r ∷ [], w) else and_then S r (rest w)

  pub after_step-same :
      (p : StepResult × S.World) (f g : S.World → List StepResult × S.World)
      → ((w : S.World) → f w ≡ g w)
      → after_step p f ≡ after_step p g
  after_step-same (r, w) f g h = ap (λ x. if is_fatal r then (r ∷ [], w) else and_then S r x) (h w)

  onward-and_then :
      (r : StepResult) (p : List StepResult × S.World) (more : S.World → List StepResult × S.World)
      → is_fatal r ≡ false
      → and_then S r (onward p more) ≡ onward (and_then S r p) more
  onward-and_then r (rs, w) more e = go (any is_fatal rs)
    where
      go :
          (b : Bool)
          → and_then S r (if b then (rs, w) else (let (rs', w') = more w in (rs ++ rs', w'))) ≡ (
              if is_fatal r || b
              then (r ∷ rs, w)
              else (let (rs', w') = more w in (r ∷ rs ++ rs', w')))
      go true = rw e refl
      go false = rw e refl

  stopped :
      (x y : List StepResult × S.World) (b : Bool) → b ≡ true → x ≡ (if b || false then x else y)
  stopped x y true e = refl
  stopped x y false e = elim (false-true e) [ ]

  onward-after_step :
      (p : StepResult × S.World) (f more : S.World → List StepResult × S.World)
      → after_step p (λ w. onward (f w) more) ≡ onward (after_step p f) more
  onward-after_step (r, w) f more = elim (Bool-cases (is_fatal r)) [
    | inl e ↦ rw e (stopped _ _ (is_fatal r) e)
    | inr e ↦ rw e (onward-and_then r (f w) more e)
  ]

  -- Once a step has failed that is fatal, none of those that follow acts: a run of a list after another
  -- gives the results and the world of the first where one is fatal, and otherwise goes on from there.
  pub run_steps-append :
      (xs ys : List (Step S)) (w : S.World)
      → run_steps S none (xs ++ ys) w ≡ onward (run_steps S none xs w) (run_steps S none ys)
  unfolding run_steps is_wanted
  run_steps-append [] ys w = refl
  run_steps-append (x ∷ xs) ys w =
      after_step-same (run_step S x w) _ _ (λ u. run_steps-append xs ys u)
      ∙ onward-after_step (run_step S x w) (run_steps S none xs) (run_steps S none ys)
