-- ===== src/Base/Triples.antt =====
-- What an action leaves behind, whether it returns or raises, with one rule for each way to build
-- an action.
use edgekit.Base.Effects.{
  within, lift, gets, recover, continue, Failure, Outcome, ok, raised, Exec, pure, raise, attempt,
  ◌>>=◌, for_each,
}
use mathlib.Core.Path.{◌≡◌, refl, subst, sym}
use mathlib.Core.Bool.{Bool, true, false}
use mathlib.Core.List.{List, [], ◌∷◌}
use edgekit.Base.Tests.{if◌then◌else◌}

module _ {ℓ} {S A : Type ℓ} where
  abbrev pub After : (A → S → Type ℓ) → (Failure → S → Type ℓ) → Outcome A × S → Type ℓ
  After Q R (ok a, s) = Q a s
  After Q R (raised e, s) = R e s

  -- From a state with `P`, `m` returns with `Q` or raises with `R`.
  pub record Triple (P : S → Type ℓ) (m : Exec S A) (Q : A → S → Type ℓ) (R : Failure → S → Type ℓ)
      : Type ℓ where
    pub at : (s : S) → P s → After Q R (m s)

module _ {ℓ} {S A : Type ℓ} {Q : A → S → Type ℓ} {R : Failure → S → Type ℓ} where
  After-recover :
      (R' : Failure → S → Type ℓ) (h : Failure → Exec S A) (r : Outcome A × S)
      → ((e : Failure) → Triple (R' e) (h e) Q R)
      → After Q R' r
      → After Q R (recover r h)
  After-recover R' h (ok a, s) k q = q
  After-recover R' h (raised e, s) k q = (k e).at s q

module _ {ℓ} {S A B : Type ℓ} {Q : B → S → Type ℓ} {R : Failure → S → Type ℓ} where
  After-continue :
      (Q' : A → S → Type ℓ) (f : A → Exec S B) (r : Outcome A × S)
      → ((a : A) → Triple (Q' a) (f a) Q R)
      → After Q' R r
      → After Q R (continue r f)
  After-continue Q' f (ok a, s) k q = (k a).at s q
  After-continue Q' f (raised e, s) k q = q

module _ {ℓ} {S A : Type ℓ} {P : S → Type ℓ} {Q : A → S → Type ℓ} {R : Failure → S → Type ℓ} where
  pub Triple-pure : (a : A) → ((s : S) → P s → Q a s) → Triple P (pure a) Q R
  unfolding pure
  Triple-pure a h = record { at = h }

  pub Triple-raise : (e : Failure) → ((s : S) → P s → R e s) → Triple P (raise e) Q R
  unfolding raise
  Triple-raise e h = record { at = h }

  pub Triple-lift :
      (r : Outcome A)
      → ((a : A) (s : S) → P s → r ≡ ok a → Q a s)
      → ((e : Failure) (s : S) → P s → R e s)
      → Triple P (lift r) Q R
  unfolding lift
  Triple-lift (ok a) hq hr = record { at = λ s p. hq a s p refl }
  Triple-lift (raised e) hq hr = record { at = hr e }

  pub Triple-gets : (f : S → A) → ((s : S) → P s → Q (f s) s) → Triple P (gets f) Q R
  unfolding gets
  Triple-gets f h = record { at = h }

  pub Triple-if :
      (b : Bool) (m n : Exec S A)
      → (b ≡ true → Triple P m Q R)
      → (b ≡ false → Triple P n Q R)
      → Triple P (if b then m else n) Q R
  Triple-if true m n km kn = km refl
  Triple-if false m n km kn = kn refl

  -- What the precondition says of no state may be used for the rule.
  pub Triple-known :
      {F : Type ℓ} (m : Exec S A) → ((s : S) → P s → F) → (F → Triple P m Q R) → Triple P m Q R
  Triple-known m f k = record { at = λ s p. (k (f s p)).at s p }

  -- The handler starts where the exception left the state.
  pub Triple-attempt :
      (R' : Failure → S → Type ℓ) (m : Exec S A) (h : Failure → Exec S A)
      → Triple P m Q R'
      → ((e : Failure) → Triple (R' e) (h e) Q R)
      → Triple P (attempt m h) Q R
  unfolding attempt
  Triple-attempt R' m h km kh = record { at = λ s p. After-recover R' h (m s) kh (km.at s p) }

module _ {ℓ} {S A B : Type ℓ} {P : S → Type ℓ} {Q : B → S → Type ℓ} {R : Failure → S → Type ℓ} where
  pub Triple-bind :
      (Q' : A → S → Type ℓ) (m : Exec S A) (f : A → Exec S B)
      → Triple P m Q' R
      → ((a : A) → Triple (Q' a) (f a) Q R)
      → Triple P (m >>= f) Q R
  unfolding ◌>>=◌
  Triple-bind Q' m f km kf = record { at = λ s p. After-continue Q' f (m s) kf (km.at s p) }

module _ {ℓ} {S : Type ℓ} {B : Type ℓ} {P : S → Type ℓ} {R : Failure → S → Type ℓ} where
  -- A loop keeps what each round keeps.
  pub Triple-for_each :
      (xs : List B) (body : B → Exec S (Unit {ℓ}))
      → ((x : B) → Triple P (body x) (λ _. P) R)
      → Triple P (for_each xs body) (λ _. P) R
  unfolding for_each
  Triple-for_each [] body k = Triple-pure tt (λ s p. p)
  Triple-for_each (x ∷ xs) body k =
      Triple-bind (λ _. P) (body x) (λ _. for_each xs body) (k x) (λ _. Triple-for_each xs body k)

module _ {ℓ} {S A : Type ℓ} {Q Q' : A → S → Type ℓ} {R R' : Failure → S → Type ℓ} where
  After-weaken :
      ((a : A) (s : S) → Q a s → Q' a s)
      → ((e : Failure) (s : S) → R e s → R' e s)
      → (r : Outcome A × S) → After Q R r
      → After Q' R' r
  After-weaken hq hr (ok a, s) h = hq a s h
  After-weaken hq hr (raised e, s) h = hr e s h

-- `m` keeps `P`, whether it returns or raises.
abbrev pub Keeps {ℓ} : {S A : Type ℓ} → (S → Type ℓ) → Exec S A → Type ℓ
Keeps P m = Triple P m (λ _. P) (λ _. P)

module _ {ℓ} {S A : Type ℓ} {P : S → Type ℓ} where
  pub Keeps-pure : (a : A) → Keeps P (pure a)
  unfolding pure
  Keeps-pure a = record { at = λ s p. p }

  pub Keeps-raise : (e : Failure) → Keeps P (raise {A = A} e)
  unfolding raise
  Keeps-raise e = record { at = λ s p. p }

  pub Keeps-lift : (r : Outcome A) → Keeps P (lift r)
  unfolding lift
  Keeps-lift (ok a) = record { at = λ s p. p }
  Keeps-lift (raised e) = record { at = λ s p. p }

  pub Keeps-gets : (f : S → A) → Keeps P (gets f)
  unfolding gets
  Keeps-gets f = record { at = λ s p. p }

  pub Keeps-attempt :
      (m : Exec S A) (h : Failure → Exec S A)
      → Keeps P m
      → ((e : Failure) → Keeps P (h e))
      → Keeps P (attempt m h)
  Keeps-attempt m h km kh = Triple-attempt (λ _. P) m h km kh

  pub Keeps-if : (b : Bool) (m n : Exec S A) → Keeps P m → Keeps P n → Keeps P (if b then m else n)
  Keeps-if b m n km kn = Triple-if b m n (λ _. km) (λ _. kn)

  -- A stronger postcondition is a weaker one.
  pub Triple-weaken :
      {P' : S → Type ℓ} {Q Q' : A → S → Type ℓ} {R R' : Failure → S → Type ℓ} (m : Exec S A)
      → Triple P m Q R
      → ((s : S) → P' s → P s)
      → ((a : A) (s : S) → Q a s → Q' a s)
      → ((e : Failure) (s : S) → R e s → R' e s)
      → Triple P' m Q' R'
  Triple-weaken m k hp hq hr = record { at = λ s p. After-weaken hq hr (m s) (k.at s (hp s p)) }

module _ {ℓ} {S A : Type ℓ} {P : S → Type ℓ} {R : Failure → S → Type ℓ} where
  -- An action of which only the failures matter to what follows.
  pub Triple-any : (m : Exec S A) → ((e : Failure) (s : S) → R e s) → Triple P m (λ _ _. Unit {ℓ}) R
  Triple-any m all_fine = record { at = λ s h. any_end (m s) }
    where
      any_end : (r : Outcome A × S) → After (λ _ _. Unit {ℓ}) R r
      any_end (ok a, s) = tt
      any_end (raised e, s) = all_fine e s

module _ {ℓ} {S A B : Type ℓ} {P : S → Type ℓ} where
  pub Keeps-bind :
      (m : Exec S A) (f : A → Exec S B) → Keeps P m → ((a : A) → Keeps P (f a)) → Keeps P (m >>= f)
  Keeps-bind m f km kf = Triple-bind (λ _. P) m f km kf

pub ruleset keeps_rules =
    (Keeps-pure, Keeps-raise, Keeps-lift, Keeps-gets, Keeps-attempt, Keeps-if, Keeps-bind)

module _ {ℓ} {S A B : Type ℓ} {P : S → Type ℓ} {Q : B → S → Type ℓ} {R : Failure → S → Type ℓ} where
  -- What follows a pure step may use that the step did not raise.
  pub Triple-lift-bind :
      (r : Outcome A) (f : A → Exec S B)
      → ((e : Failure) (s : S) → P s → R e s)
      → ((a : A) → r ≡ ok a → Triple P (f a) Q R)
      → Triple P (lift r >>= f) Q R
  unfolding lift ◌>>=◌
  Triple-lift-bind (ok a) f hr k = record { at = (k a refl).at }
  Triple-lift-bind (raised e) f hr k = record { at = hr e }

  -- A value that is read is known where the state is.
  pub Triple-gets-bind :
      (g : S → A) (f : A → Exec S B) (v : A)
      → ((s : S) → P s → g s ≡ v)
      → Triple P (f v) Q R
      → Triple P (gets g >>= f) Q R
  unfolding gets ◌>>=◌
  Triple-gets-bind g f v known k = record {
    at = λ s p. subst (λ x. After Q R (f x s)) (sym (known s p)) (k.at s p);
  }

module _ {ℓ} {S T A : Type ℓ} (P : S → Type ℓ) (get : S → T) (put : T → S → S) where
  After-within :
      (r : Outcome A × T) (s : S)
      → ((t : T) → P (put t s))
      → After (λ _. P) (λ _. P) (let (a, t) = r in (a, put t s))
  After-within (ok a, t) s h = h t
  After-within (raised e, t) s h = h t

  -- An action on a part of the state keeps what the part does not touch.
  pub Keeps-within :
      (m : Exec T A) → ((t : T) (s : S) → P s → P (put t s)) → Keeps P (within get put m)
  unfolding within
  Keeps-within m h = record { at = λ s p. After-within (m (get s)) s (λ t. h t s p) }

module _ {ℓ} {S T A : Type ℓ} (Q : A → T → Type ℓ) (R : Failure → T → Type ℓ) (get : S → T)
    (put : T → S → S) where
  After-part :
      (r : Outcome A × T) (s : S)
      → ((t : T) → get (put t s) ≡ t)
      → After Q R r
      → After (λ a s. Q a (get s)) (λ e s. R e (get s)) (let (a, t) = r in (a, put t s))
  After-part (ok a, t) s law h = subst (Q a) (sym (law t)) h
  After-part (raised e, t) s law h = subst (R e) (sym (law t)) h

module _ {ℓ} {S T A : Type ℓ} {P : T → Type ℓ} {Q : A → T → Type ℓ} {R : Failure → T → Type ℓ}
    (get : S → T) (put : T → S → S) where
  -- A rule for a part of the state is one for the whole.
  pub Triple-within :
      (m : Exec T A)
      → ((t : T) (s : S) → get (put t s) ≡ t)
      → Triple P m Q R
      → Triple (λ s. P (get s)) (within get put m) (λ a s. Q a (get s)) (λ e s. R e (get s))
  unfolding within
  Triple-within m law k = record {
    at = λ s p. After-part Q R get put (m (get s)) s (λ t. law t s) (k.at (get s) p);
  }

module _ {ℓ} {S A : Type ℓ} (Q Q' : A → S → Type ℓ) (R R' : Failure → S → Type ℓ) where
  After-both :
      (r : Outcome A × S)
      → After Q R r
      → After Q' R' r
      → After (λ a s. Q a s × Q' a s) (λ e s. R e s × R' e s) r
  After-both (ok a, s) h k = (h, k)
  After-both (raised e, s) h k = (h, k)

module _ {ℓ} {S A : Type ℓ} {P : S → Type ℓ} {Q Q' : A → S → Type ℓ}
    {R R' : Failure → S → Type ℓ} where
  -- Two rules for one action are one.
  pub Triple-both :
      (m : Exec S A)
      → Triple P m Q R
      → Triple P m Q' R'
      → Triple P m (λ a s. Q a s × Q' a s) (λ e s. R e s × R' e s)
  Triple-both m h k = record { at = λ s p. After-both Q Q' R R' (m s) (h.at s p) (k.at s p) }
