-- ===== src/Base/Effects.antt =====
-- Methods that change what they hold and may raise. What was changed before an exception stays
-- changed, so the state comes back beside the exception too.
use Prim.Native.Nat.{ℕ}
use Prim.Native.String.{String}
use mathlib.Core.Option.{Option}
use mathlib.Core.List.{List, [], ◌∷◌}

-- The exceptions of the program, by class. An NPMError carries the HTTP status if it has one, a
-- CloudflareError the API's error codes; the messages are not kept.
pub data Failure : Type 0 where
  npm_error : Option ℕ → Failure
  npm_auth_error : Failure
  cloudflare_error : List ℕ → Failure
  http_error timeout_error : Failure
  host_error peer_error certificate_error wireguard_error auth_error : String → Failure
  command_error runtime_error value_error key_error attribute_error integrity_error : Failure
  os_error : Failure

pub data Outcome {ℓ} (A : Type ℓ) : Type ℓ where
  ok : A → Outcome A
  raised : Failure → Outcome A

abbrev pub Exec {ℓ} : Type ℓ → Type ℓ → Type ℓ
Exec S A = S → Outcome A × S

module _ {ℓ} {S A : Type ℓ} where
  unfoldable pub pure : A → Exec S A
  pure a s = (ok a, s)

  unfoldable pub raise : Failure → Exec S A
  raise e s = (raised e, s)

  unfoldable pub lift : Outcome A → Exec S A
  lift r s = (r, s)

  unfoldable pub gets : (S → A) → Exec S A
  gets f s = (ok (f s), s)

  -- `try: m` with `except … as e: handler(e)`
  abbrev pub recover : Outcome A × S → (Failure → Exec S A) → Outcome A × S
  recover (ok a, s) handler = (ok a, s)
  recover (raised e, s) handler = handler e s

  unfoldable pub attempt : Exec S A → (Failure → Exec S A) → Exec S A
  unfolding pure raise
  attempt m handler s = recover (m s) handler

module _ {ℓ} {S A B : Type ℓ} where
  abbrev pub continue : Outcome A × S → (A → Exec S B) → Outcome B × S
  continue (ok a, s) f = f a s
  continue (raised e, s) f = (raised e, s)

  infixl 10 ◌>>=◌ ◌>>◌
  unfoldable pub ◌>>=◌ : Exec S A → (A → Exec S B) → Exec S B
  unfolding pure raise lift gets
  ◌>>=◌ m f s = continue (m s) f

  abbrev pub ◌>>◌ : Exec S A → Exec S B → Exec S B
  m >> n = m >>= λ _. n

module _ {ℓ} {S : Type ℓ} where
  -- `for x in xs: body(x)`
  unfoldable pub for_each {κ} : {B : Type κ} → List B → (B → Exec S (Unit {ℓ})) → Exec S (Unit {ℓ})
  for_each [] body = pure tt
  for_each (x ∷ xs) body = body x >>= λ _. for_each xs body

-- An action on a part of the state.
module _ {ℓ} {S T A : Type ℓ} where
  unfoldable pub within : (S → T) → (T → S → S) → Exec T A → Exec S A
  within get put m s = let (r, t) = m (get s) in (r, put t s)
