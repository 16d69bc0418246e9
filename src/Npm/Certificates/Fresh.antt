-- ===== src/Npm/Certificates/Fresh.antt =====
-- A certificate that has just been created, and what deleting a certificate leaves.
use edgekit.Base.{
  Triple-raise, Triple-bind, Triple-if, Keeps-pure, ◌∙◌, inr, Triple-weaken, inl, Triple-attempt,
  Keeps-bind, ◌≢◌, subst, Keeps, any, Bool, Triple, List, Option, ℕ, true, ◌≡◌, arith, String, ok,
}
use edgekit.Npm.Certificates.Reads.{
  request-Keeps, NoDangling-Stable, logins, Unused-Stable, On, Holding-Stable, NoDangling, Holding,
  Unused,
}
use edgekit.Npm.Certificates.{
  upload_request, upload_or_delete, delete_request, delete_certificate, create_request,
}
use edgekit.Npm.Client.{is_npm, catch_npm, request}
use edgekit.Npm.Api.{timed_out, broken, reply, Reply, Server}
use native.Mathlib.Decide.{ℕ_discrete}
use edgekit.Npm.Client.Requests.{request-Triple, Answered}
use edgekit.Npm.Laws.{refers, Creates, Same, View, in_use, IsNpm}
use edgekit.Base.Json.{Json, num}
use edgekit.Base.Json

abbrev uses : List Json → ℕ → Bool
uses hosts n = any (refers n) hosts

module _ {S : Server} {V : View S} (laws : IsNpm V) where
  abbrev pub Fresh : ℕ → S.State → Type 0
  Fresh n t = Holding V n t × Unused V n t

  Fresh-Stable : (n : ℕ) (t u : S.State) → Same V t u → Fresh n t → Fresh n u
  Fresh-Stable n t u same h = (Holding-Stable n t u same h.0, Unused-Stable n t u same h.1)

  abbrev pub Created : Json → S.State → Type 0
  Created j t = (n : ℕ) × (Json.item "id" j ≡ ok (num n)) × Fresh n t

  create-NoDangling :
      (name : String) (token : Option Json) (t : S.State)
      → NoDangling V t
      → NoDangling V (S.send token (create_request S name) t).1
  create-NoDangling name token t h = record {
    served = λ n e.
        elim (h.served n (subst (λ l. uses l n ≡ true) (laws.create_hosts name token t) e)) [
          | inl z ↦ inl z
          | inr c ↦ inr (laws.create_certs name token t n c)
        ];
  }

  create-Answered :
      (t : S.State) (r : Reply × S.State)
      → NoDangling V t
      → NoDangling V r.1
      → V.hosts r.1 ≡ V.hosts t
      → Creates V t r
      → Answered S (NoDangling V) Created r
  create-Answered t (reply status body, u) h h' same c = λ j fine e.
      let (n, id, absent, there) = c j fine e in
      (
        n,
        id,
        (
          record { intact = h'; held = there },
          record {
            intact = h';
            free = λ used. ground (arith, h.served n (subst (λ l. uses l n ≡ true) same used));
          },
        ),
      )
  create-Answered t (broken, u) h h' same c = tt
  create-Answered t (timed_out, u) h h' same c = tt

  pub create-Triple :
      (name : String)
      → Triple
          (On laws (NoDangling V))
          (request S (create_request S name))
          (λ j s. Created j s.server)
          (λ e. On laws (NoDangling V))
  create-Triple name =
      request-Triple S (logins laws (NoDangling V) NoDangling-Stable) (create_request S name)
        Created (create-NoDangling name)
        (λ token t h.
          create-Answered t _ h (create-NoDangling name token t h) (laws.create_hosts name token t)
            (laws.creates name token t))

  delete-Unused :
      (m : ℕ) (token : Option Json) (t : S.State)
      → Unused V m t
      → Unused V m (S.send token (delete_request S (num m)) t).1
  delete-Unused m token t h = record {
    intact = record {
      served = λ n e.
          let used = subst (λ l. uses l n ≡ true) (laws.delete_hosts m token t) e in
          elim (ℕ_discrete n m) [
            | yes p ↦ inl (p ∙ h.free (subst (λ k. in_use V t k ≡ true) p used))
            | no p ↦ rw (laws.delete_certs m token t n p) (h.intact.served n used)
          ];
    };
    free = λ e. h.free (subst (λ l. uses l m ≡ true) (laws.delete_hosts m token t) e);
  }

  delete-Keeps : (m : ℕ) → Keeps (On laws (Unused V m)) (delete_certificate S (num m))
  unfolding delete_certificate
  delete-Keeps m =
      Keeps-bind _ _
        (request-Keeps laws (Unused V m) (Unused-Stable m) (delete_request S (num m))
          (delete-Unused m))
        (λ _. Keeps-pure tt)

  -- `c` outlives the deletion of another certificate.
  pub delete_other-Keeps :
      (c m : ℕ)
      → c ≢ m
      → Keeps (On laws (λ t. Holding V c t × Unused V m t)) (delete_certificate S (num m))
  unfolding delete_certificate
  delete_other-Keeps c m other =
      Keeps-bind _ _
        (request-Keeps laws (λ t. Holding V c t × Unused V m t)
          (λ t u same h. (Holding-Stable c t u same h.0, Unused-Stable m t u same h.1))
          (delete_request S (num m))
          (λ token t h.
            let after = delete-Unused m token t h.1 in
            (
              record {
                intact = after.intact;
                held = laws.delete_certs m token t c other ∙ h.0.held;
              },
              after,
            )))
        (λ _. Keeps-pure tt)

  pub upload_or_delete-Triple :
      (n : ℕ) (cert key : String)
      → Triple
          (On laws (Fresh n))
          (upload_or_delete S (num n) cert key)
          (λ _. On laws (Holding V n))
          (λ e. On laws (NoDangling V))
  unfolding upload_or_delete catch_npm
  upload_or_delete-Triple n cert key =
      Triple-attempt (λ _. On laws (Fresh n)) _ _
        (Triple-weaken _
          (Keeps-bind _ _
            (request-Keeps laws (Fresh n) (Fresh-Stable n) (upload_request S (num n) cert key)
              (λ token t. Fresh-Stable n _ _ (laws.upload (num n) cert key token t)))
            (λ _. Keeps-pure tt))
          (λ s p. p) (λ a s p. p.0) (λ e s p. p))
        (λ e.
          Triple-if (is_npm e) _ _
            (λ _.
              Triple-bind (λ _. On laws (Unused V n)) _ _
                (Triple-weaken _ (delete-Keeps n) (λ s p. p.1) (λ a s p. p) (λ e' s p. p.intact))
                (λ _. Triple-raise e (λ s p. p.intact)))
            (λ _. Triple-raise e (λ s p. p.0.intact)))
