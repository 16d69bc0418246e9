-- ===== src/Npm/Challenge.antt =====
-- The Let's Encrypt methods keep every host on a certificate that is there, and give certificates
-- that are there.
use edgekit.Npm.Certificates.{list_request, list_certificates}
use edgekit.Base.{
  true, Triple-raise, ◌≡◌, Triple-pure, Triple-if, inr, any, Triple-bind, Triple-attempt, subst,
  inl, [], Bool-cases, ◌∷◌, Triple, String, Char, All, none, List, some, Bool, keep, Option,
}
use edgekit.Npm.Letsencrypt.{
  is_rejected, expiry_key, text_before, challenge_request, find_letsencrypt_certificate,
  create_letsencrypt_certificate, Challenge, newest_from, newest,
}
use edgekit.Npm.Certificates.Reads.{NoDangling-Stable, logins, On, NoDangling}
use edgekit.Npm.Api.{timed_out, broken, reply, Reply, Server}
use edgekit.Npm.Laws.{refers, NamesCert, Obtains, CertLists, IsNpm, View}
use edgekit.Npm.Client.Requests.{request-Triple, Answered}
use edgekit.Base.Json.{entries, Json}
use edgekit.Npm.Client.{request}

module _ {ℓ κ} {A : Type ℓ} (P : A → Type κ) where
  All-keep : (p : A → Bool) (xs : List A) → All P xs → All P (keep p xs)
  unfolding keep
  All-keep p [] h = tt
  All-keep p (x ∷ xs) h = elim (Bool-cases (p x)) [
    | inl passes ↦ rw passes (h.0, All-keep p xs h.1)
    | inr fails ↦ rw fails (All-keep p xs h.1)
  ]

newest_from-All :
    (P : Json → Type 0) (best : Json) (cs : List Json) → P best → All P cs → P (newest_from best cs)
unfolding newest_from
newest_from-All P best [] b h = b
newest_from-All P best (c ∷ cs) b h =
    elim (Bool-cases (text_before (expiry_key best) (expiry_key c))) [
      | inl later ↦ rw later (newest_from-All P c cs h.0 h.1)
      | inr earlier ↦ rw earlier (newest_from-All P best cs b h.1)
    ]

-- Nothing, or something with `P`.
abbrev pub IfSome {ℓ} : {A : Type ℓ} → (A → Type ℓ) → Option A → Type ℓ
IfSome P none = Unit
IfSome P (some a) = P a

newest-All : (P : Json → Type 0) (cs : List Json) → All P cs → IfSome P (newest cs)
unfolding newest
newest-All P [] h = tt
newest-All P (c ∷ cs) h = newest_from-All P c cs h.0 h.1

module _ {S : Server} {V : View S} (laws : IsNpm V) where
  listed-Answered :
      (r : Reply × S.State)
      → NoDangling V r.1
      → CertLists V r
      → Answered S (NoDangling V) (λ j t. NoDangling V t × All (NamesCert V t) (entries j)) r
  listed-Answered (reply status body, t) p l = λ j fine e. (p, l j fine e)
  listed-Answered (broken, t) p l = tt
  listed-Answered (timed_out, t) p l = tt

  list_certificates-All :
      Triple
        (On laws (NoDangling V))
        (list_certificates S)
        (λ cs s. NoDangling V s.server × All (NamesCert V s.server) cs)
        (λ e. On laws (NoDangling V))
  unfolding list_certificates
  list_certificates-All =
      Triple-bind (λ j s. NoDangling V s.server × All (NamesCert V s.server) (entries j)) _ _
        (request-Triple S (logins laws (NoDangling V) NoDangling-Stable) (list_request S)
          (λ j t. NoDangling V t × All (NamesCert V t) (entries j))
          (λ token t p. NoDangling-Stable _ _ (laws.list_certificates token t).0 p)
          (λ token t p.
            listed-Answered _ (NoDangling-Stable _ _ (laws.list_certificates token t).0 p)
              (laws.list_certificates token t).1))
        (λ j. Triple-pure (entries j) (λ s h. h))

  -- The certificate that is found is there.
  pub find_letsencrypt_certificate-exists :
      (other : Char → String) (domains : List String)
      → Triple
          (On laws (NoDangling V))
          (find_letsencrypt_certificate S other domains)
          (λ o s. NoDangling V s.server × IfSome (NamesCert V s.server) o)
          (λ e. On laws (NoDangling V))
  unfolding find_letsencrypt_certificate
  find_letsencrypt_certificate-exists other domains =
      Triple-bind (λ cs s. NoDangling V s.server × All (NamesCert V s.server) cs) _ _
        list_certificates-All
        (λ cs. Triple-pure _ (λ s h. (h.0, newest-All _ _ (All-keep _ _ cs h.1))))

  challenge-NoDangling :
      (c : Challenge) (meta : List (String × Json)) (token : Option Json) (t : S.State)
      → NoDangling V t
      → NoDangling V (S.send token (challenge_request c meta) t).1
  challenge-NoDangling c meta token t h = record {
    served = λ n e.
        elim (h.served n (
          subst (λ (l : List Json). any (refers n) l ≡ true) (laws.challenge_hosts c meta token t)
            e)) [ inl z ↦ inl z | inr k ↦ inr (laws.challenge_certs c meta token t n k) ];
  }

  obtained-Answered :
      (r : Reply × S.State)
      → NoDangling V r.1
      → Obtains V r
      → Answered S (NoDangling V) (λ j t. NoDangling V t × NamesCert V t j) r
  obtained-Answered (reply status body, t) p l = λ j fine e. (p, l j fine e)
  obtained-Answered (broken, t) p l = tt
  obtained-Answered (timed_out, t) p l = tt

  challenge-Triple :
      (c : Challenge) (meta : List (String × Json))
      → Triple
          (On laws (NoDangling V))
          (request S (challenge_request c meta))
          (λ j s. NoDangling V s.server × NamesCert V s.server j)
          (λ e. On laws (NoDangling V))
  challenge-Triple c meta =
      request-Triple S (logins laws (NoDangling V) NoDangling-Stable) (challenge_request c meta)
        (λ j t. NoDangling V t × NamesCert V t j) (challenge-NoDangling c meta)
        (λ token t p.
          obtained-Answered _ (challenge-NoDangling c meta token t p)
            (laws.challenge_obtains c meta token t))

  -- The certificate that is obtained is there, by either shape of the request.
  pub create_letsencrypt_certificate-exists :
      (c : Challenge)
      → Triple
          (On laws (NoDangling V))
          (create_letsencrypt_certificate S c)
          (λ j s. NoDangling V s.server × NamesCert V s.server j)
          (λ e. On laws (NoDangling V))
  unfolding create_letsencrypt_certificate
  create_letsencrypt_certificate-exists c =
      Triple-attempt (λ e. On laws (NoDangling V)) _ _ (challenge-Triple c _)
        (λ e.
          Triple-if (is_rejected e) _ _ (λ _. challenge-Triple c _)
            (λ _. Triple-raise e (λ s h. h)))
