-- ===== src/Npm/Letsencrypt.antt =====
-- `find_letsencrypt_certificate` and `create_letsencrypt_certificate` of `NPMClient` in
-- services/npm.py.
use edgekit.Base.Json.{text_items, texts, arr, object, num, text, flag, Json}
use edgekit.Base.{
  keep, raise, pure, ltb, ◌>>=◌, ◌==◌, ◌&&◌, str_eq, some, contains, code, attempt, [], true,
  npm_error, none, lower_by, if◌then◌else◌, false, all, ◌∷◌, ◌++◌, map, Option, Exec, Bool, String,
  List, Failure, Char, ℕ,
}
use edgekit.Npm.Client.{request, Link}
use edgekit.Npm.Certificates.{list_certificates}
use edgekit.Npm.Api.{certificates, Verb, Request, Server}
use edgekit.Base.Json

-- `a < b` of texts.
unfoldable pub text_before : String → String → Bool
text_before s String.[] = false
text_before String.[] (String.◌∷◌ d t) = true
text_before (String.◌∷◌ c s) (String.◌∷◌ d t) =
    let rest = text_before s t in if code c == code d then rest else ltb (code c) (code d)

abbrev pub lowered : (Char → String) → List String → List String
lowered other = map (lower_by other)

-- Equality of the sets of two lists.
unfoldable pub same_set : List String → List String → Bool
same_set xs ys = all (λ x. contains x ys) xs && all (λ y. contains y xs) ys

unfoldable pub is_letsencrypt : (Char → String) → List String → Json → Bool
is_letsencrypt other domains c = elim (Json.get "provider" c) [
  | text s ↦
      str_eq s "letsencrypt"
      && same_set (lowered other (texts (Json.get "domain_names" c))) (lowered other domains)
  | _ ↦ false
]

-- `str(c.get("expires_on") or "")` of a date, which is a text.
unfoldable pub expiry_key : Json → String
expiry_key c = elim (Json.get "expires_on" c) [ text s ↦ s | _ ↦ "" ]

-- `max(matches, key=…, default=None)`: the first with the last expiry.
unfoldable pub newest_from : Json → List Json → Json
newest_from best [] = best
newest_from best (c ∷ cs) =
    if text_before (expiry_key best) (expiry_key c) then newest_from c cs else newest_from best cs

unfoldable pub newest : List Json → Option Json
newest [] = none
newest (c ∷ cs) = some (newest_from c cs)

pub record Challenge : Type 0 where
  pub nice_name : String
  pub domains : List String
  pub dns_provider : String
  pub dns_credentials : String
  pub email : String
  pub propagation_seconds : ℕ

abbrev pub meta_of : Challenge → List (String × Json)
meta_of c =
    ("dns_challenge", flag true)
    ∷ ("dns_provider", text c.dns_provider)
    ∷ ("dns_provider_credentials", text c.dns_credentials)
    ∷ ("propagation_seconds", num c.propagation_seconds)
    ∷ []

abbrev pub legacy_meta_of : Challenge → List (String × Json)
legacy_meta_of c =
    meta_of c ++ (("letsencrypt_email", text c.email) ∷ ("letsencrypt_agree", flag true) ∷ [])

abbrev pub challenge_request : Challenge → List (String × Json) → Request
challenge_request c meta = record {
  verb = Verb.post;
  endpoint = certificates;
  payload = object (
      ("provider", text "letsencrypt")
      ∷ ("nice_name", text c.nice_name)
      ∷ ("domain_names", arr (text_items c.domains))
      ∷ ("meta", object meta)
      ∷ []);
}

-- `exc.status_code == 400`
unfoldable pub is_rejected : Failure → Bool
is_rejected (npm_error (some status)) = status == 400
is_rejected _ = false

module _ (S : Server) where
  unfoldable pub find_letsencrypt_certificate :
      (Char → String) → List String → Exec (Link S) (Option Json)
  find_letsencrypt_certificate other domains =
      list_certificates S >>= λ certs. pure (newest (keep (is_letsencrypt other domains) certs))

  -- The legacy shape first; a 400 says that the build wants the current one.
  unfoldable pub create_letsencrypt_certificate : Challenge → Exec (Link S) Json
  create_letsencrypt_certificate c =
      attempt (request S (challenge_request c (legacy_meta_of c)))
        (λ e. if is_rejected e then request S (challenge_request c (meta_of c)) else raise e)
