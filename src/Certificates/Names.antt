-- ===== src/Certificates/Names.antt =====
-- The parts of services/certificates.py that read names: `covers`, `coverage_warnings`,
-- `is_placeholder_email`, and the checks on a certificate and its key. What the package
-- cryptography reads in a PEM text is a parameter.
use edgekit.Base.{
  attribute_error, ends_with, drop_chars, keep, contains, after_first, ◌++◌, ◌&&◌, starts_with, ltb,
  includes, ◌||◌, ◌==◌, strip, split_by, ok, not, none, certificate_error, any, [], ◌∷◌, ◌<>◌,
  str_eq, some, rstrip_by, raised, lower_by, last, if◌then◌else◌, code, String, Outcome, Option,
  List, Char, Bool, ℕ,
}

-- `CertificateInfo`, without its subject and issuer; times are microseconds.
pub record CertificateInfo : Type 0 where
  pub hostnames : List String
  pub not_before : ℕ
  pub not_after : ℕ

abbrev pub is_dot : Char → Bool
is_dot c = code c == 46

abbrev pub text_or_empty : Option String → String
text_or_empty none = ""
text_or_empty (some s) = s

-- One pattern of the loop: the name itself, or one level of it for a wildcard.
unfoldable pub pattern_covers : String → String → Bool
pattern_covers pattern hostname =
    str_eq pattern hostname
    || (starts_with pattern "*."
        && includes "." hostname
        && str_eq (text_or_empty (after_first is_dot hostname)) (drop_chars 2 pattern))

module _ (other : Char → String) where
  unfoldable pub covers : CertificateInfo → String → Bool
  covers info hostname =
      let h = rstrip_by is_dot (lower_by other hostname) in
      any (λ pattern. pattern_covers (lower_by other pattern) h) info.hostnames

  -- The parts of the two warnings: the zone whose subdomains are not covered, and the domains.
  pub data Warning : Type 0 where
    no_wildcard : String → Warning
    not_covered : List String → Warning

  abbrev zone_warning : CertificateInfo → String → List Warning
  zone_warning info zone =
      if not (str_eq zone "") && not (covers info ("any." <> zone))
      then no_wildcard zone ∷ []
      else []

  abbrev domain_warning : List String → List Warning
  domain_warning [] = []
  domain_warning (d ∷ ds) = not_covered (d ∷ ds) ∷ []

  unfoldable pub coverage_warnings : CertificateInfo → String → List String → List Warning
  coverage_warnings info zone_name domains =
      zone_warning info (rstrip_by is_dot (strip zone_name))
      ++ domain_warning (keep (λ d. not (covers info d)) domains)

  -- `rpartition("@")[2]`
  abbrev after_at : String → String
  after_at email = text_or_empty (last (split_by (λ c. code c == 64) email))

  unfoldable pub is_placeholder_email : String → Bool
  is_placeholder_email email =
      let domain = lower_by other (strip (after_at email)) in
      not (includes "." domain)
      || contains domain ("example.com" ∷ "example.net" ∷ "example.org" ∷ [])
      || any (ends_with domain) (".example" ∷ ".test" ∷ ".invalid" ∷ ".localhost" ∷ ".local" ∷ [])

unfoldable pub certificate_hostnames : String → List String
certificate_hostnames zone_name = ("*." <> zone_name) ∷ zone_name ∷ []

abbrev pub certificate_name : String → String
certificate_name zone_name = "Cloudflare Origin - " <> zone_name

abbrev pub letsencrypt_name : String → String
letsencrypt_name zone_name = "Let's Encrypt - " <> zone_name

-- What `x509` and `serialization` read: none where they raise. `same_numbers c k` is the comparison of
-- the `public_numbers()` of the keys, and none where one of them, such as an Ed25519 key, has no such
-- method.
pub record Pem : Type 1 where
  pub PublicKey : Type 0
  pub same_numbers : PublicKey → PublicKey → Option Bool
  pub certificate : String → Option CertificateInfo
  pub certificate_key : String → Option PublicKey
  pub private_key : String → Option PublicKey

module _ (P : Pem) where
  abbrev pub info_or_raise : Option CertificateInfo → Outcome CertificateInfo
  info_or_raise none = raised (certificate_error "not a certificate")
  info_or_raise (some info) = ok info

  unfoldable pub inspect_certificate : String → Outcome CertificateInfo
  inspect_certificate certificate_pem = info_or_raise (P.certificate certificate_pem)

  abbrev pub same_or_raise : Option Bool → Outcome (Unit {0})
  same_or_raise none = raised attribute_error
  same_or_raise (some same) = if same then ok tt else raised (certificate_error "mismatch")

  abbrev pub keys_match : Option P.PublicKey → Option P.PublicKey → Outcome (Unit {0})
  keys_match none c = raised (certificate_error "not a key")
  keys_match (some k) none = raised (certificate_error "not a certificate")
  keys_match (some k) (some c) = same_or_raise (P.same_numbers c k)

  unfoldable pub validate_key_matches : String → String → Outcome (Unit {0})
  validate_key_matches certificate_pem key_pem =
      keys_match (P.private_key key_pem) (P.certificate_key certificate_pem)

  abbrev pub unexpired : ℕ → Outcome CertificateInfo → Outcome CertificateInfo
  unexpired now (raised e) = raised e
  unexpired now (ok info) =
      if ltb info.not_after now then raised (certificate_error "expired") else ok info

  abbrev pub after_match : Outcome (Unit {0}) → Outcome CertificateInfo → Outcome CertificateInfo
  after_match (raised e) info = raised e
  after_match (ok _) info = info

  -- `now` is the reading of the clock.
  unfoldable pub validate_pair : ℕ → String → String → Outcome CertificateInfo
  validate_pair now certificate_pem key_pem =
      after_match (validate_key_matches certificate_pem key_pem)
        (unexpired now (inspect_certificate certificate_pem))
