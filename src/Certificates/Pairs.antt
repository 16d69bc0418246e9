-- ===== src/Certificates/Pairs.antt =====
-- What a certificate and a key have passed that `validate_pair` lets through.
use edgekit.Certificates.Names.{
  same_or_raise, info_or_raise, keys_match, after_match, unexpired, inspect_certificate,
  validate_key_matches, validate_pair, Pem, CertificateInfo,
}
use edgekit.Base.{
  refl, subst, raised, if◌then◌else◌, false, ap, Failure, Bool, none, ltb, arith, Outcome, Option,
  ◌≤◌, true, some, ◌≡◌, String, ℕ, ok,
}

raised-ok : {x : Failure} {i : CertificateInfo} → raised x ≡ ok i → ⊥
raised-ok e = cc

ok_inj : {i j : CertificateInfo} → ok i ≡ ok j → i ≡ j
ok_inj e = cc

not_below : (a b : ℕ) → ltb a b ≡ false → b ≤ a
not_below a b h = ground arith

module _ (P : Pem) where
  -- The texts are a certificate and a key, their public keys have equal public numbers, and the certificate is valid at `now`.
  pub record Usable (now : ℕ) (certificate_pem key_pem : String) (info : CertificateInfo)
      : Type 0 where
    pub parsed : P.certificate certificate_pem ≡ some info
    pub certificate_key : P.PublicKey
    pub private_key : P.PublicKey
    pub certificate_key_of : P.certificate_key certificate_pem ≡ some certificate_key
    pub private_key_of : P.private_key key_pem ≡ some private_key
    pub together : P.same_numbers certificate_key private_key ≡ some true
    pub unexpired : now ≤ info.not_after

  -- The checks on what was read of the two texts.
  abbrev checked :
      ℕ → Option P.PublicKey → Option P.PublicKey → Option CertificateInfo → Outcome CertificateInfo
  checked now pk ck ci = after_match P (keys_match P pk ck) (unexpired P now (info_or_raise P ci))

  checked_valid :
      (now : ℕ) (info : CertificateInfo)
      → now ≤ info.not_after
      → unexpired P now (ok info) ≡ ok info
  checked_valid now info h = ground arith

  valid_if :
      (b : Bool) (i info : CertificateInfo) (x : Failure)
      → (if b then raised x else ok i) ≡ ok info
      → (b ≡ false) × (i ≡ info)
  valid_if true i info x e = elim (raised-ok e) [ ]
  valid_if false i info x e = (refl, ok_inj e)

  match_if :
      (same : Option Bool) (r : Outcome CertificateInfo) (info : CertificateInfo)
      → after_match P (same_or_raise P same) r ≡ ok info
      → (same ≡ some true) × (r ≡ ok info)
  match_if none r info e = elim (raised-ok e) [ ]
  match_if (some true) r info e = (refl, e)
  match_if (some false) r info e = elim (raised-ok e) [ ]

  checked_parts :
      (now : ℕ) (info : CertificateInfo) (pk ck : Option P.PublicKey) (ci : Option CertificateInfo)
      → checked now pk ck ci ≡ ok info
      → (k : P.PublicKey) × (c : P.PublicKey) × (pk ≡ some k)
        × (ck ≡ some c)
        × (ci ≡ some info)
        × (P.same_numbers c k ≡ some true)
        × (now ≤ info.not_after)
  checked_parts now info none ck ci e = elim (raised-ok e) [ ]
  checked_parts now info (some k) none ci e = elim (raised-ok e) [ ]
  checked_parts now info (some k) (some c) none e =
      elim (raised-ok (match_if (P.same_numbers c k) _ info e).1) [ ]
  checked_parts now info (some k) (some c) (some i) e =
      let (fits, valid) = match_if (P.same_numbers c k) _ info e in
      let (early, same) = valid_if (ltb i.not_after now) i info _ valid in
      let until : now ≤ i.not_after = not_below i.not_after now early in
      (k, c, refl, refl, ap some same, fits, subst (λ x. now ≤ x.not_after) same until)

  -- `validate_pair` returns exactly where the texts are a certificate and a key, both of their public
  -- keys have public numbers, which are equal, and the certificate has not expired; and it returns then
  -- what it read of the certificate.
  pub validate_pair-Usable :
      (now : ℕ) (certificate_pem key_pem : String) (info : CertificateInfo)
      → (validate_pair P now certificate_pem key_pem ≡ ok info
          → Usable now certificate_pem key_pem info)
        × (Usable now certificate_pem key_pem info
            → validate_pair P now certificate_pem key_pem ≡ ok info)
  unfolding validate_pair validate_key_matches inspect_certificate
  validate_pair-Usable now certificate_pem key_pem info = (
    λ e.
        let (k, c, pk, ck, ci, fits, valid) = checked_parts now info _ _ _ e in
        record {
          parsed = ci;
          certificate_key = c;
          private_key = k;
          certificate_key_of = ck;
          private_key_of = pk;
          together = fits;
          unexpired = valid;
        },
    λ u.
        rw (u.private_key_of, u.certificate_key_of, u.together, u.parsed)
          (checked_valid now info u.unexpired),
  )
