-- ===== src/Tests/Verify.antt =====
-- Hosts that answer a browser, on which the judgements of the HTTPS check run.
use edgekit.Base.{
  some, runtime_error, [], ◌∷◌, ◌+◌, refl, ◌≡◌, ℕ, true, false, arith, String, Char, After,
}
use edgekit.Health.{assess_public, PublicProbe, Mode, fine}
use edgekit.Health.Judged.{assess_public-Well, Well}
use edgekit.Provision.Verify.{Web, Run, step_verify_https}
use edgekit.Provision.Verified.{IsWeb, Verified, step_verify_https-Verified}

abbrev other : Char → String
other c = String.◌∷◌ c ""

abbrev direct : Mode
direct = record { dns_proxied = false; public_ip = "203.0.113.7" }

abbrev probe_of : String → PublicProbe
probe_of domain = record {
  domain = domain;
  addresses = "203.0.113.7" ∷ [];
  resolved_by = "public";
  trusted = some true;
  issuer = "CN=E5,O=Let's Encrypt,C=US";
  status = some 200;
}

assess_public-Well_example :
    ((assess_public other (probe_of "a.example.com") direct).0.level ≡ fine
      → Well (probe_of "a.example.com") direct)
    × (Well (probe_of "a.example.com") direct
        → (assess_public other (probe_of "a.example.com") direct).0.level ≡ fine)
assess_public-Well_example = assess_public-Well other (probe_of "a.example.com") direct

-- A probe takes a second.
abbrev web : Web
web = record {
  State = ℕ;
  probe = λ domain n. (probe_of domain, n + 1);
  time = λ n. n;
  sleep = λ seconds n. n + seconds;
}

web-IsWeb : IsWeb web
web-IsWeb = record {
  domain_of = λ d n. refl;
  probe_later = λ d n. omega arith;
  sleep_later = λ seconds n. omega arith;
}

abbrev start : Run web
start = record { web = 5; cloudflare_525 = false }

step_verify_https-Verified_example :
    After
      (λ o s. Verified other direct true web-IsWeb ("a.example.com" ∷ []) o)
      (λ e s. e ≡ runtime_error)
      (step_verify_https other direct true web 121 ("a.example.com" ∷ []) start)
step_verify_https-Verified_example =
    (step_verify_https-Verified other direct true web-IsWeb 121 ("a.example.com" ∷ [])
        (omega arith)).at
      start tt
