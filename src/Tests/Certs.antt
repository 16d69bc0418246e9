-- ===== src/Tests/Certs.antt =====
-- The flows that install certificates, at a proxy manager whose two hosts serve with one certificate
-- or none.
use edgekit.Base.Digits.{Unicode}
use edgekit.Certificates.Kept.{certificate_id-set_setting, Sound, Serving}
use edgekit.Base.Json.{num, flag, object}
use edgekit.Certificates.Pairs.{validate_pair-Usable, Usable}
use edgekit.Certificates.Install.{id_text, Env, World, Draw, installed, issued}
use edgekit.Hosts.Settings.{setting_cert_id, set_setting}
use edgekit.Base.{◌≡◌, ◌==◌, ◌+◌, ok, some, false, String, ◌∷◌, ℕ, true, none, arith, [], After}
use edgekit.Hosts.Service.{certificate_id}
use edgekit.Certificates.Names.{validate_pair, Pem}
use edgekit.Certificates.Sound.{issue_and_install-Sound, install_manual_certificate-Sound}
use edgekit.Certificates.Direct.{install_letsencrypt-Serving}
use edgekit.Certificates.Flows.{issue_and_install, install_manual_certificate, install_letsencrypt}
use edgekit.Npm.Api.{json, reply}
use edgekit.Tests.FakeNpm.{refers-rendered, fake-IsNpm, fake_view, fake}
use edgekit.Npm.Client.{Link, Client}
use edgekit.Cloudflare.Client.{Api}
use edgekit.Npm.Certificates.Reads.{NoDangling}

abbrev api : Api
api = record {
  State = ℕ;
  send = λ key call n. (reply 200 (json (object (("success", flag true) ∷ []))), n + 1);
}

abbrev pub env : Env
env = record {
  config = record {
    cloudflare_enabled = true;
    api_token = "token";
    zone_name = "example.com";
    validity_days = 5475;
    admin_email = "ops@example.com";
    admin_password = "correct horse";
    hostname = "edge.example.com";
  };
  server = fake;
  api = api;
  account = record { origin_ca_key = "" };
  lower = λ c. String.◌∷◌ c "";
  expiry = λ pem. some 5;
  fingerprint = λ pem. ok "print";
  fromisoformat = λ s. none;
  isoformat = λ n. "1970-01-01T00:00:00+00:00";
  other_text = λ j. "";
}

abbrev admin : Client
admin = record { email = "ops@example.com"; password = "correct horse"; token = none }

abbrev link : Link fake
link = record {
  client = admin;
  server = record { hosts = (1, 1) ∷ (2, 0) ∷ []; next = 2; gone = λ n. false };
}

abbrev pub world : World env
world = record {
  db = record { peers = []; hosts = []; settings = ("npm_certificate_id", "1") ∷ []; audit = [] };
  link = link;
  cloudflare = 0;
}

pub world-NoDangling : NoDangling fake_view link.server
world-NoDangling = record {
  served = λ n e. ground (arith, refers-rendered n 1 1, refers-rendered n 2 0);
}

install_manual_certificate-Sound_example :
    After
      (Sound {E = env} fake-IsNpm installed)
      (λ e w. NoDangling fake_view w.link.server)
      (install_manual_certificate env "" false "cli" "certificate" "key" world)
install_manual_certificate-Sound_example =
    (install_manual_certificate-Sound {E = env} fake-IsNpm "" false "cli" "certificate" "key").at
      world world-NoDangling

abbrev pub draw : Draw
draw = record { csr_pem = "request"; key_pem = "key"; now = 0 }

issue_and_install-Sound_example :
    After
      (Sound {E = env} fake-IsNpm issued)
      (λ e w. NoDangling fake_view w.link.server)
      (issue_and_install env draw true "cli" world)
issue_and_install-Sound_example =
    (issue_and_install-Sound {E = env} fake-IsNpm draw true "cli").at world world-NoDangling

install_letsencrypt-Serving_example :
    After
      (λ r w. NoDangling fake_view w.link.server × Serving {E = env} fake-IsNpm w)
      (λ e w. NoDangling fake_view w.link.server)
      (install_letsencrypt env 0 false "cli" world)
install_letsencrypt-Serving_example =
    (install_letsencrypt-Serving {E = env} fake-IsNpm 0 false "cli").at world world-NoDangling

abbrev ascii : Unicode
ascii = record { other_isdigit = λ p. false; other_int = λ p. none }

certificate_id-set_setting_example :
    certificate_id ascii (set_setting setting_cert_id (id_text env (num 12)) world.db)
    ≡ ok (some 12)
certificate_id-set_setting_example = certificate_id-set_setting env ascii 12 world.db

-- A certificate and a key are read from a text that is their name.
abbrev pub pems : Pem
pems = record {
  PublicKey = ℕ;
  same_numbers = λ a b. some (a == b);
  certificate =
      λ s. some (record { hostnames = "*.example.com" ∷ []; not_before = 1; not_after = 9 });
  certificate_key = λ s. some 7;
  private_key = λ s. some 7;
}

validate_pair-Usable_example :
    (validate_pair pems 5 "certificate" "key"
        ≡ ok (record { hostnames = "*.example.com" ∷ []; not_before = 1; not_after = 9 })
      → Usable pems 5 "certificate" "key"
          (record { hostnames = "*.example.com" ∷ []; not_before = 1; not_after = 9 }))
    × (Usable pems 5 "certificate" "key"
          (record { hostnames = "*.example.com" ∷ []; not_before = 1; not_after = 9 })
        → validate_pair pems 5 "certificate" "key"
          ≡ ok (record { hostnames = "*.example.com" ∷ []; not_before = 1; not_after = 9 }))
validate_pair-Usable_example =
    validate_pair-Usable pems 5 "certificate" "key"
      (record { hostnames = "*.example.com" ∷ []; not_before = 1; not_after = 9 })
