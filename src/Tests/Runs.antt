-- ===== src/Tests/Runs.antt =====
-- The theorems at concrete inputs.
use edgekit.Security.{refused}
use edgekit.Security.Throttle.{run-by, lockout, below_limit, by, run, failed, Event}
use edgekit.Security.{admitted, check, LoginThrottle}
use edgekit.Npm.Client.{Link, Client}
use edgekit.System.Wireguard.{num_addresses, next_free_address}
use edgekit.System.Wireguard.Free.{next_free_address-Allocated, Allocated}
use edgekit.Tests.Addressing.{tally-injective, tally, small_network, tallies}
use edgekit.Base.{ok, ◌≡◌, refl, false, ◌∷◌, arith, none, [], keep, String, List, After}
use edgekit.Npm.Certificates.NoDangling.{upload_custom_certificate-NoDangling, Installed}
use edgekit.Tests.FakeNpm.{refers-rendered, fake-IsNpm, fake_view, fake}
use edgekit.Npm.Certificates.{upload_custom_certificate}
use edgekit.Npm.Bootstrap.Returns.{bootstrap_admin-Bootstrapped, Bootstrapped}
use edgekit.Npm.Bootstrap.{bootstrap_admin}
use edgekit.Npm.Certificates.Reads.{NoDangling}
use edgekit.Base.Dict

abbrev admin : Client
admin = record { email = "ops@example.com"; password = "correct horse"; token = none }

abbrev serving : Link fake
serving = record {
  client = admin;
  server = record { hosts = (1, 1) ∷ (2, 0) ∷ []; next = 2; gone = λ n. false };
}

serving-NoDangling : NoDangling fake_view serving.server
serving-NoDangling = record {
  served = λ n e. ground (arith, refers-rendered n 1 1, refers-rendered n 2 0);
}

upload_custom_certificate-NoDangling_example :
    After
      (Installed fake-IsNpm)
      (λ e s. NoDangling fake_view s.server)
      (upload_custom_certificate fake "edgekit-origin" "certificate" "key" serving)
upload_custom_certificate-NoDangling_example =
    (upload_custom_certificate-NoDangling fake-IsNpm "edgekit-origin" "certificate" "key").at
      serving serving-NoDangling

bootstrap_admin-Bootstrapped_example :
    After
      (Bootstrapped fake "ops@example.com" "correct horse" "ops@example.com" "correct horse")
      (λ _ _. Unit)
      (bootstrap_admin fake "ops@example.com" "correct horse" "Ops" serving)
bootstrap_admin-Bootstrapped_example =
    (bootstrap_admin-Bootstrapped fake "ops@example.com" "correct horse" "ops@example.com"
        "correct horse" "Ops").at
      serving (refl, refl)

abbrev two_tries : LoginThrottle
two_tries = record { max_failures = 2; lockout_seconds = 900; buckets = [] }

abbrev attempts : List Event
attempts = failed "10.0.0.1" 1 ∷ failed "10.0.0.2" 2 ∷ failed "10.0.0.1" 3 ∷ []

lockout_example : check "10.0.0.1" 5 6 (run attempts two_tries) ≡ refused 899
unfolding keep Dict.lookup
lockout_example = lockout "10.0.0.1" attempts (1 ∷ []) 3 5 6 two_tries refl refl refl

below_limit_example : check "10.0.0.2" 5 6 (run attempts two_tries) ≡ admitted
unfolding keep Dict.lookup
below_limit_example = below_limit "10.0.0.2" attempts (2 ∷ []) 5 6 two_tries refl refl (omega arith)

run-by_example :
    Dict.lookup "10.0.0.2" (run attempts two_tries).buckets
    ≡ Dict.lookup "10.0.0.2" (run (keep (by "10.0.0.2") attempts) two_tries).buckets
run-by_example = run-by "10.0.0.2" attempts two_tries two_tries refl refl refl

next_free_address-Allocated_example :
    (t : String) × (next_free_address tallies small_network (tally 2 ∷ []) ≡ ok t)
    × Allocated tallies tally-injective small_network (tally 2 ∷ []) t
unfolding num_addresses
next_free_address-Allocated_example =
    next_free_address-Allocated tallies tally-injective small_network (tally 2 ∷ []) (omega arith)
      (omega arith)
