-- ===== src/Provision/Verify.antt =====
-- `step_verify_https` of services/provision.py, for the domains of the proxy hosts. Hosts are probed one
-- after the other here; the loop has no bound in the source, and recurs on fuel.
use edgekit.Base.{
  runtime_error, ltb, ◌||◌, zero, raise, ◌>>◌, ◌==◌, ◌+◌, suc, if◌then◌else◌, ◌∷◌, ◌>>=◌, some, ok,
  not, none, gets, ◌&&◌, true, false, any, List, Exec, ℕ, [], String, Option, Char, Bool, pure,
}
use edgekit.Health.{Level, assess_public, PublicProbe, Mode, Check, fine, fail}
use edgekit.Base.Dict.{Dict}
use edgekit.Base.Dict

pub record Web : Type 1 where
  pub State : Type 0
  -- `probe_public_https`
  pub probe : String → State → PublicProbe × State
  -- `loop.time()`, in seconds
  pub time : State → ℕ
  pub sleep : ℕ → State → State

pub record Run (W : Web) : Type 0 where
  pub web : W.State
  -- `self.report.cloudflare_525`
  pub cloudflare_525 : Bool

-- `results` and `seen`
pub record Progress : Type 0 where
  pub results : Dict Check
  pub seen : Dict PublicProbe

abbrev pub nothing_yet : Progress
nothing_yet = record { results = []; seen = [] }

abbrev pub verify_window : ℕ
verify_window = 120

abbrev pub verify_interval : ℕ
verify_interval = 10

abbrev pub is_fine : Level → Bool
is_fine fine = true
is_fine _ = false

abbrev pub is_fail : Level → Bool
is_fail fail = true
is_fail _ = false

abbrev pub says_525 : Option ℕ → Bool
says_525 none = false
says_525 (some n) = n == 525

module _ (other : Char → String) (m : Mode) (dns_applied : Bool) where
  unfoldable pub noted : PublicProbe → Progress → Progress
  noted p g = record {
    results = Dict.insert p.domain (assess_public other p m).0 g.results;
    seen = Dict.insert p.domain p g.seen;
  }

  abbrev pub retries : PublicProbe → Bool
  retries p =
      (assess_public other p m).1 && dns_applied && not (is_fine (assess_public other p m).0.level)

  -- The results of a round, and the domains to ask again.
  unfoldable pub assess_each : List PublicProbe → Progress → Progress × List String
  assess_each [] g = (g, [])
  assess_each (p ∷ ps) g =
      let (g', again) = assess_each ps (noted p g) in
      (g', if retries p then p.domain ∷ again else again)

  -- `config.dns_proxied and any(probe.status == 525 …)`
  unfoldable pub is_525 : Progress → Bool
  is_525 g = m.dns_proxied && any (λ entry. says_525 entry.1.status) g.seen

  unfoldable pub has_failures : Progress → Bool
  has_failures g = any (λ entry. is_fail entry.1.level) g.results

  module _ (W : Web) where
    unfoldable pub probe_one : String → Exec (Run W) PublicProbe
    probe_one domain s = let (p, web) = W.probe domain s.web in (ok p, record s { web = web })

    unfoldable pub probe_each : List String → Exec (Run W) (List PublicProbe)
    probe_each [] = pure []
    probe_each (domain ∷ domains) = do p ← probe_one domain; ps ← probe_each domains; pure (p ∷ ps)

    unfoldable pub wait : ℕ → Exec (Run W) (Unit {0})
    wait seconds s = (ok tt, record s { web = W.sleep seconds s.web })

    abbrev pub clock : Exec (Run W) ℕ
    clock = gets (λ s. W.time s.web)

    abbrev pub nothing_left : List String → Bool
    nothing_left [] = true
    nothing_left (d ∷ ds) = false

    -- What follows a round; `more` are the rounds on the domains that are asked again.
    unfoldable pub after_round :
        ℕ
        → Progress × List String
        → (List String → Progress → Exec (Run W) (Option Progress))
        → Exec (Run W) (Option Progress)
    after_round deadline (g, again) more = clock >>= λ now.
        if nothing_left again || ltb deadline (now + verify_interval)
        then pure (some g)
        else (wait verify_interval >> more again g)

    -- None if the fuel ran out.
    unfoldable pub rounds : ℕ → ℕ → List String → Progress → Exec (Run W) (Option Progress)
    rounds zero deadline pending g = pure none
    rounds (suc fuel) deadline pending g =
        probe_each pending >>= λ ps. after_round deadline (assess_each ps g) (rounds fuel deadline)

    abbrev pub report_525 : Bool → Exec (Run W) (Unit {0})
    report_525 b s = (ok tt, record s { cloudflare_525 = b })

    abbrev pub judged : Option Progress → Exec (Run W) (Option Progress)
    judged none = pure none
    judged (some g) =
        report_525 (is_525 g) >> (if has_failures g then raise runtime_error else pure (some g))

    unfoldable pub step_verify_https : ℕ → List String → Exec (Run W) (Option Progress)
    step_verify_https fuel domains =
        clock >>= λ now. rounds fuel (now + verify_window) domains nothing_yet >>= judged
