-- ===== src/Provision.antt =====
-- The runner of services/provision.py: `_emit`, `_step` and `run`. The steps are a parameter: what each
-- does to the world, and how it ends. Messages of exceptions are the details of the results.
pub mod Runs
pub mod Selected
pub mod Steps
pub mod Address
pub mod Found
pub mod Stepped
pub mod Certified
pub mod Verify
pub mod Results
pub mod Verified
use edgekit.Base.{
  ◌++◌, none, if◌then◌else◌, false, contains, any, [], ◌∷◌, ◌&&◌, true, some, not, keep, String,
  Option, List, Bool, pure,
}
use edgekit.Models.{Database, AuditLog}

pub data StepStatus : Type 0 where
  pending running done skipped failed : StepStatus

pub record StepResult : Type 0 where
  pub key : String
  pub title : String
  pub status : StepStatus
  pub detail : String

pub record ProvisionReport : Type 0 where
  pub results : List StepResult
  pub cloudflare_525 : Bool

abbrev pub is_failed : StepResult → Bool
is_failed r = elim (r.status) [ failed ↦ true | _ ↦ false ]

-- `ProvisionReport.ok`
unfoldable pub report_ok : ProvisionReport → Bool
report_ok report = not (any is_failed report.results)

-- `ProvisionReport.failures`
unfoldable pub failures : ProvisionReport → List StepResult
failures report = keep is_failed report.results

-- How the function of a step ends: it returns, it raises SkipStep, or any other exception.
pub data Ending : Type 0 where
  returned skip raises : String → Ending

unfoldable pub status_of : Ending → StepStatus
status_of (returned s) = done
status_of (skip s) = skipped
status_of (raises s) = failed

abbrev pub detail_of : Ending → String
detail_of (returned s) = s
detail_of (skip s) = s
detail_of (raises s) = s

-- What the steps act on. The listener cannot break the run, whatever it raises.
pub record Site : Type 1 where
  pub World : Type 0
  pub db : World → Database
  pub put_db : Database → World → World
  pub on_event : Option (StepResult → World → World)
  pub public_ip : World → String

pub record Step (S : Site) : Type 0 where
  pub key : String
  pub title : String
  pub act : S.World → Ending × S.World

abbrev pub fatal_steps : List String
fatal_steps = "preflight" ∷ "wireguard_keys" ∷ "wireguard_up" ∷ []

abbrev pub tls_steps : List String
tls_steps =
    "cloudflare_zone" ∷ "cloudflare_dns" ∷ "cloudflare_ssl" ∷ "origin_cert" ∷ "attach_cert"
    ∷ "panel_host" ∷ "verify_https" ∷ "persist" ∷ []

-- `only`, none for every step.
unfoldable pub is_wanted : Option (List String) → String → Bool
is_wanted none key = true
is_wanted (some only) key = contains key only

-- `result.status is StepStatus.FAILED and key in _FATAL_STEPS`
unfoldable pub is_fatal : StepResult → Bool
is_fatal r = is_failed r && contains r.key fatal_steps

module _ (S : Site) where
  abbrev emit_to : Option (StepResult → S.World → S.World) → StepResult → S.World → S.World
  emit_to none r w = w
  emit_to (some listener) r w = listener r w

  -- `_emit`
  unfoldable pub emit : StepResult → S.World → S.World
  emit r w = emit_to S.on_event r w

  abbrev pub result_for : Step S → StepStatus → String → StepResult
  result_for step status detail = record {
    key = step.key;
    title = step.title;
    status = status;
    detail = detail;
  }

  -- `_step`
  unfoldable pub run_step : Step S → S.World → StepResult × S.World
  run_step step w =
      let (ending, w') = step.act (emit (result_for step running "") w) in
      let result = result_for step (status_of ending) (detail_of ending) in (result, emit result w')

  -- The results of the steps that follow, with those before them.
  abbrev pub and_then : StepResult → List StepResult × S.World → List StepResult × S.World
  and_then r (rs, w) = (r ∷ rs, w)

  -- The loop of `run`: it stops after a fatal result.
  unfoldable pub run_steps :
      Option (List String) → List (Step S) → S.World → List StepResult × S.World
  run_steps only [] w = ([], w)
  run_steps only (step ∷ steps) w =
      let rest = run_steps only steps in
      if is_wanted only step.key
      then (let (result, w') = run_step step w in
          if is_fatal result then (result ∷ [], w') else and_then result (rest w'))
      else rest w

  abbrev add_audit : AuditLog → Database → Database
  add_audit row db = record db { audit = db.audit ++ (row ∷ []) }

  abbrev pub with_row : ProvisionReport → S.World → S.World
  with_row report w =
      S.put_db
        (add_audit
          (record {
            actor = "system";
            action = "provision.run";
            target = S.public_ip w;
            success = report_ok report;
          })
          (S.db w))
        w

  abbrev pub report_of : List StepResult → Bool → ProvisionReport
  report_of results bad_tls = record { results = results; cloudflare_525 = bad_tls }

  -- `run` of a new Provisioner; `bad_tls` says whether the HTTPS check has seen a 525.
  unfoldable pub run :
      (S.World → Bool) → Option (List String) → List (Step S) → S.World → ProvisionReport × S.World
  run bad_tls only steps w =
      let (results, w') = run_steps only steps w in
      let report = report_of results (bad_tls w') in (report, with_row report w')
