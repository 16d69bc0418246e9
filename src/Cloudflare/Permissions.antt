-- ===== src/Cloudflare/Permissions.antt =====
-- `require_zone_permissions` returns only for a token that can do what edgekit needs.
use edgekit.Base.{
  Triple-raise, sym, subst, Triple-if, arith, Triple-lift, Triple-attempt, true, raised, ◌||◌,
  After, refl, not, Triple-bind, ◌∷◌, all, ok, [], Triple-pure, ◌≡◌, Triple, Bool, String, keep,
  List, false, and_parts, Failure, if◌then◌else◌,
}
use edgekit.Cloudflare.Client.{
  is_cloudflare, catch_cloudflare, Account, Api, Resource, Call, request, request_with, answered,
  result_of, fetch,
}
use edgekit.Npm.Api.{reply, json, broken, timed_out, Reply, empty, garbage}
use edgekit.Base.Json.{Json, truthy}
use edgekit.Base.Json
use edgekit.Cloudflare.Zone.{
  probes, check_zone_permissions, require_zone_permissions, report_or_raise, probe_one, probe_each,
  is_missing, Probe, Capability,
}

report_or_raise-missing :
    (missing report cs : List Capability)
    → report_or_raise missing report ≡ ok cs
    → (cs ≡ report) × (missing ≡ [])
report_or_raise-missing [] report cs e = (cc, refl)
report_or_raise-missing (m ∷ ms) report cs e = absurd (cc)

-- The flag `success` of a response, which the API documents to be false in every error.
unfoldable pub succeeds : Reply → Bool
succeeds (reply status (json j)) = truthy (Json.get "success" j)
succeeds (reply status empty) = false
succeeds (reply status garbage) = false
succeeds broken = false
succeeds timed_out = false

pub record Same (p : Probe) (c : Capability) : Type 0 where
  pub label : c.label ≡ p.label
  pub permission : c.permission ≡ p.permission
  pub required : c.required ≡ p.required

-- `may` is what the token may read.
module _ (may : Resource → Bool) where
  -- A row for each probe, in their order, that grants only what the token may read.
  pub data Reports : List Probe → List Capability → Type 0 where
    nothing : Reports [] []
    row :
        {p : Probe} {c : Capability} {ps : List Probe} {cs : List Capability}
        → Same p c
        → not c.granted || may p.path ≡ true
        → Reports ps cs
        → Reports (p ∷ ps) (c ∷ cs)

  required_probes :
      (ps : List Probe) (cs : List Capability)
      → Reports ps cs
      → keep is_missing cs ≡ []
      → all (λ p. not p.required || may p.path) ps ≡ true
  unfolding keep
  required_probes _ _ nothing h = refl
  required_probes _ _ (row {p} {c} {ps} {cs} same honest rest) h =
      ground (arith, same.required, honest, required_probes ps cs rest)

  true_if_granted : (b m : Bool) → (m ≡ false → b ≡ false) → b ≡ true → m ≡ true
  true_if_granted b true law e = refl
  true_if_granted b false law e = absurd (cc (law refl, e))

-- What the API documents: a call on what the token may not read never succeeds.
abbrev pub Refuses : Api → (Resource → Bool) → Type 0
Refuses A may =
    (call : Call) (t : A.State) → may call.path ≡ false → succeeds (A.send false call t).0 ≡ false

module _ (A : Api) (account : Account) (may : Resource → Bool) where
  result_of-may :
      (b m : Bool) (j : Json) (e : Failure) (t : A.State)
      → (m ≡ false → b ≡ false)
      → After (λ _ _. m ≡ true) (λ _ _. Unit {0}) ((if b then ok j else raised e), t)
  result_of-may true m j e t law = true_if_granted may true m law refl
  result_of-may false m j e t law = tt

  answered-may :
      (m : Bool) (r : Reply × A.State)
      → (m ≡ false → succeeds r.0 ≡ false)
      → After (λ _ _. m ≡ true) (λ _ _. Unit {0}) (answered A account r)
  unfolding succeeds result_of
  answered-may m (reply status (json j), t) law =
      result_of-may (truthy (Json.get "success" j)) m _ _ t law
  answered-may m (reply status empty, t) law = tt
  answered-may m (reply status garbage, t) law = tt
  answered-may m (broken, t) law = tt
  answered-may m (timed_out, t) law = tt

  request-may :
      (call : Call)
      → Refuses A may
      → Triple
          (λ _. Unit {0})
          (request A account call)
          (λ _ _. may call.path ≡ true)
          (λ e _. Unit {0})
  unfolding request request_with
  request-may call refuses = record {
    at = λ t h. answered-may (may call.path) (A.send false call t) (refuses call t);
  }

  abbrev Row : Probe → Capability → Type 0
  Row p c = Same p c × (not c.granted || may p.path ≡ true)

  probe_one-Row :
      (p : Probe)
      → Refuses A may
      → Triple (λ _. Unit {0}) (probe_one A account p) (λ c _. Row p c) (λ e _. Unit {0})
  unfolding probe_one catch_cloudflare
  probe_one-Row p refuses =
      Triple-attempt (λ e _. Unit) _ _
        (Triple-bind (λ _ _. may p.path ≡ true) _ _
          (request-may (fetch A account p.path p.params) refuses)
          (λ _.
            Triple-pure _
              (λ t h. (record { label = refl; permission = refl; required = refl }, h))))
        (λ e.
          Triple-if (is_cloudflare e) _ _
            (λ _.
              Triple-pure _
                (λ t h. (record { label = refl; permission = refl; required = refl }, refl)))
            (λ _. Triple-raise e (λ t h. tt)))

  probe_each-Reports :
      (ps : List Probe)
      → Refuses A may
      → Triple
          (λ _. Unit {0})
          (probe_each A account ps)
          (λ cs _. Reports may ps cs)
          (λ e _. Unit {0})
  unfolding probe_each
  probe_each-Reports [] refuses = Triple-pure [] (λ t h. Reports.nothing)
  probe_each-Reports (p ∷ ps) refuses =
      Triple-bind (λ c _. Row p c) _ _ (probe_one-Row p refuses)
        (λ c. record {
          at = λ t first.
              (Triple-bind (λ cs _. Reports may ps cs) _ _ (probe_each-Reports ps refuses)
                  (λ cs. Triple-pure (c ∷ cs) (λ t rest. Reports.row first.0 first.1 rest))).at
                t tt;
        })

  -- Where the API answers no call with success on what the token may not read: a report that is
  -- returned has a row for each probe, in their order, that grants only what the token may read, and
  -- the token may read the DNS records and the SSL mode of the zone.
  pub require_zone_permissions-granted :
      (zone_id : String)
      → Refuses A may
      → Triple
          (λ _. Unit {0})
          (require_zone_permissions A account zone_id)
          (λ cs _.
            Reports may (probes zone_id) cs
            × (may (Resource.dns_records zone_id) ≡ true)
            × (may (Resource.ssl zone_id) ≡ true))
          (λ e _. Unit {0})
  unfolding require_zone_permissions check_zone_permissions probes
  require_zone_permissions-granted zone_id refuses =
      Triple-bind (λ cs _. Reports may (probes zone_id) cs) _ _
        (probe_each-Reports (probes zone_id) refuses)
        (λ report.
          Triple-lift _
            (λ cs t reported e.
              let r = report_or_raise-missing _ report cs e in
              let needed = required_probes may _ report reported r.1 in
              let (dns, others) = and_parts _ _ needed in
              (
                subst (Reports may (probes zone_id)) (sym r.0) reported,
                dns,
                (and_parts _ _ others).0,
              ))
            (λ e t rows. tt))
