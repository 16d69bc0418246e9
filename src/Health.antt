-- ===== src/Health.antt =====
-- The judgement of services/health.py on what a browser gets: `assess_public`. Of a check, the level
-- and the branch that gives it are kept, not its texts.
pub mod Judged
use edgekit.Base.{
  lower_by, includes, [], ◌∷◌, Char, leb, ◌==◌, strip, true, str_eq, none, false, contains, ◌&&◌, ℕ,
  some, not, List, if◌then◌else◌, String, Option, Bool, pure,
}

pub data Level : Type 0 where
  fine warn fail skip : Level

-- Why a check has its level, by the branches of `assess_public`.
pub data Reason : Type 0 where
  no_resolver unresolved unreachable dns_only origin_shown untrusted : Reason
  points_at_server through_cloudflare origin_tls_failed origin_rejected : Reason
  no_response service_error answered : Reason

pub record Check : Type 0 where
  pub domain : String
  pub level : Level
  pub reason : Reason

pub record PublicProbe : Type 0 where
  pub domain : String
  pub addresses : List String
  pub resolved_by : String
  -- none where no connection was made
  pub trusted : Option Bool
  pub issuer : String
  pub status : Option ℕ

pub record Mode : Type 0 where
  -- `config.dns_proxied`
  pub dns_proxied : Bool
  pub public_ip : String

abbrev pub has_ip : Mode → Bool
has_ip m = not (str_eq (strip m.public_ip) "")

-- `bool(public_ip) and public_ip in probe.addresses`
unfoldable pub points_here : Mode → PublicProbe → Bool
points_here m p = has_ip m && contains (strip m.public_ip) p.addresses

abbrev pub is_empty : List String → Bool
is_empty [] = true
is_empty (a ∷ rest) = false

-- `not probe.addresses`
abbrev pub no_addresses : PublicProbe → Bool
no_addresses p = is_empty p.addresses

-- `PublicProbe.origin_certificate`; `other` is `lower` beyond ASCII.
unfoldable pub origin_certificate : (Char → String) → PublicProbe → Bool
origin_certificate other p = includes "cloudflare origin" (lower_by other p.issuer)

-- The branches: the level, the reason, and whether asking again could change the answer.
abbrev pub Verdict : Type 0
Verdict = Level × Reason × Bool

unfoldable pub assess_unconnected : PublicProbe → Verdict
assess_unconnected p =
    if no_addresses p && str_eq p.resolved_by "server"
    then (warn, no_resolver, false)
    else (if no_addresses p then (fail, unresolved, true) else (warn, unreachable, false))

unfoldable pub assess_untrusted : (Char → String) → Mode → PublicProbe → Verdict
assess_untrusted other m p =
    if origin_certificate other p && m.dns_proxied
    then (fail, dns_only, points_here m p)
    else (if origin_certificate other p
        then (fail, origin_shown, false)
        else (fail, untrusted, false))

abbrev pub assess_status : Option ℕ → Verdict
assess_status none = (warn, no_response, false)
assess_status (some status) =
    if status == 525
    then (fail, origin_tls_failed, true)
    else (if status == 526
        then (fail, origin_rejected, false)
        else (if leb 500 status then (warn, service_error, false) else (fine, answered, false)))

unfoldable pub assess_trusted : Mode → PublicProbe → Verdict
assess_trusted m p =
    if m.dns_proxied && points_here m p
    then (warn, points_at_server, true)
    else (if not m.dns_proxied && (has_ip m && not (points_here m p))
        then (warn, through_cloudflare, true)
        else assess_status p.status)

abbrev pub assess_by : (Char → String) → Option Bool → Mode → PublicProbe → Verdict
assess_by other none m p = assess_unconnected p
assess_by other (some false) m p = assess_untrusted other m p
assess_by other (some true) m p = assess_trusted m p

unfoldable pub assess_public : (Char → String) → PublicProbe → Mode → Check × Bool
assess_public other p m =
    let (level, reason, again) = assess_by other p.trusted m p in
    (record { domain = p.domain; level = level; reason = reason }, again)
