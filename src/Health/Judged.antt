-- ===== src/Health/Judged.antt =====
-- When `assess_public` finds that all is well.
use edgekit.Health.{
  answered, untrusted, service_error, unreachable, origin_shown, origin_rejected,
  origin_certificate, unresolved, origin_tls_failed, dns_only, no_resolver, no_addresses, fail,
  through_cloudflare, points_at_server, warn, has_ip, points_here, assess_status, assess_by,
  assess_untrusted, Verdict, assess_unconnected, assess_trusted, assess_public, PublicProbe, Mode,
  fine,
}
use edgekit.Base.{
  str_eq, arith, ◌==◌, sym, leb, refl, not, none, false, ◌<◌, ◌&&◌, true, if◌then◌else◌, ℕ, some,
  String, ◌≡◌, Option, Char, Bool,
}

-- A browser trusts the certificate, gets it by the path of the TLS mode, and gets an answer that is no
-- error of a server.
pub record Well (p : PublicProbe) (m : Mode) : Type 0 where
  pub trusted : p.trusted ≡ some true
  pub proxied : m.dns_proxied ≡ true → points_here m p ≡ false
  pub direct : m.dns_proxied ≡ false → has_ip m ≡ true → points_here m p ≡ true
  pub status : ℕ
  pub answer : p.status ≡ some status
  pub no_error : status < 500

warn-fine : warn ≡ fine → ⊥
warn-fine e = cc

fail-fine : fail ≡ fine → ⊥
fail-fine e = cc

true-false : true ≡ false → ⊥
true-false e = cc

by_path :
    (proxied points there : Bool) (v : Verdict)
    → (if proxied && points
        then (warn, points_at_server, true)
        else (if not proxied && (there && not points)
            then (warn, through_cloudflare, true)
            else v)).0
      ≡ fine
    → (proxied ≡ true → points ≡ false)
      × (proxied ≡ false → there ≡ true → points ≡ true)
      × (v.0 ≡ fine)
by_path true true there v e = elim (warn-fine e) [ ]
by_path true false there v e = (λ x. refl, λ x t. elim (true-false x) [ ], e)
by_path false true true v e = (λ x. elim (true-false (sym x)) [ ], λ x t. refl, e)
by_path false true false v e = (λ x. elim (true-false (sym x)) [ ], λ x t. refl, e)
by_path false false true v e = elim (warn-fine e) [ ]
by_path false false false v e =
    (λ x. elim (true-false (sym x)) [ ], λ x t. elim (true-false (sym t)) [ ], e)

path_fine :
    (proxied points there : Bool) (v : Verdict)
    → (proxied ≡ true → points ≡ false)
    → (proxied ≡ false → there ≡ true → points ≡ true)
    → v.0 ≡ fine
    → (if proxied && points
        then (warn, points_at_server, true)
        else (if not proxied && (there && not points)
            then (warn, through_cloudflare, true)
            else v)).0
      ≡ fine
path_fine true true there v p d e = elim (true-false (p refl)) [ ]
path_fine true false there v p d e = e
path_fine false true true v p d e = e
path_fine false true false v p d e = e
path_fine false false true v p d e = elim (true-false (sym (d refl refl))) [ ]
path_fine false false false v p d e = e

-- The branches on the status, by the outcomes of the tests.
abbrev status_verdict : Bool → Bool → Bool → Verdict
status_verdict a b c =
    if a
    then (fail, origin_tls_failed, true)
    else (if b
        then (fail, origin_rejected, false)
        else (if c then (warn, service_error, false) else (fine, answered, false)))

no_error_if : (a b c : Bool) → (status_verdict a b c).0 ≡ fine → c ≡ false
no_error_if true b c e = elim (fail-fine e) [ ]
no_error_if false true c e = elim (fail-fine e) [ ]
no_error_if false false true e = elim (warn-fine e) [ ]
no_error_if false false false e = refl

below : (n : ℕ) → leb 500 n ≡ false → n < 500
below n h = ground arith

below_fine : (n : ℕ) → n < 500 → (assess_status (some n)).0 ≡ fine
below_fine n h = rw (not_equal n 525 (omega arith), not_equal n 526 (omega arith), not_large) refl
  where
    not_equal : (n k : ℕ) → n < k → (n == k) ≡ false
    not_equal n k h = ground arith

    not_large : leb 500 n ≡ false
    not_large = ground arith

abbrev unconnected_verdict : Bool → Bool → Verdict
unconnected_verdict a b =
    if a && b
    then (warn, no_resolver, false)
    else (if a then (fail, unresolved, true) else (warn, unreachable, false))

unconnected-fine : (a b : Bool) → (unconnected_verdict a b).0 ≡ fine → ⊥
unconnected-fine true true e = warn-fine e
unconnected-fine true false e = fail-fine e
unconnected-fine false b e = warn-fine e

abbrev untrusted_verdict : Bool → Bool → Bool → Verdict
untrusted_verdict a b c =
    if a && b
    then (fail, dns_only, c)
    else (if a then (fail, origin_shown, false) else (fail, untrusted, false))

untrusted-fine : (a b c : Bool) → (untrusted_verdict a b c).0 ≡ fine → ⊥
untrusted-fine true true c e = fail-fine e
untrusted-fine true false c e = fail-fine e
untrusted-fine false b c e = fail-fine e

by_status : (o : Option ℕ) → (assess_status o).0 ≡ fine → (n : ℕ) × (o ≡ some n) × (n < 500)
by_status none e = elim (warn-fine e) [ ]
by_status (some n) e = (n, refl, below n (no_error_if (n == 525) (n == 526) (leb 500 n) e))

judged-Well :
    (other : Char → String) (p : PublicProbe) (m : Mode) (t : Option Bool)
    → p.trusted ≡ t
    → (assess_by other t m p).0 ≡ fine
    → Well p m
unfolding assess_unconnected assess_untrusted assess_trusted
judged-Well other p m none q e =
    elim (unconnected-fine (no_addresses p) (str_eq p.resolved_by "server") e) [ ]
judged-Well other p m (some false) q e =
    elim (untrusted-fine (origin_certificate other p) m.dns_proxied (points_here m p) e) [ ]
judged-Well other p m (some true) q e =
    let (proxied, direct, v) =
      by_path m.dns_proxied (points_here m p) (has_ip m) (assess_status p.status) e in
    let (n, answer, small) = by_status p.status v in
    record {
      trusted = q;
      proxied = proxied;
      direct = direct;
      status = n;
      answer = answer;
      no_error = small;
    }

fine-Well :
    (other : Char → String) (p : PublicProbe) (m : Mode)
    → Well p m
    → (assess_public other p m).0.level ≡ fine
unfolding assess_public assess_trusted points_here
fine-Well other p m w = rw w.trusted (
    path_fine m.dns_proxied (points_here m p) (has_ip m) (assess_status p.status) w.proxied w.direct
      (rw w.answer (below_fine w.status w.no_error)))

-- `assess_public` finds a host fine exactly where a browser trusts the certificate and gets an answer
-- below 500 by the path of the mode: not from this server where Cloudflare should answer, and from
-- this server, where its address is known, if it should answer itself.
pub assess_public-Well :
    (other : Char → String) (p : PublicProbe) (m : Mode)
    → ((assess_public other p m).0.level ≡ fine → Well p m)
      × (Well p m → (assess_public other p m).0.level ≡ fine)
unfolding assess_public
assess_public-Well other p m = (judged-Well other p m p.trusted refl, fine-Well other p m)
