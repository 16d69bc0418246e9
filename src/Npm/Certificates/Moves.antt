-- ===== src/Npm/Certificates/Moves.antt =====
-- What moving hosts and sweeping superseded certificates keep.
use edgekit.Npm.Certificates.Fresh.{delete_other-Keeps}
use edgekit.Base.{
  Triple-pure, [], Keeps-raise, Keeps-if, ◌∷◌, false, ap, Keeps-lift, Triple-bind, Triple-if,
  Keeps-pure, ◌∙◌, inr, Triple-weaken, inl, Triple-attempt, Keeps-bind, ◌≢◌, Keeps, Triple, List,
  Option, ℕ, true, ◌≡◌, arith, ok,
}
use edgekit.Npm.Certificates.Reads.{
  using-nil, hosts_using-Lists, request-Keeps, On, Holding-Stable, Holding,
}
use edgekit.Npm.Certificates.{
  own_id, using, report_failures, sweep_old, repoint_old, repoint_hosts, move_request, move_hosts,
  move_host, is_number, hosts_using, delete_unless_used,
}
use edgekit.Npm.Client.{Link, is_npm, catch_npm}
use edgekit.Npm.Api.{Server}
use edgekit.Npm.Laws.{Same, View, IsNpm}
use edgekit.Base.Json.{Json, num}
use edgekit.Base.Json

module _ {S : Server} {V : View S} (laws : IsNpm V) where
  -- A move of some host onto `c` keeps `c` and keeps the hosts on certificates that are there.
  move-Holding :
      (c : ℕ) (id : Json) (token : Option Json) (t : S.State)
      → Holding V c t
      → Holding V c (S.send token (move_request S id (num c)) t).1
  move-Holding c id token t h = record {
    intact = record {
      served = λ n e. elim (laws.move_hosts id c token t n e) [
        | inl used ↦ rw (laws.move_certs id c token t n) (h.intact.served n used)
        | inr p ↦ inr (laws.move_certs id c token t n ∙ ap (V.has_cert t) p ∙ h.held)
      ];
    };
    held = laws.move_certs id c token t c ∙ h.held;
  }

  move_host-Keeps : (c : ℕ) (host : Json) → Keeps (On laws (Holding V c)) (move_host S (num c) host)
  unfolding move_host catch_npm
  move_host-Keeps c host =
      Triple-attempt (λ _. On laws (Holding V c)) _ _
        (Keeps-bind _ _ (Keeps-lift (Json.item "id" host)) (λ id.
          Keeps-bind _ _
            (request-Keeps laws (Holding V c) (Holding-Stable c) (move_request S id (num c))
              (move-Holding c id))
            (λ _. Keeps-pure false)))
        (λ e. Keeps-if (is_npm e) _ _ (Keeps-pure true) (Keeps-raise e))

  move_hosts-Keeps :
      (c : ℕ) (hosts : List Json) → Keeps (On laws (Holding V c)) (move_hosts S (num c) hosts)
  unfolding move_hosts
  move_hosts-Keeps c [] = Keeps-pure []
  move_hosts-Keeps c (host ∷ hosts) =
      Keeps-bind _ _ (move_host-Keeps c host)
        (λ failed. Keeps-bind _ _ (move_hosts-Keeps c hosts) (λ failures. Keeps-pure _))

  report_failures-Keeps :
      (P : Link S → Type 0) (failures : List Json) → Keeps P (report_failures S failures)
  report_failures-Keeps P [] = Keeps-pure tt
  report_failures-Keeps P (f ∷ fs) = Keeps-raise _

  hosts_using-Keeps :
      (P : S.State → Type 0)
      → ((t u : S.State) → Same V t u → P t → P u)
      → (m : ℕ) → Keeps (On laws P) (hosts_using S m)
  hosts_using-Keeps P stable m =
      Triple-weaken _ (hosts_using-Lists laws P stable m) (λ s p. p) (λ a s p. p.0) (λ e s p. p)

  pub repoint_hosts-Keeps :
      (c old : ℕ) → Keeps (On laws (Holding V c)) (repoint_hosts S old (num c))
  unfolding repoint_hosts
  repoint_hosts-Keeps c old =
      Keeps-bind _ _ (hosts_using-Keeps (Holding V c) (Holding-Stable c) old) (λ hosts.
        Keeps-bind _ _ (move_hosts-Keeps c hosts)
          (λ failures. report_failures-Keeps (On laws (Holding V c)) failures))

  pub repoint_old-Keeps :
      (c : ℕ) (old : Json) → Keeps (On laws (Holding V c)) (repoint_old S (num c) old)
  unfolding repoint_old
  repoint_old-Keeps c old =
      Keeps-bind _ _ (Keeps-lift (own_id old))
        (λ m. Keeps-if (is_number m (num c)) _ _ (Keeps-pure tt) (repoint_hosts-Keeps c m))

  -- The record goes only if the scan has found no host on it.
  delete_unless_used-Triple :
      (c m : ℕ) (hosts : List Json)
      → c ≢ m
      → Triple
          (λ s. Holding V c s.server × (using m (V.hosts s.server) ≡ ok hosts))
          (delete_unless_used S m hosts)
          (λ _. On laws (Holding V c))
          (λ e. On laws (Holding V c))
  unfolding delete_unless_used
  delete_unless_used-Triple c m [] other =
      Triple-weaken _ (delete_other-Keeps laws c m other)
        (λ s p. (
          p.0,
          record {
            intact = p.0.intact;
            free = λ used. cc (used, using-nil m (V.hosts s.server) p.1);
          },
        ))
        (λ a s p. p.0) (λ e s p. p.0)
  delete_unless_used-Triple c m (host ∷ hosts) other = Triple-pure tt (λ s p. p.0)

  other_of_not-is_number : (m c : ℕ) → is_number m (num c) ≡ false → c ≢ m
  unfolding is_number
  other_of_not-is_number m c h p = ground arith

  pub sweep_old-Keeps :
      (c : ℕ) (old : Json) → Keeps (On laws (Holding V c)) (sweep_old S (num c) old)
  unfolding sweep_old
  sweep_old-Keeps c old = Keeps-bind _ _ (Keeps-lift (own_id old)) (λ m.
      Triple-if (is_number m (num c)) _ _ (λ _. Keeps-pure tt)
        (λ ne.
          Triple-bind _ _ _ (hosts_using-Lists laws (Holding V c) (Holding-Stable c) m)
            (λ hosts. delete_unless_used-Triple c m hosts (other_of_not-is_number m c ne))))
