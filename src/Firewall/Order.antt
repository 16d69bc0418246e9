-- ===== src/Firewall/Order.antt =====
-- The order in which `enable_host_firewall` opens ports and turns the firewall on.
use edgekit.Base.{
  refl, sym, subst, Triple-raise, ◌||◌, none, Triple-pure, ◌>>◌, str_eq, not, any, [], Triple-if,
  Keeps-if, ◌∷◌, ◌>>=◌, Triple-weaken, Triple-for_each, Triple-bind, Keeps-gets, ◌⊎◌, ℕ, Triple,
  Keeps-pure, Keeps-bind, true, inr, for_each, false, String, Keeps, ◌≡◌, ◌∙◌, inl, List, Exec,
  pure,
}
use edgekit.Firewall.Ufw.{
  tcp, spec_text, check_host_firewall, opened, closed, Action, cloud_firewall_ports, PortAdvice,
}
use edgekit.Base.Decimal.{digit, decimal_within, decimal}
use edgekit.Firewall.Safe.{
  allow_outgoing, deny_incoming, run_checked-Keeps, ensure_forward_policy_accept-Keeps,
  install_ufw-Keeps, check_host_firewall-Keeps, restore_container_networking-Keeps,
  ensure_docker_starts_after_ufw-Keeps, reload, revoke_from, ignored-Keeps, status, force_enable,
  allow_ssh, allow_from, allow, required-Keeps, inspect_net, inspect, Stable, IsUfw, run-Keeps,
}
use edgekit.Firewall.Enable.{
  bind_of, is_local_bind, revoke_stale_panel_rules, allow_row, allow_subnets, revoke_sources,
  enable_host_firewall, allow_docker_to_panel, allow_bridges,
}
use edgekit.Firewall.Rules.{restore_container_networking, ensure_docker_starts_after_ufw, Files}
use edgekit.System.Shell.{run, run_input, required, run_checked_input, run_checked, succeeded, Host}
use edgekit.Firewall.Bridges.{Config, inspect_bridge, container_bridges, bridges_of}

module _ {H : Host} {f : Files} {P : H.State → Type 0} (st : Stable H f P) where
  inspect_bridge-Keeps : (network : String) → Keeps P (inspect_bridge H network)
  unfolding inspect_bridge
  inspect_bridge-Keeps network = Keeps-bind _ _ (run-Keeps st _ (inspect_net _)) (λ r. Keeps-pure _)

  bridges_of-Keeps : (names : List String) → Keeps P (bridges_of H names)
  unfolding bridges_of
  bridges_of-Keeps [] = Keeps-pure []
  bridges_of-Keeps (name ∷ names) =
      Keeps-bind _ _ (Keeps-if (str_eq name "") _ _ (Keeps-pure none) (inspect_bridge-Keeps name))
        (λ b. Keeps-bind _ _ (bridges_of-Keeps names) (λ bs. Keeps-pure _))

  container_bridges-Keeps : (container : String) → Keeps P (container_bridges H container)
  unfolding container_bridges
  container_bridges-Keeps container =
      Keeps-bind _ _ (run-Keeps st _ (inspect _))
        (λ r. Keeps-if (succeeded r) _ _ (bridges_of-Keeps _) (Keeps-pure []))

  revoke_sources-Keeps :
      (bind : String) (port : ℕ) (kept sources : List String)
      → Keeps P (revoke_sources H bind port kept sources)
  unfolding revoke_sources
  revoke_sources-Keeps bind port kept [] = Keeps-pure tt
  revoke_sources-Keeps bind port kept (s ∷ ss) =
      Keeps-bind _ _
        (Keeps-if (any (str_eq s) kept) _ _ (Keeps-pure tt)
          (ignored-Keeps st _ (revoke_from s bind port)))
        (λ u. revoke_sources-Keeps bind port kept ss)

  allow_bridges-Keeps : (c : Config) (subnets : List String) → Keeps P (allow_bridges H c subnets)
  unfolding allow_bridges allow_subnets revoke_stale_panel_rules
  allow_bridges-Keeps c subnets =
      Keeps-bind _ _ (Triple-for_each subnets _ (λ s. required-Keeps st _ (allow_from s _ _))) (λ u.
        Keeps-bind _ _
          (Keeps-bind _ _ (run-Keeps st _ status) (λ r. revoke_sources-Keeps _ _ subnets _))
          (λ v. Keeps-pure subnets))

  pub allow_docker_to_panel-Keeps : (c : Config) → Keeps P (allow_docker_to_panel H c)
  unfolding allow_docker_to_panel
  allow_docker_to_panel-Keeps c = Keeps-bind _ _ (Keeps-gets _) (λ there.
      Keeps-if (not there || is_local_bind (bind_of c)) _ _ (Keeps-pure [])
        (Keeps-bind _ _ (container_bridges-Keeps _) (λ bs. allow_bridges-Keeps c _)))

  open_row-Keeps : (row : PortAdvice) (a : Action) → Keeps P (allow_row H row a)
  open_row-Keeps row closed = Keeps-pure tt
  open_row-Keeps row opened = required-Keeps st _ (allow _)

  rows-Keeps :
      (rows : List PortAdvice) → Keeps P (for_each rows (λ row. allow_row H row row.action))
  rows-Keeps rows = Triple-for_each rows _ (λ row. open_row-Keeps row row.action)

abbrev but_first : List PortAdvice → List PortAdvice
but_first [] = []
but_first (row ∷ rows) = rows

module _ {H : Host} {f : Files} (laws : IsUfw H f) where
  abbrev pub Ssh : H.State → Type 0
  Ssh s = laws.ssh s ≡ true

  -- Whoever administers the server over SSH is not locked out.
  abbrev pub Safe : H.State → Type 0
  Safe s = (laws.active s ≡ false) ⊎ Ssh s

  abbrev pub Guarded : H.State → Type 0
  Guarded s = (laws.active s ≡ true) × Ssh s

  Ssh-Stable : Stable H f Ssh
  Ssh-Stable = record {
    commands = λ argv s h p. laws.keeps_ssh argv s h p;
    files = λ path text s h p. laws.write_keeps_ssh path text s h ∙ p;
  }

  Safe-Stable : Stable H f Safe
  Safe-Stable = record {
    commands = λ argv s h p. elim p [
      | inl e ↦ inl (laws.keeps_active argv s h ∙ e)
      | inr e ↦ inr (laws.keeps_ssh argv s h e)
    ];
    files = λ path text s h p. elim p [
      | inl e ↦ inl (laws.write_keeps_active path text s h ∙ e)
      | inr e ↦ inr (laws.write_keeps_ssh path text s h ∙ e)
    ];
  }

  Guarded-Stable : Stable H f Guarded
  Guarded-Stable = record {
    commands = λ argv s h p. (laws.keeps_active argv s h ∙ p.0, laws.keeps_ssh argv s h p.1);
    files = λ path text s h p.
        (laws.write_keeps_active path text s h ∙ p.0, laws.write_keeps_ssh path text s h ∙ p.1);
  }

  -- A step that keeps `P` may raise where `P` holds.
  raising :
      {P : H.State → Type 0} {A : Type 0} (m : Exec H.State A)
      → Keeps P m
      → ((s : H.State) → P s → Safe s)
      → Triple P m (λ a. P) (λ e. Safe)
  raising m k weaker = Triple-weaken m k (λ s h. h) (λ a s h. h) (λ e s h. weaker s h)

  allow_ssh-Ssh : Triple Safe (run_checked H allow_ssh >> pure tt) (λ u. Ssh) (λ e. Safe)
  unfolding run_checked run_checked_input required run_input
  allow_ssh-Ssh =
      Triple-bind (λ u. Ssh) _ _
        (Triple-bind (λ r s. (succeeded r ≡ true → Ssh s) × Safe s) _ _
          (record {
            at = λ s h. (λ e. laws.allows s e, Safe-Stable.commands _ s (allow "22/tcp") h);
          })
          (λ r.
            Triple-if (succeeded r) _ _ (λ e. Triple-pure r (λ s h. h.0 e))
              (λ e. Triple-raise _ (λ s h. h.1))))
        (λ r. Triple-pure tt (λ s h. h))

  force_enable-Guarded : Triple Ssh (run_checked H force_enable) (λ u. Guarded) (λ e. Safe)
  unfolding run_checked run_checked_input required run_input
  force_enable-Guarded =
      Triple-bind (λ r s. (succeeded r ≡ true → laws.active s ≡ true) × Ssh s) _ _
        (record { at = λ s h. (λ e. laws.enables s e, laws.enable_keeps_ssh s h) })
        (λ r.
          Triple-if (succeeded r) _ _ (λ e. Triple-pure r (λ s h. (h.0 e, h.1)))
            (λ e. Triple-raise _ (λ s h. inr h.1)))

  ssh_spec : spec_text 22 tcp ≡ "22/tcp"
  unfolding spec_text decimal decimal_within digit
  ssh_spec = refl

  ports-Ssh :
      (c : Config)
      → Triple Safe
          (for_each (cloud_firewall_ports c) (λ row. allow_row H row row.action))
          (λ u. Ssh)
          (λ e. Safe)
  unfolding cloud_firewall_ports for_each
  ports-Ssh c =
      Triple-bind (λ u. Ssh) _ _
        (subst
          (λ spec.
            Triple Safe (run_checked H ("ufw" ∷ "allow" ∷ spec ∷ []) >> pure tt) (λ u. Ssh)
              (λ e. Safe))
          (sym ssh_spec) allow_ssh-Ssh)
        (λ u. raising _ (rows-Keeps Ssh-Stable (but_first (cloud_firewall_ports c))) (λ s h. inr h))

  -- By the laws of `ufw`: started where the firewall is off or lets SSH in, `enable_host_firewall` ends so as well,
  -- wherever it raises; if it returns, the firewall is on and lets SSH in.
  pub enable_host_firewall-Guarded :
      (c : Config) → Triple Safe (enable_host_firewall H f c) (λ report. Guarded) (λ e. Safe)
  unfolding enable_host_firewall
  enable_host_firewall-Guarded c = Keeps_first (Keeps-gets _) (λ there.
      Keeps_first (install_ufw-Keeps Safe-Stable there) (λ u.
        Keeps_first (ensure_forward_policy_accept-Keeps Safe-Stable) (λ u.
          Keeps_first (run_checked-Keeps Safe-Stable _ deny_incoming) (λ u.
            Keeps_first (run_checked-Keeps Safe-Stable _ allow_outgoing) (λ u.
              Triple-bind (λ u. Ssh) _ _ (ports-Ssh c)
                (λ u.
                  Triple-bind (λ u. Ssh) _ _
                    (raising _ (allow_docker_to_panel-Keeps Ssh-Stable c) (λ s h. inr h))
                    (λ u.
                      Triple-bind (λ u. Guarded) _ _ force_enable-Guarded
                        (λ u. raising _ finishing (λ s h. inr h.1)))))))))
    where
      Keeps_first :
          {A B : Type 0} {m : Exec H.State A} {k : A → Exec H.State B} {Q : B → H.State → Type 0}
          → Keeps Safe m
          → ((a : A) → Triple Safe (k a) Q (λ e. Safe))
          → Triple Safe (m >>= k) Q (λ e. Safe)
      Keeps_first h k = Triple-bind (λ u. Safe) _ _ h k

      finishing : Keeps Guarded (
          run H ("ufw" ∷ "reload" ∷ []) >>= λ r. ensure_docker_starts_after_ufw H f >>= λ b.
          restore_container_networking H f >>= λ u. check_host_firewall H c)
      finishing = Keeps-bind _ _ (run-Keeps Guarded-Stable _ reload) (λ r.
          Keeps-bind _ _ (ensure_docker_starts_after_ufw-Keeps Guarded-Stable) (λ b.
            Keeps-bind _ _ (restore_container_networking-Keeps Guarded-Stable)
              (λ u. check_host_firewall-Keeps Guarded-Stable c)))
