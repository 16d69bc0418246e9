-- ===== src/Firewall/Remove.antt =====
-- Taking the rules away again: `remove_edgekit_rules` of system/firewall.py. A directory that is left empty is not modelled.
use edgekit.System.Apply.{unlink}
use edgekit.Firewall.Rules.{
  restore_container_networking, exists, check_rule, rules, iptables, Rule, Files,
}
use edgekit.Firewall.Ufw.{tcp, udp, spec_text, panel_rule_sources}
use edgekit.Firewall.Enable.{ufw_active, bind_of, revoke_sources}
use edgekit.Base.{
  true, ◌++◌, if◌then◌else◌, false, ◌>>◌, ◌+◌, zero, gets, ◌∷◌, ◌>>=◌, ◌<>◌, for_each, suc, [],
  Exec, Bool, ℕ, String, List, pure,
}
use edgekit.System.Shell.{systemctl, succeeded, run, has, Host}
use edgekit.Firewall.Bridges.{detect_proxy_bridge, DockerBridge, Config}
use edgekit.Base.Decimal.{decimal}

-- Why the loop over one rule ended: no such rule is left, `iptables` did not delete it, or the
-- fuel ran out.
pub data LoopEnd : Type 0 where
  cleared refused exhausted : LoopEnd

abbrev pub counted : LoopEnd × ℕ → LoopEnd × ℕ
counted (end, n) = (end, suc n)

-- The names of the files that were removed, and the number of rules.
abbrev pub rules_text : ℕ → List String
rules_text zero = []
rules_text (suc n) = (decimal (suc n) <> " iptables rule(s)") ∷ []

module _ (H : Host) where
  unfoldable pub delete_rule : Rule → Exec H.State Bool
  delete_rule r = run H (iptables "-D" r) >>= λ result. pure (succeeded result)

  -- The `while` loop over one rule: why it ended, and how many it deleted.
  unfoldable pub delete_all : ℕ → Rule → Exec H.State (LoopEnd × ℕ)
  delete_all zero r = pure (exhausted, 0)
  delete_all (suc fuel) r = do
    present ← check_rule H r
    if present
        then (do
          deleted ← delete_rule r
          if deleted then (delete_all fuel r >>= λ e. pure (counted e)) else pure (refused, 0))
        else pure (cleared, 0)

  unfoldable pub delete_rules : ℕ → List Rule → Exec H.State ℕ
  delete_rules fuel [] = pure 0
  delete_rules fuel (r ∷ rs) = do
    e ← delete_all fuel r
    rest ← delete_rules fuel rs
    pure (e.1 + rest)

  unfoldable pub delete_of_bridge : ℕ → Config → DockerBridge → Exec H.State ℕ
  delete_of_bridge fuel c b = delete_rules fuel (
      rules (record {
        docker_subnet = b.subnet;
        wg_subnet = c.wg_subnet;
        wg_if = c.wg_if;
        docker_if = b.interface;
      }))

  unfoldable pub remove_iptables : ℕ → Config → Bool → Exec H.State (List String)
  remove_iptables fuel c false = pure []
  remove_iptables fuel c true = do
    bridge ← detect_proxy_bridge H c
    deleted ← delete_of_bridge fuel c bridge
    pure (rules_text deleted)

  abbrev pub unlink_if : String → Bool → Exec H.State (List String)
  unlink_if path false = pure []
  unlink_if path true = unlink H path >> pure (path ∷ [])

  unfoldable pub unlink_each : List String → Exec H.State (List String)
  unlink_each [] = pure []
  unlink_each (path ∷ paths) = do
    text ← gets (H.read path)
    removed ← unlink_if path (exists text)
    rest ← unlink_each paths
    pure (removed ++ rest)

  unfoldable pub remove_files : Files → Exec H.State (List String)
  remove_files f = do
    unit ← gets (H.read f.firewall_unit)
    (if exists unit
        then (systemctl H ("disable" ∷ "--now" ∷ "edgekit-firewall.service" ∷ []) >> pure tt)
        else pure tt)
    unlink_each (f.firewall_unit ∷ f.firewall_script ∷ f.docker_after_ufw ∷ [])

  unfoldable pub delete_specs : List String → Exec H.State (Unit {0})
  delete_specs specs =
      for_each specs (λ spec. run H ("ufw" ∷ "delete" ∷ "allow" ∷ spec ∷ []) >> pure tt)

  unfoldable pub remove_ufw : Files → Config → Bool → Exec H.State (List String)
  remove_ufw f c false = pure []
  remove_ufw f c true = do
    status ← run H ("ufw" ∷ "status" ∷ [])
    revoke_sources H (bind_of c) c.panel_port []
        (panel_rule_sources status.stdout (bind_of c) c.panel_port)
    delete_specs
        (spec_text c.listen_port udp ∷ spec_text c.http_port tcp ∷ spec_text c.https_port tcp ∷ [])
    run H ("ufw" ∷ "reload" ∷ [])
    restore_container_networking H f
    pure ("ufw rules for WireGuard, HTTP, HTTPS and the panel" ∷ [])

  abbrev pub reload_if_removed : List String → Exec H.State (Unit {0})
  reload_if_removed [] = pure tt
  reload_if_removed (s ∷ ss) = systemctl H ("daemon-reload" ∷ []) >> pure tt

  -- The fuel bounds the loop over each rule.
  unfoldable pub remove_edgekit_rules : ℕ → Files → Config → Exec H.State (List String)
  remove_edgekit_rules fuel f c = do
    iptables_there ← has H "iptables"
    rules_gone ← remove_iptables fuel c iptables_there
    files_gone ← remove_files f
    reload_if_removed (rules_gone ++ files_gone)
    active ← ufw_active H
    ufw_gone ← remove_ufw f c active
    pure (rules_gone ++ (files_gone ++ ufw_gone))
