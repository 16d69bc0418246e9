-- ===== src/Firewall/Enable.antt =====
-- Opening ports and turning the firewall on: `open_host_ports`, `allow_docker_to_panel`,
-- `_revoke_stale_panel_rules`, `ensure_forward_policy_accept` and `enable_host_firewall` of
-- system/firewall.py.
use edgekit.Base.{
  zero, ◌-◌, ◌<>◌, none, starts_with, some, not, any, ◌||◌, true, suc, runtime_error, map,
  if◌then◌else◌, for_each, false, ◌∷◌, ◌>>◌, ◌>>=◌, ℕ, strip, str_eq, raise, includes, gets, [],
  Option, String, List, Exec, Bool, pure,
}
use edgekit.Firewall.Ufw.{
  check_host_firewall, tcp, opened, udp, cloud_firewall_ports, closed, spec_text,
  panel_rule_sources, HostFirewallReport, Action, PortAdvice,
}
use edgekit.Firewall.Rules.{ensure_docker_starts_after_ufw, restore_container_networking, Files}
use edgekit.Firewall.Bridges.{container_bridges, DockerBridge, Config}
use edgekit.System.Shell.{succeeded, run, run_checked, has, Host}
use edgekit.System.Apply.{write_file}
use edgekit.Base.Decimal.{decimal}

abbrev pub is_active : String → Bool
is_active status = includes "Status: active" status

-- `config.panel.bind` without spaces, and whether it is an address that a container could reach.
abbrev pub bind_of : Config → String
bind_of c = strip c.panel_bind

abbrev pub is_local_bind : String → Bool
is_local_bind bind =
    str_eq bind "" || str_eq bind "127.0.0.1" || str_eq bind "localhost" || str_eq bind "::1"

abbrev pub panel_rule : String → String → ℕ → List String
panel_rule subnet bind port =
    "allow" ∷ "from" ∷ subnet ∷ "to" ∷ bind ∷ "port" ∷ decimal port ∷ "proto" ∷ "tcp" ∷ []

abbrev pub or_docker_subnet : Config → List DockerBridge → List String
or_docker_subnet c (b ∷ bs) = map (λ b. b.subnet) (b ∷ bs)
or_docker_subnet c [] =
    (if str_eq c.docker_bridge_subnet "" then "172.17.0.0/16" else c.docker_bridge_subnet) ∷ []

abbrev count_chars : String → ℕ
count_chars String.[] = 0
count_chars (String.◌∷◌ c s) = suc (count_chars s)

-- `text.replace(old, new)`, where old has a character: `skip` characters of a match are left.
unfoldable pub replace_from : String → String → ℕ → String → String
replace_from old new skip String.[] = ""
replace_from old new (suc skip) (String.◌∷◌ c s) = replace_from old new skip s
replace_from old new zero (String.◌∷◌ c s) =
    if starts_with (String.◌∷◌ c s) old
    then new <> replace_from old new (count_chars old - 1) s
    else String.◌∷◌ c (replace_from old new 0 s)

unfoldable pub replace : String → String → String → String
replace old new s = replace_from old new 0 s

unfoldable pub accept_forward : String → String
accept_forward text =
    replace "DEFAULT_FORWARD_POLICY='DROP'" "DEFAULT_FORWARD_POLICY='ACCEPT'"
      (replace "DEFAULT_FORWARD_POLICY=\"DROP\"" "DEFAULT_FORWARD_POLICY=\"ACCEPT\"" text)

module _ (H : Host) where
  -- Allows each port, and gives those that `ufw` took.
  unfoldable pub open_specs : List String → Exec H.State (List String)
  open_specs [] = pure []
  open_specs (spec ∷ specs) = do
    r ← run H ("ufw" ∷ "allow" ∷ spec ∷ [])
    taken ← open_specs specs
    pure (if succeeded r then spec ∷ taken else taken)

  unfoldable pub open_active : Files → List String → Bool → Exec H.State (List String)
  open_active f specs false = pure []
  open_active f specs true = do
    taken ← open_specs specs
    run H ("ufw" ∷ "reload" ∷ [])
    restore_container_networking H f
    pure taken

  -- `has("ufw") and "Status: active" in run(["ufw", "status"]).stdout`
  unfoldable pub ufw_active : Exec H.State Bool
  ufw_active = has H "ufw" >>= λ installed.
      if installed
      then (run H ("ufw" ∷ "status" ∷ []) >>= λ r. pure (is_active r.stdout))
      else pure false

  unfoldable pub open_host_ports : Files → ℕ → ℕ → ℕ → Exec H.State (List String)
  open_host_ports f wg_port http_port https_port =
      ufw_active
      >>= open_active f
          (spec_text wg_port udp ∷ spec_text http_port tcp ∷ spec_text https_port tcp ∷ [])

  -- Revokes the openings for the subnets that are not kept.
  unfoldable pub revoke_sources : String → ℕ → List String → List String → Exec H.State (Unit {0})
  revoke_sources bind port kept [] = pure tt
  revoke_sources bind port kept (subnet ∷ subnets) = do
    (if any (str_eq subnet) kept
        then pure tt
        else (run H ("ufw" ∷ "delete" ∷ panel_rule subnet bind port) >> pure tt))
    revoke_sources bind port kept subnets

  -- `_revoke_stale_panel_rules`
  unfoldable pub revoke_stale_panel_rules : Config → List String → Exec H.State (Unit {0})
  revoke_stale_panel_rules c kept = run H ("ufw" ∷ "status" ∷ []) >>= λ r.
      revoke_sources (bind_of c) c.panel_port kept
        (panel_rule_sources r.stdout (bind_of c) c.panel_port)

  unfoldable pub allow_subnets : String → ℕ → List String → Exec H.State (Unit {0})
  allow_subnets bind port subnets =
      for_each subnets (λ subnet. run_checked H ("ufw" ∷ panel_rule subnet bind port) >> pure tt)

  unfoldable pub allow_bridges : Config → List String → Exec H.State (List String)
  allow_bridges c subnets = do
    allow_subnets (bind_of c) c.panel_port subnets
    revoke_stale_panel_rules c subnets
    pure subnets

  unfoldable pub allow_docker_to_panel : Config → Exec H.State (List String)
  allow_docker_to_panel c = has H "ufw" >>= λ installed.
      if not installed || is_local_bind (bind_of c)
      then pure []
      else (container_bridges H c.container_name >>= λ bridges.
          allow_bridges c (or_docker_subnet c bridges))

  -- True if it changed the file.
  abbrev pub accept_text : String → Option String → Exec H.State Bool
  accept_text path none = pure false
  accept_text path (some text) =
      if str_eq (accept_forward text) text
      then pure false
      else (write_file H path (accept_forward text) >> pure true)

  unfoldable pub ensure_forward_policy_accept : Files → Exec H.State Bool
  ensure_forward_policy_accept f = gets (H.read f.ufw_defaults) >>= accept_text f.ufw_defaults

  unfoldable pub required_ufw : Bool → Exec H.State (Unit {0})
  required_ufw true = pure tt
  required_ufw false = raise runtime_error

  unfoldable pub install_ufw : Bool → Exec H.State (Unit {0})
  install_ufw true = pure tt
  install_ufw false = do
    run_checked H ("apt-get" ∷ "install" ∷ "-y" ∷ "--no-install-recommends" ∷ "ufw" ∷ [])
    has H "ufw" >>= required_ufw

  abbrev pub allow_row : PortAdvice → Action → Exec H.State (Unit {0})
  allow_row row closed = pure tt
  allow_row row opened =
      run_checked H ("ufw" ∷ "allow" ∷ spec_text row.port row.protocol ∷ []) >> pure tt

  unfoldable pub enable_host_firewall : Files → Config → Exec H.State HostFirewallReport
  enable_host_firewall f c = do
    installed ← has H "ufw"
    install_ufw installed
    ensure_forward_policy_accept f
    run_checked H ("ufw" ∷ "default" ∷ "deny" ∷ "incoming" ∷ [])
    run_checked H ("ufw" ∷ "default" ∷ "allow" ∷ "outgoing" ∷ [])
    for_each (cloud_firewall_ports c) (λ row. allow_row row row.action)
    allow_docker_to_panel c
    run_checked H ("ufw" ∷ "--force" ∷ "enable" ∷ [])
    run H ("ufw" ∷ "reload" ∷ [])
    ensure_docker_starts_after_ufw H f
    restore_container_networking H f
    check_host_firewall H c
