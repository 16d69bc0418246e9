-- ===== src/Tests/Ports.antt =====
-- A host with a `ufw` that keeps whether it is on and lets SSH in, on which the theorem about the
-- order of its commands runs.
use edgekit.Base.{
  inl, After, ◌∙◌, ◌||◌, refl, ap, ◌≡◌, none, false, true, arith, String, List, Bool,
}
use edgekit.Firewall.Safe.{
  script, restart_docker, daemon_reload, install_package, allow_outgoing, deny_incoming, reload,
  status, inspect_net, inspect, revoke_from, allow_from, allow, force_enable, allow_ssh, IsUfw,
  Harmless,
}
use edgekit.Firewall.Rules.{Files}
use edgekit.Firewall.Order.{enable_host_firewall-Guarded, Guarded, Safe}
use edgekit.Firewall.Enable.{enable_host_firewall}
use edgekit.Firewall.Iptables.{same_texts}
use edgekit.Firewall.Bridges.{Config}
use edgekit.System.Shell.{Host, completed}

data Ufw : Type 0 where
  ufw : Bool → Bool → Ufw

abbrev is_on : Ufw → Bool
is_on (ufw on ssh) = on

abbrev lets_ssh : Ufw → Bool
lets_ssh (ufw on ssh) = ssh

abbrev ufw_start : List String → Ufw → Ufw
ufw_start argv (ufw on ssh) =
    ufw (on || same_texts argv force_enable) (ssh || same_texts argv allow_ssh)

abbrev ufw_host : Host
ufw_host = record {
  State = Ufw;
  start = λ argv input s. (completed 0 "" "", ufw_start argv s);
  has = λ program s. true;
  read = λ path s. none;
  write = λ path text s. s;
  unlink = λ path s. s;
  write_fails = λ _ _ _. false;
  unlink_fails = λ _ _. false;
}

abbrev files : Files
files = record {
  firewall_script = "/usr/local/lib/edgekit/firewall-apply.sh";
  firewall_unit = "/etc/systemd/system/edgekit-firewall.service";
  docker_after_ufw = "/etc/systemd/system/docker.service.d/edgekit-after-ufw.conf";
  ufw_defaults = "/etc/default/ufw";
}

abbrev config : Config
config = record {
  container_name = "npm";
  docker_bridge_subnet = "172.17.0.0/16";
  wg_if = "wg0";
  wg_subnet = "10.50.0.0/24";
  listen_port = 51820;
  http_port = 80;
  https_port = 443;
  admin_port = 81;
  panel_bind = "10.50.0.1";
  panel_port = 8080;
}

or_false : (b : Bool) → b || false ≡ b
or_false b = ground arith

stays_on : (argv : List String) (s : Ufw) → Harmless files argv → is_on (ufw_start argv s) ≡ is_on s
stays_on argv (ufw on ssh) h = ap (λ b. on || b) (not_enable h) ∙ or_false on
  where
    not_enable : {argv : List String} → Harmless files argv → same_texts argv force_enable ≡ false
    not_enable status = refl
    not_enable reload = refl
    not_enable deny_incoming = refl
    not_enable allow_outgoing = refl
    not_enable (allow spec) = refl
    not_enable (allow_from s b p) = refl
    not_enable (revoke_from s b p) = refl
    not_enable install_package = refl
    not_enable daemon_reload = refl
    not_enable restart_docker = refl
    not_enable (inspect args) = refl
    not_enable (inspect_net args) = refl
    not_enable script = refl

stays_open : (argv : List String) (s : Ufw) → lets_ssh s ≡ true → lets_ssh (ufw_start argv s) ≡ true
stays_open argv (ufw on ssh) e = ground arith

opens : (s : Ufw) → lets_ssh (ufw_start allow_ssh s) ≡ true
opens (ufw on ssh) = ground arith

turns_on : (s : Ufw) → is_on (ufw_start force_enable s) ≡ true
turns_on (ufw on ssh) = ground arith

ufw_laws : IsUfw ufw_host files
ufw_laws = record {
  ssh = lets_ssh;
  active = is_on;
  keeps_ssh = λ argv s h e. stays_open argv s e;
  keeps_active = stays_on;
  allows = λ s e. opens s;
  enable_keeps_ssh = λ s e. stays_open force_enable s e;
  enables = λ s e. turns_on s;
  write_keeps_ssh = λ path text s h. refl;
  write_keeps_active = λ path text s h. refl;
}

off-Safe : Safe ufw_laws (ufw false false)
unfolding ufw_laws
off-Safe = inl refl

enable_host_firewall-Guarded_example :
    After
      (λ report. Guarded ufw_laws)
      (λ e. Safe ufw_laws)
      (enable_host_firewall ufw_host files config (ufw false false))
enable_host_firewall-Guarded_example =
    (enable_host_firewall-Guarded ufw_laws config).at (ufw false false) off-Safe
