-- ===== src/Firewall/Safe.antt =====
-- What the code relies on of `ufw`, and what every step of system/firewall.py keeps.
use edgekit.System.Apply.{os_error_if, write_file}
use edgekit.Base.{
  After, str_eq, some, ℕ, false, Keeps-raise, Keeps-if, Keeps-gets, ◌>>◌, true, [], Keeps-pure,
  Keeps-bind, ◌≡◌, ◌∷◌, none, Keeps, String, Option, List, Bool, pure,
}
use edgekit.Firewall.Enable.{
  accept_forward, panel_rule, accept_text, required_ufw, install_ufw, ensure_forward_policy_accept,
}
use edgekit.Firewall.Rules.{
  docker_after_ufw_unit, same_text, exists, write_changed, restore_container_networking,
  ensure_docker_starts_after_ufw, Files,
}
use edgekit.System.Shell.{
  required, run_input, run_checked_input, run_checked, run, result_of, succeeded, Host,
}
use edgekit.Firewall.Bridges.{Config}
use edgekit.Firewall.Ufw.{check_host_firewall}

-- The commands of the module, but for the one that turns the firewall on.
pub data Harmless (f : Files) : List String → Type 0 where
  status : Harmless f ("ufw" ∷ "status" ∷ [])
  reload : Harmless f ("ufw" ∷ "reload" ∷ [])
  deny_incoming : Harmless f ("ufw" ∷ "default" ∷ "deny" ∷ "incoming" ∷ [])
  allow_outgoing : Harmless f ("ufw" ∷ "default" ∷ "allow" ∷ "outgoing" ∷ [])
  allow : (spec : String) → Harmless f ("ufw" ∷ "allow" ∷ spec ∷ [])
  allow_from : (subnet bind : String) (port : ℕ) → Harmless f ("ufw" ∷ panel_rule subnet bind port)
  revoke_from :
      (subnet bind : String) (port : ℕ)
      → Harmless f ("ufw" ∷ "delete" ∷ panel_rule subnet bind port)
  install_package :
      Harmless f ("apt-get" ∷ "install" ∷ "-y" ∷ "--no-install-recommends" ∷ "ufw" ∷ [])
  daemon_reload : Harmless f ("systemctl" ∷ "daemon-reload" ∷ [])
  restart_docker : Harmless f ("systemctl" ∷ "try-restart" ∷ "docker" ∷ [])
  inspect : (args : List String) → Harmless f ("docker" ∷ "inspect" ∷ args)
  inspect_net : (args : List String) → Harmless f ("docker" ∷ "network" ∷ "inspect" ∷ args)
  script : Harmless f (f.firewall_script ∷ [])

pub data OwnFile (f : Files) : String → Type 0 where
  defaults : OwnFile f f.ufw_defaults
  drop_in : OwnFile f f.docker_after_ufw

abbrev pub allow_ssh : List String
allow_ssh = "ufw" ∷ "allow" ∷ "22/tcp" ∷ []

abbrev pub force_enable : List String
force_enable = "ufw" ∷ "--force" ∷ "enable" ∷ []

module _ (H : Host) where
  abbrev pub after : List String → H.State → H.State
  after argv s = (H.start argv none s).1

  abbrev pub well : List String → H.State → Bool
  well argv s = succeeded (result_of argv (H.start argv none s).0)

  -- Only `ufw --force enable` turns the firewall on, none of the commands takes the rule for SSH
  -- away, and `ufw allow 22/tcp` adds it.
  pub record IsUfw (f : Files) : Type 0 where
    pub ssh : H.State → Bool
    pub active : H.State → Bool
    pub keeps_ssh :
        (argv : List String) (s : H.State)
        → Harmless f argv
        → ssh s ≡ true
        → ssh (after argv s) ≡ true
    pub keeps_active :
        (argv : List String) (s : H.State) → Harmless f argv → active (after argv s) ≡ active s
    pub allows : (s : H.State) → well allow_ssh s ≡ true → ssh (after allow_ssh s) ≡ true
    pub enable_keeps_ssh : (s : H.State) → ssh s ≡ true → ssh (after force_enable s) ≡ true
    pub enables : (s : H.State) → well force_enable s ≡ true → active (after force_enable s) ≡ true
    pub write_keeps_ssh :
        (path text : String) (s : H.State) → OwnFile f path → ssh (H.write path text s) ≡ ssh s
    pub write_keeps_active :
        (path text : String) (s : H.State)
        → OwnFile f path
        → active (H.write path text s) ≡ active s

module _ (H : Host) (f : Files) (P : H.State → Type 0) where
  -- No command and no file of the module breaks it.
  pub record Stable : Type 0 where
    pub commands : (argv : List String) (s : H.State) → Harmless f argv → P s → P (after H argv s)
    pub files : (path text : String) (s : H.State) → OwnFile f path → P s → P (H.write path text s)

module _ {H : Host} {f : Files} {P : H.State → Type 0} (st : Stable H f P) where
  pub run-Keeps : (argv : List String) → Harmless f argv → Keeps P (run H argv)
  unfolding run run_input
  run-Keeps argv h = record { at = λ s p. st.commands argv s h p }

  pub run_checked-Keeps : (argv : List String) → Harmless f argv → Keeps P (run_checked H argv)
  unfolding run run_checked run_checked_input required
  run_checked-Keeps argv h =
      Keeps-bind _ _ (run-Keeps argv h)
        (λ r. Keeps-if (succeeded r) _ _ (Keeps-pure r) (Keeps-raise _))

  pub write_file-Keeps : (path text : String) → OwnFile f path → Keeps P (write_file H path text)
  unfolding write_file
  write_file-Keeps path text h = record {
    at = λ s p. written (H.write_fails path text s) _ (st.files path text s h p);
  }
    where
      written :
          (fails : Bool) (s : H.State) → P s → After (λ _. P) (λ _. P) (os_error_if H fails, s)
      written true s p = p
      written false s p = p

  pub ignored-Keeps : (argv : List String) → Harmless f argv → Keeps P (run H argv >> pure tt)
  ignored-Keeps argv h = Keeps-bind _ _ (run-Keeps argv h) (λ r. Keeps-pure tt)

  pub required-Keeps :
      (argv : List String) → Harmless f argv → Keeps P (run_checked H argv >> pure tt)
  required-Keeps argv h = Keeps-bind _ _ (run_checked-Keeps argv h) (λ r. Keeps-pure tt)

  pub restore_container_networking-Keeps : Keeps P (restore_container_networking H f)
  unfolding restore_container_networking
  restore_container_networking-Keeps = Keeps-bind _ _ (run-Keeps _ daemon_reload) (λ r.
      Keeps-bind _ _ (Keeps-gets _) (λ docker.
        Keeps-bind _ _ (Keeps-if docker _ _ (ignored-Keeps _ restart_docker) (Keeps-pure tt)) (λ u.
          Keeps-bind _ _ (Keeps-gets _)
            (λ text. Keeps-if (exists text) _ _ (ignored-Keeps _ script) (Keeps-pure tt)))))

  pub ensure_docker_starts_after_ufw-Keeps : Keeps P (ensure_docker_starts_after_ufw H f)
  unfolding ensure_docker_starts_after_ufw write_changed
  ensure_docker_starts_after_ufw-Keeps = Keeps-bind _ _ (Keeps-gets _) (λ old.
      Keeps-if (same_text old docker_after_ufw_unit) _ _ (Keeps-pure false)
        (Keeps-bind _ _ (write_file-Keeps _ _ drop_in) (λ u. Keeps-pure true)))

  accept_text-Keeps : (o : Option String) → Keeps P (accept_text H f.ufw_defaults o)
  accept_text-Keeps none = Keeps-pure false
  accept_text-Keeps (some text) =
      Keeps-if (str_eq (accept_forward text) text) _ _ (Keeps-pure false)
        (Keeps-bind _ _ (write_file-Keeps _ _ defaults) (λ u. Keeps-pure true))

  pub ensure_forward_policy_accept-Keeps : Keeps P (ensure_forward_policy_accept H f)
  unfolding ensure_forward_policy_accept
  ensure_forward_policy_accept-Keeps = Keeps-bind _ _ (Keeps-gets _) accept_text-Keeps

  required_ufw-Keeps : (there : Bool) → Keeps P (required_ufw H there)
  unfolding required_ufw
  required_ufw-Keeps true = Keeps-pure tt
  required_ufw-Keeps false = Keeps-raise _

  pub install_ufw-Keeps : (there : Bool) → Keeps P (install_ufw H there)
  unfolding install_ufw
  install_ufw-Keeps true = Keeps-pure tt
  install_ufw-Keeps false =
      Keeps-bind _ _ (run_checked-Keeps _ install_package)
        (λ r. Keeps-bind _ _ (Keeps-gets _) required_ufw-Keeps)

  pub check_host_firewall-Keeps : (c : Config) → Keeps P (check_host_firewall H c)
  unfolding check_host_firewall
  check_host_firewall-Keeps c = Keeps-bind _ _ (Keeps-gets _) (λ there.
      Keeps-if there _ _ (Keeps-bind _ _ (run-Keeps _ status) (λ r. Keeps-pure _)) (Keeps-pure _))
