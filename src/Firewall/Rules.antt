-- ===== src/Firewall/Rules.antt =====
-- The three rules, and the script that adds them: SCRIPT_TEMPLATE, `write_rules` to `rules_present`
-- of system/firewall.py. Directories and permissions of files are not modelled.
use edgekit.System.Shell.{systemctl, run_checked, has, Host}
use edgekit.Base.{
  ◌||◌, str_eq, none, true, some, if◌then◌else◌, ◌>>◌, ◌>>=◌, pure, gets, for_each, false, [], ◌∷◌,
  Exec, Bool, String, Option, List,
}
use edgekit.System.Apply.{write_file}
use edgekit.System.Shell.{run, succeeded}

-- A rule as `iptables` takes it.
pub record Rule : Type 0 where
  pub table : String
  pub chain : String
  pub match : List String

-- The parameters of the template.
pub record Names : Type 0 where
  pub docker_subnet : String
  pub wg_subnet : String
  pub wg_if : String
  pub docker_if : String

-- `_rules`
unfoldable pub rules : Names → List Rule
rules n =
    record {
      table = "filter";
      chain = "FORWARD";
      match = "-i" ∷ n.docker_if ∷ "-o" ∷ n.wg_if ∷ "-d" ∷ n.wg_subnet ∷ "-j" ∷ "ACCEPT" ∷ [];
    }
    ∷ record {
      table = "filter";
      chain = "FORWARD";
      match =
          "-i" ∷ n.wg_if ∷ "-o" ∷ n.docker_if ∷ "-s" ∷ n.wg_subnet ∷ "-m" ∷ "conntrack"
          ∷ "--ctstate" ∷ "ESTABLISHED,RELATED" ∷ "-j" ∷ "ACCEPT" ∷ [];
    }
    ∷ record {
      table = "nat";
      chain = "POSTROUTING";
      match =
          "-s" ∷ n.docker_subnet ∷ "-d" ∷ n.wg_subnet ∷ "-o" ∷ n.wg_if ∷ "-j" ∷ "MASQUERADE" ∷ [];
    }
    ∷ []

-- The calls of `add` in the script, with its variables replaced.
unfoldable pub script_rules : Names → List Rule
script_rules n =
    added "filter" "FORWARD"
      ("-i" ∷ n.docker_if ∷ "-o" ∷ n.wg_if ∷ "-d" ∷ n.wg_subnet ∷ "-j" ∷ "ACCEPT" ∷ [])
    ∷ added "filter" "FORWARD" (
        "-i" ∷ n.wg_if ∷ "-o" ∷ n.docker_if ∷ "-s" ∷ n.wg_subnet ∷ "-m" ∷ "conntrack" ∷ "--ctstate"
        ∷ "ESTABLISHED,RELATED" ∷ "-j" ∷ "ACCEPT" ∷ [])
    ∷ added "nat" "POSTROUTING"
        ("-s" ∷ n.docker_subnet ∷ "-d" ∷ n.wg_subnet ∷ "-o" ∷ n.wg_if ∷ "-j" ∷ "MASQUERADE" ∷ [])
    ∷ []
  where
    added : String → String → List String → Rule
    added table chain match = record { table = table; chain = chain; match = match }

abbrev pub iptables : String → Rule → List String
iptables action r = "iptables" ∷ "-t" ∷ r.table ∷ action ∷ r.chain ∷ r.match

-- Where edgekit keeps its files.
pub record Files : Type 0 where
  pub firewall_script : String
  pub firewall_unit : String
  pub docker_after_ufw : String
  pub ufw_defaults : String

abbrev pub docker_after_ufw_unit : String
docker_after_ufw_unit = "[Unit]\nAfter=ufw.service\n"

abbrev pub same_text : Option String → String → Bool
same_text none new = false
same_text (some old) new = str_eq old new

abbrev pub exists {ℓ} : {A : Type ℓ} → Option A → Bool
exists none = false
exists (some a) = true

module _ (H : Host) where
  unfoldable pub check_rule : Rule → Exec H.State Bool
  check_rule r = run H (iptables "-C" r) >>= λ result. pure (succeeded result)

  -- `add` of the script: appends only when no identical rule exists; `set -e` ends it on a failure.
  unfoldable pub add_rule : Rule → Exec H.State (Unit {0})
  add_rule r = do
    present ← check_rule r
    if present then pure tt else (run_checked H (iptables "-A" r) >> pure tt)

  unfoldable pub run_script : Names → Exec H.State (Unit {0})
  run_script n = for_each (script_rules n) add_rule

  -- `all(…)`, up to the first rule that is missing
  unfoldable pub all_present : List Rule → Exec H.State Bool
  all_present [] = pure true
  all_present (r ∷ rs) = do present ← check_rule r; if present then all_present rs else pure false

  unfoldable pub rules_present : Names → Exec H.State Bool
  rules_present n = all_present (rules n)

  -- Writes the file unless it has the text already; true if it did.
  unfoldable pub write_changed : String → String → Exec H.State Bool
  write_changed path content = gets (H.read path) >>= λ old.
      if same_text old content then pure false else (write_file H path content >> pure true)

  unfoldable pub ensure_docker_starts_after_ufw : Files → Exec H.State Bool
  ensure_docker_starts_after_ufw f = write_changed f.docker_after_ufw docker_after_ufw_unit

  -- The script and the unit are the texts of the two templates.
  unfoldable pub write_rules : Files → String → String → Exec H.State (Unit {0})
  write_rules f script unit = do
    write_file H f.firewall_script script
    unit_changed ← write_changed f.firewall_unit unit
    dropin_changed ← ensure_docker_starts_after_ufw f
    if unit_changed || dropin_changed
        then (systemctl H ("daemon-reload" ∷ []) >> pure tt)
        else pure tt

  unfoldable pub restore_container_networking : Files → Exec H.State (Unit {0})
  restore_container_networking f = do
    run H ("systemctl" ∷ "daemon-reload" ∷ [])
    docker ← has H "docker"
    (if docker then (run H ("systemctl" ∷ "try-restart" ∷ "docker" ∷ []) >> pure tt) else pure tt)
    script ← gets (H.read f.firewall_script)
    if exists script then (run H (f.firewall_script ∷ []) >> pure tt) else pure tt

  unfoldable pub apply_rules : Files → Exec H.State (Unit {0})
  apply_rules f = do
    run_checked H (f.firewall_script ∷ [])
    systemctl H ("enable" ∷ "edgekit-firewall.service" ∷ [])
    pure tt
