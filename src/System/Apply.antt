-- ===== src/System/Apply.antt =====
-- `write_config`, `apply_config`, `interface_up` and `ping` of system/wireguard.py, and the calls of
-- docker compose in system/dockerx.py. Writing and removing a file may raise OSError; the permissions of
-- files are left out.
pub mod Cleanup
use edgekit.Base.{
  os_error, raised, Outcome, none, str_eq, pure, if◌then◌else◌, ◌>>=◌, some, raise, command_error,
  [], ◌∷◌, ◌>>◌, true, ok, gets, false, attempt, ◌<>◌, Option, List, Exec, Bool, String, Failure, ℕ,
}
use edgekit.System.Wireguard.{bring_up, interface_exists}
use edgekit.System.Shell.{succeeded, run_checked_input, run_checked, run, Result, Host}

-- WG_DIR is an argument.
unfoldable pub config_path : String → String → String
config_path wg_dir interface = wg_dir <> ("/" <> (interface <> ".conf"))

abbrev pub sync_path : String → String → String
sync_path wg_dir interface = wg_dir <> ("/." <> (interface <> ".sync"))

-- `isinstance(exc, CommandError)`
unfoldable pub is_command : Failure → Bool
is_command command_error = true
is_command _ = false

module _ (H : Host) where
  abbrev pub os_error_if : Bool → Outcome (Unit {0})
  os_error_if true = raised os_error
  os_error_if false = ok tt

  -- Where it raises, what was written is still there.
  unfoldable pub write_file : String → String → Exec H.State (Unit {0})
  write_file path content s = (os_error_if (H.write_fails path content s), H.write path content s)

  unfoldable pub unlink : String → Exec H.State (Unit {0})
  unlink path s = (os_error_if (H.unlink_fails path s), H.unlink path s)

  unfoldable pub write_config : String → String → String → Exec H.State (Unit {0})
  write_config wg_dir interface content = write_file (config_path wg_dir interface) content

  -- `try: m` with `finally: cleanup`
  unfoldable pub finally :
      Exec H.State (Unit {0}) → Exec H.State (Unit {0}) → Exec H.State (Unit {0})
  finally m cleanup = attempt m (λ e. cleanup >> raise e) >> cleanup

  -- Through a file, where there is no /dev/stdin; it is written before the `try`.
  unfoldable pub sync_through_file : String → String → String → Exec H.State (Unit {0})
  sync_through_file path interface stripped =
      write_file path stripped
      >> finally (run_checked H ("wg" ∷ "syncconf" ∷ interface ∷ path ∷ []) >> pure tt)
          (unlink path)

  unfoldable pub sync_running : String → String → Exec H.State (Unit {0})
  sync_running path interface = run_checked H ("wg-quick" ∷ "strip" ∷ interface ∷ []) >>= λ r.
      attempt
        (run_checked_input H ("wg" ∷ "syncconf" ∷ interface ∷ "/dev/stdin" ∷ []) (some r.stdout)
          >> pure tt)
        (λ e. if is_command e then sync_through_file path interface r.stdout else raise e)

  unfoldable pub apply_config : String → String → Exec H.State (Unit {0})
  apply_config wg_dir interface = interface_exists H interface >>= λ up.
      if up then sync_running (sync_path wg_dir interface) interface else bring_up H interface

  unfoldable pub interface_up : String → Exec H.State Bool
  interface_up interface = interface_exists H interface

  -- The numbers are printed by `show`.
  unfoldable pub ping : (ℕ → String) → String → ℕ → ℕ → Exec H.State Bool
  ping show address tries wait =
      run H ("ping" ∷ "-c" ∷ show tries ∷ "-W" ∷ show wait ∷ address ∷ []) >>= λ r.
      pure (succeeded r)

  unfoldable pub compose : String → List String → Exec H.State Result
  compose file args = run_checked H ("docker" ∷ "compose" ∷ "-f" ∷ file ∷ args)

  unfoldable pub validate : String → Exec H.State (Unit {0})
  validate file = compose file ("config" ∷ "--quiet" ∷ []) >> pure tt

  unfoldable pub up : String → Exec H.State (Unit {0})
  up file = compose file ("up" ∷ "-d" ∷ []) >> pure tt

  unfoldable pub down : String → Exec H.State (Unit {0})
  down file = run H ("docker" ∷ "compose" ∷ "-f" ∷ file ∷ "down" ∷ []) >> pure tt

  unfoldable pub restart : String → Exec H.State (Unit {0})
  restart file = compose file ("restart" ∷ []) >> pure tt

  unfoldable pub pull : String → Exec H.State (Unit {0})
  pull file = compose file ("pull" ∷ []) >> pure tt

  unfoldable pub daemon_running : Exec H.State Bool
  daemon_running =
      attempt (run_checked H ("docker" ∷ "info" ∷ []) >> pure true)
        (λ e. if is_command e then pure false else raise e)

  abbrev same_content : Option String → String → Bool
  same_content none content = false
  same_content (some old) content = str_eq old content

  -- A file with the content already is left alone.
  unfoldable pub write_compose_file : String → String → Exec H.State (Unit {0})
  write_compose_file file content = gets (H.read file) >>= λ old.
      if same_content old content then pure tt else write_file file content
