-- ===== src/System/Packages/Install.antt =====
-- What system/packages.py installs: `require_debian_like`, `install_base` to `stop_host_nginx`. An
-- action gives none where the fuel of a wait ran out.
use edgekit.System.Packages.{
  distro_of, wireguard_packages, docker_packages, codename_of, base_packages, release_of,
  is_debian_like, Machine,
}
use edgekit.System.Apply.{is_command, write_file}
use edgekit.Base.{
  host_error, true, raise, false, attempt, ◌&&◌, strip, str_eq, none, [], ◌∷◌, ◌>>◌, ◌>>=◌, some,
  if◌then◌else◌, gets, List, Bool, ◌<>◌, ℕ, Option, String, Exec, Char, pure,
}
use edgekit.System.Packages.Apt.{apt_update, PackageAction, apt, apt_install}
use edgekit.Firewall.Rules.{same_text}
use edgekit.System.Shell.{run, run_checked, succeeded, has}
use edgekit.Base.Dict.{Dict}

-- `m`, and then `next` unless its fuel ran out.
module _ {S A B : Type 0} where
  abbrev if_some : (A → Exec S (Option B)) → Option A → Exec S (Option B)
  if_some next none = pure none
  if_some next (some a) = next a

  infixl 10 ◌>>?◌
  abbrev pub ◌>>?◌ : Exec S (Option A) → (A → Exec S (Option B)) → Exec S (Option B)
  m >>? next = m >>= if_some next

abbrev pub docker_gpg : String
docker_gpg = "/etc/apt/keyrings/docker.asc"

abbrev pub docker_list : String
docker_list = "/etc/apt/sources.list.d/docker.list"

unfoldable pub docker_entry : String → String → String → String
docker_entry arch distro codename =
    "deb [arch="
    <> (arch
        <> (" signed-by="
            <> (docker_gpg
                <> ("] https://download.docker.com/linux/"
                    <> (distro <> (" " <> (codename <> " stable\n")))))))

module _ (M : Machine) (other : Char → String) (fuel lock_wait : ℕ) where
  unfoldable pub os_release : PackageAction M (Dict String)
  os_release = gets (M.host.read "/etc/os-release") >>= λ text. pure (release_of text)

  unfoldable pub require_debian_like : PackageAction M (Dict String)
  require_debian_like = os_release >>= λ info.
      if is_debian_like info then pure info else raise (host_error "unsupported platform")

  unfoldable pub install_base : PackageAction M (Option (Unit {0}))
  install_base = require_debian_like >>= λ info. apt_update M other fuel lock_wait 3600 >>? λ u.
      apt_install M other fuel lock_wait base_packages

  unfoldable pub wireguard_version : PackageAction M (Option String)
  wireguard_version = run M.host ("wg" ∷ "--version" ∷ []) >>= λ r.
      pure (if succeeded r then some (strip r.stdout) else none)

  unfoldable pub install_wireguard : PackageAction M (Option (Unit {0}))
  install_wireguard = do
    wg ← has M.host "wg"
    wg_quick ← has M.host "wg-quick"
    if wg && wg_quick
        then (wireguard_version >> pure (some tt))
        else (apt_update M other fuel lock_wait 3600 >>? λ u.
            apt_install M other fuel lock_wait wireguard_packages >>? λ u.
            wireguard_version >>= λ v. pure (some tt))

  unfoldable pub version_of : List String → PackageAction M (Option String)
  version_of argv =
      run M.host argv >>= λ r. pure (if succeeded r then some (strip r.stdout) else none)

  unfoldable pub docker_versions : PackageAction M (Option String × Option String)
  docker_versions = do
    engine ← version_of ("docker" ∷ "--version" ∷ [])
    compose ← version_of ("docker" ∷ "compose" ∷ "version" ∷ [])
    pure (engine, compose)

  unfoldable pub docker_ready : PackageAction M Bool
  docker_ready = has M.host "docker" >>= λ there.
      if there
      then (run M.host ("docker" ∷ "compose" ∷ "version" ∷ []) >>= λ r. pure (succeeded r))
      else pure false

  abbrev pub download_key : String → List String
  download_key distro =
      "curl"
      ∷ "-fsSL"
      ∷ "--connect-timeout"
      ∷ "20"
      ∷ "--retry"
      ∷ "3"
      ∷ "--retry-delay"
      ∷ "5"
      ∷ ("https://download.docker.com/linux/" <> (distro <> "/gpg"))
      ∷ []

  abbrev pub key_or_download : String → Option String → PackageAction M (Unit {0})
  key_or_download distro (some key) = pure tt
  key_or_download distro none =
      run_checked M.host (download_key distro) >>= λ r. write_file M.host docker_gpg r.stdout

  unfoldable pub ensure_entry : String → PackageAction M (Unit {0})
  ensure_entry entry = gets (M.host.read docker_list) >>= λ old.
      if same_text old entry then pure tt else write_file M.host docker_list entry

  unfoldable pub configure_repository : String → String → PackageAction M (Unit {0})
  configure_repository distro codename = do
    key ← gets (M.host.read docker_gpg)
    key_or_download distro key
    arch ← run_checked M.host ("dpkg" ∷ "--print-architecture" ∷ [])
    ensure_entry (docker_entry (strip arch.stdout) distro codename)

  unfoldable pub start_docker : PackageAction M (Option (Unit {0}))
  start_docker = do
    run_checked M.host ("systemctl" ∷ "enable" ∷ "--now" ∷ "docker" ∷ [])
    docker_versions
    pure (some tt)

  unfoldable pub install_docker_for : String → String → PackageAction M (Option (Unit {0}))
  install_docker_for distro codename = install_base >>? λ u.
      configure_repository distro codename >>= λ u.
      apt M other fuel lock_wait ("update" ∷ "-qq" ∷ []) >>? λ r.
      apt_install M other fuel lock_wait docker_packages >>? λ u. start_docker

  unfoldable pub install_docker_on : Dict String → PackageAction M (Option (Unit {0}))
  install_docker_on info =
      if str_eq (codename_of info) ""
      then raise (host_error "no codename")
      else install_docker_for (distro_of info) (codename_of info)

  unfoldable pub install_docker : PackageAction M (Option (Unit {0}))
  install_docker = docker_ready >>= λ ready.
      if ready
      then (docker_versions >> pure (some tt))
      else (require_debian_like >>= install_docker_on)

  unfoldable pub disable_nginx : PackageAction M Bool
  disable_nginx = do
    run_checked M.host ("systemctl" ∷ "stop" ∷ "nginx" ∷ [])
    run_checked M.host ("systemctl" ∷ "disable" ∷ "nginx" ∷ [])
    pure true

  unfoldable pub stop_host_nginx : PackageAction M Bool
  stop_host_nginx = run M.host ("systemctl" ∷ "is-active" ∷ "--quiet" ∷ "nginx" ∷ []) >>= λ r.
      if succeeded r
      then attempt disable_nginx (λ e. if is_command e then pure false else raise e)
      else pure false
