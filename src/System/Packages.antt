-- ===== src/System/Packages.antt =====
-- system/packages.py. Besides the host there are its clocks, the times of files, and the memory of
-- the process that `lru_cache` keeps. Time limits of single commands and the log are not modelled.
pub mod Apt
pub mod Install
pub mod Waits
pub mod Ends
use edgekit.Base.{
  any, after_first, ◌||◌, ◌==◌, ◌<>◌, strip, str_eq, splitlines, split_by, rstrip_by, ltb, lower_by,
  is_numeric, includes, contains, code, ◌∷◌, some, none, lstrip_by, keep, if◌then◌else◌, [], Bool,
  ℕ, String, Option, List, Char, pure,
}
use edgekit.Firewall.Ufw.{words}
use edgekit.System.Shell.{Result, Host, run, succeeded, has}
use edgekit.Base.Dict.{Dict}
use edgekit.Base.Dict

pub record Machine : Type 1 where
  pub host : Host
  -- `time.monotonic()`, `time.time()`, in seconds
  pub monotonic : host.State → ℕ
  pub time : host.State → ℕ
  pub sleep : ℕ → host.State → host.State
  -- `st_mtime`, none if there is no such path
  pub mtime : String → host.State → Option ℕ
  -- what `_apt_has_lock_timeout` has answered before
  pub has_lock_timeout : host.State → Option Bool
  pub remember : Bool → host.State → host.State

abbrev pub apt_lock_poll : ℕ
apt_lock_poll = 5

abbrev pub apt_lock_files : List String
apt_lock_files =
    "/var/lib/dpkg/lock-frontend" ∷ "/var/lib/dpkg/lock" ∷ "/var/cache/apt/archives/lock"
    ∷ "/var/lib/apt/lists/lock" ∷ []

abbrev pub lock_markers : List String
lock_markers =
    "could not get lock" ∷ "frontend lock" ∷ "another process using it" ∷ "unable to lock" ∷ []

abbrev pub base_packages : List String
base_packages = "ca-certificates" ∷ "curl" ∷ "gnupg" ∷ "iproute2" ∷ "iptables" ∷ []

abbrev pub wireguard_packages : List String
wireguard_packages = "wireguard" ∷ "wireguard-tools" ∷ []

abbrev pub docker_packages : List String
docker_packages =
    "docker-ce" ∷ "docker-ce-cli" ∷ "containerd.io" ∷ "docker-buildx-plugin"
    ∷ "docker-compose-plugin" ∷ []

abbrev pub first_of : List String → Option String
first_of [] = none
first_of (x ∷ xs) = some x

-- `[token for token in output.split() if token.isdigit()]`
unfoldable pub pids_of : String → List String
pids_of output = keep is_numeric (words output)

-- `_is_lock_error`, on ASCII.
unfoldable pub is_lock_error : (Char → String) → Result → Bool
is_lock_error other r =
    let text = lower_by other (r.stderr <> ("\n" <> r.stdout)) in
    any (λ marker. includes marker text) lock_markers

-- `value.strip().strip('"')`
abbrev is_quote : Char → Bool
is_quote c = code c == 34

abbrev unquoted : String → String
unquoted s = lstrip_by is_quote (rstrip_by is_quote (strip s))

abbrev before_equals : String → String
before_equals line = first_or_empty (split_by (λ c. code c == 61) line)
  where
    first_or_empty : List String → String
    first_or_empty [] = ""
    first_or_empty (s ∷ ss) = s

abbrev after_equals : Option String → String
after_equals none = ""
after_equals (some s) = s

-- One line of /etc/os-release.
unfoldable pub release_line : Dict String → String → Dict String
release_line known line =
    if includes "=" line
    then Dict.insert (strip (before_equals line))
        (unquoted (after_equals (after_first (λ c. code c == 61) line))) known
    else known

unfoldable pub release_lines : Dict String → List String → Dict String
release_lines known [] = known
release_lines known (line ∷ lines) = release_lines (release_line known line) lines

abbrev pub release_of : Option String → Dict String
release_of none = []
release_of (some text) = release_lines [] (splitlines text)

-- `info.get(key, "")`
unfoldable pub release_field : String → Dict String → String
release_field key info = elim (Dict.lookup key info) [ none ↦ "" | some v ↦ v ]

unfoldable pub family : Dict String → List String
family info = release_field "ID" info ∷ words (release_field "ID_LIKE" info)

unfoldable pub is_debian_like : Dict String → Bool
is_debian_like info =
    contains "debian" (family info)
    || contains "ubuntu" (family info)
    || contains "raspbian" (family info)

-- `info.get("VERSION_CODENAME") or info.get("UBUNTU_CODENAME") or ""`
unfoldable pub codename_of : Dict String → String
codename_of info =
    if str_eq (release_field "VERSION_CODENAME" info) ""
    then release_field "UBUNTU_CODENAME" info
    else release_field "VERSION_CODENAME" info

unfoldable pub distro_of : Dict String → String
distro_of info = if contains "ubuntu" (family info) then "ubuntu" else "debian"

abbrev pub later : Option ℕ → Option ℕ → ℕ
later none none = 0
later (some a) none = a
later none (some b) = b
later (some a) (some b) = if ltb a b then b else a
