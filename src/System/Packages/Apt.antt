-- ===== src/System/Packages/Apt.antt =====
-- The package lock and the commands of apt: `apt_lock_holder` to `_is_lock_error`, `os_release` to
-- `_installed` of system/packages.py. The loops have no bound in the source, and recur on fuel here.
use edgekit.Base.{
  command_error, raise, leb, ◌||◌, ◌>>◌, ◌<>◌, ◌-◌, true, strip, includes, ◌==◌, ◌++◌, ◌&&◌, zero,
  str_eq, ltb, is_some, ◌+◌, suc, not, none, if◌then◌else◌, [], ◌∷◌, ◌>>=◌, some, ok, gets, false,
  String, ℕ, Option, List, Exec, Char, Bool, pure,
}
use edgekit.System.Packages.{
  apt_lock_poll, later, is_lock_error, apt_lock_files, Machine, pids_of, first_of,
}
use edgekit.Base.Decimal.{decimal}
use edgekit.System.Shell.{Result, run, succeeded, has}

module _ (M : Machine) where
  abbrev pub PackageAction : Type 0 → Type 0
  PackageAction A = Exec M.host.State A

  unfoldable pub sleep : ℕ → PackageAction (Unit {0})
  sleep seconds s = (ok tt, M.sleep seconds s)

  abbrev pub run_holder : List String → PackageAction (Option String)
  run_holder argv = run M.host argv >>= λ r. pure (first_of (pids_of r.stdout))

  -- The first answer, or that of what follows.
  abbrev pub or_else : Option String → PackageAction (Option String) → PackageAction (Option String)
  or_else (some pid) next = pure (some pid)
  or_else none next = next

  unfoldable pub holder_by_fuser : List String → PackageAction (Option String)
  holder_by_fuser [] = pure none
  holder_by_fuser (path ∷ paths) = gets (M.mtime path) >>= λ there.
      if is_some there
      then (run_holder ("fuser" ∷ path ∷ []) >>= λ pid. or_else pid (holder_by_fuser paths))
      else holder_by_fuser paths

  unfoldable pub holder_by_pgrep : PackageAction (Option String)
  holder_by_pgrep =
      run_holder ("pgrep" ∷ "-x" ∷ "apt|apt-get|aptitude|dpkg|unattended-upgrade" ∷ []) >>= λ pid.
      or_else pid (run_holder ("pgrep" ∷ "-f" ∷ "unattended-upgrade" ∷ []))

  unfoldable pub apt_lock_holder : PackageAction (Option String)
  apt_lock_holder = has M.host "fuser" >>= λ fuser.
      if fuser
      then holder_by_fuser apt_lock_files
      else (has M.host "pgrep" >>= λ pgrep. if pgrep then holder_by_pgrep else pure none)

  -- The rounds of `wait_for_apt_lock`: false if the fuel ran out.
  unfoldable pub wait_rounds : ℕ → ℕ → PackageAction Bool
  wait_rounds zero deadline = pure false
  wait_rounds (suc fuel) deadline = do
    now ← gets M.monotonic
    if ltb now deadline
        then (do
          sleep apt_lock_poll
          pid ← apt_lock_holder
          if is_some pid then wait_rounds fuel deadline else pure true)
        else pure true

  unfoldable pub wait_for_apt_lock : ℕ → ℕ → PackageAction Bool
  wait_for_apt_lock fuel deadline =
      apt_lock_holder >>= λ pid. if is_some pid then wait_rounds fuel deadline else pure true

  abbrev pub remembered : Bool → PackageAction Bool
  remembered b s = (ok b, M.remember b s)

  unfoldable pub ask_lock_timeout : PackageAction Bool
  ask_lock_timeout = run M.host ("dpkg-query" ∷ "-W" ∷ "-f=${Version}" ∷ "apt" ∷ []) >>= λ r.
      if str_eq (strip r.stdout) ""
      then remembered false
      else (run M.host ("dpkg" ∷ "--compare-versions" ∷ strip r.stdout ∷ "ge" ∷ "2.0" ∷ []) >>= λ c.
          remembered (succeeded c))

  abbrev pub answered : Option Bool → PackageAction Bool
  answered (some b) = pure b
  answered none = ask_lock_timeout

  unfoldable pub apt_has_lock_timeout : PackageAction Bool
  apt_has_lock_timeout = gets M.has_lock_timeout >>= answered

  unfoldable pub apt_command : ℕ → List String → Bool → List String
  apt_command lock_wait args b =
      ("apt-get" ∷ "-o" ∷ "Acquire::Retries=3" ∷ [])
      ++ ((if b then "-o" ∷ ("DPkg::Lock::Timeout=" <> decimal lock_wait) ∷ [] else []) ++ args)

  unfoldable pub apt_argv : ℕ → List String → PackageAction (List String)
  apt_argv lock_wait args = apt_has_lock_timeout >>= λ b. pure (apt_command lock_wait args b)

module _ (M : Machine) (other : Char → String) where
  -- One attempt of `apt`, after the wait; `again` are the rounds that follow.
  unfoldable pub attempt_apt :
      ℕ → ℕ → List String → PackageAction M (Option Result) → PackageAction M (Option Result)
  attempt_apt lock_wait deadline args again = do
    argv ← apt_argv M lock_wait args
    r ← run M.host argv
    now ← gets M.monotonic
    if succeeded r
        then pure (some r)
        else (if not (is_lock_error other r) || leb deadline now
            then raise command_error
            else (sleep M apt_lock_poll >> again))

  -- The rounds of `apt`: none if the fuel ran out.
  unfoldable pub apt_rounds : ℕ → ℕ → ℕ → List String → PackageAction M (Option Result)
  apt_rounds zero lock_wait deadline args = pure none
  apt_rounds (suc fuel) lock_wait deadline args =
      wait_for_apt_lock M (suc fuel) deadline >>= λ waited.
      if waited
      then attempt_apt lock_wait deadline args (apt_rounds fuel lock_wait deadline args)
      else pure none

  -- `lock_wait` is APT_LOCK_WAIT.
  unfoldable pub apt : ℕ → ℕ → List String → PackageAction M (Option Result)
  apt fuel lock_wait args =
      gets M.monotonic >>= λ now. apt_rounds fuel lock_wait (now + lock_wait) args

  -- The names of the package index.
  abbrev pub update_stamp : String
  update_stamp = "/var/lib/apt/periodic/update-success-stamp"

  abbrev pub package_lists : String
  package_lists = "/var/lib/apt/lists"

  unfoldable pub is_fresh : ℕ → ℕ → ℕ → Bool
  is_fresh newest now max_age = not (newest == 0) && ltb (now - newest) max_age

  -- None if the fuel ran out.
  abbrev pub finished : Option Result → Option (Unit {0})
  finished none = none
  finished (some r) = some tt

  unfoldable pub apt_update : ℕ → ℕ → ℕ → PackageAction M (Option (Unit {0}))
  apt_update fuel lock_wait max_age = do
    stamp ← gets (M.mtime update_stamp)
    lists ← gets (M.mtime package_lists)
    now ← gets M.time
    if is_fresh (later stamp lists) now max_age
        then pure (some tt)
        else (apt fuel lock_wait ("update" ∷ "-qq" ∷ []) >>= λ r. pure (finished r))

  -- `_installed`
  unfoldable pub is_installed : String → PackageAction M Bool
  is_installed name = run M.host ("dpkg-query" ∷ "-W" ∷ "-f=${Status}" ∷ name ∷ []) >>= λ r.
      pure (succeeded r && includes "install ok installed" r.stdout)

  unfoldable pub missing_of : List String → PackageAction M (List String)
  missing_of [] = pure []
  missing_of (p ∷ ps) = do
    there ← is_installed p
    missing ← missing_of ps
    pure (if there then missing else p ∷ missing)

  unfoldable pub install_missing : ℕ → ℕ → List String → PackageAction M (Option (Unit {0}))
  install_missing fuel lock_wait [] = pure (some tt)
  install_missing fuel lock_wait (p ∷ ps) =
      apt fuel lock_wait (("install" ∷ "-y" ∷ "-qq" ∷ "--no-install-recommends" ∷ []) ++ (p ∷ ps))
      >>= λ r. pure (finished r)

  unfoldable pub apt_install : ℕ → ℕ → List String → PackageAction M (Option (Unit {0}))
  apt_install fuel lock_wait packages = missing_of packages >>= install_missing fuel lock_wait
