-- ===== src/Tests/Apply.antt =====
-- The theorem on `apply_config` on a host without /dev/stdin.
use edgekit.Base.{
  false, contains, refl, some, str_eq, if◌then◌else◌, true, none, eq_refl, Option, String, List,
  After,
}
use edgekit.System.Shell.{completed, Ended, Host}
use edgekit.System.Apply.Cleanup.{apply_config-Keeps, Clean, CleanUnless, Files}
use edgekit.System.Apply.{apply_config}

-- Reading /dev/stdin fails, as does nothing else.
abbrev failing : List String → Ended
failing argv =
    if contains "/dev/stdin" argv
    then completed 1 "" "cannot open /dev/stdin"
    else completed 0 "[Interface]" ""

-- The files, by path.
abbrev minimal : Host
minimal = record {
  State = String → Option String;
  start = λ argv input files. (failing argv, files);
  has = λ binary files. true;
  read = λ path files. files path;
  write = λ path content files p. if str_eq path p then some content else files p;
  unlink = λ path files p. if str_eq path p then none else files p;
  write_fails = λ _ _ _. false;
  unlink_fails = λ _ _. false;
}

minimal-Files : Files minimal "/etc/wireguard" "wg0"
minimal-Files = record {
  gone = λ path s fine. rw (eq_refl path) refl;
  not_made = λ argv input s h. h;
}

abbrev no_files : String → Option String
no_files p = none

apply_config-Keeps_example :
    After
      (λ _. Clean minimal "/etc/wireguard" "wg0")
      (CleanUnless minimal "/etc/wireguard" "wg0")
      (apply_config minimal "/etc/wireguard" "wg0" no_files)
apply_config-Keeps_example =
    (apply_config-Keeps minimal "/etc/wireguard" "wg0" minimal-Files).at no_files refl
