-- ===== src/System/Shell.antt =====
-- system/shell.py. The programs that it starts and the files of the host are a parameter.
use edgekit.Base.{
  command_error, raise, ◌>>=◌, str_eq, pure, ok, [], ◌∷◌, ◌==◌, strip, none, if◌then◌else◌, gets,
  Option, String, List, Exec, Bool, ℕ,
}

-- How a started program ended. A program that a signal killed has some code other than 0.
pub data Ended : Type 0 where
  completed : ℕ → String → String → Ended
  not_found timed_out : Ended

pub record Host : Type 1 where
  pub State : Type 0
  -- the arguments and the text on standard input
  pub start : List String → Option String → State → Ended × State
  -- `shutil.which(binary) is not None`
  pub has : String → State → Bool
  -- the text of a file, none if there is no such file
  pub read : String → State → Option String
  -- what stands there after writing a file or removing it, and whether that raises OSError
  pub write : String → String → State → State
  pub write_fails : String → String → State → Bool
  pub unlink : String → State → State
  pub unlink_fails : String → State → Bool

pub record Result : Type 0 where
  pub argv : List String
  pub returncode : ℕ
  pub stdout : String
  pub stderr : String

-- `Result.ok`
unfoldable pub succeeded : Result → Bool
succeeded r = r.returncode == 0

-- `self.stdout or self.stderr`
unfoldable pub output : Result → String
output r = strip (if str_eq r.stdout "" then r.stderr else r.stdout)

unfoldable pub result_of : List String → Ended → Result
result_of argv (completed code out err) = record {
  argv = argv;
  returncode = code;
  stdout = out;
  stderr = err;
}
result_of argv not_found = record {
  argv = argv;
  returncode = 127;
  stdout = "";
  stderr = "command not found";
}
result_of argv timed_out = record {
  argv = argv;
  returncode = 124;
  stdout = "";
  stderr = "timed out";
}

module _ (H : Host) where
  -- `run` without `check`.
  unfoldable pub run_input : List String → Option String → Exec H.State Result
  run_input argv input s = let (ended, s') = H.start argv input s in (ok (result_of argv ended), s')

  unfoldable pub run : List String → Exec H.State Result
  run argv = run_input argv none

  -- `if check and not result.ok: raise CommandError(result)`
  unfoldable pub required : Result → Exec H.State Result
  required r = if succeeded r then pure r else raise command_error

  unfoldable pub run_checked_input : List String → Option String → Exec H.State Result
  run_checked_input argv input = run_input argv input >>= required

  unfoldable pub run_checked : List String → Exec H.State Result
  run_checked argv = run_checked_input argv none

  abbrev pub has : String → Exec H.State Bool
  has binary = gets (H.has binary)

  unfoldable pub systemctl : List String → Exec H.State Result
  systemctl args = run ("systemctl" ∷ args)

  unfoldable pub service_active : String → Exec H.State Bool
  service_active unit = systemctl ("is-active" ∷ "--quiet" ∷ unit ∷ []) >>= λ r. pure (succeeded r)

  unfoldable pub service_enabled : String → Exec H.State Bool
  service_enabled unit =
      systemctl ("is-enabled" ∷ "--quiet" ∷ unit ∷ []) >>= λ r. pure (succeeded r)
