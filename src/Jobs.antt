-- ===== src/Jobs.antt =====
-- jobs.py: updates and removals that run as units of their own. The log is a file of the host, lines
-- end with `\n`, digits are those of ASCII, and `sys.prefix` and `shlex.quote` are parameters.
pub mod Marker
pub mod Log
use edgekit.Base.{
  false, ◌==◌, true, length, is_space, host_error, gets, drop_chars, digits_value, ◌>>◌, ◌>>=◌,
  str_eq, starts_with, rstrip_by, raise, ltb, last, code, [], ◌∷◌, ◌<>◌, splitlines, split_by, some,
  none, if◌then◌else◌, Exec, ℕ, String, Option, List, Bool, pure,
}
use edgekit.System.Apply.{write_file}
use edgekit.System.Shell.{Result, Host, run, service_active, succeeded, has}
use edgekit.Firewall.Ufw.{span_digits}

pub record JobState : Type 0 where
  pub running : Bool
  pub exit_code : Option ℕ
  pub output : String

pub record Paths : Type 0 where
  -- `LOG_DIR`
  pub log_dir : String
  -- `{sys.prefix}/bin/edgekit`
  pub executable : String
  -- `shlex.quote`
  pub quote : String → String

abbrev pub exit_marker : String
exit_marker = "edgekit-job-exit"

-- What `_EXIT_LINE` matches before the digits.
abbrev pub exit_prefix : String
exit_prefix = "edgekit-job-exit "

unfoldable pub unit_name : String → String
unit_name job = "edgekit-" <> job

unfoldable pub log_file : Paths → String → String
log_file p job = p.log_dir <> ("/" <> (job <> ".log"))

unfoldable pub job_script : Paths → String → String
job_script p job =
    let log = p.quote (log_file p job) in
    "\"$0\" \"$@\" > "
    <> (log
        <> (" 2>&1; code=$?; echo \""
            <> (exit_marker <> (" $code\" >> " <> (log <> "; exit $code")))))

-- `command` with the executable of the installation.
unfoldable pub command : Paths → String → List String → List String
command p job args = "/bin/sh" ∷ "-c" ∷ job_script p job ∷ p.executable ∷ args

-- A line that `_EXIT_LINE` matches: the code, and what is left of the line.
abbrev pub marked : String × String → Option (ℕ × String)
marked (digits, rest) = if str_eq digits "" then none else some (digits_value 0 digits, rest)

unfoldable pub exit_line : String → Option (ℕ × String)
exit_line line =
    if starts_with line exit_prefix then marked (span_digits (drop_chars 17 line)) else none

abbrev pub or_code : Option (ℕ × String) → List ℕ → List ℕ
or_code none codes = codes
or_code (some c) codes = c.0 ∷ codes

-- `_EXIT_LINE.findall(text)`, line by line
unfoldable pub exit_codes : List String → List ℕ
exit_codes [] = []
exit_codes (line ∷ lines) = or_code (exit_line line) (exit_codes lines)

-- What `_EXIT_LINE.sub("", text)` leaves of a line and its newline: with a rest, the newline stays.
abbrev pub or_line : String → Option (ℕ × String) → List String → List String
or_line line none lines = line ∷ lines
or_line line (some (code, rest)) lines = if str_eq rest "" then lines else rest ∷ lines

unfoldable pub unmarked : List String → List String
unmarked [] = []
unmarked (line ∷ lines) = or_line line (exit_line line) (unmarked lines)

-- The lines of a text, with an empty one after its last newline.
abbrev pub raw_lines : String → List String
raw_lines text = split_by (λ c. code c == 10) text

abbrev pub text_or_none : Option String → String
text_or_none none = ""
text_or_none (some s) = s

-- `"\n".join(lines)`
unfoldable pub join_lines : List String → String
join_lines [] = ""
join_lines (line ∷ []) = line
join_lines (line ∷ next ∷ lines) = line <> ("\n" <> join_lines (next ∷ lines))

-- `xs[-n:]` for n above 0
unfoldable pub last_lines : ℕ → List String → List String
last_lines n [] = []
last_lines n (x ∷ xs) = let rest = last_lines n xs in if ltb (length xs) n then x ∷ rest else rest

unfoldable pub shown : ℕ → String → String
shown lines text =
    join_lines
      (last_lines lines (splitlines (rstrip_by is_space (join_lines (unmarked (raw_lines text))))))

-- `int(codes[-1]) if codes and not running else None`
abbrev pub code_unless : Bool → List ℕ → Option ℕ
code_unless true codes = none
code_unless false codes = last codes

module _ (H : Host) (p : Paths) where
  abbrev pub launch_argv : String → List String → List String
  launch_argv job args =
      "systemd-run"
      ∷ ("--unit=" <> unit_name job)
      ∷ ("--description=edgekit " <> job)
      ∷ "--collect"
      ∷ "--no-block"
      ∷ command p job args

  unfoldable pub start_job : String → List String → Exec H.State (Unit {0})
  start_job job args = do
    write_file H (log_file p job) ""
    r ← run H (launch_argv job args)
    if succeeded r then pure tt else raise (host_error "could not start")

  unfoldable pub launch_unless : String → List String → Bool → Exec H.State (Unit {0})
  launch_unless job args true = raise (host_error "already running")
  launch_unless job args false = start_job job args

  unfoldable pub launch : String → List String → Exec H.State (Unit {0})
  launch job args = has H "systemd-run" >>= λ there.
      if there
      then (service_active H (unit_name job <> ".service") >>= launch_unless job args)
      else raise (host_error "no systemd-run")

  unfoldable pub state : String → ℕ → Exec H.State JobState
  state job lines = do
    running ← service_active H (unit_name job <> ".service")
    content ← gets (H.read (log_file p job))
    pure (record {
      running = running;
      exit_code = code_unless running (exit_codes (raw_lines (text_or_none content)));
      output = shown lines (text_or_none content);
    })
