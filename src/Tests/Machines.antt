-- ===== src/Tests/Machines.antt =====
-- A machine whose clock counts, on which the waits for the package lock, the jobs and the runner run.
use edgekit.Base.{
  sym, eq_iff, str_eq, false, refl, ◌∷◌, ◌++◌, true, split_by, command_error, [], ◌≡◌, ◌+◌, ℕ, some,
  none, arith, String, List, Char, After,
}
use edgekit.Jobs.Log.{state-log, none_while}
use edgekit.System.Packages.Ends.{apt-Done, Done}
use edgekit.Jobs.Marker.{log_of, EndsLine}
use edgekit.System.Packages.Waits.{Ticks}
use edgekit.Provision.{raises, returned, Ending, Site, Step, run_steps}
use edgekit.Models.{Database}
use edgekit.Jobs.{exit_line, Paths, exit_codes, raw_lines, state}
use edgekit.System.Shell.{Host, completed}
use edgekit.System.Packages.{Machine}
use edgekit.System.Packages.Apt.{apt}
use edgekit.Provision.Runs.{run_steps-append, onward}
use edgekit.Provision.Selected.{run_steps-only, Selected, passed, taken, nothing}
use mathlib.Core.List.{Memᴰ}

-- Each command takes a second; the lock is held, and asking for it prints a process.
abbrev busy : Host
busy = record {
  State = ℕ;
  start = λ argv input n. (completed 0 "17" "", n + 1);
  has = λ binary n. true;
  read = λ path n. none;
  write = λ path text n. n;
  unlink = λ path n. n;
  write_fails = λ _ _ _. false;
  unlink_fails = λ _ _. false;
}

abbrev machine : Machine
machine = record {
  host = busy;
  monotonic = λ n. n;
  time = λ n. n;
  sleep = λ seconds n. n + seconds;
  mtime = λ path n. some 1;
  has_lock_timeout = λ n. none;
  remember = λ b n. n;
}

machine-Ticks : Ticks machine
machine-Ticks = record {
  start_later = λ argv input n. omega arith;
  sleep_later = λ seconds n. omega arith;
  remember_later = λ b n. omega arith;
}

abbrev other : Char → String
other c = String.◌∷◌ c ""

apt-Done_example :
    After
      (Done machine-Ticks other)
      (λ e n. e ≡ command_error)
      (apt machine other 21 20 ("update" ∷ "-qq" ∷ []) 3)
apt-Done_example =
    (apt-Done machine-Ticks other 21 20 ("update" ∷ "-qq" ∷ []) (omega arith)).at 3 (omega arith)

abbrev paths : Paths
paths = record {
  log_dir = "/var/log/edgekit";
  executable = "/opt/edgekit/venv/bin/edgekit";
  quote = λ s. s;
}

abbrev logged : Host
logged = record {
  State = String;
  start = λ argv input text. (completed 3 "" "", text);
  has = λ binary text. true;
  read = λ path text. some text;
  write = λ path new text. new;
  unlink = λ path text. "";
  write_fails = λ _ _ _. false;
  unlink_fails = λ _ _. false;
}

state-log_example :
    After
      (λ r text. r.exit_code ≡ none_while r.running 4)
      (λ e text. ⊥)
      (state logged paths "update" 400 (log_of "pulling\ndone\n" 4))
state-log_example =
    (state-log logged paths "update" "pulling\ndone\n" 400 4 (EndsLine.ended "pulling\ndone")
        (λ argv text. refl)).at
      (log_of "pulling\ndone\n" 4) refl

-- Output that does not end its line hides the exit status.
hidden : exit_codes (raw_lines "doneedgekit-job-exit 4\n") ≡ []
unfolding exit_codes exit_line split_by
hidden = refl

abbrev site : Site
site = record {
  World = Database;
  db = λ db. db;
  put_db = λ new db. new;
  on_event = none;
  public_ip = λ db. "203.0.113.7";
}

abbrev step_of : String → Ending → Step site
step_of key ending = record { key = key; title = key; act = λ db. (ending, db) }

abbrev steps : List (Step site)
steps =
    step_of "preflight" (returned "")
    ∷ step_of "wireguard_keys" (raises "no wg")
    ∷ step_of "sysctl" (returned "")
    ∷ []

abbrev empty_db : Database
empty_db = record { peers = []; hosts = []; settings = []; audit = [] }

other_key : (k t : String) → str_eq t k ≡ false → Memᴰ k (t ∷ []) → ⊥
other_key k t other (Memᴰ.head e) = absurd (ground (arith, eq_iff t k, sym e))
other_key k t other (Memᴰ.tail m) = elim m [ ]

only_sysctl : Selected site ("sysctl" ∷ []) steps (step_of "sysctl" (returned "") ∷ [])
only_sysctl =
    passed (other_key "preflight" "sysctl" refl)
      (passed (other_key "wireguard_keys" "sysctl" refl) (taken (Memᴰ.head refl) nothing))

run_steps-only_example :
    run_steps site (some ("sysctl" ∷ [])) steps empty_db
    ≡ run_steps site none (step_of "sysctl" (returned "") ∷ []) empty_db
run_steps-only_example =
    run_steps-only site ("sysctl" ∷ []) steps (step_of "sysctl" (returned "") ∷ []) empty_db
      only_sysctl

run_steps-append_example :
    run_steps site none (steps ++ steps) empty_db
    ≡ onward site (run_steps site none steps empty_db) (run_steps site none steps)
run_steps-append_example = run_steps-append site steps steps empty_db
