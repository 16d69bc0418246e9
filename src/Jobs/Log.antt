-- ===== src/Jobs/Log.antt =====
-- The exit status that a job leaves in its log is the one that `state` reads.
use edgekit.Base.{
  Triple-gets-bind, Triple-pure, Triple-bind, Triple, ◌∙◌, none, ap, last, Option, false, refl,
  ◌++◌, [], ◌∷◌, true, some, List, ◌≡◌, ◌<>◌, Bool, ℕ, split_by, String, Char,
}
use edgekit.Jobs.{log_file, state, Paths, code_unless, exit_codes, exit_line, raw_lines}
use edgekit.System.Shell.{run_input, run, systemctl, service_active, Host}
use text.Mathlib.TextLemmas.{append_assoc, cons-append, nil-append}
use Prim.Native.String.{char_at}
use edgekit.Jobs.Marker.{
  marker_lines, exit_line-marker, split_by-append, exit_codes-append, last-append, is_newline,
  log_of, marker_line, EndsLine, silent, ended,
}

abbrev newline : Char
newline = char_at "\n" 0

newline-append : (s : String) → "\n" <> s ≡ String.◌∷◌ newline s
newline-append s = rw (cons-append, nil-append) refl

lines_of_marker : (n : ℕ) → raw_lines (marker_line n <> "\n") ≡ marker_line n ∷ "" ∷ []
unfolding split_by
lines_of_marker n =
    split_by-append is_newline (marker_line n) "" newline refl
    ∙ ap (λ part. part ++ ("" ∷ [])) (marker_lines n)

-- The marker stands on a line of its own, after the lines before it.
log_lines :
    (output : String) (n : ℕ)
    → EndsLine output
    → (before : List String) × (raw_lines (log_of output n) ≡ before ++ (marker_line n ∷ "" ∷ []))
unfolding log_of
log_lines _ n silent = ([], ap raw_lines (nil-append _) ∙ lines_of_marker n)
log_lines _ n (ended text) = (
  raw_lines text,
  ap raw_lines (append_assoc text "\n" (marker_line n <> "\n"))
      ∙ ap (λ rest. raw_lines (text <> rest)) (newline-append (marker_line n <> "\n"))
      ∙ split_by-append is_newline text (marker_line n <> "\n") newline refl
      ∙ ap (λ rest. raw_lines text ++ rest) (lines_of_marker n),
)

codes_of_log :
    (output : String) (n : ℕ)
    → EndsLine output
    → last (exit_codes (raw_lines (log_of output n))) ≡ some n
unfolding exit_codes exit_line
codes_of_log output n ends =
    let (before, e) = log_lines output n ends in
    ap (λ lines. last (exit_codes lines)) e
    ∙ ap last (exit_codes-append before (marker_line n ∷ "" ∷ []))
    ∙ rw (exit_line-marker n) (last-append (exit_codes before) n)

abbrev pub none_while : Bool → ℕ → Option ℕ
none_while true n = none
none_while false n = some n

code_unless-log :
    (running : Bool) (codes : List ℕ) (n : ℕ)
    → last codes ≡ some n
    → code_unless running codes ≡ none_while running n
code_unless-log true codes n e = refl
code_unless-log false codes n e = e

module _ (H : Host) (p : Paths) where
  -- If asking for the state of a unit leaves the log as it is, and the output of the job is empty or ends
  -- its last line, then from the log that the script of the job leaves with that output and the exit
  -- status `n`, `state` returns a result, with exit status `n` unless the unit still runs.
  pub state-log :
      (job output : String) (lines n : ℕ)
      → EndsLine output
      → ((argv : List String) (s : H.State)
          → H.read (log_file p job) (H.start ("systemctl" ∷ argv) none s).1
            ≡ H.read (log_file p job) s)
      → Triple
          (λ s. H.read (log_file p job) s ≡ some (log_of output n))
          (state H p job lines)
          (λ r s. r.exit_code ≡ none_while r.running n)
          (λ e s. ⊥)
  unfolding state service_active systemctl run run_input
  state-log job output lines n ends same =
      Triple-bind (λ running s. H.read (log_file p job) s ≡ some (log_of output n)) _ _
        (Triple-bind (λ r s. H.read (log_file p job) s ≡ some (log_of output n)) _ _
          (record { at = λ s h. same _ s ∙ h }) (λ r. Triple-pure _ (λ s h. h)))
        (λ running.
          Triple-gets-bind (H.read (log_file p job)) _ (some (log_of output n)) (λ s h. h)
            (Triple-pure _ (λ s h. code_unless-log running _ n (codes_of_log output n ends))))
