-- ===== src/Jobs/Marker.antt =====
-- The line that a job leaves in its log with its exit status, among the lines of the log.
use edgekit.Base.{
  none, ap, str_eq, arith, last, is_numeric, and_intro, Option, onto_first, not, false, and_parts,
  refl, ◌==◌, ◌++◌, [], ◌∷◌, true, some, is_digit, code, List, ◌≡◌, ◌<>◌, all_chars, Bool, ℕ,
  split_by, drop_chars, String, Char,
}
use edgekit.Jobs.{or_code, marked, exit_prefix, exit_codes, exit_line, raw_lines}
use edgekit.Base.Decimal.{digits_value-decimal, all_chars-append, decimal}
use edgekit.Firewall.Ufw.{span_digits}
use text.Mathlib.TextEquality.{starts_with_iff}
use text.Mathlib.TextLemmas.{prefix-append, cons-append, nil-append, length-cons}
use Prim.Native.String.{count}

-- What the script of `command` adds to the log at the end: `echo "{_EXIT_MARKER} $code"`.
unfoldable pub marker_line : ℕ → String
marker_line n = exit_prefix <> decimal n

-- The log that a script leaves: `> {log}` for the output of the command, and `>> {log}` for the marker.
unfoldable pub log_of : String → ℕ → String
log_of output n = output <> (marker_line n <> "\n")

-- The output is empty, or ends its last line.
pub data EndsLine : String → Type 0 where
  silent : EndsLine ""
  ended : (text : String) → EndsLine (text <> "\n")

abbrev pub is_newline : Char → Bool
is_newline c = code c == 10

wrong : false ≡ true → ⊥
wrong e = cc

-- Where no character passes, the text is one part.
split_by-one :
    (p : Char → Bool) (s : String) → all_chars (λ c. not (p c)) s ≡ true → split_by p s ≡ s ∷ []
unfolding split_by
split_by-one p String.[] h = refl
split_by-one p (String.◌∷◌ c s) h =
    let (first, others) = and_parts (not (p c)) (all_chars (λ c. not (p c)) s) h in
    put_first c (p c) s (split_by p s) first (split_by-one p s others)
  where
    put_first :
        (c : Char) (b : Bool) (s : String) (parts : List String)
        → not b ≡ true
        → parts ≡ s ∷ []
        → onto_first c b parts ≡ String.◌∷◌ c s ∷ []
    put_first c b s parts h e = go b h
      where
        go : (b : Bool) → not b ≡ true → onto_first c b parts ≡ String.◌∷◌ c s ∷ []
        go true h = elim (wrong h) [ ]
        go false h = rw e refl

digits_span : (d : String) → all_chars is_digit d ≡ true → span_digits d ≡ (d, "")
unfolding span_digits
digits_span String.[] h = refl
digits_span (String.◌∷◌ c s) h =
    let (first, others) = and_parts (is_digit c) (all_chars is_digit s) h in
    rw (first, digits_span s others) refl

drop_chars-prefix : (a b : String) → drop_chars (count a) (a <> b) ≡ b
unfolding drop_chars
drop_chars-prefix String.[] b = rw nil-append refl
drop_chars-prefix (String.◌∷◌ c a) b = rw (cons-append, length-cons) (drop_chars-prefix a b)

digits_of : (n : ℕ) → (str_eq (decimal n) "" ≡ false) × (all_chars is_digit (decimal n) ≡ true)
unfolding is_numeric
digits_of n =
    let d = (digits_value-decimal n).0 in
    let (some_char, digits) =
      and_parts (not (str_eq (decimal n) "")) (all_chars is_digit (decimal n)) d in
    (ground (arith, some_char), digits)

marked-decimal : (n : ℕ) → marked (span_digits (decimal n)) ≡ some (n, "")
marked-decimal n =
    let (some_char, digits) = digits_of n in
    rw (digits_span (decimal n) digits, some_char, (digits_value-decimal n).1) refl

pub exit_line-marker : (n : ℕ) → exit_line (marker_line n) ≡ some (n, "")
unfolding marker_line exit_line drop_chars
exit_line-marker n =
    rw
      (
        (starts_with_iff (exit_prefix <> decimal n) exit_prefix).1
            (prefix-append exit_prefix (decimal n)),
        drop_chars-prefix exit_prefix (decimal n),
      )
      (marked-decimal n)

no_newline :
    (s : String) → all_chars is_digit s ≡ true → all_chars (λ c. not (is_newline c)) s ≡ true
no_newline String.[] h = refl
no_newline (String.◌∷◌ c s) h =
    let (first, others) = and_parts (is_digit c) (all_chars is_digit s) h in
    and_intro _ _ (ground (arith, first)) (no_newline s others)

pub marker_lines : (n : ℕ) → raw_lines (marker_line n) ≡ marker_line n ∷ []
unfolding marker_line
marker_lines n = split_by-one is_newline (exit_prefix <> decimal n) (
    all_chars-append (λ c. not (is_newline c)) exit_prefix (decimal n) refl
      (no_newline (decimal n) (digits_of n).1))

split_by-cons :
    (p : Char → Bool) (s : String) → (h : String) × (t : List String) × (split_by p s ≡ h ∷ t)
unfolding split_by
split_by-cons p String.[] = ("", [], refl)
split_by-cons p (String.◌∷◌ c s) = put (p c) (split_by-cons p s)
  where
    put :
        (b : Bool)
        → (h : String) × (t : List String) × (split_by p s ≡ h ∷ t)
        → (h : String) × (t : List String) × (onto_first c b (split_by p s) ≡ h ∷ t)
    put true (h, t, e) = ("", split_by p s, refl)
    put false (h, t, e) = (String.◌∷◌ c h, t, rw e refl)

pub split_by-append :
    (p : Char → Bool) (a b : String) (c : Char)
    → p c ≡ true
    → split_by p (a <> String.◌∷◌ c b) ≡ split_by p a ++ split_by p b
unfolding split_by
split_by-append p String.[] b c e = rw (nil-append, e) refl
split_by-append p (String.◌∷◌ d a) b c e =
    rw (cons-append, split_by-append p a b c e) (put (p d) (split_by-cons p a))
  where
    put :
        (x : Bool)
        → (h : String) × (t : List String) × (split_by p a ≡ h ∷ t)
        → onto_first d x (split_by p a ++ split_by p b)
          ≡ onto_first d x (split_by p a) ++ split_by p b
    put true (h, t, eq) = refl
    put false (h, t, eq) = rw eq refl

pub exit_codes-append :
    (xs ys : List String) → exit_codes (xs ++ ys) ≡ exit_codes xs ++ exit_codes ys
unfolding exit_codes
exit_codes-append [] ys = refl
exit_codes-append (x ∷ xs) ys = put (exit_line x) (exit_codes-append xs ys)
  where
    put :
        (o : Option (ℕ × String))
        → exit_codes (xs ++ ys) ≡ exit_codes xs ++ exit_codes ys
        → or_code o (exit_codes (xs ++ ys)) ≡ or_code o (exit_codes xs) ++ exit_codes ys
    put none e = e
    put (some c) e = ap (λ codes. c.0 ∷ codes) e

pub last-append : (xs : List ℕ) (n : ℕ) → last (xs ++ (n ∷ [])) ≡ some n
last-append [] n = refl
last-append (x ∷ []) n = refl
last-append (x ∷ y ∷ xs) n = last-append (y ∷ xs) n
