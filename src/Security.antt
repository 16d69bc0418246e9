-- ===== src/Security.antt =====
-- security.py: the policy on passwords, and the login throttle. A reading of the clock is an
-- argument, in microseconds, where the source calls `time.time()`. Password hashes and signed
-- sessions are calls of bcrypt and itsdangerous and are not modelled.
pub mod Throttle
use edgekit.Base.{
  ok, lower_by, contains, ◌||◌, ◌/◌, auth_error, ◌==◌, ◌-◌, ◌*◌, raised, ◌+◌, none, ltb, false, [],
  ◌∷◌, some, leb, code, Outcome, Bool, if◌then◌else◌, String, Option, List, Char, ℕ,
}
use edgekit.Base.Dict.{Dict}
use Prim.Native.String.{count}
use edgekit.Base.Dict

abbrev pub min_password_length : ℕ
min_password_length = 12

abbrev pub common_passwords : List String
common_passwords = "password" ∷ "changeme" ∷ "adminadmin" ∷ "edgekitadmin" ∷ []

abbrev pub has_char : ℕ → String → Bool
has_char n String.[] = false
has_char n (String.◌∷◌ c s) = code c == n || has_char n s

-- `len(set(password))`
unfoldable pub distinct : String → ℕ
distinct String.[] = 0
distinct (String.◌∷◌ c s) = (if has_char (code c) s then 0 else 1) + distinct s

-- The first rule that the password breaks is the exception; `other` lowers the characters beyond
-- ASCII.
unfoldable pub check_password_strength : (Char → String) → String → Outcome (Unit {0})
check_password_strength other password =
    if ltb (count password) min_password_length
    then raised (auth_error "length")
    else if contains (lower_by other password) common_passwords
    then raised (auth_error "common")
    else if ltb (distinct password) 5
    then raised (auth_error "distinct")
    else ok tt

-- Microseconds in a second.
abbrev pub second : ℕ
second = 1_000_000

pub record Bucket : Type 0 where
  pub failures : ℕ
  pub locked_until : ℕ

abbrev pub fresh_bucket : Bucket
fresh_bucket = record { failures = 0; locked_until = 0 }

pub record LoginThrottle : Type 0 where
  pub max_failures : ℕ
  pub lockout_seconds : ℕ
  pub buckets : Dict Bucket

-- Refused with the seconds that remain.
pub data Verdict : Type 0 where
  admitted : Verdict
  refused : ℕ → Verdict

abbrev verdict_of : Option Bucket → ℕ → ℕ → Verdict
verdict_of none now later = admitted
verdict_of (some b) now later =
    if ltb now b.locked_until then refused ((b.locked_until - later) / second) else admitted

-- The clock is read for the test, and once more for the message.
unfoldable pub check : String → ℕ → ℕ → LoginThrottle → Verdict
check key now later t = verdict_of (Dict.lookup key t.buckets) now later

-- `setdefault(key, _Bucket())`
abbrev pub bucket_or_fresh : Option Bucket → Bucket
bucket_or_fresh none = fresh_bucket
bucket_or_fresh (some b) = b

unfoldable pub fail_bucket : LoginThrottle → ℕ → Bucket → Bucket
fail_bucket t now b =
    if leb t.max_failures (b.failures + 1)
    then record { failures = 0; locked_until = now + t.lockout_seconds * second }
    else record b { failures = b.failures + 1 }

unfoldable pub record_failure : String → ℕ → LoginThrottle → LoginThrottle
record_failure key now t = record t {
  buckets =
      Dict.insert key (fail_bucket t now (bucket_or_fresh (Dict.lookup key t.buckets))) t.buckets;
}

unfoldable pub record_success : String → LoginThrottle → LoginThrottle
record_success key t = record t { buckets = Dict.erase key t.buckets }
