-- ===== src/Security/Throttle.antt =====
-- The login throttle over any sequence of attempts, from any clients in any order.
use edgekit.Base.{
  Option-cases, ◌/◌, ◌-◌, ltb, if◌then◌else◌, ◌++◌, ◌*◌, none, eq_refl, arith, ◌<◌, length, ◌+◌,
  map, eq_iff, sym, ap, ◌∙◌, true, refl, inr, inl, str_eq, false, [], Bool-cases, ◌≡◌, ◌∷◌, Bool,
  keep, String, List, ℕ,
}
use edgekit.Security.{
  refused, fresh_bucket, second, admitted, check, bucket_or_fresh, Bucket, fail_bucket,
  record_success, record_failure, LoginThrottle,
}
use edgekit.Base.Dict

-- A login attempt that has been recorded: by which client, and how it went.
pub data Event : Type 0 where
  failed : String → ℕ → Event
  succeeded : String → Event

abbrev pub apply : Event → LoginThrottle → LoginThrottle
apply (failed key now) t = record_failure key now t
apply (succeeded key) t = record_success key t

pub run : List Event → LoginThrottle → LoginThrottle
run [] t = t
run (e ∷ es) t = run es (apply e t)

abbrev pub by : String → Event → Bool
by key (failed k now) = str_eq k key
by key (succeeded k) = str_eq k key

-- Attempts of other clients leave a client's bucket alone.
apply-other :
    (key : String) (e : Event) (t : LoginThrottle)
    → by key e ≡ false
    → Dict.lookup key (apply e t).buckets ≡ Dict.lookup key t.buckets
unfolding record_failure record_success
apply-other key (failed k now) t h = rw (Dict.lookup-insert, h)
apply-other key (succeeded k) t h = rw (Dict.lookup-erase, h)

same_key :
    (k key : String) (t : LoginThrottle)
    → str_eq k key ≡ true
    → Dict.lookup k t.buckets ≡ Dict.lookup key t.buckets
same_key k key t h = ap (λ j. Dict.lookup j t.buckets) ((eq_iff k key).0 h)

-- An attempt acts on what is held for the client, and on the two limits.
apply-cong :
    (key : String) (e : Event) (t u : LoginThrottle)
    → t.max_failures ≡ u.max_failures
    → t.lockout_seconds ≡ u.lockout_seconds
    → Dict.lookup key t.buckets ≡ Dict.lookup key u.buckets
    → by key e ≡ true
    → Dict.lookup key (apply e t).buckets ≡ Dict.lookup key (apply e u).buckets
unfolding record_failure record_success fail_bucket
apply-cong key (failed k now) t u hm hl hb mine =
    rw (Dict.lookup-insert, Dict.lookup-insert, mine)
      (rw (hm, hl, same_key k key t mine, same_key k key u mine, hb))
apply-cong key (succeeded k) t u hm hl hb mine = rw (Dict.lookup-erase, Dict.lookup-erase, mine)

max_failures-apply : (e : Event) (t : LoginThrottle) → (apply e t).max_failures ≡ t.max_failures
unfolding record_failure record_success
max_failures-apply (failed k now) t = refl
max_failures-apply (succeeded k) t = refl

lockout_seconds-apply :
    (e : Event) (t : LoginThrottle) → (apply e t).lockout_seconds ≡ t.lockout_seconds
unfolding record_failure record_success
lockout_seconds-apply (failed k now) t = refl
lockout_seconds-apply (succeeded k) t = refl

-- Two throttles with the same settings and the same bucket of a client still hold the same for it,
-- one after any attempts, the other after those among them that are the client's own.
pub run-by :
    (key : String) (es : List Event) (t u : LoginThrottle)
    → t.max_failures ≡ u.max_failures
    → t.lockout_seconds ≡ u.lockout_seconds
    → Dict.lookup key t.buckets ≡ Dict.lookup key u.buckets
    → Dict.lookup key (run es t).buckets ≡ Dict.lookup key (run (keep (by key) es) u).buckets
unfolding run keep
run-by key [] t u hm hl hb = hb
run-by key (e ∷ es) t u hm hl hb = elim (Bool-cases (by key e)) [
  | inl mine ↦ rw mine (
      run-by key es (apply e t) (apply e u)
        (max_failures-apply e t ∙ hm ∙ sym (max_failures-apply e u))
        (lockout_seconds-apply e t ∙ hl ∙ sym (lockout_seconds-apply e u))
        (apply-cong key e t u hm hl hb mine))
  | inr other ↦ rw other (
      run-by key es (apply e t) u (max_failures-apply e t ∙ hm) (lockout_seconds-apply e t ∙ hl)
        (apply-other key e t other ∙ hb))
]

-- The failed attempts of one client at the given times.
abbrev pub failures_of : String → List ℕ → List Event
failures_of key = map (λ now. failed key now)

abbrev held : String → LoginThrottle → Bucket
held key t = bucket_or_fresh (Dict.lookup key t.buckets)

held-record_failure :
    (key : String) (now : ℕ) (t : LoginThrottle)
    → held key (record_failure key now t) ≡ fail_bucket t now (held key t)
unfolding record_failure
held-record_failure key now t = rw (Dict.lookup-insert, eq_refl)

-- One more failure, short of the limit.
fail_bucket_short :
    (t : LoginThrottle) (now : ℕ) (b : Bucket)
    → b.failures + 1 < t.max_failures
    → fail_bucket t now b ≡ record { failures = b.failures + 1; locked_until = b.locked_until }
unfolding fail_bucket
fail_bucket_short t now b h = ground arith

fail_bucket_full :
    (t : LoginThrottle) (now : ℕ) (b : Bucket)
    → b.failures + 1 ≡ t.max_failures
    → fail_bucket t now b ≡ record { failures = 0; locked_until = now + t.lockout_seconds * second }
unfolding fail_bucket
fail_bucket_full t now b h = ground arith

-- Short of the limit the failures add up, and the lock stays as it is.
held-failures :
    (key : String) (ts : List ℕ) (t : LoginThrottle)
    → (held key t).failures + length ts < t.max_failures
    → held key (run (failures_of key ts) t) ≡ record {
      failures = (held key t).failures + length ts;
      locked_until = (held key t).locked_until;
    }
unfolding run
held-failures key [] t h = ground arith
held-failures key (now ∷ ts) t h =
    let one = held-record_failure key now t ∙ fail_bucket_short t now (held key t) (omega arith) in
    held-failures key ts (record_failure key now t)
      (rw (one, max_failures-apply (failed key now) t) (omega arith))
    ∙ rw one (ground arith)

run-append : (es fs : List Event) (t : LoginThrottle) → run (es ++ fs) t ≡ run fs (run es t)
unfolding run
run-append [] fs t = refl
run-append (e ∷ es) fs t = run-append es fs (apply e t)

max_failures-run : (es : List Event) (t : LoginThrottle) → (run es t).max_failures ≡ t.max_failures
unfolding run
max_failures-run [] t = refl
max_failures-run (e ∷ es) t = max_failures-run es (apply e t) ∙ max_failures-apply e t

lockout_seconds-run :
    (es : List Event) (t : LoginThrottle) → (run es t).lockout_seconds ≡ t.lockout_seconds
unfolding run
lockout_seconds-run [] t = refl
lockout_seconds-run (e ∷ es) t = lockout_seconds-run es (apply e t) ∙ lockout_seconds-apply e t

check-held :
    (key : String) (c later : ℕ) (t : LoginThrottle)
    → check key c later t ≡ (
        if ltb c (held key t).locked_until
        then refused (((held key t).locked_until - later) / second)
        else admitted)
unfolding check
check-held key c later t = elim (Option-cases (Dict.lookup key t.buckets)) [
  | inl e ↦ rw e (ground arith)
  | inr e ↦ rw (e.1)
]

held-run :
    (key : String) (es fs : List Event) (t : LoginThrottle)
    → keep (by key) es ≡ fs
    → held key (run es t) ≡ held key (run fs t)
held-run key es fs t h = ap bucket_or_fresh (run-by key es t t refl refl refl) ∙ rw h

-- The failure that reaches the limit.
held-last_failure :
    (key : String) (now n : ℕ) (u : LoginThrottle)
    → held key u ≡ record { failures = n; locked_until = 0 }
    → n + 1 ≡ u.max_failures
    → held key (run (failed key now ∷ []) u)
      ≡ record { failures = 0; locked_until = now + u.lockout_seconds * second }
unfolding run
held-last_failure key now n u h limit =
    held-record_failure key now u
    ∙ rw h (fail_bucket_full u now (record { failures = n; locked_until = 0 }) limit)

-- A client with no bucket whose attempts, among those of any others, are all failures, one short of
-- the limit and one more at `now`, is refused until `lockout_seconds` have passed, and then admitted.
pub lockout :
    (key : String) (es : List Event) (ts : List ℕ) (now c later : ℕ) (t : LoginThrottle)
    → Dict.lookup key t.buckets ≡ none
    → keep (by key) es ≡ failures_of key ts ++ (failed key now ∷ [])
    → length ts + 1 ≡ t.max_failures
    → check key c later (run es t) ≡ (
        if ltb c (now + t.lockout_seconds * second)
        then refused ((now + t.lockout_seconds * second - later) / second)
        else admitted)
lockout key es ts now c later t absent mine limit = check-held key c later (run es t) ∙ rw locked
  where
    start : held key t ≡ fresh_bucket
    start = ap bucket_or_fresh absent

    counted :
        held key (run (failures_of key ts) t) ≡ record { failures = length ts; locked_until = 0 }
    counted = held-failures key ts t (rw start (omega arith)) ∙ rw start (ground arith)

    locked :
        held key (run es t)
        ≡ record { failures = 0; locked_until = now + t.lockout_seconds * second }
    locked =
        held-run key es _ t mine
        ∙ rw run-append (
            held-last_failure key now (length ts) (run (failures_of key ts) t) counted
              (limit ∙ sym (max_failures-run (failures_of key ts) t))
            ∙ rw lockout_seconds-run)

-- A client with no bucket whose attempts, among those of any others, are failures only, and fewer
-- than the limit, is admitted.
pub below_limit :
    (key : String) (es : List Event) (ts : List ℕ) (c later : ℕ) (t : LoginThrottle)
    → Dict.lookup key t.buckets ≡ none
    → keep (by key) es ≡ failures_of key ts
    → length ts < t.max_failures
    → check key c later (run es t) ≡ admitted
below_limit key es ts c later t absent mine short =
    check-held key c later (run es t) ∙ rw counted (ground arith)
  where
    start : held key t ≡ fresh_bucket
    start = ap bucket_or_fresh absent

    counted : held key (run es t) ≡ record { failures = length ts; locked_until = 0 }
    counted =
        held-run key es _ t mine
        ∙ held-failures key ts t (rw start (omega arith))
        ∙ rw start (ground arith)
