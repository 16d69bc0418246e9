-- ===== src/System/Packages/Waits.antt =====
-- The waits for the package lock end.
use edgekit.Base.{
  zero, ltb→lt, Triple-known, refl, ltb, [], Triple-weaken, is_some, Triple-if, ◌∷◌, suc, strip,
  some, if◌then◌else◌, false, arith, Triple-gets, Triple-bind, ◌≤◌, ◌≡◌, ◌>>=◌, ◌<◌, ◌-◌, ◌+◌,
  str_eq, none, gets, Triple-pure, Triple, String, Option, Bool, ℕ, true, List, pure,
}
use edgekit.System.Packages.{apt_lock_poll, Machine}
use edgekit.System.Shell.{run_input, run, succeeded}
use edgekit.System.Packages.Apt.{
  wait_for_apt_lock, wait_rounds, run_holder, remembered, or_else, answered, apt_has_lock_timeout,
  sleep, holder_by_pgrep, holder_by_fuser, ask_lock_timeout, apt_lock_holder, apt_argv,
  PackageAction,
}
use edgekit.Firewall.Settled.{trans_le}

-- The clock never goes back, and sleeping takes its time.
pub record Ticks (M : Machine) : Type 0 where
  pub start_later :
      (argv : List String) (input : Option String) (s : M.host.State)
      → M.monotonic s ≤ M.monotonic (M.host.start argv input s).1
  pub sleep_later : (n : ℕ) (s : M.host.State) → M.monotonic s + n ≤ M.monotonic (M.sleep n s)
  pub remember_later : (b : Bool) (s : M.host.State) → M.monotonic s ≤ M.monotonic (M.remember b s)

pub impossible : {n : ℕ} → n < 0 → ⊥
impossible h = omega arith

trans_lt : {a b c : ℕ} → a ≤ b → b < c → a < c
trans_lt p q = omega arith

sooner : {a b : ℕ} → a + 5 ≤ b → a ≤ b
sooner h = omega arith

pub closer :
    (deadline lo fuel : ℕ) → lo < deadline → deadline - lo < suc fuel → deadline - (lo + 5) < fuel
closer deadline lo fuel before enough = omega arith

module _ {M : Machine} (ticks : Ticks M) where
  -- It is `lo` or later.
  abbrev pub Since : ℕ → M.host.State → Type 0
  Since lo s = lo ≤ M.monotonic s

  -- `m` returns, at `lo` or later.
  abbrev Calm : {A : Type 0} → ℕ → PackageAction M A → Type 0
  Calm lo m = Triple (Since lo) m (λ _. Since lo) (λ e s. ⊥)

  module _ {lo : ℕ} {A : Type 0} where
    Calm-pure : (a : A) → Calm lo (pure a)
    Calm-pure a = Triple-pure a (λ s h. h)

    Calm-gets : (g : M.host.State → A) → Calm lo (gets g)
    Calm-gets g = Triple-gets g (λ s h. h)

    Calm-if :
        (b : Bool) (m n : PackageAction M A) → Calm lo m → Calm lo n → Calm lo (if b then m else n)
    Calm-if b m n km kn = Triple-if b m n (λ _. km) (λ _. kn)

    Calm-bind :
        {B : Type 0} (m : PackageAction M A) (k : A → PackageAction M B)
        → Calm lo m
        → ((a : A) → Calm lo (k a))
        → Calm lo (m >>= k)
    Calm-bind m k km kk = Triple-bind (λ _. Since lo) m k km kk

  module _ (lo : ℕ) where
    pub run-Since : (argv : List String) → Calm lo (run M.host argv)
    unfolding run run_input
    run-Since argv = record { at = λ s h. trans_le h (ticks.start_later argv none s) }

    run_holder-Since : (argv : List String) → Calm lo (run_holder M argv)
    run_holder-Since argv = Calm-bind _ _ (run-Since argv) (λ r. Calm-pure _)

    or_else-Since :
        (pid : Option String) (next : PackageAction M (Option String))
        → Calm lo next
        → Calm lo (or_else M pid next)
    or_else-Since none next k = k
    or_else-Since (some pid) next k = Calm-pure _

    holder_by_fuser-Since : (paths : List String) → Calm lo (holder_by_fuser M paths)
    unfolding holder_by_fuser
    holder_by_fuser-Since [] = Calm-pure none
    holder_by_fuser-Since (path ∷ paths) = Calm-bind _ _ (Calm-gets _) (λ there.
        Calm-if (is_some there) _ _
          (Calm-bind _ _ (run_holder-Since _)
            (λ pid. or_else-Since pid _ (holder_by_fuser-Since paths)))
          (holder_by_fuser-Since paths))

    holder_by_pgrep-Since : Calm lo (holder_by_pgrep M)
    unfolding holder_by_pgrep
    holder_by_pgrep-Since =
        Calm-bind _ _ (run_holder-Since _) (λ pid. or_else-Since pid _ (run_holder-Since _))

    apt_lock_holder-Since : Calm lo (apt_lock_holder M)
    unfolding apt_lock_holder
    apt_lock_holder-Since = Calm-bind _ _ (Calm-gets _) (λ fuser.
        Calm-if fuser _ _ (holder_by_fuser-Since _) (
          Calm-bind _ _ (Calm-gets _)
            (λ pgrep. Calm-if pgrep _ _ holder_by_pgrep-Since (Calm-pure none))))

    remembered-Since : (b : Bool) → Calm lo (remembered M b)
    remembered-Since b = record { at = λ s h. trans_le h (ticks.remember_later b s) }

    ask_lock_timeout-Since : Calm lo (ask_lock_timeout M)
    unfolding ask_lock_timeout
    ask_lock_timeout-Since = Calm-bind _ _ (run-Since _) (λ r.
        Calm-if (str_eq (strip r.stdout) "") _ _ (remembered-Since false)
          (Calm-bind _ _ (run-Since _) (λ c. remembered-Since (succeeded c))))

    answered-Since : (o : Option Bool) → Calm lo (answered M o)
    answered-Since none = ask_lock_timeout-Since
    answered-Since (some b) = Calm-pure b

    pub apt_argv-Since : (lock_wait : ℕ) (args : List String) → Calm lo (apt_argv M lock_wait args)
    unfolding apt_argv apt_has_lock_timeout
    apt_argv-Since lock_wait args =
        Calm-bind _ _ (Calm-bind _ _ (Calm-gets _) answered-Since) (λ b. Calm-pure _)

    pub sleep-Since : Triple (Since lo) (sleep M apt_lock_poll) (λ u. Since (lo + 5)) (λ e s. ⊥)
    unfolding sleep
    sleep-Since = record { at = λ s h. slept lo _ _ h (ticks.sleep_later 5 s) }
      where
        slept : (a b c : ℕ) → a ≤ b → b + 5 ≤ c → a + 5 ≤ c
        slept a b c p q = omega arith

    pub clock-Since :
        Triple (Since lo) (gets M.monotonic) (λ now s. (lo ≤ now) × Since lo s) (λ e s. ⊥)
    clock-Since = Triple-gets _ (λ s h. (h, h))

  -- The rounds of the wait end before the fuel does.
  wait_rounds-Since :
      (fuel deadline lo : ℕ)
      → deadline - lo < fuel
      → Triple
          (Since lo)
          (wait_rounds M fuel deadline)
          (λ done s. (done ≡ true) × Since lo s)
          (λ e s. ⊥)
  unfolding wait_rounds
  wait_rounds-Since zero deadline lo enough = elim (impossible enough) [ ]
  wait_rounds-Since (suc fuel) deadline lo enough =
      Triple-bind (λ now s. (lo ≤ now) × Since lo s) _ _ (clock-Since lo)
        (λ now.
          Triple-if (ltb now deadline) _ _
            (λ early.
              Triple-known _ (λ s h. trans_lt h.0 (ltb→lt now deadline early))
                (λ before.
                  Triple-bind (λ u. Since (lo + 5)) _ _
                    (Triple-weaken _ (sleep-Since lo) (λ s h. h.1) (λ a s h. h) (λ e s h. h))
                    (λ u.
                      Triple-bind (λ pid. Since (lo + 5)) _ _ (apt_lock_holder-Since (lo + 5))
                        (λ pid.
                          Triple-if (is_some pid) _ _
                            (λ held.
                              Triple-weaken _
                                (wait_rounds-Since fuel deadline (lo + 5)
                                  (closer deadline lo fuel before enough))
                                (λ s h. h) (λ done s h. (h.0, sooner h.1)) (λ e s h. h))
                            (λ free. Triple-pure true (λ s h. (refl, sooner h)))))))
            (λ late. Triple-pure true (λ s h. (refl, h.1))))

  pub wait_for_apt_lock-Since :
      (fuel deadline lo : ℕ)
      → deadline - lo < fuel
      → Triple
          (Since lo)
          (wait_for_apt_lock M fuel deadline)
          (λ done s. (done ≡ true) × Since lo s)
          (λ e s. ⊥)
  unfolding wait_for_apt_lock
  wait_for_apt_lock-Since fuel deadline lo enough =
      Triple-bind (λ pid. Since lo) _ _ (apt_lock_holder-Since lo)
        (λ pid.
          Triple-if (is_some pid) _ _ (λ held. wait_rounds-Since fuel deadline lo enough)
            (λ free. Triple-pure true (λ s h. (refl, h))))
