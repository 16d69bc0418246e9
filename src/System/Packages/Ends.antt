-- ===== src/System/Packages/Ends.antt =====
-- `apt` ends, with a result or CommandError.
use edgekit.Base.{
  ◌∙◌, zero, Triple-raise, sym, not, Triple-known, refl, Triple-weaken, leb, command_error,
  Triple-if, ◌||◌, suc, some, false, arith, Triple-gets, Triple-bind, ◌≤◌, ◌≡◌, ◌<◌, ◌-◌, ◌+◌,
  Triple-pure, Triple, String, Option, Bool, ℕ, true, List, Char,
}
use edgekit.System.Packages.{is_lock_error, Machine}
use edgekit.System.Shell.{Result, succeeded}
use edgekit.System.Packages.Apt.{attempt_apt, apt_rounds, apt, PackageAction}
use edgekit.System.Packages.Waits.{
  Ticks, Since, impossible, closer, wait_for_apt_lock-Since, apt_argv-Since, run-Since, clock-Since,
  sleep-Since,
}

still_early :
    (lo now deadline : ℕ) (b : Bool) → lo ≤ now → b || leb deadline now ≡ false → lo < deadline
still_early lo now deadline b p q = ground arith

true-false : true ≡ false → ⊥
true-false e = cc

reflexive : (n : ℕ) → n ≤ n
reflexive n = omega arith

in_time : (now wait fuel : ℕ) → wait < fuel → (now + wait) - now < fuel
in_time now wait fuel h = omega arith

module _ {M : Machine} (ticks : Ticks M) (other : Char → String) where
  -- There is a result, of a command that succeeded.
  abbrev pub Done : Option Result → M.host.State → Type 0
  Done o s = (r : Result) × (o ≡ some r) × (succeeded r ≡ true)

  attempt_apt-Done :
      (lock_wait deadline lo : ℕ) (args : List String) (again : PackageAction M (Option Result))
      → (lo < deadline → Triple (Since ticks (lo + 5)) again Done (λ e s. e ≡ command_error))
      → Triple
          (Since ticks lo)
          (attempt_apt M other lock_wait deadline args again)
          Done
          (λ e s. e ≡ command_error)
  unfolding attempt_apt
  attempt_apt-Done lock_wait deadline lo args again next =
      Triple-bind (λ argv. Since ticks lo) _ _ (calm (apt_argv-Since ticks lo lock_wait args))
        (λ argv.
          Triple-bind (λ r. Since ticks lo) _ _ (calm (run-Since ticks lo argv))
            (λ r.
              Triple-bind (λ now s. (lo ≤ now) × Since ticks lo s) _ _ (calm (clock-Since ticks lo))
                (λ now.
                  Triple-if (succeeded r) _ _
                    (λ fine. Triple-pure (some r) (λ s h. (r, refl, fine)))
                    (λ failed.
                      Triple-if (not (is_lock_error other r) || leb deadline now) _ _
                        (λ give_up. Triple-raise command_error (λ s h. refl))
                        (λ locked.
                          Triple-known _ (λ s h. still_early lo now deadline _ h.0 locked)
                            (λ before.
                              Triple-bind (λ u. Since ticks (lo + 5)) _ _
                                (Triple-weaken _ (sleep-Since ticks lo) (λ s h. h.1) (λ a s h. h)
                                  (λ e s. elim [ ]))
                                (λ u. next before)))))))
    where
      calm :
          {A : Type 0} {m : PackageAction M A} {Q : A → M.host.State → Type 0}
          → Triple (Since ticks lo) m Q (λ e s. ⊥)
          → Triple (Since ticks lo) m Q (λ e s. e ≡ command_error)
      calm k = Triple-weaken _ k (λ s h. h) (λ a s h. h) (λ e s. elim [ ])

  apt_rounds-Done :
      (fuel lock_wait deadline lo : ℕ) (args : List String)
      → deadline - lo < fuel
      → Triple
          (Since ticks lo)
          (apt_rounds M other fuel lock_wait deadline args)
          Done
          (λ e s. e ≡ command_error)
  unfolding apt_rounds
  apt_rounds-Done zero lock_wait deadline lo args enough = elim (impossible enough) [ ]
  apt_rounds-Done (suc fuel) lock_wait deadline lo args enough =
      Triple-bind (λ waited s. (waited ≡ true) × Since ticks lo s) _ _
        (Triple-weaken _ (wait_for_apt_lock-Since ticks (suc fuel) deadline lo enough) (λ s h. h)
          (λ a s h. h) (λ e s. elim [ ]))
        (λ waited.
          Triple-if waited _ _
            (λ e.
              Triple-weaken _
                (attempt_apt-Done lock_wait deadline lo args _ (λ before.
                  apt_rounds-Done fuel lock_wait deadline (lo + 5) args
                    (closer deadline lo fuel before enough)))
                (λ s h. h.1) (λ a s h. h) (λ e s h. h))
            (λ e. Triple-known _ (λ s h. sym h.0 ∙ e) (λ wrong. elim (true-false wrong) [ ])))

  -- The clock never going back and a sleep taking its time, with more fuel than the seconds that `apt` waits for the lock, it does not run out: `apt` returns
  -- the result of a command that succeeded, or it raises CommandError.
  pub apt-Done :
      (fuel lock_wait : ℕ) (args : List String)
      → lock_wait < fuel
      → Triple (Since ticks 0) (apt M other fuel lock_wait args) Done (λ e s. e ≡ command_error)
  unfolding apt
  apt-Done fuel lock_wait args enough =
      Triple-bind (λ now. Since ticks now) _ _ (Triple-gets _ (λ s h. reflexive (M.monotonic s)))
        (λ now.
          apt_rounds-Done fuel lock_wait (now + lock_wait) now args
            (in_time now lock_wait fuel enough))
