-- ===== src/Firewall/Undone.antt =====
-- Removing the rules undoes adding them: `run_script`, and then the loops of `remove_edgekit_rules`.
use edgekit.Firewall.Cleared.{one_less, impossible, delete_all-Cleared, Cleared}
use edgekit.Base.{
  subst, ltb→lt, ◌-◌, Triple-known, ◌||◌, sym, Triple-if, ◌+◌, ap, ltb, false, Bool, ◌∙◌,
  Triple-both, zero, Triple-weaken, suc, Triple-bind, ◌>>=◌, true, [], Triple-pure, ◌≡◌, ◌∷◌,
  if◌then◌else◌, arith, Triple, ◌<◌, ℕ, List, pure,
}
use edgekit.Firewall.Iptables.{bump, same_rule-eq, same_rule, IsIptables, ended_well}
use edgekit.System.Shell.{run_input, run, Host}
use edgekit.Firewall.Applied.{check_rule-Counts, Counts, Between, run_script-Settled}
use edgekit.Firewall.Remove.{delete_rule, counted, delete_all, delete_rules, cleared, LoopEnd}
use mathlib.Core.Path.{refl}
use edgekit.Firewall.Rules.{Rule, Names, rules, script_rules, run_script}
use edgekit.Firewall.Settled.{covered, settled}

-- The counts with no rule of the list.
unfoldable pub without : List Rule → (Rule → ℕ) → Rule → ℕ
without rs c q = if covered rs q then 0 else c q

without-cons :
    (r : Rule) (rs : List Rule) (c : Rule → ℕ) (q : Rule)
    → without rs (without (r ∷ []) c) q ≡ without (r ∷ rs) c q
unfolding without
without-cons r rs c q = ground arith

without-settled :
    (rs : List Rule) (c : Rule → ℕ) (q : Rule) → without rs (settled rs c) q ≡ without rs c q
unfolding without settled
without-settled rs c q = ground arith

without-less :
    (rs : List Rule) (c : Rule → ℕ) (fuel : ℕ) (q : Rule) → c q < fuel → without rs c q < fuel
unfolding without
without-less rs c fuel q h = ground arith

settled-less :
    (rs : List Rule) (c : Rule → ℕ) (fuel : ℕ) (q : Rule)
    → 1 < fuel
    → c q < fuel
    → settled rs c q < fuel
unfolding settled
settled-less rs c fuel q one h = ground arith

pick :
    (b : Bool) (m n k : ℕ)
    → (b ≡ true → m ≡ 0)
    → m + (if b then n else 0) ≡ k
    → m ≡ (if b || false then 0 else k)
pick true m n k h e = h refl
pick false m n k h e = omega arith

true-false : true ≡ false → ⊥
true-false e = cc

counted-cleared : (e : LoopEnd × ℕ) → e.0 ≡ cleared → (counted e).0 ≡ cleared
counted-cleared (end, n) h = h

module _ {H : Host} (laws : IsIptables H) where
  -- `iptables` deletes a rule that is there.
  abbrev pub Deletes : Type 0
  Deletes = (r : Rule) (s : H.State) → 0 < laws.count r s → ended_well H "-D" r s ≡ true

  module _ (deletes : Deletes) where
    delete_rule-Done :
        (c : Rule → ℕ) (r : Rule)
        → 0 < c r
        → Triple
            (Counts laws c)
            (delete_rule H r)
            (λ done s. (done ≡ true) × Counts laws (λ q. c q - bump r q) s)
            (λ e s. ⊥)
    unfolding delete_rule run ◌>>=◌ pure run_input
    delete_rule-Done c r there = record {
      at = λ s h.
          let d = deletes r s (subst (λ n. 0 < n) (sym (h r)) there) in
          (d, λ q. laws.delete_takes r q s d ∙ ap (λ n. n - bump r q) (h q));
    }

    -- The loop over a rule ends because the rule is gone.
    delete_all-cleared :
        (fuel : ℕ) (c : Rule → ℕ) (r : Rule)
        → c r < fuel
        → Triple (Counts laws c) (delete_all H fuel r) (λ e s. e.0 ≡ cleared) (λ e s. ⊥)
    unfolding delete_all
    delete_all-cleared zero c r enough = elim (impossible enough) [ ]
    delete_all-cleared (suc fuel) c r enough =
        Triple-bind (λ present s. (present ≡ ltb 0 (c r)) × Counts laws c s) _ _
          (check_rule-Counts laws c r)
          (λ present.
            Triple-if present _ _
              (λ e.
                Triple-known _ (λ s h. ltb→lt 0 (c r) (sym h.0 ∙ e))
                  (λ there.
                    Triple-bind (λ done s. (done ≡ true) × Counts laws (λ q. c q - bump r q) s) _ _
                      (Triple-weaken _ (delete_rule-Done c r there) (λ s h. h.1) (λ a s h. h)
                        (λ x s h. h))
                      (λ done.
                        Triple-if done _ _
                          (λ d.
                            Triple-bind (λ e s. e.0 ≡ cleared) _ _
                              (Triple-weaken _
                                (delete_all-cleared fuel (λ q. c q - bump r q) r
                                  (one_less r c fuel there enough))
                                (λ s h. h.1) (λ end s h. h) (λ x s h. h))
                              (λ end. Triple-pure _ (λ s h. counted-cleared end h)))
                          (λ d.
                            Triple-known _ (λ s h. true-false (sym h.0 ∙ d)) (λ w. elim w [ ])))))
              (λ e. Triple-pure _ (λ s h. refl)))

    gone :
        (c : Rule → ℕ) (r : Rule) (e : LoopEnd × ℕ) (s : H.State)
        → Cleared laws c r e s
        → e.0 ≡ cleared
        → Counts laws (without (r ∷ []) c) s
    unfolding without
    gone c r e s k done q =
        pick (same_rule r q) (laws.count q s) e.1 (c q)
          (λ same. ap (λ x. laws.count x s) (sym (same_rule-eq r q same)) ∙ k.gone done)
          (k.deleted q)

    delete_rules-Counts :
        (fuel : ℕ) (rs : List Rule) (c : Rule → ℕ)
        → ((q : Rule) → c q < fuel)
        → Triple
            (Counts laws c)
            (delete_rules H fuel rs)
            (λ n s. Counts laws (without rs c) s)
            (λ e s. ⊥)
    unfolding delete_rules without
    delete_rules-Counts fuel [] c enough = Triple-pure 0 (λ s h. h)
    delete_rules-Counts fuel (r ∷ rs) c enough =
        Triple-bind (λ e s. Counts laws (without (r ∷ []) c) s) _ _
          (Triple-weaken _
            (Triple-both _ (delete_all-Cleared laws fuel c r (enough r))
              (delete_all-cleared fuel c r (enough r)))
            (λ s h. h) (λ e s h. gone c r e s h.0 h.1) (λ e s h. h.0))
          (λ e.
            Triple-bind (λ n s. Counts laws (without (r ∷ rs) c) s) _ _
              (Triple-weaken _
                (delete_rules-Counts fuel rs (without (r ∷ []) c)
                  (λ q. without-less (r ∷ []) c fuel q (enough q)))
                (λ s h. h) (λ n s h q. h q ∙ without-cons r rs c q) (λ x s h. h))
              (λ n. Triple-pure _ (λ s h. h)))

    -- By the laws of `iptables`, where it deletes a rule that is there, and with more fuel than there are copies of any
    -- rule and more than one, removing the rules after the script has returned leaves none of them, and
    -- every other rule as often as before the script. If the script raises, no rule is lost and none is
    -- there that the whole run would not have added.
    pub delete_rules-undoes :
        (fuel : ℕ) (n : Names) (c : Rule → ℕ)
        → 1 < fuel
        → ((q : Rule) → c q < fuel)
        → Triple
            (Counts laws c)
            (run_script H n >>= λ u. delete_rules H fuel (rules n))
            (λ m s. Counts laws (without (rules n) c) s)
            (λ e s. Between laws c (settled (script_rules n) c) s)
    unfolding rules script_rules
    delete_rules-undoes fuel n c one enough =
        Triple-bind (λ u s. Counts laws (settled (script_rules n) c) s) _ _
          (run_script-Settled laws n c)
          (λ u.
            Triple-weaken _
              (delete_rules-Counts fuel (rules n) (settled (script_rules n) c)
                (λ q. settled-less (script_rules n) c fuel q one (enough q)))
              (λ s h. h) (λ m s h q. h q ∙ without-settled (script_rules n) c q) (λ e s. elim [ ]))
