-- ===== src/Firewall/Applied.antt =====
-- The rules that a run of the script leaves: `run_script` and `rules_present`.
use edgekit.Firewall.Settled.{
  trans_le, settled_one-added, settled_one-there, settled_one-ge, settled-ge, settled-cons,
  settled-all, and_false, settled_one, settled, and_true,
}
use edgekit.Firewall.Iptables.{IsIptables, bump}
use edgekit.Base.{
  subst, all, [], for_each, refl, sym, Triple-raise, Triple-pure, ◌>>◌, Triple-if, Triple-weaken,
  ◌+◌, ap, Triple-bind, ◌∷◌, ◌∙◌, true, none, false, arith, ltb, Triple, ◌>>=◌, ◌≤◌, ◌≡◌, ℕ, List,
  pure,
}
use edgekit.Firewall.Rules.{
  rules, rules_present, script_rules, Names, run_script, all_present, add_rule, check_rule, Rule,
  iptables,
}
use edgekit.System.Shell.{
  required, run_checked_input, run_checked, Result, run_input, run, succeeded, Host,
}

module _ {H : Host} (laws : IsIptables H) where
  abbrev pub Counts : (Rule → ℕ) → H.State → Type 0
  Counts c s = (q : Rule) → laws.count q s ≡ c q

  -- No rule is lost, and none is there beyond `d`.
  abbrev pub Between : (Rule → ℕ) → (Rule → ℕ) → H.State → Type 0
  Between c d s = (q : Rule) → (c q ≤ laws.count q s) × (laws.count q s ≤ d q)

  pub check_rule-Counts :
      (c : Rule → ℕ) (r : Rule)
      → Triple
          (Counts c)
          (check_rule H r)
          (λ present s. (present ≡ ltb 0 (c r)) × Counts c s)
          (λ e s. ⊥)
  unfolding check_rule run ◌>>=◌ pure run_input
  check_rule-Counts c r = record {
    at = λ s h. (laws.check_ended r s ∙ ap (ltb 0) (h r), λ q. laws.check_keeps r q s ∙ h q);
  }

  -- How `-A` leaves the counts, by how it ended.
  abbrev Appended : (Rule → ℕ) → Rule → Result → H.State → Type 0
  Appended c r result s =
      (succeeded result ≡ true → Counts (λ q. c q + bump r q) s)
      × (succeeded result ≡ false → Counts c s)

  append-Appended :
      (c : Rule → ℕ) (r : Rule)
      → Triple (Counts c) (run_input H (iptables "-A" r) none) (Appended c r) (λ e s. Counts c s)
  unfolding run_input
  append-Appended c r = record {
    at = λ s h. (
      λ e q. laws.append_adds r q s e ∙ ap (λ n. n + bump r q) (h q),
      λ e q. laws.append_fails r q s e ∙ h q,
    );
  }

  append_rule-Counts :
      (c : Rule → ℕ) (r : Rule)
      → Triple
          (Counts c)
          (run_checked H (iptables "-A" r) >> pure tt)
          (λ _ s. Counts (λ q. c q + bump r q) s)
          (λ e s. Counts c s)
  unfolding run_checked run_checked_input required
  append_rule-Counts c r =
      Triple-bind (λ _ s. Counts (λ q. c q + bump r q) s) _ _
        (Triple-bind (Appended c r) _ _ (append-Appended c r) (λ result.
          Triple-if (succeeded result) _ _ (λ e. Triple-pure _ (λ s h. h.0 e))
            (λ e. Triple-raise _ (λ s h. h.1 e))))
        (λ _. Triple-pure _ (λ s h. h))

  add_rule-Counts :
      (c : Rule → ℕ) (r : Rule)
      → Triple (Counts c) (add_rule H r) (λ _ s. Counts (settled_one r c) s) (λ e s. Counts c s)
  unfolding add_rule
  add_rule-Counts c r =
      Triple-bind (λ present s. (present ≡ ltb 0 (c r)) × Counts c s) _ _
        (Triple-weaken _ (check_rule-Counts c r) (λ s h. h) (λ a s h. h) (λ e s. elim [ ]))
        (λ present.
          Triple-if present _ _
            (λ e. Triple-pure tt (λ s h q. h.1 q ∙ settled_one-there r c q (sym h.0 ∙ e)))
            (λ e. record {
              at = λ s h.
                  (Triple-weaken {Q' = λ _ t. Counts (settled_one r c) t} _ (append_rule-Counts c r)
                      (λ t g. g) (λ a t g q. g q ∙ settled_one-added r c q (sym h.0 ∙ e))
                      (λ x t g. g)).at
                    s h.1;
            }))

  Counts-Between :
      (rs : List Rule) (c : Rule → ℕ) (s : H.State) → Counts c s → Between c (settled rs c) s
  Counts-Between rs c s h q =
      let same = h q in let more = settled-ge rs c q in (omega arith, omega arith)

  Between-cons :
      (r : Rule) (rs : List Rule) (c : Rule → ℕ) (s : H.State)
      → Between (settled_one r c) (settled rs (settled_one r c)) s
      → Between c (settled (r ∷ rs) c) s
  Between-cons r rs c s h q =
      let above = settled_one-ge r c q in
      let equal = settled-cons r rs c q in
      let (low, high) = h q in (trans_le above low, subst (λ n. laws.count q s ≤ n) equal high)

  run_rules-Counts :
      (c : Rule → ℕ) (rs : List Rule)
      → Triple
          (Counts c)
          (for_each rs (add_rule H))
          (λ _ s. Counts (settled rs c) s)
          (λ e s. Between c (settled rs c) s)
  unfolding for_each settled
  run_rules-Counts c [] = Triple-pure tt (λ s h. h)
  run_rules-Counts c (r ∷ rs) =
      Triple-bind (λ _ s. Counts (settled_one r c) s) _ _
        (Triple-weaken _ (add_rule-Counts c r) (λ s h. h) (λ a s h. h)
          (λ e. Counts-Between (r ∷ rs) c))
        (λ _.
          Triple-weaken _ (run_rules-Counts (settled_one r c) rs) (λ s h. h)
            (λ a s h q. h q ∙ settled-cons r rs c q) (λ e. Between-cons r rs c))

  -- By the laws of `iptables`: run where each rule `q` stands `c q` times, the script either returns with one of each of its
  -- rules that was missing and every other count as it was, or it raises with no rule lost and none
  -- there that the whole run would not have added.
  pub run_script-Settled :
      (n : Names) (c : Rule → ℕ)
      → Triple
          (Counts c)
          (run_script H n)
          (λ _ s. Counts (settled (script_rules n) c) s)
          (λ e s. Between c (settled (script_rules n) c) s)
  unfolding run_script
  run_script-Settled n c = run_rules-Counts c (script_rules n)

  all_present-Counts :
      (c : Rule → ℕ) (rs : List Rule)
      → Triple
          (Counts c)
          (all_present H rs)
          (λ there s. (there ≡ all (λ r. ltb 0 (c r)) rs) × Counts c s)
          (λ e s. ⊥)
  unfolding all_present
  all_present-Counts c [] = Triple-pure true (λ s h. (refl, h))
  all_present-Counts c (r ∷ rs) =
      Triple-bind (λ present s. (present ≡ ltb 0 (c r)) × Counts c s) _ _ (check_rule-Counts c r)
        (λ present.
          Triple-if present _ _
            (λ e. record {
              at = λ s h.
                  (Triple-weaken
                      {Q' = λ there t. (there ≡ all (λ q. ltb 0 (c q)) (r ∷ rs)) × Counts c t} _
                      (all_present-Counts c rs) (λ t g. g)
                      (λ there t g. (g.0 ∙ and_true _ _ (sym h.0 ∙ e), g.1)) (λ x t g. g)).at
                    s h.1;
            })
            (λ e. Triple-pure false (λ s h. (and_false _ _ (sym h.0 ∙ e), h.1))))

  -- By the laws of `iptables`: whatever rules there were, once the script has returned `rules_present` finds the rules of the
  -- module, and it changes none.
  pub run_script-rules_present :
      (n : Names) (c : Rule → ℕ)
      → Triple
          (Counts c)
          (run_script H n >>= λ _. rules_present H n)
          (λ there s. (there ≡ true) × Counts (settled (script_rules n) c) s)
          (λ e s. Between c (settled (script_rules n) c) s)
  unfolding rules_present rules script_rules
  run_script-rules_present n c =
      Triple-bind (λ _ s. Counts (settled (script_rules n) c) s) _ _ (run_script-Settled n c)
        (λ _.
          Triple-weaken _ (all_present-Counts (settled (script_rules n) c) (script_rules n))
            (λ s h. h) (λ there s h. (h.0 ∙ settled-all (script_rules n) c, h.1)) (λ e s. elim [ ]))
