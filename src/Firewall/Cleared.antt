-- ===== src/Firewall/Cleared.antt =====
-- The loop that takes a rule away: it ends, and what it leaves.
use edgekit.Base.{
  Triple-weaken, sym, refl, ltb→lt, arith, Triple-known, zero, Triple-pure, false, Triple-if, ltb,
  ap, ◌∙◌, ◌-◌, Triple-bind, ◌≢◌, true, suc, ◌≡◌, ◌>>=◌, ◌+◌, Triple, ◌<◌, if◌then◌else◌, Bool, ℕ,
  pure,
}
use edgekit.Firewall.Iptables.{same_rule_self, same_rule-eq, bump, same_rule, IsIptables}
use edgekit.Firewall.Remove.{refused, counted, cleared, exhausted, LoopEnd, delete_rule, delete_all}
use edgekit.System.Shell.{run_input, run, Host}
use edgekit.Firewall.Rules.{Rule}
use edgekit.Firewall.Applied.{check_rule-Counts, Counts}

-- How often the rule counts for `q` where the loop deleted it `n` times.
abbrev pub times : Rule → Rule → ℕ → ℕ
times r q n = if same_rule r q then n else 0

none_deleted : (r q : Rule) (m n : ℕ) → m ≡ n → m + times r q 0 ≡ n
none_deleted r q m n e = go (same_rule r q)
  where
    go : (b : Bool) → m + (if b then 0 else 0) ≡ n
    go b = ground arith

not_above : (n : ℕ) → ltb 0 n ≡ false → n ≡ 0
not_above n h = ground arith

pub impossible : {n : ℕ} → n < 0 → ⊥
impossible h = omega arith

cleared-exhausted : cleared ≢ exhausted
cleared-exhausted e = cc

refused-exhausted : refused ≢ exhausted
refused-exhausted e = cc

refused-cleared : refused ≢ cleared
refused-cleared e = cc

pub one_less :
    (r : Rule) (c : Rule → ℕ) (fuel : ℕ) → 0 < c r → c r < suc fuel → c r - bump r r < fuel
one_less r c fuel there enough = go (same_rule r r) (same_rule_self r)
  where
    go : (b : Bool) → b ≡ true → c r - (if b then 1 else 0) < fuel
    go b e = ground arith

one_more :
    (b : Bool) (n count k m : ℕ)
    → (b ≡ true → m ≡ n)
    → 0 < m
    → count + (if b then k else 0) ≡ n - (if b then 1 else 0)
    → count + (if b then suc k else 0) ≡ n
one_more true n count k m same there h = let w : m ≡ n = same refl in omega arith
one_more false n count k m same there h = omega arith

module _ {H : Host} (laws : IsIptables H) where
  -- How `-D` leaves the counts, by whether it succeeded.
  abbrev Deleted : (Rule → ℕ) → Rule → Bool → H.State → Type 0
  Deleted c r done s =
      (done ≡ true → Counts laws (λ q. c q - bump r q) s) × (done ≡ false → Counts laws c s)

  delete_rule-Deleted :
      (c : Rule → ℕ) (r : Rule) → Triple (Counts laws c) (delete_rule H r) (Deleted c r) (λ e s. ⊥)
  unfolding delete_rule run ◌>>=◌ pure run_input
  delete_rule-Deleted c r = record {
    at = λ s h. (
      λ e q. laws.delete_takes r q s e ∙ ap (λ n. n - bump r q) (h q),
      λ e q. laws.delete_fails r q s e ∙ h q,
    );
  }

  -- How the loop ends: it has deleted as many as are missing now, and it has not stopped early: the
  -- rule is gone or `iptables` did not delete it.
  pub record Cleared (c : Rule → ℕ) (r : Rule) (e : LoopEnd × ℕ) (s : H.State) : Type 0 where
    pub deleted : (q : Rule) → laws.count q s + times r q e.1 ≡ c q
    pub ended : e.0 ≢ exhausted
    pub gone : e.0 ≡ cleared → laws.count r s ≡ 0

  finished :
      (c : Rule → ℕ) (r : Rule) (s : H.State)
      → ltb 0 (c r) ≡ false
      → Counts laws c s
      → Cleared c r (cleared, 0) s
  finished c r s none_left h = record {
    deleted = λ q. none_deleted r q _ _ (h q);
    ended = λ e. cleared-exhausted e;
    gone = λ e. h r ∙ not_above (c r) none_left;
  }

  stopped : (c : Rule → ℕ) (r : Rule) (s : H.State) → Counts laws c s → Cleared c r (refused, 0) s
  stopped c r s h = record {
    deleted = λ q. none_deleted r q _ _ (h q);
    ended = λ e. refused-exhausted e;
    gone = λ e. elim (refused-cleared e) [ ];
  }

  uncounted :
      (c : Rule → ℕ) (r : Rule) (e : LoopEnd × ℕ) (s : H.State)
      → 0 < c r
      → Cleared (λ q. c q - bump r q) r e s
      → Cleared c r (counted e) s
  uncounted c r (end, n) s there h = record {
    deleted = λ q.
        one_more (same_rule r q) (c q) (laws.count q s) n (c r) (λ e. ap c (same_rule-eq r q e))
          there (h.deleted q);
    ended = h.ended;
    gone = h.gone;
  }

  -- By the laws of `iptables`: with more fuel than there are copies of the rule, the loop of `remove_edgekit_rules` ends by
  -- itself, because the rule is gone or because `iptables` did not delete it, and it has deleted as
  -- many copies as are missing now; no other rule changed.
  pub delete_all-Cleared :
      (fuel : ℕ) (c : Rule → ℕ) (r : Rule)
      → c r < fuel
      → Triple (Counts laws c) (delete_all H fuel r) (Cleared c r) (λ e s. ⊥)
  unfolding delete_all
  delete_all-Cleared zero c r enough = elim (impossible enough) [ ]
  delete_all-Cleared (suc fuel) c r enough =
      Triple-bind (λ present s. (present ≡ ltb 0 (c r)) × Counts laws c s) _ _
        (check_rule-Counts laws c r)
        (λ present.
          Triple-if present _ _
            (λ e.
              Triple-known _ (λ s h. ltb→lt 0 (c r) (sym h.0 ∙ e))
                (λ there.
                  Triple-bind (Deleted c r) _ _
                    (Triple-weaken _ (delete_rule-Deleted c r) (λ s h. h.1) (λ a s h. h)
                      (λ x s h. h))
                    (λ done.
                      Triple-if done _ _
                        (λ d.
                          Triple-bind (λ e s. Cleared c r (counted e) s) _ _
                            (Triple-weaken _
                              (delete_all-Cleared fuel (λ q. c q - bump r q) r
                                (one_less r c fuel there enough))
                              (λ s h. h.0 d) (λ end s h. uncounted c r end s there h) (λ x s h. h))
                            (λ end. Triple-pure _ (λ s h. h)))
                        (λ d. Triple-pure _ (λ s h. stopped c r s (h.1 d))))))
            (λ e. Triple-pure _ (λ s h. finished c r s (sym h.0 ∙ e) h.1)))
