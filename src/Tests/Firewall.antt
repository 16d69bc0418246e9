-- ===== src/Tests/Firewall.antt =====
-- A host with an `iptables` that keeps its rules in a list, on which the theorems about the rules run.
use edgekit.Firewall.Undone.{delete_rules-undoes, without, Deletes}
use edgekit.Firewall.Remove.{delete_rules, delete_all}
use edgekit.Firewall.Rules.{rules, script_rules, rules_present, run_script, Names, Rule, iptables}
use edgekit.Base.{
  lt→ltb, After, ◌>>=◌, ◌∙◌, ◌≢◌, sym, ◌-◌, refl, ltb→lt, ap, ltb, ◌≡◌, ◌+◌, str_eq, none, false,
  [], ◌∷◌, ◌<◌, ℕ, true, if◌then◌else◌, arith, String, List, Bool,
}
use edgekit.Firewall.Applied.{run_script-rules_present, run_script-Settled, Between, Counts}
use edgekit.Firewall.Cleared.{delete_all-Cleared, Cleared}
use edgekit.Firewall.Settled.{settled}
use edgekit.Firewall.Iptables.{same_rule-eq, IsIptables, same_rule, bump}
use edgekit.System.Shell.{result_of, succeeded, Host, Ended, completed}

copies : Rule → List Rule → ℕ
copies q [] = 0
copies q (r ∷ rs) = bump r q + copies q rs

without_one : Rule → List Rule → List Rule
without_one r [] = []
without_one r (q ∷ qs) = let rest = without_one r qs in if same_rule q r then qs else q ∷ rest

exit : Bool → Ended
exit true = completed 0 "" ""
exit false = completed 1 "" ""

abbrev take_one : Bool → Rule → List Rule → Ended × List Rule
take_one true r s = (exit true, without_one r s)
take_one false r s = (exit false, s)

abbrev rule_run : String → Rule → List Rule → Ended × List Rule
rule_run action r s =
    if str_eq action "-C"
    then (exit (ltb 0 (copies r s)), s)
    else (if str_eq action "-A" then (exit true, r ∷ s) else take_one (ltb 0 (copies r s)) r s)

abbrev rule_start : List String → List Rule → Ended × List Rule
rule_start (program ∷ flag ∷ table ∷ action ∷ chain ∷ match) s =
    rule_run action (record { table = table; chain = chain; match = match }) s
rule_start _ s = (completed 0 "" "", s)

abbrev rule_host : Host
rule_host = record {
  State = List Rule;
  start = λ argv input s. rule_start argv s;
  has = λ program s. true;
  read = λ path s. none;
  write = λ path text s. s;
  unlink = λ path s. s;
  write_fails = λ _ _ _. false;
  unlink_fails = λ _ _. false;
}

exit-succeeded : (argv : List String) (b : Bool) → succeeded (result_of argv (exit b)) ≡ b
unfolding succeeded result_of exit
exit-succeeded argv true = refl
exit-succeeded argv false = refl

after_head :
    (b : Bool) (p r q : Rule) (s t : List Rule)
    → (b ≡ true → bump p q ≡ bump r q)
    → (b ≡ false → copies q t + bump r q ≡ copies q s)
    → copies q (if b then s else p ∷ t) + bump r q ≡ bump p q + copies q s
unfolding copies
after_head true p r q s t here there = let w = here refl in omega arith
after_head false p r q s t here there = let w = there refl in omega arith

not_head : (b : Bool) (n : ℕ) → b ≡ false → 0 < (if b then 1 else 0) + n → 0 < n
not_head b n e h = ground arith

without_one-copies :
    (r q : Rule) (s : List Rule)
    → 0 < copies r s
    → copies q (without_one r s) + bump r q ≡ copies q s
unfolding copies without_one
without_one-copies r q [] h = elim (impossible h) [ ]
  where
    impossible : 0 < 0 → ⊥
    impossible h = omega arith
without_one-copies r q (p ∷ s) h =
    after_head (same_rule p r) p r q s (without_one r s)
      (λ e. ap (λ x. bump x q) (same_rule-eq p r e))
      (λ e. without_one-copies r q s (not_head (same_rule p r) (copies r s) e h))

-- How the fake deletes.
deletes :
    (b : Bool) (r q : Rule) (s : List Rule)
    → (b ≡ true → 0 < copies r s)
    → (succeeded (result_of (iptables "-D" r) (take_one b r s).0) ≡ true
        → copies q (take_one b r s).1 ≡ copies q s - bump r q)
      × (succeeded (result_of (iptables "-D" r) (take_one b r s).0) ≡ false
          → copies q (take_one b r s).1 ≡ copies q s)
unfolding copies without_one exit succeeded result_of
deletes true r q s there =
    (λ e. let w = without_one-copies r q s (there refl) in omega arith, λ e. ground arith)
deletes false r q s there = (λ e. ground arith, λ e. refl)

true-false : true ≢ false
true-false e = cc

rule_laws : IsIptables rule_host
unfolding copies without_one
rule_laws = record {
  count = copies;
  check_ended = λ r s. exit-succeeded (iptables "-C" r) _;
  check_keeps = λ r q s. refl;
  append_adds = λ r q s e. omega arith;
  append_fails = λ r q s e. elim (true-false (sym (exit-succeeded (iptables "-A" r) true) ∙ e)) [ ];
  delete_takes = λ r q s e. (deletes _ r q s (ltb→lt 0 (copies r s))).0 e;
  delete_fails = λ r q s e. (deletes _ r q s (ltb→lt 0 (copies r s))).1 e;
}

abbrev names : Names
names = record {
  docker_subnet = "172.18.0.0/16";
  wg_subnet = "10.50.0.0/24";
  wg_if = "wg0";
  docker_if = "docker0";
}

abbrev masquerade : Rule
masquerade = record {
  table = "nat";
  chain = "POSTROUTING";
  match = "-s" ∷ "172.18.0.0/16" ∷ "-d" ∷ "10.50.0.0/24" ∷ "-o" ∷ "wg0" ∷ "-j" ∷ "MASQUERADE" ∷ [];
}

-- The rule stands twice, and no other is there.
abbrev twice : Rule → ℕ
twice q = bump masquerade q + bump masquerade q

abbrev doubled : List Rule
doubled = masquerade ∷ masquerade ∷ []

doubled-Counts : Counts rule_laws twice doubled
unfolding copies rule_laws
doubled-Counts q = omega arith

run_script-Settled_example :
    After
      (λ _ s. Counts rule_laws (settled (script_rules names) twice) s)
      (λ e s. Between rule_laws twice (settled (script_rules names) twice) s)
      (run_script rule_host names doubled)
run_script-Settled_example = (run_script-Settled rule_laws names twice).at doubled doubled-Counts

run_script-rules_present_example :
    After
      (λ there s. (there ≡ true) × Counts rule_laws (settled (script_rules names) twice) s)
      (λ e s. Between rule_laws twice (settled (script_rules names) twice) s)
      ((run_script rule_host names >>= λ _. rules_present rule_host names) doubled)
run_script-rules_present_example =
    (run_script-rules_present rule_laws names twice).at doubled doubled-Counts

two-three : twice masquerade < 3
two-three = omega arith

delete_all-Cleared_example :
    After
      (Cleared rule_laws twice masquerade)
      (λ e s. ⊥)
      (delete_all rule_host 3 masquerade doubled)
delete_all-Cleared_example =
    (delete_all-Cleared rule_laws 3 twice masquerade two-three).at doubled doubled-Counts

removes :
    (b : Bool) (r : Rule) (s : List Rule)
    → b ≡ true
    → succeeded (result_of (iptables "-D" r) (take_one b r s).0) ≡ true
unfolding succeeded result_of exit
removes true r s e = refl
removes false r s e = elim (true-false (sym e)) [ ]

rule_deletes : Deletes rule_laws
unfolding rule_laws copies
rule_deletes r s there = removes (ltb 0 (copies r s)) r s (lt→ltb 0 (copies r s) there)

few : (q : Rule) → twice q < 4
few q = small (same_rule masquerade q)
  where
    small : (b : Bool) → (if b then 1 else 0) + (if b then 1 else 0) < 4
    small true = omega arith
    small false = omega arith

delete_rules-undoes_example :
    After
      (λ m s. Counts rule_laws (without (rules names) twice) s)
      (λ e s. Between rule_laws twice (settled (script_rules names) twice) s)
      ((run_script rule_host names >>= λ u. delete_rules rule_host 4 (rules names)) doubled)
delete_rules-undoes_example =
    (delete_rules-undoes rule_laws rule_deletes 4 names twice (omega arith) few).at doubled
      doubled-Counts
