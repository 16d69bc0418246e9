-- ===== src/Firewall/Iptables.antt =====
-- What the code relies on of `iptables`: how often each rule stands in its chain, and how -C, -A and
-- -D look at that number and change it.
use edgekit.Base.{
  ◌∙◌, ◌-◌, refl, false, ap, [], ◌∷◌, ◌+◌, ◌&&◌, arith, and_parts, and_intro, true, str_eq, none,
  ltb, if◌then◌else◌, ◌≡◌, ℕ, String, List, Bool,
}
use native.Mathlib.Omega.{arith}
use text.Mathlib.TextEquality.{eq_iff}
use edgekit.Firewall.Rules.{Rule, iptables}
use edgekit.System.Shell.{result_of, succeeded, Host}

abbrev pub same_texts : List String → List String → Bool
same_texts [] [] = true
same_texts (a ∷ xs) (b ∷ ys) = str_eq a b && same_texts xs ys
same_texts _ _ = false

abbrev pub same_rule : Rule → Rule → Bool
same_rule r q = str_eq r.table q.table && str_eq r.chain q.chain && same_texts r.match q.match

str_eq-eq : (a b : String) → str_eq a b ≡ true → a ≡ b
str_eq-eq a b h = ground (arith, eq_iff a b)

pub str_eq_self : (a : String) → str_eq a a ≡ true
str_eq_self a = ground (arith, eq_iff a a)

cons_eq : {a b : String} {xs ys : List String} → a ≡ b → xs ≡ ys → a ∷ xs ≡ b ∷ ys
cons_eq p q = cc

same_texts-eq : (xs ys : List String) → same_texts xs ys ≡ true → xs ≡ ys
same_texts-eq [] [] h = refl
same_texts-eq (a ∷ xs) (b ∷ ys) h =
    let (p, q) = and_parts (str_eq a b) (same_texts xs ys) h in
    cons_eq (str_eq-eq a b p) (same_texts-eq xs ys q)
same_texts-eq [] (b ∷ ys) h = grind arith
same_texts-eq (a ∷ xs) [] h = grind arith

same_texts_self : (xs : List String) → same_texts xs xs ≡ true
same_texts_self [] = refl
same_texts_self (a ∷ xs) =
    and_intro (str_eq a a) (same_texts xs xs) (str_eq_self a) (same_texts_self xs)

pub same_rule_self : (r : Rule) → same_rule r r ≡ true
same_rule_self r =
    and_intro _ _ (and_intro _ _ (str_eq_self r.table) (str_eq_self r.chain))
      (same_texts_self r.match)

abbrev rule_of : String → String → List String → Rule
rule_of table chain match = record { table = table; chain = chain; match = match }

pub same_rule-eq : (r q : Rule) → same_rule r q ≡ true → r ≡ q
same_rule-eq r q h =
    let (tc, m) =
      and_parts (str_eq r.table q.table && str_eq r.chain q.chain) (same_texts r.match q.match) h in
    let (t, c) = and_parts (str_eq r.table q.table) (str_eq r.chain q.chain) tc in
    ap (λ x. rule_of x r.chain r.match) (str_eq-eq r.table q.table t)
    ∙ ap (λ x. rule_of q.table x r.match) (str_eq-eq r.chain q.chain c)
    ∙ ap (λ x. rule_of q.table q.chain x) (same_texts-eq r.match q.match m)

-- How often the rule stands for `q`.
abbrev pub bump : Rule → Rule → ℕ
bump r q = if same_rule r q then 1 else 0

module _ (H : Host) where
  abbrev pub ended_well : String → Rule → H.State → Bool
  ended_well action r s =
      succeeded (result_of (iptables action r) (H.start (iptables action r) none s).0)

  abbrev pub after_run : String → Rule → H.State → H.State
  after_run action r s = (H.start (iptables action r) none s).1

  pub record IsIptables : Type 0 where
    pub count : Rule → H.State → ℕ
    -- -C only looks, and succeeds exactly when the rule is there.
    pub check_ended : (r : Rule) (s : H.State) → ended_well "-C" r s ≡ ltb 0 (count r s)
    pub check_keeps : (r q : Rule) (s : H.State) → count q (after_run "-C" r s) ≡ count q s
    -- -A adds the rule or fails; -D takes one away or fails.
    pub append_adds :
        (r q : Rule) (s : H.State)
        → ended_well "-A" r s ≡ true
        → count q (after_run "-A" r s) ≡ count q s + bump r q
    pub append_fails :
        (r q : Rule) (s : H.State)
        → ended_well "-A" r s ≡ false
        → count q (after_run "-A" r s) ≡ count q s
    pub delete_takes :
        (r q : Rule) (s : H.State)
        → ended_well "-D" r s ≡ true
        → count q (after_run "-D" r s) ≡ count q s - bump r q
    pub delete_fails :
        (r q : Rule) (s : H.State)
        → ended_well "-D" r s ≡ false
        → count q (after_run "-D" r s) ≡ count q s
