-- ===== src/Firewall/Settled.antt =====
-- How often each rule stands where the script ran to its end.
use edgekit.Firewall.Iptables.{same_rule_self, same_rule-eq, same_rule, bump}
use edgekit.Base.{
  ◌||◌, ◌&&◌, and_intro, all, [], refl, ◌+◌, ap, ◌∷◌, true, false, arith, ltb, ◌==◌, any, ◌≤◌, ◌≡◌,
  if◌then◌else◌, Bool, ℕ, List,
}
use edgekit.Firewall.Rules.{Rule}

abbrev pub covered : List Rule → Rule → Bool
covered rs q = any (λ r. same_rule r q) rs

abbrev pub at_least_one : ℕ → ℕ
at_least_one n = if n == 0 then 1 else n

-- Of each rule of the list there is one, and the others stay as often as they were.
unfoldable pub settled : List Rule → (Rule → ℕ) → Rule → ℕ
settled rs c q = if covered rs q then at_least_one (c q) else c q

-- The same for one rule.
abbrev pub settled_one : Rule → (Rule → ℕ) → Rule → ℕ
settled_one r c q = if same_rule r q then at_least_one (c q) else c q

pub settled-cons :
    (r : Rule) (rs : List Rule) (c : Rule → ℕ) (q : Rule)
    → settled rs (settled_one r c) q ≡ settled (r ∷ rs) c q
unfolding settled
settled-cons r rs c q = ground arith

pub settled-ge : (rs : List Rule) (c : Rule → ℕ) (q : Rule) → c q ≤ settled rs c q
unfolding settled
settled-ge rs c q = ground arith

there_lem :
    (b : Bool) (n m : ℕ)
    → ltb 0 m ≡ true
    → (b ≡ true → m ≡ n)
    → n ≡ (if b then at_least_one n else n)
there_lem true n m h same = let w : m ≡ n = same refl in ground arith
there_lem false n m h same = refl

added_lem :
    (b : Bool) (n m : ℕ)
    → ltb 0 m ≡ false
    → (b ≡ true → m ≡ n)
    → n + (if b then 1 else 0) ≡ (if b then at_least_one n else n)
added_lem true n m h same = let w : m ≡ n = same refl in ground arith
added_lem false n m h same = omega arith

pub trans_le : {a b c : ℕ} → a ≤ b → b ≤ c → a ≤ c
trans_le p q = omega arith

pub settled_one-ge : (r : Rule) (c : Rule → ℕ) (q : Rule) → c q ≤ settled_one r c q
settled_one-ge r c q = at_least (same_rule r q) (c q)
  where
    at_least : (b : Bool) (n : ℕ) → n ≤ (if b then at_least_one n else n)
    at_least b n = ground arith

-- Nothing changes where the rule is there already, and one is added where it is not.
pub settled_one-there :
    (r : Rule) (c : Rule → ℕ) (q : Rule) → ltb 0 (c r) ≡ true → c q ≡ settled_one r c q
settled_one-there r c q h = there_lem (same_rule r q) (c q) (c r) h (λ e. ap c (same_rule-eq r q e))

pub settled_one-added :
    (r : Rule) (c : Rule → ℕ) (q : Rule) → ltb 0 (c r) ≡ false → c q + bump r q ≡ settled_one r c q
settled_one-added r c q h = added_lem (same_rule r q) (c q) (c r) h (λ e. ap c (same_rule-eq r q e))

pub and_true : (a b : Bool) → a ≡ true → b ≡ a && b
and_true a b e = ground arith

pub and_false : (a b : Bool) → a ≡ false → false ≡ a && b
and_false a b e = ground arith

or_left : (a b : Bool) → a ≡ true → a || b ≡ true
or_left a b e = ground arith

or_right : (a b : Bool) → b ≡ true → a || b ≡ true
or_right a b e = ground arith

there_if : (b : Bool) (n : ℕ) → b ≡ true → ltb 0 (if b then at_least_one n else n) ≡ true
there_if b n e = ground arith

covered-more :
    (rs qs : List Rule)
    → ((q : Rule) → covered rs q ≡ true → covered qs q ≡ true)
    → (c : Rule → ℕ) → all (λ q. ltb 0 (settled qs c q)) rs ≡ true
unfolding settled
covered-more [] qs h c = refl
covered-more (r ∷ rs) qs h c =
    and_intro _ _ (there_if _ (c r) (h r (or_left _ _ (same_rule_self r))))
      (covered-more rs qs (λ q e. h q (or_right (same_rule r q) _ e)) c)

-- Each rule of the list is there once the list is settled.
pub settled-all : (rs : List Rule) (c : Rule → ℕ) → all (λ q. ltb 0 (settled rs c q)) rs ≡ true
settled-all rs c = covered-more rs rs (λ q e. e) c
