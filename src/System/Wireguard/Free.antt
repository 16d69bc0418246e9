-- ===== src/System/Wireguard/Free.antt =====
-- `next_free_address` finds an address as long as the subnet has one left.
use edgekit.Base.{
  sym, subst, str_eq-ne, eq_refl, Option-cases, Option, ok, ◌∙◌, ap, inr, inl, ◌-◌, Bool-cases, ◌^◌,
  some, false, zero, refl, ◌+◌, eq_iff, [], suc, str_eq, arith, ◌≤◌, ◌<◌, true, none, if◌then◌else◌,
  all, ◌≢◌, ◌∷◌, length, contains, Bool, ◌≡◌, List, String, ℕ,
}
use edgekit.System.Wireguard.{
  found, num_addresses, hosts, next_free_address, Network, numbers_from, first_free, Addresses,
}
use native.Mathlib.Nat.{pow-suc}
use native.Mathlib.Decide.{ℕ_discrete}

-- The texts other than `t`.
abbrev without : String → List String → List String
without t [] = []
without t (u ∷ us) = let rest = without t us in if str_eq u t then rest else u ∷ rest

length-without-le : (t : String) (us : List String) → length (without t us) ≤ length us
length-without-le t [] = omega arith
length-without-le t (u ∷ us) = ground (arith, length-without-le t us)

length-without :
    (t : String) (us : List String) → contains t us ≡ true → length (without t us) < length us
length-without t [] h = cc
length-without t (u ∷ us) h = ground (arith, length-without t us, length-without-le t us)

contains-without :
    (t u : String) (us : List String)
    → u ≢ t
    → contains u us ≡ true
    → contains u (without t us) ≡ true
contains-without t u [] ne h = h
contains-without t u (v ∷ us) ne h = ground (arith, contains-without t u us, eq_iff v t, eq_iff v u)

module _ (A : Addresses) (show_injective : (a b : ℕ) → A.show a ≡ A.show b → a ≡ b) where
  abbrev all_taken : List String → List ℕ → Bool
  all_taken reserved = all (λ a. contains (A.show a) reserved)

  all_taken-without :
      (reserved : List String) (low first k : ℕ)
      → low < first
      → all_taken reserved (numbers_from first k) ≡ true
      → all_taken (without (A.show low) reserved) (numbers_from first k) ≡ true
  unfolding numbers_from
  all_taken-without reserved low first zero lt h = refl
  all_taken-without reserved low first (suc k) lt h = ground (
    arith,
    contains-without (A.show low) (A.show first) reserved
        (λ e. absurd (omega (arith, show_injective first low e))),
    all_taken-without reserved low (first + 1) k,
  )

  -- Distinct addresses need distinct texts.
  pigeonhole :
      (reserved : List String) (first k : ℕ)
      → all_taken reserved (numbers_from first k) ≡ true
      → k ≤ length reserved
  unfolding numbers_from
  pigeonhole reserved first zero h = omega arith
  pigeonhole reserved first (suc k) h = ground (
    arith,
    length-without (A.show first) reserved,
    pigeonhole (without (A.show first) reserved) (first + 1) k,
    all_taken-without reserved first (first + 1) k,
  )

  first_free-none :
      (reserved : List String) (addresses : List ℕ)
      → first_free A reserved addresses ≡ none
      → all_taken reserved addresses ≡ true
  unfolding first_free
  first_free-none reserved [] h = refl
  first_free-none reserved (a ∷ rest) h = ground (arith, first_free-none reserved rest)

  -- What a successful scan has found.
  record Lowest (reserved : List String) (first k a : ℕ) : Type 0 where
    from : first ≤ a
    below : a < first + k
    unused : contains (A.show a) reserved ≡ false
    lowest : (b : ℕ) → first ≤ b → b < a → contains (A.show b) reserved ≡ true

  step_lowest :
      (reserved : List String) (first a b : ℕ)
      → contains (A.show first) reserved ≡ true
      → ((b : ℕ) → first + 1 ≤ b → b < a → contains (A.show b) reserved ≡ true)
      → first ≤ b
      → b < a
      → contains (A.show b) reserved ≡ true
  step_lowest reserved first a b head rest le lt = elim (ℕ_discrete first b) [
    | yes e ↦ rw e at head
    | no ne ↦ rest b (omega arith) lt
  ]

  Lowest-some :
      (reserved : List String) (first k a : ℕ)
      → first_free A reserved (numbers_from first k) ≡ some a
      → Lowest reserved first k a
  unfolding first_free numbers_from
  Lowest-some reserved first zero a h = absurd (cc)
  Lowest-some reserved first (suc k) a h = elim (Bool-cases (contains (A.show first) reserved)) [
    | inl taken ↦
        let ih = Lowest-some reserved (first + 1) k a (rw taken at h) in
        record {
          from = omega (arith, ih.from);
          below = omega (arith, ih.below);
          unused = ih.unused;
          lowest = λ b. step_lowest reserved first a b taken ih.lowest;
        }
    | inr free ↦
        let here : a ≡ first = ground (arith, free) in
        record {
          from = omega arith;
          below = omega arith;
          unused = ap (λ b. contains (A.show b) reserved) here ∙ free;
          lowest = λ b le lt. absurd (omega arith);
        }
  ]

one_le_pow : (m : ℕ) → 1 ≤ 2 ^ m
one_le_pow zero = omega arith
one_le_pow (suc m) = rw pow-suc (omega (arith, one_le_pow m))

four_le_pow : (p : ℕ) → p ≤ 30 → 4 ≤ 2 ^ (32 - p)
four_le_pow p h =
    let e : 32 - p ≡ suc (suc (30 - p)) = omega arith in
    rw (e, pow-suc, pow-suc) (omega (arith, one_le_pow (30 - p)))

-- The hub's address, and the rest.
pub hosts-cons :
    (n : Network)
    → n.prefixlen ≤ 30
    → hosts n ≡ (n.base + 1) ∷ numbers_from (n.base + 2) (num_addresses n - 3)
unfolding hosts numbers_from num_addresses
hosts-cons n small =
    let big = four_le_pow n.prefixlen small in
    let e : 2 ^ (32 - n.prefixlen) - 2 ≡ suc (2 ^ (32 - n.prefixlen) - 3) = omega arith in
    let f : n.base + 1 + 1 ≡ n.base + 2 = omega arith in ground (arith, e, f)

module _ (A : Addresses) (show_injective : (a b : ℕ) → A.show a ≡ A.show b → a ≡ b) where
  -- An address of the network above the hub's, whose text is not taken, and the lowest such.
  pub record Allocated (n : Network) (taken : List String) (t : String) : Type 0 where
    pub number : ℕ
    pub canonical : t ≡ A.show number
    pub above_hub : n.base + 2 ≤ number
    pub below_broadcast : number + 1 < n.base + num_addresses n
    pub unused : contains t taken ≡ false
    pub lowest : (b : ℕ) → n.base + 2 ≤ b → b < number → contains (A.show b) taken ≡ true

  dropped :
      (h : ℕ) (taken : List String) → length (without (A.show h) (A.show h ∷ taken)) ≤ length taken
  dropped h taken = rw (eq_refl (A.show h)) (length-without-le (A.show h) taken)

  not_taken :
      (h a : ℕ) (taken : List String)
      → contains (A.show a) (A.show h ∷ taken) ≡ false
      → contains (A.show a) taken ≡ false
  not_taken h a taken e = ground arith

  not_hub :
      (h b : ℕ) (taken : List String)
      → h < b
      → contains (A.show b) (A.show h ∷ taken) ≡ true
      → contains (A.show b) taken ≡ true
  not_hub h b taken lt e =
      rw (str_eq-ne (A.show h) (A.show b) (λ p. absurd (omega (arith, show_injective h b p)))) at e

  module _ (n : Network) (taken : List String) where
    abbrev hub_text : String
    hub_text = A.show (n.base + 1)

    abbrev scan : Option ℕ
    scan = first_free A (hub_text ∷ taken) (numbers_from (n.base + 2) (num_addresses n - 3))

    next_free_address-scan : n.prefixlen ≤ 30 → next_free_address A n taken ≡ found A scan
    unfolding next_free_address
    next_free_address-scan small = rw (hosts-cons n small)

    scan-none : n.prefixlen ≤ 30 → scan ≡ none → num_addresses n - 3 ≤ length taken
    scan-none small full = omega (
      arith,
      dropped (n.base + 1) taken,
      pigeonhole A show_injective (without hub_text (hub_text ∷ taken)) (n.base + 2)
          (num_addresses n - 3)
          (all_taken-without A show_injective (hub_text ∷ taken) (n.base + 1) (n.base + 2)
            (num_addresses n - 3) (omega arith)
            (first_free-none A show_injective (hub_text ∷ taken) _ full)),
    )

    scan-some : n.prefixlen ≤ 30 → (a : ℕ) → scan ≡ some a → Allocated n taken (A.show a)
    scan-some small a e =
        let l =
          Lowest-some A show_injective (hub_text ∷ taken) (n.base + 2) (num_addresses n - 3) a e in
        record {
          number = a;
          canonical = refl;
          above_hub = l.from;
          below_broadcast = omega (arith, l.below, size);
          unused = not_taken (n.base + 1) a taken l.unused;
          lowest = λ b le lt. not_hub (n.base + 1) b taken (omega arith) (l.lowest b le lt);
        }
      where
        size : 4 ≤ num_addresses n
        size = unfold num_addresses in four_le_pow n.prefixlen small

    -- An address that is allocated is free, and the lowest such.
    pub Allocated-next_free_address :
        (t : String) → n.prefixlen ≤ 30 → next_free_address A n taken ≡ ok t → Allocated n taken t
    Allocated-next_free_address t small e = elim (Option-cases scan) [
      | inl full ↦ absurd (cc (e, next_free_address-scan small, ap (found A) full))
      | inr free ↦
          subst (Allocated n taken)
            (ok_inj (sym (ap (found A) free.1) ∙ sym (next_free_address-scan small) ∙ e))
            (scan-some small free.0 free.1)
    ]
      where
        ok_inj : {x y : String} → ok x ≡ ok y → x ≡ y
        ok_inj p = cc

    -- A subnet of at most 30 bits of prefix, with fewer addresses taken than its hosts besides the
    -- hub, always has an address to allocate: the lowest free one.
    pub next_free_address-Allocated :
        n.prefixlen ≤ 30
        → length taken + 3 < num_addresses n
        → (t : String) × (next_free_address A n taken ≡ ok t) × Allocated n taken t
    next_free_address-Allocated small room = elim (Option-cases scan) [
      | inl full ↦ absurd (omega (arith, scan-none small full))
      | inr free ↦ (
        A.show free.0,
        next_free_address-scan small ∙ ap (found A) free.1,
        scan-some small free.0 free.1,
      )
    ]
