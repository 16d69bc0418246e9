-- ===== src/Provision/Found.antt =====
-- What `detect_public_ip` returns as an address.
use edgekit.Base.Digits.{Unicode, int_or_raise, isdigit}
use edgekit.Base.{
  refl, length, [], Triple-bind, Triple-pure, ◌∷◌, ◌==◌, ◌≤◌, true, false, ok, raised,
  if◌then◌else◌, code, ◌≡◌, ℕ, split_by, some, none, Triple, String, Option, List, Exec, Bool,
  Outcome, value_error, lift, arith, All, Bool-cases, inl, inr, ◌∙◌, subst, is_numeric, ltb,
  digits_value, strip, Char,
}
use Prim.Native.String.{count}
use edgekit.Provision.Address.{
  Http, int, at_most_255, is_byte, and_all, all_bytes, sources, looks_like_ipv4, address_if,
  address_in, or_next, first_address, detect_public_ip,
}

abbrev pub is_dot : Char → Bool
is_dot c = code c == 46

four : (ps : List String) → (length ps == 4) ≡ true → (a b c d : String) × (ps ≡ a ∷ b ∷ c ∷ d ∷ [])
four [] h = absurd (cc h)
four (a ∷ []) h = absurd (cc h)
four (a ∷ b ∷ []) h = absurd (cc h)
four (a ∷ b ∷ c ∷ []) h = absurd (cc h)
four (a ∷ b ∷ c ∷ d ∷ []) h = (a, b, c, d, refl)
four (a ∷ b ∷ c ∷ d ∷ e ∷ ps) h = absurd (ground (arith, h))

-- An exception that is no other than ValueError.
abbrev ValueErrorOnly {ℓ} : {A : Type ℓ} → Outcome A → Type 0
ValueErrorOnly (ok a) = Unit {0}
ValueErrorOnly (raised e) = e ≡ value_error

module _ (U : Unicode) where
  -- A text that `int` reads as a number up to 255.
  pub record Byte (p : String) : Type 0 where
    pub value : ℕ
    pub read : int U p ≡ ok value
    pub small : value ≤ 255

  -- No address, or four such texts between the dots.
  pub data Address : Option String → Type 0 where
    nowhere : Address none
    dotted :
        (ip a b c d : String)
        → split_by is_dot ip ≡ a ∷ b ∷ c ∷ d ∷ []
        → Byte a
        → Byte b
        → Byte c
        → Byte d
        → Address (some ip)

  byte_if :
      (b : Bool) (r : Outcome ℕ)
      → (if b then at_most_255 U r else ok false) ≡ ok true
      → (n : ℕ) × (r ≡ ok n) × (n ≤ 255)
  byte_if true (ok n) e = (n, refl, ground (arith, e))
  byte_if true (raised x) e = absurd (cc e)
  byte_if false r e = absurd (cc e)

  is_byte-Byte : (p : String) → is_byte U p ≡ ok true → Byte p
  unfolding is_byte
  is_byte-Byte p e =
      let (n, read, small) = byte_if (isdigit U p) (int U p) e in
      record { value = n; read = read; small = small }

  and_all-parts :
      (first rest : Outcome Bool)
      → and_all U first rest ≡ ok true
      → (first ≡ ok true) × (rest ≡ ok true)
  and_all-parts (ok true) rest e = (refl, e)
  and_all-parts (ok false) rest e = absurd (cc e)
  and_all-parts (raised x) rest e = absurd (cc e)

  all_bytes-Byte : (ps : List String) → all_bytes U ps ≡ ok true → All Byte ps
  unfolding all_bytes
  all_bytes-Byte [] e = tt
  all_bytes-Byte (p ∷ ps) e =
      let (first, rest) = and_all-parts (is_byte U p) (all_bytes U ps) e in
      (is_byte-Byte p first, all_bytes-Byte ps rest)

  Address-parts :
      (ip : String) (ps : List String)
      → split_by is_dot ip ≡ ps
      → (if length ps == 4 then all_bytes U ps else ok false) ≡ ok true
      → Address (some ip)
  Address-parts ip ps split e = elim (Bool-cases (length ps == 4)) [
    | inl long ↦
        let (a, b, c, d, same) = four ps long in
        let bytes = all_bytes-Byte (a ∷ b ∷ c ∷ d ∷ []) (of_four a b c d same) in
        dotted ip a b c d (split ∙ same) bytes.0 bytes.1.0 bytes.1.1.0 bytes.1.1.1.0
    | inr short ↦ absurd (ground (arith, short, e))
  ]
    where
      of_four :
          (a b c d : String) → ps ≡ a ∷ b ∷ c ∷ d ∷ [] → all_bytes U (a ∷ b ∷ c ∷ d ∷ []) ≡ ok true
      of_four a b c d same =
          subst (λ qs. (if length qs == 4 then all_bytes U qs else ok false) ≡ ok true) same e

  looks_like_ipv4-Address : (ip : String) → looks_like_ipv4 U ip ≡ ok true → Address (some ip)
  unfolding looks_like_ipv4
  looks_like_ipv4-Address ip e = Address-parts ip (split_by is_dot ip) refl e

  int_or_raise-only : (o : Option ℕ) → ValueErrorOnly (at_most_255 U (int_or_raise o))
  int_or_raise-only none = refl
  int_or_raise-only (some n) = tt

  is_byte-only : (p : String) → ValueErrorOnly (is_byte U p)
  unfolding is_byte int
  is_byte-only p = digits (isdigit U p) (is_numeric p) (ltb 4300 (count p))
    where
      digits :
          (digit ascii long : Bool)
          → ValueErrorOnly (
              if digit
              then at_most_255 U (
                  if ascii
                  then (if long then raised value_error else ok (digits_value 0 p))
                  else int_or_raise (U.other_int p))
              else ok false)
      digits true true true = refl
      digits true true false = tt
      digits true false long = int_or_raise-only (U.other_int p)
      digits false ascii long = tt

  and_all-only :
      (first rest : Outcome Bool)
      → ValueErrorOnly first
      → ValueErrorOnly rest
      → ValueErrorOnly (and_all U first rest)
  and_all-only (ok true) rest f r = r
  and_all-only (ok false) rest f r = tt
  and_all-only (raised e) rest f r = f

  all_bytes-only : (ps : List String) → ValueErrorOnly (all_bytes U ps)
  unfolding all_bytes
  all_bytes-only [] = tt
  all_bytes-only (p ∷ ps) =
      and_all-only (is_byte U p) (all_bytes U ps) (is_byte-only p) (all_bytes-only ps)

  looks_like_ipv4-only : (ip : String) → ValueErrorOnly (looks_like_ipv4 U ip)
  unfolding looks_like_ipv4
  looks_like_ipv4-only ip = parts (length (split_by is_dot ip) == 4)
    where
      parts : (b : Bool) → ValueErrorOnly (if b then all_bytes U (split_by is_dot ip) else ok false)
      parts true = all_bytes-only (split_by is_dot ip)
      parts false = tt

  abbrev Fine : Outcome (Option String) → Type 0
  Fine (ok found) = Address found
  Fine (raised e) = e ≡ value_error

  address_if-Fine :
      (ip : String) (r : Outcome Bool)
      → (r ≡ ok true → Address (some ip))
      → ValueErrorOnly r
      → Fine (address_if U ip r)
  address_if-Fine ip (ok true) h only = h refl
  address_if-Fine ip (ok false) h only = nowhere
  address_if-Fine ip (raised e) h only = only

  address_in-Fine : (o : Option (ℕ × String)) → Fine (address_in U o)
  unfolding address_in
  address_in-Fine none = nowhere
  address_in-Fine (some (status, body)) = answer (status == 200)
    where
      answer :
          (b : Bool)
          → Fine (if b then address_if U (strip body) (looks_like_ipv4 U (strip body)) else ok none)
      answer true =
          address_if-Fine (strip body) (looks_like_ipv4 U (strip body))
            (looks_like_ipv4-Address (strip body)) (looks_like_ipv4-only (strip body))
      answer false = nowhere

module _ (U : Unicode) (H : Http) where
  abbrev Finds : Exec H.State (Option String) → Type 0
  Finds m = Triple (λ s. Unit {0}) m (λ r s. Address U r) (λ e s. e ≡ value_error)

  lift-Finds : (r : Outcome (Option String)) → Fine U r → Finds (lift r)
  unfolding lift
  lift-Finds (ok found) h = record { at = λ s p. h }
  lift-Finds (raised e) h = record { at = λ s p. h }

  or_next-Finds :
      (o : Option String) (next : Exec H.State (Option String))
      → Finds next
      → Triple (λ s. Address U o) (or_next U H o next) (λ r s. Address U r) (λ e s. e ≡ value_error)
  or_next-Finds none next k = record { at = λ s h. k.at s tt }
  or_next-Finds (some ip) next k = Triple-pure (some ip) (λ s h. h)

  first_address-Finds : (urls : List (String × Bool)) → Finds (first_address U H urls)
  unfolding first_address
  first_address-Finds [] = Triple-pure none (λ s h. nowhere)
  first_address-Finds ((url, headers) ∷ rest) =
      Triple-bind (λ answer s. Unit {0}) _ _ (record { at = λ s h. tt })
        (λ answer.
          Triple-bind (λ found s. Address U found) _ _
            (lift-Finds (address_in U answer) (address_in-Fine U answer))
            (λ found. or_next-Finds found _ (first_address-Finds rest)))

  -- Whatever the servers answer, `detect_public_ip` returns no address, or one with four texts between
  -- its dots that `int` reads as numbers up to 255; or it raises a ValueError and no other exception.
  pub detect_public_ip-Address :
      Triple (λ s. Unit {0}) (detect_public_ip U H) (λ r s. Address U r) (λ e s. e ≡ value_error)
  unfolding detect_public_ip
  detect_public_ip-Address = first_address-Finds sources
