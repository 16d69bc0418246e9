-- ===== src/Base/Decimal.antt =====
-- `str(n)` of a number, and that `int` reads it back.
use Prim.Native.Nat.{ℕ, zero, suc, ◌+◌, ◌/◌, ◌%◌, ◌<◌}
use Prim.Native.Char.{Char, code}
use Prim.Native.String.{String, ◌++◌, char_at}
use text.Mathlib.TextLemmas.{nil-append, cons-append}
use mathlib.Core.Path.{◌≡◌, refl, ◌∙◌}
use mathlib.Core.Bool.{Bool, true, false}
use native.Mathlib.Omega.{arith}
use mathlib.Core.Logic.{inl, inr}
use edgekit.Base.Tests.{
  and_parts, str_eq-ne, Bool-cases, ltb→lt, and_intro, ltb, str_eq, if◌then◌else◌,
}
use edgekit.Base.Texts.{is_digit, all_chars, is_numeric, digits_value}

-- The digit of a number below ten.
unfoldable pub digit : ℕ → Char
digit n = char_at "0123456789" n

-- `fuel` bounds the number of digits.
unfoldable pub decimal_within : ℕ → ℕ → String
decimal_within zero n = ""
decimal_within (suc fuel) n =
    let rest = decimal_within fuel (n / 10) in
    let last = String.◌∷◌ (digit (n % 10)) "" in if ltb n 10 then last else rest ++ last

-- `str(n)`
unfoldable pub decimal : ℕ → String
decimal n = decimal_within (suc n) n

code-digit : (n : ℕ) → n < 10 → code (digit n) ≡ 48 + n
unfolding digit
code-digit zero h = refl
code-digit (suc zero) h = refl
code-digit (suc (suc zero)) h = refl
code-digit (suc (suc (suc zero))) h = refl
code-digit (suc (suc (suc (suc zero)))) h = refl
code-digit (suc (suc (suc (suc (suc zero))))) h = refl
code-digit (suc (suc (suc (suc (suc (suc zero)))))) h = refl
code-digit (suc (suc (suc (suc (suc (suc (suc zero))))))) h = refl
code-digit (suc (suc (suc (suc (suc (suc (suc (suc zero)))))))) h = refl
code-digit (suc (suc (suc (suc (suc (suc (suc (suc (suc zero))))))))) h = refl
code-digit (suc (suc (suc (suc (suc (suc (suc (suc (suc (suc n)))))))))) h = absurd (omega arith)

digits_value-append :
    (s t : String) (acc : ℕ) → digits_value acc (s ++ t) ≡ digits_value (digits_value acc s) t
unfolding digits_value
digits_value-append String.[] t acc = rw nil-append refl
digits_value-append (String.◌∷◌ c s) t acc = rw cons-append (digits_value-append s t _)

pub all_chars-append :
    (p : Char → Bool) (s t : String)
    → all_chars p s ≡ true
    → all_chars p t ≡ true
    → all_chars p (s ++ t) ≡ true
all_chars-append p String.[] t hs ht = rw nil-append ht
all_chars-append p (String.◌∷◌ c s) t hs ht =
    let h = and_parts _ _ hs in rw cons-append (and_intro _ _ h.0 (all_chars-append p s t h.1 ht))

digit-is_digit : (n : ℕ) → n < 10 → is_digit (digit n) ≡ true
digit-is_digit n h = let e = code-digit n h in ground arith

not_empty-cons : (c : Char) (s : String) → str_eq (String.◌∷◌ c s) "" ≡ false
not_empty-cons c s = str_eq-ne (String.◌∷◌ c s) "" (λ e. absurd (cc (e)))

not_empty-append : (s t : String) → str_eq s "" ≡ false → str_eq (s ++ t) "" ≡ false
not_empty-append String.[] t h = absurd (cc)
not_empty-append (String.◌∷◌ c s) t h = rw cons-append (not_empty-cons c (s ++ t))

-- What is proved of the text of a number, with enough fuel.
record Reads (n : ℕ) (s : String) : Type 0 where
  value : digits_value 0 s ≡ n
  digits : all_chars is_digit s ≡ true
  not_empty : str_eq s "" ≡ false

one_digit : (n : ℕ) → n < 10 → Reads n (String.◌∷◌ (digit (n % 10)) "")
unfolding digits_value
one_digit n h = record {
  value = omega (arith, code-digit (n % 10) (omega arith));
  digits = and_intro _ _ (digit-is_digit (n % 10) (omega arith)) refl;
  not_empty = not_empty-cons _ "";
}

more_digits :
    (n : ℕ) (s : String) → Reads (n / 10) s → Reads n (s ++ String.◌∷◌ (digit (n % 10)) "")
unfolding digits_value
more_digits n s r = record {
  value = digits_value-append s _ 0 ∙ omega (arith, r.value, code-digit (n % 10) (omega arith));
  digits =
      all_chars-append is_digit s _ r.digits
        (and_intro _ _ (digit-is_digit (n % 10) (omega arith)) refl);
  not_empty = not_empty-append s _ r.not_empty;
}

decimal_within-Reads : (fuel n : ℕ) → n < fuel → Reads n (decimal_within fuel n)
unfolding decimal_within
decimal_within-Reads zero n h = absurd (omega arith)
decimal_within-Reads (suc fuel) n h = elim (Bool-cases (ltb n 10)) [
  | inl small ↦ rw small (one_digit n (ltb→lt n 10 small))
  | inr large ↦ rw large (
      more_digits n (decimal_within fuel (n / 10))
        (decimal_within-Reads fuel (n / 10) (ground (arith, large))))
]

-- The text of a number is digits, and `int` reads the number back.
pub digits_value-decimal :
    (n : ℕ) → (is_numeric (decimal n) ≡ true) × (digits_value 0 (decimal n) ≡ n)
unfolding decimal is_numeric
digits_value-decimal n =
    let r = decimal_within-Reads (suc n) n (omega arith) in
    (and_intro _ _ (rw (r.not_empty) refl) r.digits, r.value)
