-- ===== src/Base/Digits.antt =====
-- What `str.isdigit` and `int` give for a text that is not one of ASCII digits.
use edgekit.Base.Tests.{if◌then◌else◌}
use edgekit.Base.Effects.{Outcome, ok, raised, value_error}
use edgekit.Base.Texts.{is_numeric}
use Prim.Native.Nat.{ℕ}
use Prim.Native.String.{String}
use mathlib.Core.Bool.{Bool, true}
use mathlib.Core.Option.{Option, none, some}

pub record Unicode : Type 0 where
  pub other_isdigit : String → Bool
  -- none for ValueError
  pub other_int : String → Option ℕ

abbrev pub int_or_raise : Option ℕ → Outcome ℕ
int_or_raise none = raised value_error
int_or_raise (some n) = ok n

unfoldable pub isdigit : Unicode → String → Bool
isdigit U p = if is_numeric p then true else U.other_isdigit p
