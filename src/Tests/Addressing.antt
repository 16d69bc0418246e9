-- ===== src/Tests/Addressing.antt =====
-- A way to print addresses in which distinct ones look different, and a small subnet.
use edgekit.Base.{refl, ap, zero, suc, some, ◌≡◌, String, ℕ}
use Prim.Native.String.{count}
use edgekit.System.Wireguard.{v4, Network, Addresses}

unfoldable pub tally : ℕ → String
tally zero = ""
tally (suc n) = String.◌∷◌ "1" (tally n)

pub tally-injective : (a b : ℕ) → tally a ≡ tally b → a ≡ b
unfolding tally
tally-injective zero zero e = refl
tally-injective zero (suc b) e = absurd (cc)
tally-injective (suc a) zero e = absurd (cc)
tally-injective (suc a) (suc b) e = ap suc (tally-injective a b (tail_of e))
  where
    tail_of : String.◌∷◌ "1" (tally a) ≡ String.◌∷◌ "1" (tally b) → tally a ≡ tally b
    tail_of p = cc

abbrev pub tallies : Addresses
tallies = record { show = tally; parse = λ t. some (v4 (count t)); network_text = λ t. some t }

-- Addresses 0 to 7.
abbrev pub small_network : Network
small_network = record { base = 0; prefixlen = 29 }
