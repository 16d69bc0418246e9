-- ===== src/Provision/Address.antt =====
-- `detect_public_ip` and `_looks_like_ipv4` of services/provision.py. The client of HTTP is a parameter;
-- its exceptions are those of httpx, which are caught. So is what `str.isdigit` and `int` do beyond ASCII.
use edgekit.Base.Digits.{Unicode, int_or_raise, isdigit}
use edgekit.Base.{
  digits_value, ◌>>=◌, strip, length, leb, ltb, [], ◌∷◌, ◌==◌, true, ok, if◌then◌else◌, code, ℕ,
  split_by, some, none, is_numeric, false, String, Option, List, Exec, Bool, pure, Outcome, raised,
  value_error, lift,
}
use Prim.Native.String.{count}

-- `client.get`, with headers or without: the status and the text, or an exception of httpx.
pub record Http : Type 1 where
  pub State : Type 0
  pub get : String → Bool → State → Option (ℕ × String) × State

module _ (U : Unicode) where
  -- `int(p)`, which refuses more than 4300 digits.
  unfoldable pub int : String → Outcome ℕ
  int p =
      if is_numeric p
      then (if ltb 4300 (count p) then raised value_error else ok (digits_value 0 p))
      else int_or_raise (U.other_int p)

  abbrev pub at_most_255 : Outcome ℕ → Outcome Bool
  at_most_255 (ok n) = ok (leb n 255)
  at_most_255 (raised e) = raised e

  -- `p.isdigit() and 0 <= int(p) <= 255`
  unfoldable pub is_byte : String → Outcome Bool
  is_byte p = if isdigit U p then at_most_255 (int p) else ok false

  abbrev pub and_all : Outcome Bool → Outcome Bool → Outcome Bool
  and_all (ok true) rest = rest
  and_all first rest = first

  -- `all` stops at the first part that fails.
  unfoldable pub all_bytes : List String → Outcome Bool
  all_bytes [] = ok true
  all_bytes (p ∷ ps) = and_all (is_byte p) (all_bytes ps)

  unfoldable pub looks_like_ipv4 : String → Outcome Bool
  looks_like_ipv4 value =
      let parts = split_by (λ c. code c == 46) value in
      if length parts == 4 then all_bytes parts else ok false

  abbrev pub address_if : String → Outcome Bool → Outcome (Option String)
  address_if ip (ok true) = ok (some ip)
  address_if ip (ok false) = ok none
  address_if ip (raised e) = raised e

  -- The address in an answer.
  unfoldable pub address_in : Option (ℕ × String) → Outcome (Option String)
  address_in none = ok none
  address_in (some (status, body)) =
      if status == 200 then address_if (strip body) (looks_like_ipv4 (strip body)) else ok none

abbrev pub google_metadata : String
google_metadata =
    "http://metadata.google.internal/computeMetadata/v1/instance/network-interfaces/0/access-configs/0/external-ip"

-- The sources in their order, and whether they want the header of Google.
abbrev pub sources : List (String × Bool)
sources =
    ("http://169.254.169.254/latest/meta-data/public-ipv4", false)
    ∷ (google_metadata, true)
    ∷ ("https://api.ipify.org", false)
    ∷ ("https://ifconfig.me/ip", false)
    ∷ ("https://icanhazip.com", false)
    ∷ []

module _ (U : Unicode) (H : Http) where
  abbrev pub or_next : Option String → Exec H.State (Option String) → Exec H.State (Option String)
  or_next (some ip) next = pure (some ip)
  or_next none next = next

  abbrev pub fetch : String → Bool → Exec H.State (Option (ℕ × String))
  fetch url headers s = let (answer, s') = H.get url headers s in (ok answer, s')

  unfoldable pub first_address : List (String × Bool) → Exec H.State (Option String)
  first_address [] = pure none
  first_address ((url, headers) ∷ rest) = fetch url headers >>= λ answer.
      lift (address_in U answer) >>= λ found. or_next found (first_address rest)

  unfoldable pub detect_public_ip : Exec H.State (Option String)
  detect_public_ip = first_address sources
