-- ===== src/System/Wireguard.antt =====
-- system/wireguard.py: keys, the state of the interface, applying a configuration, and the
-- allocation of tunnel addresses. `Addresses` is the part of Python's `ipaddress` that edgekit calls.
pub mod Free
use edgekit.System.Shell.{
  systemctl, succeeded, service_enabled, run_checked_input, run_checked, run, Host,
}
use edgekit.Base.{
  ok, ◌||◌, ◌>>◌, ◌+◌, zero, wireguard_error, value_error, strip, some, pure, ltb, contains, ◌∷◌,
  ◌>>=◌, ◌==◌, ◌&&◌, str_eq, raised, ◌<>◌, ◌-◌, suc, none, leb, if◌then◌else◌, false, code, [],
  Outcome, Exec, ◌^◌, String, Option, List, Char, Bool, ℕ,
}

-- A parsed address: an IPv4 address by its number, or an IPv6 address by its text.
pub data Ip : Type 0 where
  v4 : ℕ → Ip
  v6 : String → Ip

-- `ipaddress.IPv4Network`
pub record Network : Type 0 where
  pub base : ℕ
  pub prefixlen : ℕ

pub record Addresses : Type 0 where
  -- `str(address)`
  pub show : ℕ → String
  -- `ipaddress.ip_address(text)`, none where it raises
  pub parse : String → Option Ip
  -- `str(ipaddress.ip_network(text, strict=False))`
  pub network_text : String → Option String

-- `network.num_addresses`
unfoldable pub num_addresses : Network → ℕ
num_addresses n = 2 ^ (32 - n.prefixlen)

-- The numbers from `first` on.
unfoldable pub numbers_from : ℕ → ℕ → List ℕ
numbers_from first zero = []
numbers_from first (suc k) = first ∷ numbers_from (first + 1) k

-- `network.hosts()`
unfoldable pub hosts : Network → List ℕ
hosts n =
    if leb 32 n.prefixlen
    then n.base ∷ []
    else if n.prefixlen == 31
    then numbers_from n.base 2
    else numbers_from (n.base + 1) (num_addresses n - 2)

-- `ip in network`
unfoldable pub in_network : Ip → Network → Bool
in_network (v4 a) n = leb n.base a && ltb a (n.base + num_addresses n)
in_network (v6 t) n = false

module _ (A : Addresses) where
  abbrev pub show_ip : Ip → String
  show_ip (v4 a) = A.show a
  show_ip (v6 t) = t

  -- The lowest candidate whose text is not reserved.
  unfoldable pub first_free : List String → List ℕ → Option ℕ
  first_free reserved [] = none
  first_free reserved (a ∷ rest) =
      let later = first_free reserved rest in if contains (A.show a) reserved then later else some a

  abbrev pub found : Option ℕ → Outcome String
  found none = raised (wireguard_error "no free addresses")
  found (some a) = ok (A.show a)

  abbrev pub allocate : List String → List ℕ → Outcome String
  allocate taken [] = raised value_error
  allocate taken (hub ∷ candidates) = found (first_free (A.show hub ∷ taken) candidates)

  -- `next(hosts)` takes the hub; the loop goes on with the rest.
  unfoldable pub next_free_address : Network → List String → Outcome String
  next_free_address n taken = allocate taken (hosts n)

-- KEY_RE: 42 characters of base64, one of thirteen, and `=`. `$` also matches before a last newline.
unfoldable pub drop_newline : String → String
drop_newline String.[] = ""
drop_newline (String.◌∷◌ c s) =
    if str_eq s "" && code c == 10 then "" else String.◌∷◌ c (drop_newline s)

unfoldable pub is_base64 : Char → Bool
is_base64 c =
    let n = code c in
    leb 65 n && leb n 90 || leb 97 n && leb n 122 || leb 48 n && leb n 57 || n == 43 || n == 47

abbrev pub char_in : String → Char → Bool
char_in String.[] c = false
char_in (String.◌∷◌ d s) c = code d == code c || char_in s c

-- `[…]{n}` followed by the last two characters.
unfoldable pub key_body : ℕ → String → Bool
key_body (suc n) (String.◌∷◌ c s) = is_base64 c && key_body n s
key_body zero (String.◌∷◌ c (String.◌∷◌ e String.[])) = char_in "AEIMQUYcgkosw" c && code e == 61
key_body n s = false

unfoldable pub valid_key : String → Bool
valid_key key = key_body 42 (drop_newline key)

pub record KeyPair : Type 0 where
  pub private_key : String
  pub public_key : String

module _ (H : Host) where
  unfoldable pub derive_public_key : String → Exec H.State String
  derive_public_key private_key =
      run_checked_input H ("wg" ∷ "pubkey" ∷ []) (some private_key) >>= λ r. pure (strip r.stdout)

  unfoldable pub generate_keypair : Exec H.State KeyPair
  generate_keypair = do
    r ← run_checked H ("wg" ∷ "genkey" ∷ [])
    public_key ← derive_public_key (strip r.stdout)
    pure (record { private_key = strip r.stdout; public_key = public_key })

  unfoldable pub generate_preshared_key : Exec H.State String
  generate_preshared_key = run_checked H ("wg" ∷ "genpsk" ∷ []) >>= λ r. pure (strip r.stdout)

  unfoldable pub interface_exists : String → Exec H.State Bool
  interface_exists interface =
      run H ("ip" ∷ "link" ∷ "show" ∷ interface ∷ []) >>= λ r. pure (succeeded r)

  abbrev unit_of : String → String
  unit_of interface = "wg-quick@" <> interface

  unfoldable pub bring_up : String → Exec H.State (Unit {0})
  bring_up interface = do
    up ← interface_exists interface
    if up
        then pure tt
        else (run_checked H ("systemctl" ∷ "start" ∷ unit_of interface ∷ []) >> pure tt)

  unfoldable pub bring_down : String → Exec H.State (Unit {0})
  bring_down interface = do
    up ← interface_exists interface
    if up
        then (do
          systemctl H ("stop" ∷ unit_of interface ∷ [])
          still ← interface_exists interface
          if still
              then (run_checked H ("wg-quick" ∷ "down" ∷ interface ∷ []) >> pure tt)
              else pure tt)
        else pure tt

  unfoldable pub enable_at_boot : String → Exec H.State (Unit {0})
  enable_at_boot interface = do
    enabled ← service_enabled H (unit_of interface)
    if enabled
        then pure tt
        else (run_checked H ("systemctl" ∷ "enable" ∷ unit_of interface ∷ []) >> pure tt)
