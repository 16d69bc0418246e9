-- ===== src/Hosts/Names.antt =====
-- `validate_domain` and `validate_port` of services/hosts.py. A port is a number already.
use edgekit.Peers.Names.{last_char, first_char, is_alnum}
use edgekit.Base.{
  host_error, strip, split_by, raised, not, ok, lower_by, all_chars, all, ◌||◌, ◌==◌, ◌&&◌, ltb,
  leb, code, rstrip_by, if◌then◌else◌, Bool, String, Outcome, Char, ℕ,
}
use Prim.Native.String.{count}
use edgekit.System.Wireguard.{drop_newline}

unfoldable pub is_label_char : Char → Bool
is_label_char c = is_alnum c || code c == 45

abbrev pub is_dash : Char → Bool
is_dash c = code c == 45

-- `(?!-)[A-Za-z0-9-]{1,63}(?<!-)`
unfoldable pub is_label : String → Bool
is_label s =
    leb 1 (count s)
    && leb (count s) 63
    && all_chars is_label_char s
    && not (first_char is_dash s)
    && not (last_char is_dash s)

-- DOMAIN_RE, matched up to `$`, which also stands before a last newline.
unfoldable pub domain_matches : String → Bool
domain_matches domain =
    let s = drop_newline domain in
    leb 1 (count s) && leb (count s) 253 && all is_label (split_by (λ c. code c == 46) s)

-- `other` lowers the characters beyond ASCII.
unfoldable pub validate_domain : (Char → String) → String → Outcome String
validate_domain other domain =
    let s = rstrip_by (λ c. code c == 46) (lower_by other (strip domain)) in
    if domain_matches s then ok s else raised (host_error "domain")

unfoldable pub validate_port : ℕ → Outcome ℕ
validate_port port = if ltb 0 port && ltb port 65_536 then ok port else raised (host_error "port")
