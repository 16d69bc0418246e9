-- ===== src/Peers/Names.antt =====
-- `validate_name` and `validate_extra_allowed_ips` of services/peers.py.
use edgekit.Base.{
  all_chars, none, some, ◌==◌, ◌&&◌, split_by, peer_error, [], ◌||◌, ◌<>◌, str_eq, raised, leb,
  Option, ◌∷◌, ok, if◌then◌else◌, false, code, strip, List, Bool, String, Outcome, Char,
}
use Prim.Native.String.{count}
use edgekit.System.Wireguard.{drop_newline, Addresses}

unfoldable pub is_alnum : Char → Bool
is_alnum c = let n = code c in leb 97 n && leb n 122 || leb 65 n && leb n 90 || leb 48 n && leb n 57

-- `[a-zA-Z0-9 ._-]`
unfoldable pub is_name_char : Char → Bool
is_name_char c = let n = code c in is_alnum c || n == 32 || n == 46 || n == 95 || n == 45

abbrev pub first_char : (Char → Bool) → String → Bool
first_char p String.[] = false
first_char p (String.◌∷◌ c s) = p c

abbrev pub last_char : (Char → Bool) → String → Bool
last_char p String.[] = false
last_char p (String.◌∷◌ c String.[]) = p c
last_char p (String.◌∷◌ c (String.◌∷◌ d s)) = last_char p (String.◌∷◌ d s)

-- NAME_RE, matched up to `$`, which also stands before a last newline.
unfoldable pub name_matches : String → Bool
name_matches name =
    let s = drop_newline name in
    leb (count s) 64 && first_char is_alnum s && last_char is_alnum s && all_chars is_name_char s

unfoldable pub validate_name : String → Outcome String
validate_name name =
    let s = strip name in if name_matches s then ok s else raised (peer_error "name")

-- Each entry that is not blank, as `ipaddress` prints it.
unfoldable pub normalised : Addresses → List String → Outcome (List String)
normalised A [] = ok []
normalised A (chunk ∷ chunks) =
    let rest = normalised A chunks in
    if str_eq (strip chunk) "" then rest else network_entry (A.network_text (strip chunk)) rest
  where
    network_entry : Option String → Outcome (List String) → Outcome (List String)
    network_entry none rest = raised (peer_error "cidr")
    network_entry (some t) (ok ts) = ok (t ∷ ts)
    network_entry (some t) (raised e) = raised e

-- `", ".join(parts)`
unfoldable pub join : String → List String → String
join sep [] = ""
join sep (part ∷ []) = part
join sep (part ∷ next ∷ parts) = part <> (sep <> join sep (next ∷ parts))

abbrev pub joined : Outcome (List String) → Outcome String
joined (ok parts) = ok (join ", " parts)
joined (raised e) = raised e

unfoldable pub validate_extra_allowed_ips : Addresses → String → Outcome String
validate_extra_allowed_ips A value =
    let v = strip value in
    if str_eq v "" then ok "" else joined (normalised A (split_by (λ c. code c == 44) v))
