-- ===== src/Firewall/Ufw.antt =====
-- Reading `ufw status`, and the list of ports: `cloud_firewall_ports`, `check_host_firewall`,
-- `_allowed_specs` and `_panel_rule_sources` of system/firewall.py. Digits, letters and spaces are those of ASCII.
use edgekit.Base.{
  ◌-◌, pure, is_space, ◌||◌, ◌>>=◌, split_by, map, drop_chars, digits_value, ◌==◌, strip, str_eq,
  starts_with, none, leb, is_digit, all, [], ◌∷◌, ◌<>◌, ◌&&◌, true, splitlines, some, not, last,
  keep, includes, if◌then◌else◌, false, code, any, Exec, String, Option, List, Bool, ℕ,
}
use Prim.Native.String.{char_at}
use edgekit.System.Shell.{run, has, Host}
use edgekit.Peers.Names.{is_alnum}
use edgekit.Base.Decimal.{decimal}
use edgekit.Firewall.Bridges.{Config}

pub data Protocol : Type 0 where
  tcp udp : Protocol

pub data Action : Type 0 where
  opened closed : Action

pub record PortAdvice : Type 0 where
  pub protocol : Protocol
  pub port : ℕ
  pub action : Action

abbrev advice : Protocol → ℕ → Action → PortAdvice
advice protocol port action = record { protocol = protocol; port = port; action = action }

unfoldable pub cloud_firewall_ports : Config → List PortAdvice
cloud_firewall_ports c =
    advice tcp 22 opened
    ∷ advice udp c.listen_port opened
    ∷ advice tcp c.http_port opened
    ∷ advice tcp c.https_port opened
    ∷ advice tcp c.admin_port closed
    ∷ advice tcp c.panel_port closed
    ∷ []

abbrev pub protocol_text : Protocol → String
protocol_text tcp = "tcp"
protocol_text udp = "udp"

-- `f"{port}/{protocol}"`
unfoldable pub spec_text : ℕ → Protocol → String
spec_text port protocol = decimal port <> ("/" <> protocol_text protocol)

-- `s.upper()` of ASCII.
unfoldable pub upper : String → String
upper String.[] = ""
upper (String.◌∷◌ c s) =
    let n = code c in
    let rest = upper s in
    if leb 97 n && leb n 122
    then String.◌∷◌ (char_at "ABCDEFGHIJKLMNOPQRSTUVWXYZ" (n - 97)) rest
    else String.◌∷◌ c rest

-- `s.split()`, by runs of spaces.
unfoldable pub words : String → List String
words s = keep (λ w. not (str_eq w "")) (split_by is_space s)

-- The leading digits, and what follows them.
unfoldable pub span_digits : String → String × String
span_digits String.[] = ("", "")
span_digits (String.◌∷◌ c s) =
    let (ds, rest) = span_digits s in
    if is_digit c then (String.◌∷◌ c ds, rest) else ("", String.◌∷◌ c s)

-- `\b` after a letter.
abbrev pub at_boundary : String → Bool
at_boundary String.[] = true
at_boundary (String.◌∷◌ c s) = not (is_alnum c || code c == 95)

-- What follows `/` in `_UFW_RULE`.
unfoldable pub protocol_of : String → Option Protocol
protocol_of s =
    if starts_with (upper s) "/TCP" && at_boundary (drop_chars 4 s)
    then some tcp
    else if starts_with (upper s) "/UDP" && at_boundary (drop_chars 4 s)
    then some udp
    else none

abbrev pub numbered : String → Option Protocol → Option (Protocol × ℕ)
numbered digits none = none
numbered digits (some p) = if str_eq digits "" then none else some (p, digits_value 0 digits)

-- `_UFW_RULE.match(line)`
unfoldable pub ufw_rule : String → Option (Protocol × ℕ)
ufw_rule line = let (digits, rest) = span_digits line in numbered digits (protocol_of rest)

abbrev pub or_specs : Option (Protocol × ℕ) → List (Protocol × ℕ) → List (Protocol × ℕ)
or_specs none specs = specs
or_specs (some s) specs = s ∷ specs

-- A line adds its port if it allows it from anywhere.
unfoldable pub specs_of : List String → List (Protocol × ℕ)
specs_of [] = []
specs_of (line ∷ lines) =
    let rest = specs_of lines in
    if includes "ALLOW" (upper line) && includes "ANYWHERE" (upper line)
    then or_specs (ufw_rule (strip line)) rest
    else rest

-- `_allowed_specs`
unfoldable pub allowed_specs : String → List (Protocol × ℕ)
allowed_specs status = specs_of (splitlines status)

abbrev pub same_protocol : Protocol → Protocol → Bool
same_protocol tcp tcp = true
same_protocol udp udp = true
same_protocol _ _ = false

unfoldable pub is_allowed : Protocol → ℕ → List (Protocol × ℕ) → Bool
is_allowed protocol port = any (λ s. same_protocol s.0 protocol && s.1 == port)

abbrev last_word : List String → String
last_word ws = elim (last ws) [ none ↦ "" | some w ↦ w ]

unfoldable pub sources_of : String → List String → List String
sources_of target [] = []
sources_of target (line ∷ lines) =
    let rest = sources_of target lines in
    let source = last_word (words (strip line)) in
    if starts_with (strip line) target
      && includes "ALLOW" (upper (strip line))
      && includes "/" source
    then source ∷ rest
    else rest

-- `_panel_rule_sources`
unfoldable pub panel_rule_sources : String → String → ℕ → List String
panel_rule_sources status bind port =
    sources_of (bind <> (" " <> (decimal port <> "/tcp"))) (splitlines status)

pub record PortCheck : Type 0 where
  pub protocol : Protocol
  pub port : ℕ
  pub action : Action
  pub allowed : Option Bool
  pub fine : Bool

pub record HostFirewallReport : Type 0 where
  pub installed : Bool
  pub active : Bool
  pub status_text : String
  pub ports : List PortCheck

-- `HostFirewallReport.ok`
unfoldable pub report_ok : HostFirewallReport → Bool
report_ok r = r.installed && r.active && all (λ p. p.fine) r.ports

abbrev pub allowed_or_false : Option Bool → Bool
allowed_or_false none = false
allowed_or_false (some b) = b

abbrev pub fine_for : Action → Option Bool → Bool
fine_for opened allowed = allowed_or_false allowed
fine_for closed allowed = not (allowed_or_false allowed)

unfoldable pub check_port : Bool → List (Protocol × ℕ) → PortAdvice → PortCheck
check_port active specs row =
    let allowed : Option Bool =
      if active then some (is_allowed row.protocol row.port specs) else none in
    record {
      protocol = row.protocol;
      port = row.port;
      action = row.action;
      allowed = allowed;
      fine = fine_for row.action allowed;
    }

unfoldable pub report_of_status : Config → String → HostFirewallReport
report_of_status config status =
    let active = includes "Status: active" status in
    let specs = if active then allowed_specs status else [] in
    record {
      installed = true;
      active = active;
      status_text = status;
      ports = map (check_port active specs) (cloud_firewall_ports config);
    }

module _ (H : Host) where
  unfoldable pub check_host_firewall : Config → Exec H.State HostFirewallReport
  check_host_firewall config = has H "ufw" >>= λ installed.
      if installed
      then (run H ("ufw" ∷ "status" ∷ []) >>= λ r.
          pure (report_of_status config (if str_eq r.stdout "" then r.stderr else r.stdout)))
      else pure (record { installed = false; active = false; status_text = ""; ports = [] })
