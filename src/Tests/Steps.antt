-- ===== src/Tests/Steps.antt =====
-- The steps that keep something, at concrete inputs.
use edgekit.Base.Digits.{Unicode, isdigit}
use edgekit.Base.{
  is_numeric, digits_value, some, raised, none, if◌then◌else◌, ℕ, value_error, str_eq, split_by,
  ◌≡◌, true, false, After,
}
use edgekit.Provision.Found.{detect_public_ip-Address, Address}
use edgekit.Provision.Address.{Http, detect_public_ip, looks_like_ipv4, all_bytes, is_byte, int}
use mathlib.Core.Path.{refl}
use edgekit.Tests.Certs.{env, world, draw, pems, world-NoDangling}
use edgekit.Tests.FakeNpm.{fake-IsNpm, fake_view}
use edgekit.Tests.FakeHost.{quiet}
use edgekit.System.Wireguard.{KeyPair}
use edgekit.Provision.Steps.{step_hub_keys, step_certificate, Tls}
use edgekit.Provision.Stepped.{Preserved, step_hub_keys-Preserved}
use edgekit.Provision.Certified.{step_certificate-Certified, Certified}
use edgekit.Npm.Certificates.Reads.{NoDangling}

abbrev half : KeyPair
half = record { private_key = "private"; public_key = "" }

step_hub_keys-Preserved_example :
    After
      (λ r s. Preserved half s.keys)
      (λ e s. s.keys ≡ half)
      (step_hub_keys quiet (record { host = 0; keys = half }))
step_hub_keys-Preserved_example =
    (step_hub_keys-Preserved quiet half).at (record { host = 0; keys = half }) refl

abbrev stored : Tls
stored = record { present = true; certificate = "certificate"; certificate_key = "key"; name = "" }

step_certificate-Certified_example :
    After
      (λ r w.
        NoDangling fake_view w.link.server
        × Certified {E = env} fake-IsNpm pems draw false true false true stored w r)
      (λ e w. NoDangling fake_view w.link.server)
      (step_certificate env pems draw false true false true stored world)
step_certificate-Certified_example =
    (step_certificate-Certified {E = env} fake-IsNpm pems draw false true false true stored).at
      world world-NoDangling

-- A server of addresses that answers with one, and with what is none where a header is wanted.
abbrev answering : Http
answering = record {
  State = ℕ;
  get = λ url headers n. (if headers then some (200, "<html>") else some (200, "203.0.113.7\n"), n);
}

-- A superscript two is a digit, and no number.
abbrev superscript : Unicode
superscript = record { other_isdigit = λ p. str_eq p "²"; other_int = λ p. none }

detect_public_ip-Address_example :
    After
      (λ r s. Address superscript r)
      (λ e s. e ≡ value_error)
      (detect_public_ip superscript answering 0)
detect_public_ip-Address_example = (detect_public_ip-Address superscript answering).at 0 tt

-- Such an answer raises a ValueError that nothing catches.
uncaught : looks_like_ipv4 superscript "203.0.113.²" ≡ raised value_error
unfolding looks_like_ipv4 all_bytes is_byte int isdigit split_by is_numeric digits_value
uncaught = refl
