-- ===== src/Npm/Certificates.antt =====
-- The certificate methods of `NPMClient` in services/npm.py.
pub mod Reads
pub mod Fresh
pub mod Moves
pub mod NoDangling
use edgekit.Base.{
  ℕ, String, Bool, true, false, Option, none, some, List, [], ◌∷◌, ◌==◌, str_eq, keep,
  if◌then◌else◌,
}
use edgekit.Base.{Outcome, ok, raised, Exec, pure, raise, lift, ◌>>=◌, ◌>>◌, for_each, npm_error}
use edgekit.Base.Json
use edgekit.Base.Json.{
  Json, null, num, text, flag, arr, object, entries, texts, text_items, int_of, truthy,
}
use edgekit.Npm.Api.{
  Server, Request, Verb, certificates, certificate, certificate_upload, proxy_host,
}
use edgekit.Npm.Client.{Link, request, catch_npm}
use edgekit.Npm.Hosts.{list_proxy_hosts}

-- `int(host.get("certificate_id") or 0)`
unfoldable pub certificate_of : Json → Outcome ℕ
certificate_of host =
    let id = Json.get "certificate_id" host in if truthy id then int_of id else ok 0

-- `c.get("nice_name") == nice_name`
unfoldable pub has_nice_name : String → Json → Bool
has_nice_name nice_name c = elim (Json.get "nice_name" c) [
  | text s ↦ str_eq s nice_name
  | _ ↦ false
]

-- `[host for host in hosts if int(host.get("certificate_id") or 0) == cert_id]`
abbrev pub chosen : Outcome ℕ → ℕ → Json → Outcome (List Json) → Outcome (List Json)
chosen (raised e) cert_id host rest = raised e
chosen (ok n) cert_id host (raised e) = raised e
chosen (ok n) cert_id host (ok hosts) = ok (if n == cert_id then host ∷ hosts else hosts)

unfoldable pub using : ℕ → List Json → Outcome (List Json)
using cert_id [] = ok []
using cert_id (host ∷ hosts) = chosen (certificate_of host) cert_id host (using cert_id hosts)

-- `any(int(c.get("id", 0)) == int(cert_id) for c in certificates)`
unfoldable pub id_or_zero : Json → Outcome ℕ
id_or_zero c = if Json.has_key "id" c then int_of (Json.get "id" c) else ok 0

abbrev any_with : Outcome ℕ → ℕ → Outcome Bool → Outcome Bool
any_with (raised e) n rest = raised e
any_with (ok m) n rest = if m == n then ok true else rest

unfoldable pub any_has_id : ℕ → List Json → Outcome Bool
any_has_id n [] = ok false
any_has_id n (c ∷ cs) = any_with (id_or_zero c) n (any_has_id n cs)

-- `int(old["id"])`
abbrev pub int_or_raise : Outcome Json → Outcome ℕ
int_or_raise (raised e) = raised e
int_or_raise (ok v) = int_of v

unfoldable pub own_id : Json → Outcome ℕ
own_id j = int_or_raise (Json.item "id" j)

-- `old_id == cert_id`, a number and what the server answered.
unfoldable pub is_number : ℕ → Json → Bool
is_number n (num m) = n == m
is_number n _ = false

module _ (S : Server) where
  abbrev pub list_request : Request
  list_request = record { verb = Verb.get; endpoint = certificates; payload = null }

  unfoldable pub list_certificates : Exec (Link S) (List Json)
  list_certificates = request S list_request >>= λ j. pure (entries j)

  unfoldable pub find_certificates : String → Exec (Link S) (List Json)
  find_certificates nice_name =
      list_certificates >>= λ certs. pure (keep (has_nice_name nice_name) certs)

  abbrev first_of_list : List Json → Option Json
  first_of_list [] = none
  first_of_list (c ∷ cs) = some c

  unfoldable pub find_certificate : String → Exec (Link S) (Option Json)
  find_certificate nice_name = find_certificates nice_name >>= λ certs. pure (first_of_list certs)

  unfoldable pub certificate_exists : ℕ → Exec (Link S) Bool
  certificate_exists cert_id = list_certificates >>= λ certs. lift (any_has_id cert_id certs)

  unfoldable pub hosts_using : ℕ → Exec (Link S) (List Json)
  hosts_using cert_id = list_proxy_hosts S >>= λ hosts. lift (using cert_id hosts)

  abbrev pub move_request : Json → Json → Request
  move_request id new_id = record {
    verb = Verb.put;
    endpoint = proxy_host id;
    payload = object (("certificate_id", new_id) ∷ []);
  }

  -- One host of the loop: true if it could not be moved.
  unfoldable pub move_host : Json → Json → Exec (Link S) Bool
  move_host new_id host =
      catch_npm
        (lift (Json.item "id" host) >>= λ id. request S (move_request id new_id) >> pure false)
        (λ _. pure true)

  -- The loop, which goes on after a host that could not be moved.
  unfoldable pub move_hosts : Json → List Json → Exec (Link S) (List Json)
  move_hosts new_id [] = pure []
  move_hosts new_id (host ∷ hosts) = do
    failed ← move_host new_id host
    failures ← move_hosts new_id hosts
    pure (if failed then host ∷ failures else failures)

  abbrev pub report_failures : List Json → Exec (Link S) (Unit {0})
  report_failures [] = pure tt
  report_failures (f ∷ fs) = raise (npm_error none)

  unfoldable pub repoint_hosts : ℕ → Json → Exec (Link S) (Unit {0})
  repoint_hosts old_id new_id = do
    hosts ← hosts_using old_id
    failures ← move_hosts new_id hosts
    report_failures failures

  abbrev pub delete_request : Json → Request
  delete_request cert_id = record {
    verb = Verb.delete;
    endpoint = certificate cert_id;
    payload = null;
  }

  unfoldable pub delete_certificate : Json → Exec (Link S) (Unit {0})
  delete_certificate cert_id = request S (delete_request cert_id) >> pure tt

  abbrev pub create_request : String → Request
  create_request nice_name = record {
    verb = Verb.post;
    endpoint = certificates;
    payload = object (("provider", text "other") ∷ ("nice_name", text nice_name) ∷ []);
  }

  abbrev pub upload_request : Json → String → String → Request
  upload_request cert_id certificate_pem key_pem = record {
    verb = Verb.post;
    endpoint = certificate_upload cert_id;
    payload =
        object (("certificate", text certificate_pem) ∷ ("certificate_key", text key_pem) ∷ []);
  }

  -- `try: … upload` with `except NPMError: await self.delete_certificate(cert_id); raise`
  unfoldable pub upload_or_delete : Json → String → String → Exec (Link S) (Unit {0})
  upload_or_delete cert_id certificate_pem key_pem =
      catch_npm (request S (upload_request cert_id certificate_pem key_pem) >> pure tt)
        (λ e. delete_certificate cert_id >> raise e)

  -- The first loop over the superseded records.
  unfoldable pub repoint_old : Json → Json → Exec (Link S) (Unit {0})
  repoint_old cert_id old = lift (own_id old) >>= λ old_id.
      if is_number old_id cert_id then pure tt else repoint_hosts old_id cert_id

  -- Deletes a record that no host uses.
  unfoldable pub delete_unless_used : ℕ → List Json → Exec (Link S) (Unit {0})
  delete_unless_used old_id [] = delete_certificate (num old_id)
  delete_unless_used old_id (host ∷ hosts) = pure tt

  -- The second loop over the superseded records.
  unfoldable pub sweep_old : Json → Json → Exec (Link S) (Unit {0})
  sweep_old cert_id old = lift (own_id old) >>= λ old_id.
      if is_number old_id cert_id
      then pure tt
      else (hosts_using old_id >>= delete_unless_used old_id)

  unfoldable pub upload_custom_certificate : String → String → String → Exec (Link S) Json
  upload_custom_certificate nice_name certificate_pem key_pem = do
    superseded ← find_certificates nice_name
    created ← request S (create_request nice_name)
    cert_id ← lift (Json.item "id" created)
    upload_or_delete cert_id certificate_pem key_pem
    for_each superseded (repoint_old cert_id)
    for_each superseded (sweep_old cert_id)
    pure cert_id
