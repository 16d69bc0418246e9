-- ===== src/Cloudflare/Client.antt =====
-- `CloudflareError`, `_request` and the reading calls of `CloudflareClient` in
-- services/cloudflare.py. The API is a parameter.
use edgekit.Npm.Api.{timed_out, broken, reply, json, Verb, Reply, Body}
use edgekit.Base.Json.{entries, truthy, null, text, object, num, Json}
use edgekit.Base.{
  ◌>>◌, timeout_error, ok, str_eq, raise, pure, member, lift, http_error, ◌>>=◌, true, raised, not,
  if◌then◌else◌, any, ◌∷◌, ◌&&◌, false, cloudflare_error, attempt, [], Outcome, String, List,
  Failure, Exec, Bool, ℕ,
}
use edgekit.Base.Json

pub data Resource : Type 0 where
  verify zones origin_certificates : Resource
  dns_records ssl always_use_https : String → Resource
  dns_record : String → Json → Resource

pub record Call : Type 0 where
  pub verb : Verb
  pub path : Resource
  -- `params=` and `json=`, null where the call has none
  pub params : Json
  pub payload : Json

pub record Api : Type 1 where
  pub State : Type 0
  -- whether the Origin CA key authenticates, in place of the token
  pub send : Bool → Call → State → Reply × State

-- `self.origin_ca_key`
pub record Account : Type 0 where
  pub origin_ca_key : String

-- The codes of `body.get("errors")`, of those errors that have one.
abbrev pub codes_of : List Json → List ℕ
codes_of [] = []
codes_of (e ∷ es) = elim (Json.get "code" e) [ num n ↦ n ∷ codes_of es | _ ↦ codes_of es ]

-- What `_request` does with the JSON of the response.
unfoldable pub result_of : Json → Outcome Json
result_of body =
    if truthy (Json.get "success" body)
    then ok (Json.get "result" body)
    else raised (cloudflare_error (codes_of (entries (Json.get "errors" body))))

abbrev result_in : Body → Outcome Json
result_in (json j) = result_of j
result_in _ = raised (cloudflare_error [])

-- `errors=None` and `except CloudflareError`.
unfoldable pub is_cloudflare : Failure → Bool
is_cloudflare (cloudflare_error codes) = true
is_cloudflare _ = false

unfoldable pub catch_cloudflare : {S A : Type 0} → Exec S A → (Failure → Exec S A) → Exec S A
catch_cloudflare m handler = attempt m (λ e. if is_cloudflare e then handler e else raise e)

-- `e.get("code") in self._BAD_TOKEN_CODES`
abbrev pub bad_token_codes : List ℕ
bad_token_codes = 1000 ∷ 6003 ∷ 9109 ∷ 9106 ∷ []

unfoldable pub says_bad_token : Failure → Bool
says_bad_token (cloudflare_error codes) = any (λ c. member c bad_token_codes) codes
says_bad_token _ = false

module _ (A : Api) (account : Account) where
  abbrev pub answered : Reply × A.State → Outcome Json × A.State
  answered (reply status body, t) = (result_in body, t)
  answered (broken, t) = (raised http_error, t)
  answered (timed_out, t) = (raised timeout_error, t)

  -- `_request`, with `use_origin_ca_key`
  unfoldable pub request_with : Bool → Call → Exec A.State Json
  request_with use_origin_ca_key call t =
      answered (A.send (use_origin_ca_key && not (str_eq account.origin_ca_key "")) call t)

  unfoldable pub request : Call → Exec A.State Json
  request = request_with false

  abbrev pub fetch : Resource → List (String × Json) → Call
  fetch path params = record {
    verb = Verb.get;
    path = path;
    params = object params;
    payload = null;
  }

  -- A token of the account fails the first call, and is tried on the second.
  unfoldable pub verify_token : Exec A.State Json
  verify_token = catch_cloudflare (request (fetch verify [])) (λ e.
      if says_bad_token e
      then (catch_cloudflare (request (fetch zones (("per_page", num 1) ∷ [])))
            (λ _. raise (cloudflare_error []))
          >> pure (object (("status", text "active") ∷ ("scope", text "account") ∷ [])))
      else raise e)

  unfoldable pub list_zones : Exec A.State (List Json)
  list_zones = request (fetch zones (("per_page", num 50) ∷ [])) >>= λ j. pure (entries j)

  -- `result[0]["id"]`
  abbrev first_id : List Json → Outcome Json
  first_id [] = raised (cloudflare_error [])
  first_id (z ∷ zs) = Json.item "id" z

  unfoldable pub get_zone_id : String → Exec A.State Json
  get_zone_id zone_name =
      request (fetch zones (("name", text zone_name) ∷ [])) >>= λ j. lift (first_id (entries j))
