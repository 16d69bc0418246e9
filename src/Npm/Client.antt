-- ===== src/Npm/Client.antt =====
-- `NPMClient`: what the object holds, `_login`, `_request`, `_try_login`, `wait_until_ready`,
-- `wait_for_login`, `server_info` and `login_probe` of services/npm.py.
pub mod Requests
use edgekit.Base.{
  ℕ, zero, suc, String, Bool, true, false, ◌||◌, Option, none, some, [], ◌∷◌, ◌==◌, leb, ltb,
  if◌then◌else◌,
}
use edgekit.Base.{
  Failure, Outcome, ok, raised, Exec, pure, raise, lift, gets, attempt, ◌>>=◌, ◌>>◌, npm_error,
  npm_auth_error, http_error, timeout_error, value_error,
}
use edgekit.Base.Json.{Json, null, text, end, obj, object, truthy}
use edgekit.Base.Json
use edgekit.Npm.Api.{
  Request, Server, Reply, reply, broken, timed_out, Body, empty, parsed, content, Verb, tokens,
  root,
}

pub record Client : Type 0 where
  pub email : String
  pub password : String
  pub token : Option Json

-- `isinstance(exc, NPMError)`
unfoldable pub is_npm : Failure → Bool
is_npm (npm_error status) = true
is_npm npm_auth_error = true
is_npm _ = false

-- `isinstance(exc, httpx.HTTPError)`
unfoldable pub is_http : Failure → Bool
is_http http_error = true
is_http timeout_error = true
is_http _ = false

-- `try: m` with `except NPMError`.
unfoldable pub catch_npm : {S A : Type 0} → Exec S A → (Failure → Exec S A) → Exec S A
catch_npm m handler = attempt m (λ e. if is_npm e then handler e else raise e)

-- `try: m` with `except httpx.HTTPError`.
unfoldable pub catch_http : {S A : Type 0} → Exec S A → (Failure → Exec S A) → Exec S A
catch_http m handler = attempt m (λ e. if is_http e then handler e else raise e)

abbrev pub Response : Type 0
Response = ℕ × Body

module _ (S : Server) where
  -- The client and the server that it talks to.
  pub record Link : Type 0 where
    pub client : Client
    pub server : S.State

  abbrev pub received : Reply × S.State → Client → Outcome Response × Link
  received (reply status body, t) c = (ok (status, body), record { client = c; server = t })
  received (broken, t) c = (raised http_error, record { client = c; server = t })
  received (timed_out, t) c = (raised timeout_error, record { client = c; server = t })

  -- `self._client.request(…)` with a token in the header, if one is given.
  unfoldable pub deliver : Option Json → Request → Exec Link Response
  deliver token req s = received (S.send token req s.server) s.client

  unfoldable pub set_token : Option Json → Exec Link (Unit {0})
  set_token token s = (ok tt, record s { client = record s.client { token = token } })

  unfoldable pub sleep : Exec Link (Unit {0})
  sleep s = (ok tt, record s { server = S.pause s.server })

  -- The `json=` of a login.
  unfoldable pub login_request : Client → Request
  login_request c = record {
    verb = Verb.post;
    endpoint = tokens;
    payload = object (("identity", text c.email) ∷ ("secret", text c.password) ∷ []);
  }

  -- What `_login` does with the response.
  unfoldable pub login_response : Response → Exec Link (Unit {0})
  login_response (status, body) =
      if status == 400 || status == 401 || status == 403
      then raise npm_auth_error
      else if leb 400 status
      then raise (npm_error none)
      else (lift (parsed body) >>= λ j. lift (Json.get_of "token" j) >>= λ token.
          if truthy token then set_token (some token) else raise (npm_error none))

  unfoldable pub login : Exec Link (Unit {0})
  login = gets (λ s. s.client) >>= λ c. deliver none (login_request c) >>= login_response

  -- `if self._token is None: await self._login()`
  unfoldable pub login_without : Option Json → Exec Link (Unit {0})
  login_without none = login
  login_without (some token) = pure tt

  unfoldable pub ensure_token : Exec Link (Unit {0})
  ensure_token = gets (λ s. s.client.token) >>= login_without

  unfoldable pub deliver_with_token : Request → Exec Link Response
  deliver_with_token req = gets (λ s. s.client.token) >>= λ token. deliver token req

  -- The tests on the last response.
  unfoldable pub finish : Response → Exec Link Json
  finish (status, body) =
      if leb 400 status then raise (npm_error (some status)) else lift (content body)

  -- A 401 is answered by one login and one more delivery.
  unfoldable pub retry_once : Request → Response → Exec Link Response
  retry_once req (status, body) =
      if status == 401 then (login >> deliver_with_token req) else pure (status, body)

  unfoldable pub request : Request → Exec Link Json
  request req = do
    ensure_token
    first ← deliver_with_token req
    response ← retry_once req first
    finish response

  -- False for rejected credentials; other exceptions pass.
  unfoldable pub refused : Failure → Exec Link Bool
  refused npm_auth_error = pure false
  refused e = raise e

  unfoldable pub try_login : Exec Link Bool
  try_login = attempt (login >> pure true) refused

  -- `attempts` is the number of rounds that are left.
  unfoldable pub wait_for_login : ℕ → Exec Link Bool
  wait_for_login zero = pure false
  wait_for_login (suc zero) = catch_npm try_login (λ _. pure false)
  wait_for_login (suc (suc n)) = do
    accepted ← catch_npm try_login (λ _. pure false)
    if accepted then pure true else (sleep >> wait_for_login (suc n))

  abbrev pub root_request : Request
  root_request = record { verb = Verb.get; endpoint = root; payload = null }

  -- True when a round has seen an answer below 500.
  unfoldable pub listening : Exec Link Bool
  listening = catch_http (deliver none root_request >>= λ r. pure (ltb (r.0) 500)) (λ _. pure false)

  unfoldable pub wait_until_ready : ℕ → Exec Link (Unit {0})
  wait_until_ready zero = raise (npm_error none)
  wait_until_ready (suc n) = do
    up ← listening
    if up then pure tt else (sleep >> wait_until_ready n)

  -- `except (httpx.HTTPError, ValueError): return {}`
  abbrev no_info : Failure → Exec Link Json
  no_info value_error = pure (obj end)
  no_info http_error = pure (obj end)
  no_info timeout_error = pure (obj end)
  no_info e = raise e

  abbrev info_of : Body → Outcome Json
  info_of empty = ok (obj end)
  info_of b = parsed b

  unfoldable pub server_info : Exec Link Json
  server_info = attempt (deliver none root_request >>= λ r. lift (info_of r.1)) no_info

  -- The status of a login with these credentials, 0 for a failure below HTTP.
  unfoldable pub login_probe : String → String → Exec Link ℕ
  login_probe email password =
      catch_http
        (deliver none (login_request (record { email = email; password = password; token = none }))
          >>= λ r. pure r.0)
        (λ _. pure 0)
