-- ===== src/Npm/Api.antt =====
-- The server behind services/npm.py. Nginx Proxy Manager is not part of edgekit, so it is a
-- parameter: a state, and an answer to each request. Paths are the constructors of `Endpoint`; an
-- id stands in a path as the JSON value that is printed there.
use edgekit.Base.{ℕ, Bool, Option}
use edgekit.Base.{Outcome, ok, raised, value_error}
use edgekit.Base.Json.{Json, null}

pub data Verb : Type 0 where
  get post put patch delete : Verb

pub data Endpoint : Type 0 where
  root tokens users me me_auth certificates proxy_hosts : Endpoint
  user_auth certificate certificate_upload proxy_host : Json → Endpoint
  proxy_host_switch : Json → Bool → Endpoint

pub record Request : Type 0 where
  pub verb : Verb
  pub endpoint : Endpoint
  -- `json=` or `files=`; null where the call sends neither
  pub payload : Json

-- What a response carries: nothing, JSON, or text that is no JSON.
pub data Body : Type 0 where
  empty garbage : Body
  json : Json → Body

-- A response with its status, or an `httpx` exception, which is a time-out or another.
pub data Reply : Type 0 where
  reply : ℕ → Body → Reply
  broken timed_out : Reply

pub record Server : Type 1 where
  pub State : Type 0
  -- the token of the Authorization header, the request, the state
  pub send : Option Json → Request → State → Reply × State
  -- what becomes of the server while the client sleeps
  pub pause : State → State

-- `response.json()`
abbrev pub parsed : Body → Outcome Json
parsed (json j) = ok j
parsed _ = raised value_error

-- `None` for a response without content, or `response.json()`.
abbrev pub content : Body → Outcome Json
content empty = ok null
content (json j) = ok j
content garbage = raised value_error
